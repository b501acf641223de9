-- ===== src/Session/Status.antt =====
-- comon/ext.cpp: what `!comon attach` and `!comon status` print. `guid_text` is the format `{:b}` of an
-- identifier.
pub mod Shown
use comon.Base.{
  ℕ, Bool, true, false, Option, none, some, List, [], ◌∷◌, ◌++◌, Text, codes, hex_text,
}
use comon.Guid.{Guid}
use comon.Engine.{Engine}
use comon.Ext.Filter.{Cofilter, no_filter, including_filter, excluding_filter}
use comon.Monitor.Types.{Monitor}
use comon.Monitor.Vtables.{list_cotypes}

abbrev pub name_or_na : Option Text → Text
name_or_na none = codes "N/A"
name_or_na (some name) = name

module _ (guid_text : Guid → Text) where
  unfoldable pub print_clsids : List Guid → Text
  print_clsids [] = []
  print_clsids (clsid ∷ clsids) = codes "- " ++ guid_text clsid ++ codes "\n" ++ print_clsids clsids

  unfoldable pub print_filter : Cofilter → Text
  print_filter (including_filter clsids) = codes "\nCLSIDs to monitor:\n" ++ print_clsids clsids
  print_filter (excluding_filter clsids) =
      codes "\nCLSIDs to EXCLUDE while monitoring:\n" ++ print_clsids clsids
  print_filter no_filter = []

  unfoldable pub attach_text : Cofilter → Text
  attach_text fltr =
      codes "<b>COM monitor enabled for the current process.</b>\n" ++ print_filter fltr

  -- the line of a table, and that of a class
  unfoldable pub vtable_line : Guid → Option Text → ℕ → Text
  vtable_line iid iid_name addr =
      codes "  IID: <b>"
      ++ guid_text iid
      ++ codes " ("
      ++ name_or_na iid_name
      ++ codes ")</b>, address: "
      ++ hex_text addr
      ++ codes "\n"

  unfoldable pub class_line : Guid → Option Text → Text
  class_line clsid clsid_name =
      codes "\n<col fg=\"srcannot\">CLSID: <b>"
      ++ guid_text clsid
      ++ codes " ("
      ++ name_or_na clsid_name
      ++ codes ")</b></col>\n"

-- `monitor->is_paused() ? L"PAUSED" : L"RUNNING"`
abbrev pub status_head : Monitor → Text
status_head m =
    codes "COM monitor is "
    ++ elim m.is_paused [ true ↦ codes "PAUSED" | false ↦ codes "RUNNING" ]
    ++ codes "\n"
    ++ codes "\nCOM types recorded for the current process:\n"

module _ (E : Engine) (guid_text : Guid → Text) where
  open E use {World, resolve_class_name, resolve_type_name}

  unfoldable pub vtable_lines : List (ℕ × Guid) → World → World × Text
  vtable_lines [] w = (w, [])
  vtable_lines ((addr, iid) ∷ vtables) w =
      let (w', iid_name) = resolve_type_name iid w in
      let (w'', rest) = vtable_lines vtables w' in
      (w'', vtable_line guid_text iid iid_name addr ++ rest)

  unfoldable pub class_lines : List (Guid × List (ℕ × Guid)) → World → World × Text
  class_lines [] w = (w, [])
  class_lines ((clsid, vtables) ∷ cotypes) w =
      let (w', clsid_name) = resolve_class_name clsid w in
      let (w'', lines) = vtable_lines vtables w' in
      let (w''', rest) = class_lines cotypes w'' in
      (w''', class_line guid_text clsid clsid_name ++ lines ++ rest)

  unfoldable pub status_text : Monitor → World → World × Text
  status_text m w = let (w', lines) = class_lines (list_cotypes m) w in (w', status_head m ++ lines)
