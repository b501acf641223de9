-- ===== src/Ext/Filter.antt =====
-- comon/comonitor.h: `cofilter` and `is_clsid_allowed`; comon/ext.cpp: `parse_filter`, which reads
-- the filter of `!comon attach` off its arguments, last argument first.
pub mod Meaning
use mathlib.Core.List.{reverse}
use comon.Base.{
  Bool, true, false, not, List, [], ◌∷◌, ◌==◌, nat_eq, list_eq, Text, codes, member, add_member,
}
use comon.Base.Result.{Result, ok, err}
use comon.Guid.{Guid}

pub data Cofilter : Type 0 where
  no_filter : Cofilter
  including_filter : List Guid → Cofilter
  excluding_filter : List Guid → Cofilter

unfoldable pub is_clsid_allowed : Cofilter → Guid → Bool
unfolding member
is_clsid_allowed (including_filter clsids) clsid = member clsid clsids
is_clsid_allowed (excluding_filter clsids) clsid = not (member clsid clsids)
is_clsid_allowed no_filter clsid = true

-- what an argument contributes: nothing, if it is no identifier
unfoldable pub add_parsed : Result Guid → List Guid → List Guid
unfolding add_member
add_parsed (ok clsid) clsids = add_member clsid clsids
add_parsed (err hr) clsids = clsids

module _ (parse : Text → Result Guid) where
  -- the loop from the last argument to the first
  unfoldable pub filter_loop : List Guid → List Text → Cofilter
  unfolding add_parsed
  filter_loop [] [] = no_filter
  filter_loop (g ∷ clsids) [] = including_filter (g ∷ clsids)
  filter_loop clsids (arg ∷ args) =
      let rest = filter_loop (add_parsed (parse arg) clsids) args in
      elim (arg == codes "-i") [
        | true ↦ including_filter clsids
        | false ↦ elim (arg == codes "-e") [ true ↦ excluding_filter clsids | false ↦ rest ]
      ]

  -- `parse` is `try_parse_guid` of the widened argument
  unfoldable pub parse_filter : List Text → Cofilter
  unfolding filter_loop
  parse_filter args = filter_loop [] (reverse args)
