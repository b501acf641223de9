-- ===== src/Ext/Metadata/Unchanged.antt =====
-- comon/ext.cpp, `!cometa`: what its subcommands leave of the metadata.
use comon.Base.{ℕ, suc, Bool, List, [], ◌∷◌, Option, none, some, ◌==◌, nat_eq, list_eq, Text, codes}
use comon.Base.Result.{Result, ok, err}
use comon.Guid.{Guid, try_parse_guid}
use comon.Engine.{Comethod}
use comon.Cometa.Types.{Cotype}
use comon.Cometa.Registry.{Registry}
use comon.Cometa.TypeLib.{TypeInfos}
use comon.Cometa.Database.{Database}
use comon.Cometa.Indexing.Rows.{either}
use comon.Cometa.Queries.{Cometa, Query}
use comon.Cometa.Setup.{Files}
use comon.Ext.Metadata.{
  ◌>>=◌, pure, fail, reading, show_methods, show_type, show_iid_tables, cometa_showi,
  show_clsid_tables, cometa_showc, show_clsids, show_module, cometa_showm, sort_greater,
}
use comon.Ext.Metadata.Subcommands.{
  shown, invalid, with_guid, cometa_save, show_named_module, cometa_query,
}
use comon.Ext.Metadata.Kept.{
  Leaves, Reads, unchanged, on_found, later, resolve_type-Reads, resolve_class-Reads,
  resolve_type_name-Reads, resolve_class_name-Reads, get_type_methods-Reads,
  get_type_method_args-Reads,
}

module _ (D : Database) (pick : List Guid → Guid) (guid_text : Guid → Text) (fuel : ℕ) where
  bind-Reads :
      {A B : Type 0} (m : Query D pick A) (f : A → Query D pick B)
      → Reads D pick m
      → ((a : A) → Reads D pick (f a))
      → Reads D pick (◌>>=◌ D pick guid_text fuel m f)
  unfolding ◌>>=◌
  bind-Reads m f h k c =
      on_found D pick c (m c) _ (h c) (λ c' a s. later D pick c' c (f a c') s (k a c'))

  pure-Reads : {A : Type 0} (a : A) → Reads D pick (pure D pick guid_text fuel a)
  unfolding pure
  pure-Reads a c = unchanged D pick c

  reading-Reads : {A : Type 0} (f : D.Db → A) → Reads D pick (reading D pick guid_text fuel f)
  unfolding reading
  reading-Reads f c = unchanged D pick c

  -- a pure answer, or none
  optional :
      {A B : Type 0} (o : Option A) (x : Query D pick B) (y : A → Query D pick B)
      → Reads D pick x
      → ((a : A) → Reads D pick (y a))
      → Reads D pick (elim o [ none ↦ x | some a ↦ y a ])
  optional none x y h k = h
  optional (some a) x y h k = k a

  fail-Reads : (A : Type 0) → Reads D pick (fail D pick guid_text fuel {A = A})
  unfolding fail
  fail-Reads A c = tt

  show_methods-Reads :
      (i : ℕ) (ms : List Comethod) → Reads D pick (show_methods D pick guid_text fuel i ms)
  unfolding show_methods
  show_methods-Reads i [] = pure-Reads _
  show_methods-Reads i (m ∷ ms) = bind-Reads _ _ (get_type_method_args-Reads D pick m) (λ args.
      bind-Reads _ _ (show_methods-Reads (suc i) ms)
        (λ rest. optional args _ _ (fail-Reads Text) (λ a. pure-Reads _)))

  show_type-Reads :
      (iid : Guid) (t : Option Cotype) → Reads D pick (show_type D pick guid_text fuel iid t)
  unfolding show_type
  show_type-Reads iid none = pure-Reads _
  show_type-Reads iid (some t) = bind-Reads _ _ (get_type_methods-Reads D pick fuel iid) (λ methods.
      bind-Reads _ _
        (optional methods _ _ (pure-Reads _)
          (λ ms. bind-Reads _ _ (show_methods-Reads 0 ms) (λ lines. pure-Reads _)))
        (λ text. pure-Reads _))

  show_iid_tables-Reads :
      (ts : List (Text × (Guid × ℕ))) → Reads D pick (show_iid_tables D pick guid_text fuel ts)
  unfolding show_iid_tables
  show_iid_tables-Reads [] = pure-Reads _
  show_iid_tables-Reads (t ∷ ts) =
      bind-Reads _ _ (resolve_class_name-Reads D pick t.1.0)
        (λ name. bind-Reads _ _ (show_iid_tables-Reads ts) (λ rest. pure-Reads _))

  show_clsid_tables-Reads :
      (ts : List (Text × (Guid × ℕ))) → Reads D pick (show_clsid_tables D pick guid_text fuel ts)
  unfolding show_clsid_tables
  show_clsid_tables-Reads [] = pure-Reads _
  show_clsid_tables-Reads (t ∷ ts) =
      bind-Reads _ _ (resolve_type_name-Reads D pick t.1.0)
        (λ name. bind-Reads _ _ (show_clsid_tables-Reads ts) (λ rest. pure-Reads _))

  show_clsids-Reads :
      (n : ℕ) (rs : List (ℕ × Guid)) → Reads D pick (show_clsids D pick guid_text fuel n rs)
  unfolding show_clsids
  show_clsids-Reads n [] = pure-Reads _
  show_clsids-Reads n (r ∷ rs) =
      bind-Reads _ _ (resolve_class_name-Reads D pick r.1)
        (λ name. bind-Reads _ _ (show_clsids-Reads r.0 rs) (λ rest. pure-Reads _))

  showi-Reads : (iid : Guid) → Reads D pick (cometa_showi D pick guid_text fuel iid)
  unfolding cometa_showi
  showi-Reads iid = bind-Reads _ _ (resolve_type-Reads D pick iid) (λ t.
      bind-Reads _ _ (show_type-Reads iid t) (λ text.
        bind-Reads _ _ (reading-Reads _)
          (λ tables. bind-Reads _ _ (show_iid_tables-Reads tables) (λ lines. pure-Reads _))))

  showc-Reads : (clsid : Guid) → Reads D pick (cometa_showc D pick guid_text fuel clsid)
  unfolding cometa_showc
  showc-Reads clsid = bind-Reads _ _ (resolve_class-Reads D pick clsid) (λ k.
      bind-Reads _ _ (reading-Reads _)
        (λ tables. bind-Reads _ _ (show_clsid_tables-Reads tables) (λ lines. pure-Reads _)))

  show_module-Reads :
      (name : Text) (rs : List (ℕ × Guid))
      → Reads D pick (show_module D pick guid_text fuel name rs)
  unfolding show_module
  show_module-Reads name [] = pure-Reads _
  show_module-Reads name (r ∷ rs) =
      bind-Reads _ _ (show_clsids-Reads 0 (sort_greater (r ∷ rs))) (λ lines. pure-Reads _)

  showm-Reads : (name : Text) → Reads D pick (cometa_showm D pick guid_text fuel name)
  unfolding cometa_showm
  showm-Reads name = bind-Reads _ _ (reading-Reads _) (λ rs. show_module-Reads name rs)

module _ (D : Database) (R : Registry) (O : TypeInfos) (files : Files D) (arch_x64 : Bool)
    (is_wow64 : Bool) (iid_from_string : Text → Result Guid) (widen : Text → Text)
    (pick : List Guid → Guid) (guid_text : Guid → Text) (fuel : ℕ) where
  shown-Leaves :
      (c : Cometa D) (o : Option (Cometa D × Text))
      → Leaves D pick c o
      → Leaves D pick c
          (shown D R O files arch_x64 is_wow64 iid_from_string widen pick guid_text fuel o)
  shown-Leaves c none l = tt
  shown-Leaves c (some (c', text)) l = l

  with_guid-Reads :
      (args : List Text) (message : Text) (show : Guid → Query D pick Text)
      → ((g : Guid) → Reads D pick (show g))
      → Reads D pick (
          with_guid D R O files arch_x64 is_wow64 iid_from_string widen pick guid_text fuel args
            message show)
  unfolding with_guid
  with_guid-Reads [] message show h c = unchanged D pick c
  with_guid-Reads (arg ∷ []) message show h c = parsed (try_parse_guid iid_from_string (widen arg))
    where
      parsed :
          (r : Result Guid)
          → Leaves D pick c (elim r [
            | ok guid ↦
                shown D R O files arch_x64 is_wow64 iid_from_string widen pick guid_text fuel
                  (show guid c)
            | err _ ↦ some (c, invalid message)
          ])
      parsed (ok g) = shown-Leaves c (show g c) (h g c)
      parsed (err hr) = unchanged D pick c
  with_guid-Reads (a ∷ b ∷ args) message show h c = unchanged D pick c

  save-Reads :
      (args : List Text)
      → Reads D pick
          (cometa_save D R O files arch_x64 is_wow64 iid_from_string widen pick guid_text fuel args)
  unfolding cometa_save
  save-Reads [] c = unchanged D pick c
  save-Reads (a ∷ []) c = unchanged D pick c
  save-Reads (a ∷ b ∷ args) c = unchanged D pick c

  module-Reads :
      (args : List Text)
      → Reads D pick (
          show_named_module D R O files arch_x64 is_wow64 iid_from_string widen pick guid_text fuel
            args)
  unfolding show_named_module
  module-Reads [] c = unchanged D pick c
  module-Reads (a ∷ []) c = shown-Leaves c _ (showm-Reads D pick guid_text fuel (widen a) c)
  module-Reads (a ∷ b ∷ args) c = unchanged D pick c

  query-Reads :
      (name : Text) (args : List Text)
      → Reads D pick (
          cometa_query D R O files arch_x64 is_wow64 iid_from_string widen pick guid_text fuel name
            args)
  unfolding cometa_query
  query-Reads name args = either (Reads D pick) (name == codes "save") _ _ (save-Reads args) (
      either (Reads D pick) (name == codes "showi") _ _
        (with_guid-Reads args _ _ (showi-Reads D pick guid_text fuel))
        (either (Reads D pick) (name == codes "showc") _ _
          (with_guid-Reads args _ _ (showc-Reads D pick guid_text fuel))
          (either (Reads D pick) (name == codes "showm") _ _ (module-Reads args)
            (λ c. unchanged D pick c))))

  -- Whatever its arguments are, a subcommand of `!cometa` other than `index` that ends leaves the
  -- database and the known identifiers as they were: only the caches may change.
  pub cometa_query-Leaves :
      (name : Text) (args : List Text) (c : Cometa D)
      → Leaves D pick c (
          cometa_query D R O files arch_x64 is_wow64 iid_from_string widen pick guid_text fuel name
            args c)
  cometa_query-Leaves name args c = query-Reads name args c
