-- ===== src/Ext/Metadata/Subcommands.antt =====
-- comon/ext.cpp: the command `!cometa` and its subcommands.
use comon.Base.{
  ℕ, Bool, true, false, List, [], ◌∷◌, ◌++◌, Option, none, some, ◌==◌, nat_eq, list_eq, Text, codes,
}
use comon.Base.Result.{Result, ok, err, e_invalidarg}
use comon.Guid.{Guid, try_parse_guid}
use comon.Cometa.Registry.{Registry}
use comon.Cometa.TypeLib.{TypeInfos}
use comon.Cometa.Database.{Database}
use comon.Cometa.Writing.{Outcome, returns, fails}
use comon.Cometa.Queries.{Cometa, Query}
use comon.Cometa.Setup.{Files, save}
use comon.Cometa.Index.{index, index_path}
use comon.Ext.Metadata.{cometa_showi, cometa_showc, cometa_showm}

-- what a command prints itself, and how it ends
abbrev pub Answer : Type 0
Answer = Text × Outcome (Unit {0})

abbrev pub invalid : Text → Answer
invalid message = (codes "ERROR: " ++ message, fails e_invalidarg)

abbrev pub wrong_arguments : Answer
wrong_arguments = invalid (codes "invalid arguments. Run !cohelp to check the syntax.\n")

-- the outcome of an `HRESULT`
abbrev ended : Result (Unit {0}) → Outcome (Unit {0})
ended (ok u) = returns u
ended (err hr) = fails hr

module _ (D : Database) (R : Registry) (O : TypeInfos) (files : Files D) (arch_x64 : Bool)
    (is_wow64 : Bool) (iid_from_string : Text → Result Guid) (widen : Text → Text)
    (pick : List Guid → Guid) (guid_text : Guid → Text) (fuel : ℕ) where
  abbrev quiet : Cometa D × Outcome (Unit {0}) → Option (Cometa D × Answer)
  quiet (c, r) = some (c, ([], r))

  abbrev pub shown : Option (Cometa D × Text) → Option (Cometa D × Answer)
  shown none = none
  shown (some (c, text)) = some (c, (text, returns tt))

  -- a subcommand with one argument, which is an identifier
  unfoldable pub with_guid : List Text → Text → (Guid → Query D pick Text) → Query D pick Answer
  with_guid (arg ∷ []) message show c = elim (try_parse_guid iid_from_string (widen arg)) [
    | ok guid ↦ shown (show guid c)
    | err _ ↦ some (c, invalid message)
  ]
  with_guid _ message show c = some (c, wrong_arguments)

  unfoldable pub cometa_index : List Text → Query D pick Answer
  cometa_index [] c = quiet (index D R O arch_x64 iid_from_string is_wow64 c)
  cometa_index (path ∷ _) c = quiet (index_path D R O arch_x64 iid_from_string (widen path) c)

  unfoldable pub cometa_save : List Text → Query D pick Answer
  cometa_save (path ∷ []) c = some (c, ([], ended (save D files (widen path) c)))
  cometa_save _ c = some (c, wrong_arguments)

  unfoldable pub show_named_module : List Text → Query D pick Answer
  show_named_module (name ∷ []) c = shown (cometa_showm D pick guid_text fuel (widen name) c)
  show_named_module _ c = some (c, wrong_arguments)

  -- the subcommands that do not index
  unfoldable pub cometa_query : Text → List Text → Query D pick Answer
  cometa_query name args = elim (name == codes "save") [
    | true ↦ cometa_save args
    | false ↦ elim (name == codes "showi") [
      | true ↦
          with_guid args (codes "incorrect format of IID.\n") (cometa_showi D pick guid_text fuel)
      | false ↦ elim (name == codes "showc") [
        | true ↦
            with_guid args (codes "incorrect format of CLSID.\n")
              (cometa_showc D pick guid_text fuel)
        | false ↦ elim (name == codes "showm") [
          | true ↦ show_named_module args
          | false ↦ λ c.
              some (c, invalid (codes "unknown subcommand. Run !cohelp to check the syntax.\n"))
        ]
      ]
    ]
  ]

  unfoldable pub cometa_command : List Text → Query D pick Answer
  cometa_command [] c = some (c, wrong_arguments)
  cometa_command (name ∷ args) c = elim (name == codes "index") [
    | true ↦ cometa_index args c
    | false ↦ cometa_query name args c
  ]
