-- ===== src/Tests/Showing.antt =====
-- comon/ext.cpp, `!cometa`, comon/dbgsession.h, `create_cometa`, and comon/comon.h, identifiers as
-- text, at small data.
use comon.Base.{
  member, ◌≡◌, ◌⊎◌, ◌==◌, list_eq, refl, true, false, Option, none, some, [], ◌∷◌, Text, codes,
  decimal_text, digits_text, find, insert, assign, nat_eq,
}
use comon.Base.Result.{Result, ok, err, e_invalidarg}
use comon.Guid.{Guid}
use comon.Arch.{x86}
use comon.Session.Metadata.{create_cometa, create_cometa_lem}
use comon.Cometa.Queries.Coherence.{Coherent}
use comon.Cometa.Writing.{
  fill_known_iids, transaction, ◌>>◌, insert_cotype, write, insert_cotype_method,
  insert_cotype_method_arg, skip,
}
use comon.Cometa.Setup.{is_valid_db, new_cometa, init_db, exec_all, cometa_of}
use comon.Lfu.Cache.{create, contains, get, insert_entry, emplace, bump}
use comon.Lfu.Freqs.{add_to_frequency, discard_from_frequency}
use comon.Cometa.Queries.{
  Cometa, resolve_type, get_type_methods, get_type_method_args, find_vtables_by_iid,
}
use comon.Cometa.Setup.Fresh.{new_one}
use comon.Ext.Metadata.{
  ◌>>=◌, cometa_showi, show_type, show_methods, show_iid_tables, reading, pure,
}
use comon.Ext.Metadata.Subcommands.{cometa_query}
use comon.Ext.Metadata.Kept.{Leaves}
use comon.Ext.Metadata.Unchanged.{cometa_query-Leaves}
use comon.Tests.Caches.{first_key}
use comon.Tests.Store.{memory}
use comon.Tests.Indexed.{small_registry}
use comon.Tests.Metadata.{two_stored, files, opened, libraries}

-- `!cometa showi` of the second type
cometa_query-Leaves_example : Leaves memory first_key opened (
    cometa_query memory small_registry libraries files true true
      (λ t. ok 2)
      (λ t. t)
      first_key
      (λ g. decimal_text g)
      3
      (codes "showi")
      (codes "2" ∷ [])
      opened)
cometa_query-Leaves_example =
    cometa_query-Leaves memory small_registry libraries files true true (λ t. ok 2) (λ t. t)
      first_key (λ g. decimal_text g) 3 (codes "showi") (codes "2" ∷ []) opened

-- what it prints
printed : Option (Cometa memory × Text) → Text
printed none = []
printed (some (c, t)) = t

showi_text :
    printed (cometa_showi memory first_key (λ g. decimal_text g) 3 2 opened)
    ≡ codes
        "Found: 2 (IType)\n\nMethods:\n- [0] HRESULT QueryInterface()\n- [1] HRESULT Draw()\n\nRegistered VTables for IID:\n\n"
unfolding printed cometa_showi show_type show_methods show_iid_tables reading pure ◌>>=◌
    resolve_type get_type_methods get_type_method_args find_vtables_by_iid contains get insert_entry
    emplace find insert add_to_frequency discard_from_frequency bump assign new_one decimal_text
    digits_text
showi_text = refl

-- a system that knows one identifier
abbrev read_iid : Text → Result Guid
read_iid t = elim (t == codes "{abc}") [ true ↦ ok 7 | false ↦ err e_invalidarg ]

-- the object over a new database
abbrev fresh : Cometa memory
fresh =
    new_one memory files (fill_known_iids memory [] two_stored).0.0
      (fill_known_iids memory [] two_stored).1

fresh_built : new_cometa memory files [] true ≡ some fresh
unfolding new_cometa init_db exec_all cometa_of create new_one fill_known_iids transaction ◌>>◌
    insert_cotype member write insert_cotype_method insert_cotype_method_arg skip
fresh_built = refl

create_cometa_lem_example :
    (c : Cometa memory) × (create_cometa memory files (λ t. t) (λ t. true) (x86 false 1 2) ≡ some c)
    × Coherent 0 c
    × (((is_valid_db memory files (codes "cometa_32.db3") ≡ true)
          × (new_cometa memory files (codes "cometa_32.db3") false ≡ some c))
        ⊎ ((is_valid_db memory files (codes "cometa_32.db3") ≡ false) × (c ≡ fresh)))
create_cometa_lem_example =
    create_cometa_lem memory files (λ t. t) (λ t. true) (x86 false 1 2) fresh fresh_built refl
