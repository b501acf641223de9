-- ===== src/Tests/Indexed.antt =====
-- comon/cometa.cpp and comon/cometa_helpers.cpp: a small registry, the index of its type libraries and
-- a new database.
use comon.Base.{
  Text, ◌⊎◌, ℕ, suc, ◌≡◌, pair_eq, refl, true, false, some, [], ◌∷◌, arith, nat_beq, codes, nat_eq,
  list_eq, member,
}
use comon.Base.Result.{ok, err}
use comon.Guid.{iid_iunknown, iid_idispatch}
use comon.Lfu.Cache.{create}
use comon.Cometa.Registry.{Registry, text, get_child_key_names, get_child_key_names_lem}
use comon.Ext.Number.{count_spaces, sign, hex_mark, scan_digits, digit, digit_value}
use comon.Cometa.Versions.{
  Version, int32, new_version, new_versions, version_nums, getline, stoi, get_tlbinfo,
  tlbinfo_of_version,
}
use comon.Cometa.Versions.Greatest.{IsGreatest, get_tlbinfo_lem}
use comon.Cometa.TypeLib.{get_comethod_names, get_type_parent_iid}
use comon.Cometa.Writing.{
  returns, stops, transaction, write, continue, ◌>>=◌, ◌>>◌, insert_cotype, skip, pure,
  insert_cotype_method, insert_cotype_method_arg,
}
use comon.Cometa.Indexing.{
  index_type, index_typeinfo, index_types, index_func, index_funcs, index_tlb, inherited,
  insert_method, insert_params,
}
use comon.Cometa.Queries.Coherence.{Coherent}
use comon.Cometa.Queries.Tables.{covtable_eq}
use comon.Cometa.Setup.{cometa_of, open_db, new_cometa}
use comon.Cometa.Index.{index, index_path}
use comon.Cometa.Index.Agreement.{index-Coherent}
use comon.Cometa.Setup.Fresh.{new_one, new_cometa_lem}
use comon.Tests.Store.{memory, memory_laws}
use comon.Tests.Metadata.{files, opened, opened-Coherent, libraries}

-- a registry with the keys of classes, of which one has a text
abbrev pub small_registry : Registry
small_registry = record {
  Key = ℕ;
  local_machine = 0;
  reg_open_key_ex = λ key name flags. ok (suc key);
  reg_enum_key_ex = λ key i. elim (nat_beq i 0) [ true ↦ ok (codes "clsid") | false ↦ err 259 ];
  reg_get_value = λ key subkey len. text (codes "Canvas");
}

get_child_key_names_lem_example : get_child_key_names small_registry 1 ≡ codes "clsid" ∷ []
get_child_key_names_lem_example =
    get_child_key_names_lem small_registry 1 (codes "clsid" ∷ []) (omega arith) (refl, (259, refl))

index-Coherent_example :
    Coherent 0 (index memory small_registry libraries true (λ t. ok 9) true opened).0
    ⊎ ((index memory small_registry libraries true (λ t. ok 9) true opened).1 ≡ stops)
index-Coherent_example =
    index-Coherent memory small_registry libraries true (λ t. ok 9) memory_laws 0 true opened
      opened-Coherent

canvas_indexed :
    (index_path memory small_registry libraries true (λ t. ok 9) (codes "good") opened).1
    ≡ returns tt
unfolding index_path index_tlb index_types index_typeinfo index_type get_type_parent_iid transaction
    ◌>>=◌ ◌>>◌ continue write skip insert_cotype member index_funcs get_comethod_names index_func
    inherited new_one insert_method insert_params insert_cotype_method insert_cotype_method_arg pure
canvas_indexed = refl

built : new_cometa memory files (codes "types.db") false ≡ some opened
unfolding new_cometa open_db cometa_of create new_one
built = refl

new_cometa_lem_example :
    Coherent 0 opened
    × (member iid_iunknown opened.known_iids ≡ false)
    × (member iid_idispatch opened.known_iids ≡ false)
new_cometa_lem_example = new_cometa_lem memory files (codes "types.db") false opened built

-- a type library with the versions 1.2 and 1.a
abbrev two_versions : Registry
two_versions = record small_registry {
  reg_enum_key_ex = λ key i. elim (nat_beq i 0) [
    | true ↦ ok (codes "1.2")
    | false ↦ elim (nat_beq i 1) [ true ↦ ok (codes "1.a") | false ↦ err 259 ]
  ];
}

abbrev version_1 : ℕ → Text → Version
version_1 minor name = record {
  version_nums = int32 1 ∷ int32 minor ∷ int32 0 ∷ int32 0 ∷ [];
  text = name;
}

two_names :
    new_versions (get_child_key_names two_versions 1)
    ≡ some (version_1 2 (codes "1.2") ∷ version_1 10 (codes "1.a") ∷ [])
unfolding new_versions new_version version_nums getline stoi count_spaces sign hex_mark scan_digits
    digit digit_value
two_names =
    rw
      (get_child_key_names_lem two_versions 1 (codes "1.2" ∷ codes "1.a" ∷ []) (omega arith)
        (refl, (refl, (259, refl))))
      refl

get_tlbinfo_lem_example :
    (r : Version) × (get_tlbinfo two_versions true 1
      ≡ some (tlbinfo_of_version two_versions true 1 r))
    × IsGreatest r (version_1 2 (codes "1.2") ∷ version_1 10 (codes "1.a") ∷ [])
get_tlbinfo_lem_example =
    get_tlbinfo_lem two_versions true 1 (version_1 2 (codes "1.2"))
      (version_1 10 (codes "1.a") ∷ []) two_names
