-- ===== src/Tests/Metadata.antt =====
-- comon/cometa.cpp and comon/cometa_helpers.cpp over a database in memory and a few type libraries.
use comon.Base.{
  ℕ, ◌≡◌, ◌≤◌, pair_eq, length, take, refl, true, false, none, some, List, [], ◌∷◌, arith, inr,
  nat_beq, Text, codes, ◌==◌, nat_eq, list_eq, member,
}
use comon.Base.Result.{ok, err, e_fail}
use comon.Guid.{Guid}
use comon.Engine.{Comethod, Covtable, Comodule}
use comon.Cometa.Types.{Cotype, interface}
use comon.Cometa.TypeLib.{
  TypeInfos, TypeAttr, FuncDesc, plain, get_comethod_names, get_type_parent_iid,
}
use comon.Cometa.TypeLib.Names.{get_comethod_names_lem}
use comon.Cometa.Database.{SameType}
use comon.Cometa.Writing.{
  fails, transaction, write, continue, ◌>>=◌, ◌>>◌, insert_cotype, skip, pure, insert_cotype_method,
  insert_cotype_method_arg, save_module_vtable,
}
use comon.Cometa.Indexing.{
  insert_method, insert_params, index_type, index_func, index_funcs, index_tlb, inherited,
}
use comon.Cometa.Indexing.Rows.{index_funcs_enough}
use comon.Cometa.Indexing.Commits.{index_type_fails, index_tlb-known}
use comon.Cometa.Queries.{
  Cometa, resolve_type, get_module_vtables, find_vtables_by_iid, find_vtables_by_clsid,
}
use comon.Cometa.Queries.Coherence.{Coherent, resolve_type_lem}
use comon.Cometa.Queries.Chain.{Chain, root, child, StartsOk, Answers, get_type_methods_lem}
use comon.Cometa.Queries.Tables.{covtable_eq, save_module_vtable-found}
use comon.Cometa.Setup.{Files}
use comon.Cometa.Setup.Fresh.{new_one, new_one-Coherent}
use comon.Tests.Caches.{first_key, first_key_picks}
use comon.Tests.Store.{Store, Tables, memory, memory_laws}

abbrev method_named : Guid → Text → Comethod
method_named iid name = record {
  iid = iid;
  name = name;
  ordinal = 0;
  callconv = 4;
  dispid = none;
  return_type = codes "HRESULT";
}

abbrev type_of : Guid → Guid → Cotype
type_of iid parent = record {
  iid = iid;
  name = codes "IType";
  type = interface;
  parent_iid = parent;
  methods_available = true;
}

-- two types, the second a child of the first
abbrev two_types : Tables
two_types = record {
  cotypes = λ iid. elim (nat_beq iid 1) [
    | true ↦ some (type_of 1 0)
    | false ↦ elim (nat_beq iid 2) [ true ↦ some (type_of 2 1) | false ↦ none ]
  ];
  methods = λ iid. elim (nat_beq iid 1) [
    | true ↦ method_named 1 (codes "QueryInterface") ∷ []
    | false ↦ elim (nat_beq iid 2) [ true ↦ method_named 2 (codes "Draw") ∷ [] | false ↦ [] ]
  ];
  args = λ iid n. [];
  coclasses = λ clsid. none;
  vtables = [];
}

abbrev pub two_stored : Store
two_stored = record { now = two_types; before = two_types }

abbrev pub files : Files memory
files = record {
  open_file = λ path create. elim create [
    | true ↦ some two_stored
    | false ↦ elim (path == codes "types.db") [ true ↦ some two_stored | false ↦ none ]
  ];
  exec = λ statement db. some db;
  select_version = λ db. some (some 5);
  backup = λ path db. some tt;
}

abbrev pub opened : Cometa memory
opened = new_one memory files two_stored []

two-Chain :
    Chain memory two_stored 2 1
      (some (method_named 1 (codes "QueryInterface") ∷ method_named 2 (codes "Draw") ∷ []))
two-Chain = child 2 (type_of 2 1) 0 _ refl refl refl (root 1 (type_of 1 0) refl refl refl)

pub opened-Coherent : Coherent 0 opened
opened-Coherent = new_one-Coherent memory files two_stored []

resolve_type_lem_example :
    (c : Cometa memory) × (resolve_type memory first_key 2 opened ≡ some (c, some (type_of 2 1)))
    × Coherent 1 c
    × (c.db ≡ two_stored)
    × (c.known_iids ≡ [])
unfolding new_one
resolve_type_lem_example =
    resolve_type_lem memory first_key 0 2 opened first_key_picks opened-Coherent (omega arith)

get_type_methods_lem_example :
    Answers memory first_key 3 2 2 opened
      (some (method_named 1 (codes "QueryInterface") ∷ method_named 2 (codes "Draw") ∷ []))
    × StartsOk (some (method_named 1 (codes "QueryInterface") ∷ method_named 2 (codes "Draw") ∷ []))
unfolding new_one
get_type_methods_lem_example =
    get_type_methods_lem memory first_key 3 1 0 2 opened
      (some (method_named 1 (codes "QueryInterface") ∷ method_named 2 (codes "Draw") ∷ []))
      first_key_picks opened-Coherent two-Chain (omega arith) (omega arith)

-- type libraries of one type with a method `Paint`, whose second function cannot be read; the type
-- of a good library has one function only
abbrev paint : FuncDesc
paint = record {
  memid = 1;
  invkind = 4;
  callconv = 4;
  params = (plain 3, 1) ∷ [];
  elemdesc_func = plain 25;
}

abbrev attr_of : ℕ → TypeAttr
attr_of n = record { guid = 7; typekind = 3; c_funcs = n; c_impl_types = 0 }

abbrev pub libraries : TypeInfos
libraries = record {
  TypeInfo = ℕ;
  load_type_lib_ex = λ path. ok (ok (elim (path == codes "good") [ true ↦ 1 | false ↦ 2 ]) ∷ []);
  get_documentation = λ ti. ok (codes "ICanvas");
  get_type_attr = λ ti. ok (attr_of ti);
  get_ref_type_of_impl_type = λ ti n. ok 0;
  get_ref_type_info = λ ti href. ok 1;
  get_func_desc = λ ti n. elim (nat_beq n 0) [ true ↦ ok paint | false ↦ err e_fail ];
  get_names = λ ti memid max. ok (codes "Paint" ∷ []);
}

canvas_fails :
    (index_type memory libraries [] 2 (attr_of 2) (codes "ICanvas") interface two_stored).1
    ≡ fails e_fail
unfolding index_type get_type_parent_iid transaction ◌>>=◌ ◌>>◌ continue write insert_cotype member
    index_funcs get_comethod_names index_func inherited insert_method insert_params skip pure
    insert_cotype_method insert_cotype_method_arg
canvas_fails = refl

index_type_fails_example :
    SameType memory 7
      (index_type memory libraries [] 2 (attr_of 2) (codes "ICanvas") interface two_stored).0
      two_stored
index_type_fails_example =
    index_type_fails memory memory_laws libraries [] 2 (attr_of 2) (codes "ICanvas") interface
      two_stored 7 (λ e. absurd (ground (arith, canvas_fails, e)))

index_tlb-known_example :
    SameType memory 1 (index_tlb memory libraries (1 ∷ []) (codes "bad") two_stored).0 two_stored
unfolding member
index_tlb-known_example =
    index_tlb-known memory memory_laws libraries (1 ∷ []) (codes "bad") 1 two_stored refl

index_funcs_enough_example :
    index_funcs memory libraries [] 5 1 (attr_of 1) interface 0 two_stored
    ≡ index_funcs memory libraries [] 1 1 (attr_of 1) interface 0 two_stored
index_funcs_enough_example =
    index_funcs_enough memory libraries [] 1 (attr_of 1) interface 1 5 0 two_stored (omega arith)
      (omega arith)

get_comethod_names_lem_example :
    (result : List Text) × (get_comethod_names libraries 1 paint ≡ ok result)
    × (length result ≡ 2)
    × (length result ≤ 64)
    × (take 1 result ≡ codes "Paint" ∷ [])
get_comethod_names_lem_example =
    get_comethod_names_lem libraries 1 paint (codes "Paint" ∷ []) refl (inr refl) (omega arith)

abbrev shell : Comodule
shell = record { name = codes "shell"; timestamp = 7; is_64bit = true }

abbrev shell_table : Covtable
shell_table = record { clsid = 5; iid = 1; address = 0x100000040 }

save_module_vtable-found_example :
    (member
        (record { clsid = 5; iid = 1; address = 64 })
        (get_module_vtables memory shell (save_module_vtable memory shell shell_table two_stored))
      ≡ true)
    × (member
          (codes "shell", (5, 0x100000040))
          (find_vtables_by_iid memory 1 (save_module_vtable memory shell shell_table two_stored))
        ≡ true)
    × (member
          (codes "shell", (1, 0x100000040))
          (find_vtables_by_clsid memory 5 (save_module_vtable memory shell shell_table two_stored))
        ≡ true)
save_module_vtable-found_example =
    save_module_vtable-found memory memory_laws shell shell_table two_stored
