-- ===== src/Monitor/Listing.antt =====
-- comon/comonitor.cpp, `list_cotypes`: the recorded tables by class.
use mathlib.Core.List.{append_assoc, append-nil}
use comon.Base.{
  ℕ, ◌≡◌, refl, sym, ◌∙◌, true, false, Option, none, some, List, [], ◌∷◌, ◌++◌, inl, inr,
  Option-cases, Bool-cases, arith, nat_beq, nat_eq, pair_eq, find, insert, assign, find-insert,
  find-assign,
}
use comon.Guid.{Guid}
use comon.Monitor.Types.{Monitor}
use comon.Monitor.Vtables.{group_cotypes, list_cotypes}

-- the tables of a class, in the order of the map
abbrev pub tables_of : Guid → List ((Guid × Guid) × ℕ) → List (ℕ × Guid)
tables_of c [] = []
tables_of c (((clsid, iid), addr) ∷ m) =
    let rest = tables_of c m in elim (nat_beq clsid c) [ true ↦ (addr, iid) ∷ rest | false ↦ rest ]

abbrev pub or_empty : Option (List (ℕ × Guid)) → List (ℕ × Guid)
or_empty none = []
or_empty (some l) = l

-- the loop of `list_cotypes` for one entry
abbrev add_cotype_to :
    Guid → ℕ → Guid → List (Guid × List (ℕ × Guid)) → List (Guid × List (ℕ × Guid))
add_cotype_to clsid addr iid r = elim (find clsid r) [
  | none ↦ insert clsid ((addr, iid) ∷ []) r
  | some vtables ↦ assign clsid (vtables ++ (addr, iid) ∷ []) r
]

add_lem :
    (c clsid : Guid) (addr : ℕ) (iid : Guid) (r : List (Guid × List (ℕ × Guid)))
    → or_empty (find c (add_cotype_to clsid addr iid r)) ≡ elim (nat_beq clsid c) [
      | true ↦ or_empty (find c r) ++ (addr, iid) ∷ []
      | false ↦ or_empty (find c r)
    ]
add_lem c clsid addr iid r = elim (Option-cases (find clsid r)) [
  | inl gone ↦
      rw (gone, add_cotype_to) (ground (arith, find-insert clsid c ((addr, iid) ∷ []) r gone, gone))
  | inr (v, at) ↦
      rw (at, add_cotype_to)
        (ground (arith, find-assign clsid c (v ++ (addr, iid) ∷ []) v r at, at))
]

group_lem :
    (c : Guid) (r : List (Guid × List (ℕ × Guid))) (m : List ((Guid × Guid) × ℕ))
    → or_empty (find c (group_cotypes r m)) ≡ or_empty (find c r) ++ tables_of c m
unfolding group_cotypes
group_lem c r [] = sym (append-nil _)
group_lem c r (((clsid, iid), addr) ∷ m) = elim (Bool-cases (nat_beq clsid c)) [
  | inl same ↦
      group_lem c (add_cotype_to clsid addr iid r) m
      ∙ rw (add_lem c clsid addr iid r, same, tables_of)
          (append_assoc (or_empty (find c r)) ((addr, iid) ∷ []) (tables_of c m))
  | inr other ↦
      group_lem c (add_cotype_to clsid addr iid r) m
      ∙ rw (add_lem c clsid addr iid r, other, tables_of) refl
]

-- `list_cotypes` lists under a class exactly the interfaces that have a recorded table for it, with
-- the address of the table, in the order of the map; a class that is not listed has none.
pub list_cotypes_lem :
    (m : Monitor) (c : Guid)
    → or_empty (find c (list_cotypes m)) ≡ tables_of c m.cotype_with_vtables
unfolding list_cotypes find
list_cotypes_lem m c = group_lem c [] m.cotype_with_vtables
