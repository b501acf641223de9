-- ===== src/Monitor/Loading/Recorded.antt =====
-- comon/comonitor.cpp, `handle_module_load`: what the tables of a database make of the tables that are
-- recorded.
use comon.Base.{
  add64, ℕ, ◌≡◌, ◌↔◌, refl, ap, ◌∙◌, true, false, ◌&&◌, Option, none, some, List, [], ◌∷◌, inl, inr,
  Option-cases, Bool-cases, arith, nat_eq, pair_eq, ◌==◌, find, insert, find-insert,
}
use comon.Guid.{Guid}
use comon.Engine.{Covtable}
use comon.Ext.Filter.{Cofilter, is_clsid_allowed}

-- what is recorded for a pair behind a table of the database, from what was recorded before
abbrev pub load_one : Cofilter → ℕ → Guid × Guid → Covtable → Option ℕ → Option ℕ
load_one fltr base key v (some a) = some a
load_one fltr base key v none = elim (is_clsid_allowed fltr v.clsid && ((v.clsid, v.iid) == key)) [
  | true ↦ some (add64 base v.address)
  | false ↦ none
]

-- the tables one after the other: the first that the filter lets through counts
abbrev pub load_all : Cofilter → ℕ → Guid × Guid → List Covtable → Option ℕ → Option ℕ
load_all fltr base key [] o = o
load_all fltr base key (v ∷ vs) o = load_all fltr base key vs (load_one fltr base key v o)

pair_iff : (k j : Guid × Guid) → (k ≡ j) ↔ ((k == j) ≡ true)
pair_iff k j = (pair_eq {A = Guid} {B = Guid}).equals_iff k j

module _ (key : Guid × Guid) where
  insert_there :
      (k : Guid × Guid) (a b : ℕ) (m : List ((Guid × Guid) × ℕ))
      → find k m ≡ some b
      → insert k a m ≡ m
  unfolding insert
  insert_there k a b m there = rw (there, insert) refl

  pub find-add :
      (k : Guid × Guid) (a : ℕ) (m : List ((Guid × Guid) × ℕ)) (o : Option ℕ)
      → find key m ≡ o
      → find key (insert k a m)
        ≡ elim o [ some b ↦ some b | none ↦ elim (k == key) [ true ↦ some a | false ↦ none ] ]
  find-add k a m o at = elim (Option-cases (find k m)) [
    | inl gone ↦ find-insert k key a m gone ∙ added k a m o at gone
    | inr (b, there) ↦ rw (insert_there k a b m there) (at ∙ kept k a b m o at there)
  ]
    where
      added :
          (k : Guid × Guid) (a : ℕ) (m : List ((Guid × Guid) × ℕ)) (o : Option ℕ)
          → find key m ≡ o
          → find k m ≡ none
          → elim (k == key) [ true ↦ some a | false ↦ find key m ]
            ≡ elim o [ some b ↦ some b | none ↦ elim (k == key) [ true ↦ some a | false ↦ none ] ]
      added k a m none at gone =
          ap (λ (o : Option ℕ). elim (k == key) [ true ↦ some a | false ↦ o ]) at
      added k a m (some b) at gone = elim (Bool-cases (k == key)) [
        | inl same ↦
            let e : k ≡ key = (pair_iff k key).1 same in absurd (ground (arith, (rw e at gone), at))
        | inr other ↦ rw other at
      ]

      kept :
          (k : Guid × Guid) (a b : ℕ) (m : List ((Guid × Guid) × ℕ)) (o : Option ℕ)
          → find key m ≡ o
          → find k m ≡ some b
          → o ≡ elim o [ some b ↦ some b | none ↦ elim (k == key) [ true ↦ some a | false ↦ none ] ]
      kept k a b m (some c) at there = refl
      kept k a b m none at there = elim (Bool-cases (k == key)) [
        | inl same ↦
            let e : k ≡ key = (pair_iff k key).1 same in
            absurd (ground (arith, (rw e at there), at))
        | inr other ↦ rw other refl
      ]

  pub load_refused :
      (fltr : Cofilter) (base : ℕ) (v : Covtable) (o : Option ℕ)
      → is_clsid_allowed fltr v.clsid ≡ false
      → load_one fltr base key v o ≡ o
  load_refused fltr base v none refused = rw (load_one, refused) refl
  load_refused fltr base v (some a) refused = refl
