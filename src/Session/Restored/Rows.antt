-- ===== src/Session/Restored/Rows.antt =====
-- comon/cometa.cpp and comon/comonitor.cpp: the rows of the table `vtables`, and what a monitor loads of
-- them.
use comon.Base.{
  add64, ℕ, ◌^◌, ◌%◌, ◌≡◌, ◌↔◌, refl, sym, ap, ◌∙◌, Bool, true, false, not, ◌&&◌, ◌||◌, Option,
  none, some, List, [], ◌∷◌, map, inl, inr, Bool-cases, arith, nat_eq, list_eq, pair_eq, ◌==◌,
  member, Text,
}
use mathlib.Core.Path.{subst}
use comon.Guid.{Guid}
use comon.Engine.{Comodule}
use comon.Ext.Filter.{Cofilter, is_clsid_allowed}
use comon.Cometa.Database.{Database, DatabaseLaws, VtableRow}
use comon.Cometa.Queries.{rows_where, in_module, covtable_of}
use comon.Monitor.Loading.Recorded.{load_one, load_all}

-- the row is in the table `vtables`, and no other row has its class and interface
pub record HasRow (D : Database) (row : VtableRow) (db : D.Db) : Type 0 where
  pub there : member row (D.vtables db) ≡ true
  pub only : (r : VtableRow) → member r (D.vtables db) ≡ true → (r.0 == row.0) ≡ true → r ≡ row

row_iff : (r q : VtableRow) → (r ≡ q) ↔ ((r == q) ≡ true)
row_iff r q = (pair_eq {A = Guid × Guid} {B = Text × (ℕ × ℕ)}).equals_iff r q

key_iff : (k j : Guid × Guid) → (k ≡ j) ↔ ((k == j) ≡ true)
key_iff k j = (pair_eq {A = Guid} {B = Guid}).equals_iff k j

decide : (a b c : Bool) → (a || (not b && c)) ≡ true → b ≡ true → a ≡ true
decide true b c h same = refl
decide false true c h same = h
decide false false c h same = same

or_left : (a b : Bool) → a ≡ true → (a || b) ≡ true
or_left true b e = refl
or_left false b e = absurd (ground (arith, e))

or_right : (a b : Bool) → b ≡ true → (a || b) ≡ true
or_right true b e = refl
or_right false b e = e

or_other : (a b : Bool) → (a || b) ≡ true → a ≡ false → b ≡ true
or_other true b e other = absurd (ground (arith, other))
or_other false b e other = e

differs : (r q : VtableRow) → (r.0 == q.0) ≡ false → (r == q) ≡ false
differs r q other = elim (Bool-cases (r == q)) [
  | inr e ↦ e
  | inl same ↦
      let e : r ≡ q = (row_iff r q).1 same in
      absurd (ground (arith, other, (key_iff r.0 q.0).0 (ap (λ (p : VtableRow). p.0) e)))
]

pub replaced-HasRow :
    (D : Database) (laws : DatabaseLaws D) (row : VtableRow) (db : D.Db)
    → HasRow D row (D.replace_vtable row db)
replaced-HasRow D laws row db = record {
  there = laws.vtables_replaced row row db ∙ rw ((row_iff row row).0 refl) refl;
  only = λ r at same.
      let same' : (row.0 == r.0) ≡ true =
        (key_iff row.0 r.0).0 (sym ((key_iff r.0 row.0).1 same)) in
      sym ((row_iff row r).1 (decide _ _ _ (sym (laws.vtables_replaced row r db) ∙ at) same'));
}

module _ (D : Database) (fltr : Cofilter) (base : ℕ) (m : Comodule) (key : Guid × Guid) where
  -- what a monitor loads of a part of the rows
  abbrev pub loaded : List VtableRow → Option ℕ → Option ℕ
  loaded rows o = load_all fltr base key (map (covtable_of D) (rows_where (in_module D m) rows)) o

  loaded-inside :
      (r : VtableRow) (rows : List VtableRow) (o : Option ℕ)
      → in_module D m r ≡ true
      → loaded (r ∷ rows) o ≡ loaded rows (load_one fltr base key (covtable_of D r) o)
  loaded-inside r rows o inside = rw (inside, rows_where) refl

  loaded-outside :
      (r : VtableRow) (rows : List VtableRow) (o : Option ℕ)
      → in_module D m r ≡ false
      → loaded (r ∷ rows) o ≡ loaded rows o
  loaded-outside r rows o outside = rw (outside, rows_where) refl

  loaded-some : (rows : List VtableRow) (a : ℕ) → loaded rows (some a) ≡ some a
  loaded-some [] a = refl
  loaded-some (r ∷ rows) a = elim (Bool-cases (in_module D m r)) [
    | inl inside ↦ loaded-inside r rows (some a) inside ∙ loaded-some rows a
    | inr outside ↦ loaded-outside r rows (some a) outside ∙ loaded-some rows a
  ]

  -- the row of the pair, and one of another pair
  load_own :
      (r : VtableRow)
      → r.0 ≡ key
      → is_clsid_allowed fltr r.0.0 ≡ true
      → load_one fltr base key (covtable_of D r) none ≡ some (add64 base (r.1.1.1 % 2 ^ 32))
  load_own r its allowed = ground (arith, allowed, (key_iff r.0 key).0 its)

  load_other :
      (r : VtableRow) → (r.0 == key) ≡ false → load_one fltr base key (covtable_of D r) none ≡ none
  load_other r other = ground (arith, other)

  pub loaded-row :
      (row : VtableRow) (rows : List VtableRow)
      → row.0 ≡ key
      → in_module D m row ≡ true
      → is_clsid_allowed fltr row.0.0 ≡ true
      → member row rows ≡ true
      → ((r : VtableRow) → member r rows ≡ true → (r.0 == row.0) ≡ true → r ≡ row)
      → loaded rows none ≡ some (add64 base (row.1.1.1 % 2 ^ 32))
  unfolding member
  loaded-row row [] its inside allowed there only = absurd (ground (arith, there))
  loaded-row row (r ∷ rows) its inside allowed there only = elim (Bool-cases (r.0 == row.0)) [
    | inl same ↦
        let e : r ≡ row = only r (or_left _ _ ((row_iff r r).0 refl)) same in
        loaded-inside r rows none (subst (λ q. in_module D m q ≡ true) (sym e) inside)
        ∙ ap (loaded rows) (
            subst
              (λ q.
                load_one fltr base key (covtable_of D q) none
                ≡ some (add64 base (row.1.1.1 % 2 ^ 32)))
              (sym e) (load_own row its allowed))
        ∙ loaded-some rows _
    | inr other ↦
        let there' : member row rows ≡ true = or_other _ _ there (differs r row other) in
        let rest =
          loaded-row row rows its inside allowed there' (λ q at. only q (or_right _ _ at)) in
        elim (Bool-cases (in_module D m r)) [
          | inl inside' ↦
              loaded-inside r rows none inside'
              ∙ ap (loaded rows) (load_other r (subst (λ k. (r.0 == k) ≡ false) its other))
              ∙ rest
          | inr outside ↦ loaded-outside r rows none outside ∙ rest
        ]
  ]
