-- ===== src/Tests/Store.antt =====
-- A database of metadata in memory, for the runs of comon/cometa.cpp: tables as functions of their
-- keys, with a copy of them from the start of the transaction.
use comon.Base.{
  ℕ, ◌≡◌, ◌≢◌, refl, ap, ◌∙◌, true, false, not, ◌&&◌, ◌||◌, Option, some, List, [], ◌∷◌, arith,
  nat_beq, ◌==◌, Equals, nat_eq, list_eq, pair_eq, member,
}
use comon.Guid.{Guid}
use comon.Engine.{Comethod}
use comon.Cometa.Types.{Cotype, Coclass}
use comon.Cometa.Database.{
  Database, DatabaseLaws, VtableRow, ArgRow, place, SameType, Writes, none_yet, write_cotype,
  write_method, write_arg,
}

pub record Tables : Type 0 where
  pub cotypes : Guid → Option Cotype
  pub methods : Guid → List Comethod
  pub args : Guid → ℕ → List ArgRow
  pub coclasses : Guid → Option Coclass
  pub vtables : List VtableRow

pub record Store : Type 0 where
  pub now : Tables
  pub before : Tables

abbrev pub put : {A : Type 0} → ℕ → A → (ℕ → A) → ℕ → A
put k a f j = elim (nat_beq k j) [ true ↦ a | false ↦ f j ]

module _ {A B : Type 0} ⦃e : Equals A⦄ ⦃f : Equals B⦄ where
  -- the rows with another key
  abbrev pub but : A × B → List (A × B) → List (A × B)
  but row [] = []
  but row (r ∷ rows) = elim (row.0 == r.0) [ true ↦ but row rows | false ↦ r ∷ but row rows ]

  member-but :
      (row r : A × B) (rows : List (A × B))
      → member r (but row rows) ≡ (not (row.0 == r.0) && member r rows)
  unfolding member
  member-but (k, v) (j, u) [] = ground arith
  member-but (k, v) (j, u) ((i, w) ∷ rows) =
      ground
        (arith, e.equals_iff k j, e.equals_iff i j, e.equals_iff k i, member-but (k, v) (j, u) rows)

abbrev pub memory : Database
memory = record {
  Db = Store;
  begin_transaction = λ db. record { now = db.now; before = db.now };
  commit = λ db. record { now = db.now; before = db.now };
  throws = λ db. false;
  rollback = λ db. record { now = db.before; before = db.before };
  replace_cotype =
      λ t db. record db { now = record db.now { cotypes = put t.iid (some t) db.now.cotypes } };
  replace_cotype_method = λ m db. record db {
    now = record db.now {
      methods = put m.iid (place (λ m. m.ordinal) m (db.now.methods m.iid)) db.now.methods;
    };
  };
  replace_cotype_method_arg = λ iid n r db. record db {
    now = record db.now {
      args = put iid (put n (place (λ r. r.0) r (db.now.args iid n)) (db.now.args iid)) db.now.args;
    };
  };
  replace_coclass = λ c db. record db {
    now = record db.now { coclasses = put c.clsid (some c) db.now.coclasses };
  };
  replace_vtable =
      λ row db. record db { now = record db.now { vtables = row ∷ but row db.now.vtables } };
  cotype = λ iid db. db.now.cotypes iid;
  coclass = λ clsid db. db.now.coclasses clsid;
  cotype_methods = λ iid db. db.now.methods iid;
  cotype_method_args = λ iid n db. db.now.args iid n;
  vtables = λ db. db.now.vtables;
}

put_same : {A : Type 0} (k : ℕ) (a : A) (f : ℕ → A) → put k a f k ≡ a
put_same k a f = ground arith

put_other : {A : Type 0} (k j : ℕ) (a : A) (f : ℕ → A) → k ≢ j → put k a f j ≡ f j
put_other k j a f h = ground (arith, nat_eq.equals_iff k j)

Writes-before : (start db : Store) → Writes memory start db → db.before ≡ start.before
Writes-before start db none_yet = refl
Writes-before start db (write_cotype t db' w) = Writes-before start db' w
Writes-before start db (write_method m db' w) = Writes-before start db' w
Writes-before start db (write_arg iid n r db' w) = Writes-before start db' w

same_tables : (iid : Guid) (a b : Store) → a.now ≡ b.now → SameType memory iid a b
same_tables iid a b e = record {
  same_cotype = ap (λ t. t.cotypes iid) e;
  same_methods = ap (λ t. t.methods iid) e;
  same_args = λ n. ap (λ t. t.args iid n) e;
}

pub memory_laws : DatabaseLaws memory
unfolding member
memory_laws = record {
  cotype_replaced = λ t db. put_same t.iid (some t) db.now.cotypes;
  replace_cotype_other = λ t iid db other. record {
    same_cotype = put_other t.iid iid (some t) db.now.cotypes other;
    same_methods = refl;
    same_args = λ n. refl;
  };
  methods_replaced = λ m db. put_same m.iid _ db.now.methods;
  replace_method_other = λ m iid db other. record {
    same_cotype = refl;
    same_methods =
        put_other m.iid iid (place (λ m. m.ordinal) m (db.now.methods m.iid)) db.now.methods other;
    same_args = λ n. refl;
  };
  args_replaced = λ iid n r db.
      ap (λ (f : ℕ → List ArgRow). f n) (put_same iid _ db.now.args)
      ∙ put_same n _ (db.now.args iid);
  replace_arg_other = λ i n r iid db other. record {
    same_cotype = refl;
    same_methods = refl;
    same_args = λ k.
        ap (λ (f : ℕ → List ArgRow). f k)
          (put_other i iid (put n (place (λ (r : ArgRow). r.0) r (db.now.args i n)) (db.now.args i))
            db.now.args other);
  };
  coclass_replaced = λ c db. put_same c.clsid (some c) db.now.coclasses;
  replace_coclass_types =
      λ c iid db. record { same_cotype = refl; same_methods = refl; same_args = λ n. refl };
  vtables_replaced = λ row r db. ap (λ b. row == r || b) (member-but row r db.now.vtables);
  begin_types = λ iid db. same_tables iid _ _ refl;
  commit_types = λ iid db. same_tables iid _ _ refl;
  rollback_types = λ iid db db' w. same_tables iid _ _ (Writes-before _ _ w);
}
