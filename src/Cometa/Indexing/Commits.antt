-- ===== src/Cometa/Indexing/Commits.antt =====
-- comon/cometa.cpp, `index_tlb`: what the transactions and the set of known identifiers guard.
use comon.Base.{
  ◌≡◌, ◌≢◌, refl, ap, ◌∙◌, true, false, List, [], ◌∷◌, arith, nat_beq, nat_eq, member, Text,
}
use comon.Base.Result.{Result, ok, err}
use comon.Guid.{Guid}
use comon.Cometa.Types.{Cotype, CotypeKind, interface, disp_interface}
use comon.Cometa.TypeLib.{TypeInfos, TypeAttr, get_type_parent_iid}
use comon.Cometa.Database.{
  Database, DatabaseLaws, Writes, none_yet, write_cotype, write_method, write_arg, SameType,
}
use comon.Cometa.Writing.{
  Outcome, returns, fails, stops, Writing, continue, close, ◌>>=◌, ◌>>◌, skip, transaction,
  insert_cotype, insert_coclass,
}
use comon.Cometa.Indexing.{reading, index_funcs, index_type, index_typeinfo, index_types, index_tlb}
use comon.Cometa.Indexing.Rows.{
  Closed, Keeps, either, Keeps-bind, Keeps-then, insert_cotype-Keeps, index_funcs-Keeps,
  write-Keeps,
}

module _ (D : Database) where
  SameType-refl : (iid : Guid) (db : D.Db) → SameType D iid db db
  SameType-refl iid db = record { same_cotype = refl; same_methods = refl; same_args = λ n. refl }

  SameType-trans :
      {iid : Guid} {a b c : D.Db} → SameType D iid a b → SameType D iid b c → SameType D iid a c
  SameType-trans h k = record {
    same_cotype = h.same_cotype ∙ k.same_cotype;
    same_methods = h.same_methods ∙ k.same_methods;
    same_args = λ n. h.same_args n ∙ k.same_args n;
  }

  Writes-Closed : (known : List Guid) (start : D.Db) → Closed D known (Writes D start)
  Writes-Closed known start = record {
    cotype = λ t db new w. write_cotype t db w;
    method = λ m db new w. write_method m db w;
    arg = λ iid n r db new w. write_arg iid n r db w;
  }

  apart : (known : List Guid) (a b : Guid) → member a known ≡ false → member b known ≡ true → a ≢ b
  apart known a b new there e = absurd (ground (arith, new, there, ap (λ x. member x known) e))

  module _ (laws : DatabaseLaws D) where
    SameType-Closed :
        (known : List Guid) (iid : Guid) (start : D.Db)
        → member iid known ≡ true
        → Closed D known (λ db. SameType D iid db start)
    SameType-Closed known iid start there = record {
      cotype = λ t db new s.
          SameType-trans (laws.replace_cotype_other t iid db (apart known t.iid iid new there)) s;
      method = λ m db new s.
          SameType-trans (laws.replace_method_other m iid db (apart known m.iid iid new there)) s;
      arg = λ i n r db new s.
          SameType-trans (laws.replace_arg_other i n r iid db (apart known i iid new there)) s;
    }

    -- how a transaction whose body only wrote ends, where it does not return
    close_fails :
        (iid : Guid) (db db' : D.Db) (r : Outcome (Unit {0}))
        → Writes D (D.begin_transaction db) db'
        → (close D db' r).1 ≢ returns tt
        → SameType D iid (close D db' r).0 db
    close_fails iid db db' (returns u) w ne = absurd (ne refl)
    close_fails iid db db' (fails hr) w ne = laws.rollback_types iid db db' w
    close_fails iid db db' stops w ne = laws.rollback_types iid db db' w

    close-Keeps :
        (iid : Guid) (start db db' : D.Db) (r : Outcome (Unit {0}))
        → Writes D (D.begin_transaction db) db'
        → SameType D iid db start
        → SameType D iid db' start
        → SameType D iid (close D db' r).0 start
    close-Keeps iid start db db' (returns u) w s s' = SameType-trans (laws.commit_types iid db') s'
    close-Keeps iid start db db' (fails hr) w s s' =
        SameType-trans (laws.rollback_types iid db db' w) s
    close-Keeps iid start db db' stops w s s' = SameType-trans (laws.rollback_types iid db db' w) s

    transaction-Keeps :
        (body : Writing D.Db (Unit {0})) (iid : Guid) (start : D.Db)
        → ((start : D.Db) → Keeps (Writes D start) body)
        → Keeps (λ db. SameType D iid db start) body
        → Keeps (λ db. SameType D iid db start) (transaction D body)
    unfolding transaction
    transaction-Keeps body iid start writes same db s =
        close-Keeps iid start db _ (body (D.begin_transaction db)).1
          (writes (D.begin_transaction db) (D.begin_transaction db) none_yet) s
          (same (D.begin_transaction db) (SameType-trans (laws.begin_types iid db) s))

    transaction_fails :
        (body : Writing D.Db (Unit {0})) (iid : Guid) (db : D.Db)
        → ((start : D.Db) → Keeps (Writes D start) body)
        → (transaction D body db).1 ≢ returns tt
        → SameType D iid (transaction D body db).0 db
    unfolding transaction
    transaction_fails body iid db writes ne =
        close_fails iid db _ (body (D.begin_transaction db)).1
          (writes (D.begin_transaction db) (D.begin_transaction db) none_yet) ne

-- a method that starts by reading and does not return
reading_fails :
    {Db A : Type 0} (P : Db → Type 0) (k : A → Writing Db (Unit {0})) (r : Result A) (db : Db)
    → P db
    → ((a : A) → (k a db).1 ≢ returns tt → P (k a db).0)
    → ((reading r >>= k) db).1 ≢ returns tt
    → P ((reading r >>= k) db).0
unfolding ◌>>=◌ continue
reading_fails P k (ok a) db p h ne = h a ne
reading_fails P k (err code) db p h ne = p

module _ (D : Database) (laws : DatabaseLaws D) (O : TypeInfos) (known : List Guid) where
  -- the statements of one type, inside of its transaction
  body-Keeps :
      (P : D.Db → Type 0) (ti : O.TypeInfo) (attr : TypeAttr) (kind : CotypeKind) (t : Cotype)
      → Closed D known P
      → Keeps P (insert_cotype D known t >> index_funcs D O known attr.c_funcs ti attr kind 0)
  body-Keeps P ti attr kind t closed =
      Keeps-then P _ _ (insert_cotype-Keeps D known P closed t)
        (index_funcs-Keeps D known P closed O ti attr.c_funcs attr kind 0)

  -- Where reading an interface does not return, be it that a call fails, at whatever place, that a
  -- statement of the database throws or that an assertion does not hold, the types, methods and
  -- arguments of every identifier are in the database as they were before: the methods that were read
  -- are rolled back.
  pub index_type_fails :
      (ti : O.TypeInfo) (attr : TypeAttr) (name : Text) (kind : CotypeKind) (db : D.Db) (iid : Guid)
      → (index_type D O known ti attr name kind db).1 ≢ returns tt
      → SameType D iid (index_type D O known ti attr name kind db).0 db
  unfolding index_type
  index_type_fails ti attr name kind db iid =
      reading_fails (λ db'. SameType D iid db' db) _
        (get_type_parent_iid O ti kind attr.c_impl_types) db (SameType-refl D iid db)
        (λ parent.
          transaction_fails D laws _ iid db
            (λ start. body-Keeps (Writes D start) ti attr kind _ (Writes-Closed D known start)))

  types-Keeps :
      (iid : Guid) (start : D.Db) (ti : O.TypeInfo) (attr : TypeAttr) (name : Text)
      (kind : CotypeKind)
      → member iid known ≡ true
      → Keeps (λ db. SameType D iid db start) (index_type D O known ti attr name kind)
  unfolding index_type
  types-Keeps iid start ti attr name kind there =
      Keeps-bind _ _ _ (λ db s. s)
        (λ parent.
          transaction-Keeps D laws _ iid start
            (λ start. body-Keeps (Writes D start) ti attr kind _ (Writes-Closed D known start))
            (body-Keeps _ ti attr kind _ (SameType-Closed D laws known iid start there)))

  typeinfo-Keeps :
      (iid : Guid) (start : D.Db) (ti : O.TypeInfo)
      → member iid known ≡ true
      → Keeps (λ db. SameType D iid db start) (index_typeinfo D O known ti)
  unfolding index_typeinfo insert_coclass skip
  typeinfo-Keeps iid start ti there =
      Keeps-bind _ _ _ (λ db s. s)
        (λ name.
          Keeps-bind _ _ _ (λ db s. s)
            (λ attr.
              either (Keeps _) (nat_beq attr.typekind 3) _ _
                (types-Keeps iid start ti attr name interface there)
                (either (Keeps _) (nat_beq attr.typekind 4) _ _
                  (types-Keeps iid start ti attr name disp_interface there)
                  (either (Keeps _) (nat_beq attr.typekind 5) _ _
                    (write-Keeps D (λ db. SameType D iid db start) _
                      (λ db s. SameType-trans D (laws.replace_coclass_types _ iid db) s))
                    (λ db s. s)))))

  index_types-Keeps :
      (iid : Guid) (start : D.Db) (types : List (Result O.TypeInfo))
      → member iid known ≡ true
      → Keeps (λ db. SameType D iid db start) (index_types D O known types)
  unfolding index_types skip
  index_types-Keeps iid start [] there = λ db s. s
  index_types-Keeps iid start (t ∷ types) there =
      Keeps-bind _ _ _ (λ db s. s)
        (λ ti.
          Keeps-then _ _ _ (typeinfo-Keeps iid start ti there)
            (index_types-Keeps iid start types there))

  -- What a database holds about a known identifier, its type, methods and arguments, stays as it is
  -- whatever type library is read, whether that succeeds, fails or ends in an exception.
  pub index_tlb-known :
      (tlb_path : Text) (iid : Guid) (db : D.Db)
      → member iid known ≡ true
      → SameType D iid (index_tlb D O known tlb_path db).0 db
  unfolding index_tlb
  index_tlb-known tlb_path iid db there =
      Keeps-bind (λ db'. SameType D iid db' db) _ _ (λ db s. s)
        (λ types. index_types-Keeps iid db types there) db (SameType-refl D iid db)
