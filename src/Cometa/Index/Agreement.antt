-- ===== src/Cometa/Index/Agreement.antt =====
-- comon/cometa.cpp and comon/cometa.h: what the two `index` methods leave in the cache of types.

use comon.Base.{
  ℕ, ◌≡◌, ◌≢◌, refl, sym, ap, ◌∙◌, ◌⊎◌, inl, inr, Bool, List, [], ◌∷◌, arith, nat_eq, find, codes,
  ◌==◌, list_eq, Text,
}
use comon.Base.Result.{Result}
use comon.Guid.{Guid, try_parse_guid}
use comon.Lfu.Cache.{clear}
use comon.Lfu.Invariant.{IsValid, clear-IsValid}
use comon.Cometa.Types.{Coclass}
use comon.Cometa.Registry.{Registry, win32, get_child_key_names}
use comon.Cometa.TypeLib.{TypeInfos}
use comon.Cometa.Database.{Database, DatabaseLaws}
use comon.Cometa.Writing.{Outcome, returns, fails, stops, Writing, skip, insert_coclass}
use comon.Cometa.Indexing.Rows.{Keeps, Keeps-bind, Keeps-then, write-Keeps, either}
use comon.Cometa.Queries.{Cometa, invalidate_cache}
use comon.Cometa.Queries.Coherence.{Coherent}
use comon.Cometa.Index.{
  insert_classes, insert_interfaces, after_interfaces, index_coclasses, index_interfaces,
  after_classes, after_tlb, index_types_of, index_interfaces_of, index, index_path,
}
use comon.Cometa.Index.Ends.{on_result, reading_ends, Ends, Ends-then, Ends-cotype}

module _ (D : Database) where
  -- the same cache over another database with the same types
  moved :
      (n : ℕ) (c : Cometa D) (db : D.Db)
      → ((k : Guid) → D.cotype k db ≡ D.cotype k c.db)
      → Coherent n c
      → Coherent n (record c { db = db })
  moved n c db same h = record {
    valid = h.valid;
    cached = λ k o f e. let (right, few) = h.cached k o f e in (right ∙ sym (same k), few);
  }

  -- no entry, nothing that could be wrong
  forgotten :
      (n : ℕ) (c : Cometa D) (db : D.Db)
      → IsValid c.cotype_cache
      → Coherent n (record (invalidate_cache D c) { db = db })
  unfolding invalidate_cache clear find
  forgotten n c db v = record {
    valid = clear-IsValid c.cotype_cache v;
    cached = λ k o f e. absurd (ground (arith, e));
  }

  module _ (R : Registry) (O : TypeInfos) (arch_x64 : Bool)
      (iid_from_string : Text → Result Guid) where
    -- an exception of the interfaces leaves the method
    stopped_after :
        (c : Cometa D) (s : D.Db × Outcome (Unit {0}))
        → s.1 ≡ stops
        → (after_interfaces D R O arch_x64 iid_from_string c s).1 ≡ stops
    stopped_after c (db, stops) e = refl
    stopped_after c (db, returns u) e = absurd (ground (arith, e))
    stopped_after c (db, fails hr) e = absurd (ground (arith, e))

    stopped :
        (w : Bool) (c : Cometa D)
        → (index_interfaces D R O arch_x64 iid_from_string c.known_iids w c.db).1 ≡ stops
        → (index_interfaces_of D R O arch_x64 iid_from_string w c).1 ≡ stops
    unfolding index_interfaces_of
    stopped w c e = stopped_after c _ e

    insert_classes-Keeps :
        (P : D.Db → Type 0) (k : R.Key) (names : List Text)
        → ((kl : Coclass) (db : D.Db) → P db → P (D.replace_coclass kl db))
        → Keeps P (insert_classes D R O arch_x64 iid_from_string k names)
    unfolding insert_classes insert_coclass skip
    insert_classes-Keeps P k [] h = λ db p. p
    insert_classes-Keeps P k (name ∷ names) h =
        let go = insert_classes-Keeps P k names h in
        either (Keeps P) (name == codes "CLSID") _ _ go (
          on_result (Keeps P) (try_parse_guid iid_from_string name) _ _
            (λ clsid.
              on_result (Keeps P) (R.reg_open_key_ex k name _) _ _
                (λ key. Keeps-then P _ _ (write-Keeps D P _ (h _)) go) (λ hr. go))
            (λ hr. go))

    insert_interfaces-Ends :
        (known : List Guid) (k : R.Key) (names : List Text)
        → Ends (insert_interfaces D R O arch_x64 iid_from_string known k names)
    unfolding insert_interfaces skip
    insert_interfaces-Ends known k [] = λ db. inl refl
    insert_interfaces-Ends known k (name ∷ names) =
        let go = insert_interfaces-Ends known k names in
        on_result Ends (try_parse_guid iid_from_string name) _ _
          (λ iid.
            on_result Ends (R.reg_open_key_ex k name _) _ _
              (λ key. Ends-then _ _ (Ends-cotype D known _) go) (λ hr. go))
          (λ hr. go)

    returned :
        (m : Writing D.Db (Unit {0})) (db : D.Db)
        → Ends m
        → (m db).1 ≢ stops
        → (db' : D.Db) × (m db ≡ (db', returns tt))
    returned m db h ne = elim (h db) [
      | inl e ↦ ((m db).0, ap (λ (r : Outcome (Unit {0})). ((m db).0, r)) e)
      | inr e ↦ absurd (ne e)
    ]

    module _ (laws : DatabaseLaws D) where
      -- the types that a database holds do not move with the classes
      classes_keep_types :
          (w : Bool) (k : Guid) (db : D.Db)
          → D.cotype k (index_coclasses D R O arch_x64 iid_from_string w db).0 ≡ D.cotype k db
      unfolding index_coclasses
      classes_keep_types w k db =
          Keeps-bind (λ db'. D.cotype k db' ≡ D.cotype k db) _ _ (λ db p. p)
            (λ key db' p.
              insert_classes-Keeps (λ db'. D.cotype k db' ≡ D.cotype k db) key _
                (λ kl db'' q. (laws.replace_coclass_types kl k db'').same_cotype ∙ q) db' p)
            db refl

      -- without an exception, the interfaces fail before anything is written, or they end
      interfaces_end :
          (known : List Guid) (w : Bool) (db : D.Db)
          → (index_interfaces D R O arch_x64 iid_from_string known w db).1 ≢ stops
          → ((db' : D.Db) × (index_interfaces D R O arch_x64 iid_from_string known w db
                ≡ (db', returns tt)))
            ⊎ ((hr : ℕ) × (index_interfaces D R O arch_x64 iid_from_string known w db
                  ≡ (db, fails hr)))
      unfolding index_interfaces
      interfaces_end known w db ne =
          reading_ends (win32 (R.reg_open_key_ex R.local_machine _ _)) _ db
            (λ key.
              returned
                (insert_interfaces D R O arch_x64 iid_from_string known key
                  (get_child_key_names R key))
                db (insert_interfaces-Ends known key _))
            ne

      interfaces-Coherent :
          (n : ℕ) (w : Bool) (c : Cometa D)
          → (index_interfaces D R O arch_x64 iid_from_string c.known_iids w c.db).1 ≢ stops
          → Coherent n c
          → Coherent n (index_interfaces_of D R O arch_x64 iid_from_string w c).0
      unfolding index_interfaces_of index_types_of
      interfaces-Coherent n w c ne h = elim (interfaces_end c.known_iids w c.db ne) [
        | inl (db, e) ↦ rw e (forgotten n (record c { db = db }) _ h.valid)
        | inr (hr, e) ↦ rw e (moved n c c.db (λ k. refl) h)
      ]

      -- the outcome of the interfaces
      interfaces-cases :
          (n : ℕ) (w : Bool) (c : Cometa D)
          → Coherent n c
          → Coherent n (index_interfaces_of D R O arch_x64 iid_from_string w c).0
            ⊎ ((index_interfaces_of D R O arch_x64 iid_from_string w c).1 ≡ stops)
      unfolding index_interfaces_of
      interfaces-cases n w c h = by_outcome _ refl
        where
          by_outcome :
              (r : Outcome (Unit {0}))
              → (index_interfaces D R O arch_x64 iid_from_string c.known_iids w c.db).1 ≡ r
              → Coherent n (index_interfaces_of D R O arch_x64 iid_from_string w c).0
                ⊎ ((index_interfaces_of D R O arch_x64 iid_from_string w c).1 ≡ stops)
          by_outcome stops e = inr (stopped w c e)
          by_outcome (returns u) e =
              inl (interfaces-Coherent n w c (λ s. absurd (ground (arith, e, s))) h)
          by_outcome (fails hr) e =
              inl (interfaces-Coherent n w c (λ s. absurd (ground (arith, e, s))) h)

      after_classes-cases :
          (n : ℕ) (w : Bool) (c : Cometa D) (s : D.Db × Outcome (Unit {0}))
          → ((k : Guid) → D.cotype k s.0 ≡ D.cotype k c.db)
          → Coherent n c
          → Coherent n (after_classes D R O arch_x64 iid_from_string w c s).0
            ⊎ ((after_classes D R O arch_x64 iid_from_string w c s).1 ≡ stops)
      after_classes-cases n w c (db, returns u) same h =
          interfaces-cases n w (record c { db = db }) (moved n c db same h)
      after_classes-cases n w c (db, fails hr) same h = inl (moved n c db same h)
      after_classes-cases n w c (db, stops) same h = inl (moved n c db same h)

      -- Indexing the registry keeps the cache of types in agreement with the database, however far
      -- it comes, unless an exception or an assertion ends it.
      pub index-Coherent :
          (n : ℕ) (w : Bool) (c : Cometa D)
          → Coherent n c
          → Coherent n (index D R O arch_x64 iid_from_string w c).0
            ⊎ ((index D R O arch_x64 iid_from_string w c).1 ≡ stops)
      unfolding index
      index-Coherent n w c h = after_classes-cases n w c _ (λ k. classes_keep_types w k c.db) h

    after_tlb-Coherent :
        (n : ℕ) (c : Cometa D) (s : D.Db × Outcome (Unit {0}))
        → IsValid c.cotype_cache
        → (after_tlb D R O arch_x64 iid_from_string c s).1 ≡ returns tt
        → Coherent n (after_tlb D R O arch_x64 iid_from_string c s).0
    unfolding invalidate_cache
    after_tlb-Coherent n c (db, returns u) v e = forgotten n (record c { db = db }) db v
    after_tlb-Coherent n c (db, fails hr) v e = absurd (ground (arith, e))
    after_tlb-Coherent n c (db, stops) v e = absurd (ground (arith, e))

    -- Where a type library was read to its end, the cache of types agrees with the database
    -- afterwards, whatever the cache held before.
    pub index_path-Coherent :
        (n : ℕ) (tlb_path : Text) (c : Cometa D)
        → IsValid c.cotype_cache
        → (index_path D R O arch_x64 iid_from_string tlb_path c).1 ≡ returns tt
        → Coherent n (index_path D R O arch_x64 iid_from_string tlb_path c).0
    unfolding index_path
    index_path-Coherent n tlb_path c v e = after_tlb-Coherent n c _ v e
