-- ===== src/Cometa/Queries/Coherence.antt =====
-- comon/cometa.cpp, `resolve_type` with its cache against the database.
use comon.Base.{
  Bool, ℕ, suc, ◌≤◌, ◌<◌, ◌≡◌, ◌≢◌, refl, inl, inr, true, List, [], Option, none, some, arith,
  nat_eq, member, find, Option-cases,
}
use comon.Guid.{Guid}
use comon.Lfu.Cache.{LfuCache, int32_max, contains, get, insert_entry}
use comon.Lfu.Invariant.{IsValid, get_lem}
use comon.Lfu.Spec.{Inserts, present, added, replaced, view, insert_entry-Inserts}
use comon.Cometa.Types.{Cotype}
use comon.Cometa.Database.{Database}
use comon.Cometa.Queries.{Cometa, resolve_type}

-- what a set is iterated from is one of its members
abbrev pub Picks : (List Guid → Guid) → Type 0
Picks pick = (ks : List Guid) → ks ≢ [] → member (pick ks) ks ≡ true

-- each cached answer is the one that the database gives now, and none was used more than `n` times
abbrev pub Cached : {D : Database} → ℕ → Cometa D → Type 0
Cached {D} n c =
    (k : Guid) (o : Option Cotype) (f : ℕ)
    → find k c.cotype_cache.cache ≡ some (o, f)
    → (o ≡ D.cotype k c.db) × (f ≤ n)

pub record Coherent {D : Database} (n : ℕ) (c : Cometa D) : Type 0 where
  pub valid : IsValid c.cotype_cache
  pub cached : Cached n c

pub weaken : {D : Database} {n m : ℕ} {c : Cometa D} → n ≤ m → Coherent n c → Coherent m c
weaken le h = record {
  valid = h.valid;
  cached = λ k o f e. let (right, few) = h.cached k o f e in (right, omega arith);
}

-- an insertion of what the database says
Inserts-cached :
    {full : Bool} (lookup : Guid → Option Cotype) (n : ℕ) (key : Guid)
    (a b : LfuCache Guid (Option Cotype))
    → Inserts full (view a) key (lookup key) (view b)
    → ((k : Guid) (o : Option Cotype) (f : ℕ)
        → find k a.cache ≡ some (o, f)
        → (o ≡ lookup k) × (f ≤ n))
    → (k : Guid) (o : Option Cotype) (f : ℕ) → find k b.cache ≡ some (o, f)
    → (o ≡ lookup k) × (f ≤ suc n)
Inserts-cached lookup n key a b (present r there same) h k o f e = ground (arith, same k, h k o f)
Inserts-cached lookup n key a b (added room gone at) h k o f e =
    ground (arith, at k, h k o f, nat_eq.equals_iff key k)
Inserts-cached lookup n key a b (replaced victim p g crowded gone there least at) h k o f e =
    ground (arith, at k, h k o f, nat_eq.equals_iff key k, nat_eq.equals_iff victim k)

module _ (D : Database) (pick : List Guid → Guid) where
  resolve_type_miss :
      (iid : Guid) (c : Cometa D) (cache : LfuCache Guid (Option Cotype))
      → find iid c.cotype_cache.cache ≡ none
      → insert_entry pick c.cotype_cache iid (D.cotype iid c.db) ≡ some cache
      → resolve_type D pick iid c ≡ some (record c { cotype_cache = cache }, D.cotype iid c.db)
  unfolding resolve_type contains
  resolve_type_miss iid c cache gone done = ground (arith, gone, done)

  resolve_type_hit :
      (iid : Guid) (c : Cometa D) (o : Option Cotype) (f : ℕ)
      (cache : LfuCache Guid (Option Cotype))
      → find iid c.cotype_cache.cache ≡ some (o, f)
      → get c.cotype_cache iid ≡ some (cache, o)
      → resolve_type D pick iid c ≡ some (record c { cotype_cache = cache }, o)
  unfolding resolve_type contains
  resolve_type_hit iid c o f cache there done = ground (arith, there, done)

  -- Where the cache agrees with the database and no entry was used 2^31 - 1 times, `resolve_type`
  -- does not fail, answers what the database says, changes nothing but the cache, and the cache
  -- agrees with the database afterwards.
  pub resolve_type_lem :
      (n : ℕ) (iid : Guid) (c : Cometa D)
      → Picks pick
      → Coherent n c
      → n < int32_max
      → (c' : Cometa D) × (resolve_type D pick iid c ≡ some (c', D.cotype iid c.db))
        × Coherent (suc n) c'
        × (c'.db ≡ c.db)
        × (c'.known_iids ≡ c.known_iids)
  resolve_type_lem n iid c picks h small = elim (Option-cases (find iid c.cotype_cache.cache)) [
    | inl gone ↦
        let (cache, done, v, cap, ins) =
          insert_entry-Inserts pick c.cotype_cache iid (D.cotype iid c.db) picks h.valid in
        (
          record c { cotype_cache = cache },
          resolve_type_miss iid c cache gone done,
          record {
            valid = v;
            cached = Inserts-cached (λ k. D.cotype k c.db) n iid c.cotype_cache cache ins h.cached;
          },
          refl,
          refl,
        )
    | inr ((o, f), there) ↦
        let (right, few) = h.cached iid o f there in
        let (cache, done, v, cap, len, at) =
          get_lem c.cotype_cache iid o f h.valid there (omega arith) in
        (
          record c { cotype_cache = cache },
          rw (← right) (resolve_type_hit iid c o f cache there done),
          record {
            valid = v;
            cached = λ k p g e.
                ground (arith, at k, h.cached k p g, e, right, few, nat_eq.equals_iff iid k);
          },
          refl,
          refl,
        )
  ]
