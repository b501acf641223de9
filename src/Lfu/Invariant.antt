-- ===== src/Lfu/Invariant.antt =====
-- comon/lfu_cache.h: what keeps the two maps of the cache in step, and each operation on it.
use comon.Base.{
  ℕ, suc, ◌+◌, ◌≤◌, ◌<◌, ◌≡◌, refl, ◌≢◌, Bool, true, false, Option, none, some, List, [], ◌∷◌,
  arith, length, nat_beq, Equals, ◌==◌, member, find, erase, insert, assign, Distinct, find-erase,
  find-insert, find-assign, length-erase-lt, length-assign, erase-Distinct, insert-Distinct,
  assign-Distinct,
}
use comon.Lfu.Freqs.{has, Above, add_to_frequency, has-add, add-Above, discard_lem, extract_lem}
use comon.Lfu.Cache.{LfuCache, int32_max, create, clear, bump, get, emplace, evict}

-- whether an entry of the first map has the frequency
abbrev pub counted {ℓ} : {O : Type ℓ} → ℕ → Option (O × ℕ) → Bool
counted f none = false
counted f (some (o, g)) = nat_beq g f

counted-some {ℓ} :
    {O : Type ℓ} (f : ℕ) (r : Option (O × ℕ)) → counted f r ≡ true → (o : O) × (r ≡ some (o, f))
counted-some f none h = cc
counted-some f (some (o, g)) h = (o, ground arith)

-- The two maps agree, the frequencies start at 1, no set is empty and no key stands twice.
pub record IsValid {ℓ κ} {K : Type ℓ} {O : Type κ} ⦃e : Equals K⦄ (c : LfuCache K O)
    : Type (ℓ ⊔ κ) where
  pub positive : 0 < c.capacity
  pub bounded : length c.cache ≤ c.capacity
  pub distinct : Distinct c.cache
  pub ascending : Above 0 c.cache_freqs
  pub agree : (f : ℕ) (k : K) → has c.cache_freqs f k ≡ counted f (find k c.cache)

module _ {ℓ κ} {K : Type ℓ} {O : Type κ} ⦃e : Equals K⦄ where
  -- The constructor refuses capacity 0 only, and builds a valid empty cache.
  pub create-IsValid :
      (n : ℕ) → (c : LfuCache K O) × (create (suc n) ≡ some c) × IsValid c × (c.cache ≡ [])
  unfolding create has find
  create-IsValid n = (
    record { capacity = suc n; cache = []; cache_freqs = [] },
    refl,
    record {
      positive = omega arith;
      bounded = omega arith;
      distinct = tt;
      ascending = tt;
      agree = λ f k. refl;
    },
    refl,
  )

  pub clear-IsValid : (c : LfuCache K O) → IsValid c → IsValid (clear c)
  unfolding clear has find
  clear-IsValid c v = record {
    positive = v.positive;
    bounded = omega arith;
    distinct = tt;
    ascending = tt;
    agree = λ f k. refl;
  }

  -- What a use of a key that is there does: the frequency goes up by one, and nothing else moves.
  pub get_lem :
      (c : LfuCache K O) (key : K) (o : O) (f : ℕ)
      → IsValid c
      → find key c.cache ≡ some (o, f)
      → f < int32_max
      → (c' : LfuCache K O) × (get c key ≡ some (c', o))
        × IsValid c'
        × (c'.capacity ≡ c.capacity)
        × (length c'.cache ≡ length c.cache)
        × ((k : K)
            → find k c'.cache ≡ elim (key == k) [ true ↦ some (o, f + 1) | false ↦ find k c.cache ])
  unfolding get bump
  get_lem c key o f v there small =
      let (m, found, above, rest) =
        discard_lem 0 f key c.cache_freqs v.ascending (ground (arith, v.agree f key)) in
      (
        record c {
          cache = assign key (o, f + 1) c.cache;
          cache_freqs = add_to_frequency (f + 1) key m;
        },
        ground arith,
        record {
          positive = v.positive;
          bounded = omega (arith, length-assign key (o, f + 1) c.cache, v.bounded);
          distinct = assign-Distinct key (o, f + 1) c.cache v.distinct;
          ascending = add-Above 0 (f + 1) key m (omega arith) above;
          agree = λ g k. ground (
            arith,
            has-add (f + 1) g key k m,
            rest g k,
            v.agree g k,
            find-assign key k (o, f + 1) (o, f) c.cache there,
            e.equals_iff key k,
          );
        },
        refl,
        length-assign key (o, f + 1) c.cache,
        λ k. find-assign key k (o, f + 1) (o, f) c.cache there,
      )

  length-insert-le :
      (key : K) (v : O × ℕ) (m : List (K × (O × ℕ))) → length (insert key v m) ≤ length m + 1
  unfolding insert
  length-insert-le key v m = ground arith

  -- A new key enters with frequency 1 where there is room.
  pub emplace-IsValid :
      (c : LfuCache K O) (key : K) (o : O)
      → IsValid c
      → find key c.cache ≡ none
      → length c.cache < c.capacity
      → IsValid (emplace c key o)
  unfolding emplace
  emplace-IsValid c key o v gone room = record {
    positive = v.positive;
    bounded = omega (arith, length-insert-le key (o, 1) c.cache);
    distinct = insert-Distinct key (o, 1) c.cache v.distinct;
    ascending = add-Above 0 1 key c.cache_freqs (omega arith) v.ascending;
    agree = λ g k. ground (
      arith,
      has-add 1 g key k c.cache_freqs,
      v.agree g k,
      find-insert key k (o, 1) c.cache gone,
      e.equals_iff key k,
    );
  }

  first_found :
      (m : List (K × (O × ℕ)))
      → 0 < length m
      → (k : K) × (o : O) × (f : ℕ) × (find k m ≡ some (o, f))
  unfolding find
  first_found [] h = absurd (omega arith)
  first_found ((k, (o, f)) ∷ m) h = (k, o, f, ground (arith, e.equals_iff k k))

  -- a full cache has a frequency
  freqs_ne : (c : LfuCache K O) → IsValid c → length c.cache ≡ c.capacity → c.cache_freqs ≢ []
  unfolding has find
  freqs_ne c v full empty =
      let (k, o, f, found) = first_found c.cache (omega (arith, v.positive)) in
      ground (arith, v.agree f k)

  -- Eviction from a full cache removes one key, of which no other key has a smaller frequency.
  pub evict_lem :
      (pick : List K → K) (c : LfuCache K O)
      → ((ks : List K) → ks ≢ [] → member (pick ks) ks ≡ true)
      → IsValid c
      → length c.cache ≡ c.capacity
      → (c' : LfuCache K O) × (victim : K) × (o : O) × (f : ℕ) × (evict pick c ≡ some c')
        × IsValid c'
        × (c'.capacity ≡ c.capacity)
        × (length c'.cache < length c.cache)
        × (find victim c.cache ≡ some (o, f))
        × ((k : K) (p : O) (g : ℕ) → find k c.cache ≡ some (p, g) → f ≤ g)
        × ((k : K) → find k c'.cache ≡ elim (victim == k) [ true ↦ none | false ↦ find k c.cache ])
  unfolding evict
  evict_lem pick c picks v full =
      let (f, victim, m, found, there, least, above, rest) =
        extract_lem pick 0 c.cache_freqs picks v.ascending (freqs_ne c v full) in
      let (o, entry) = counted-some f (find victim c.cache) (ground (arith, v.agree f victim)) in
      let shorter = length-erase-lt victim (o, f) c.cache entry in
      (
        record c { cache = erase victim c.cache; cache_freqs = m },
        victim,
        o,
        f,
        ground arith,
        record {
          positive = v.positive;
          bounded = omega (arith, v.bounded);
          distinct = erase-Distinct victim c.cache v.distinct;
          ascending = above;
          agree = λ g k. ground (
            arith,
            rest g k,
            v.agree g k,
            find-erase victim k c.cache,
            e.equals_iff victim k,
            entry,
          );
        },
        refl,
        shorter,
        entry,
        (λ k p g at. least g k (ground (arith, v.agree g k))),
        λ k. find-erase victim k c.cache,
      )
