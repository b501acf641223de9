-- ===== src/Lfu/Spec.antt =====
-- comon/lfu_cache.h against what a least-frequently-used cache promises: a partial map from keys to
-- data with use counts, in which making room removes an entry of least count.
use comon.Base.{
  ℕ, ◌≤◌, ◌≡◌, refl, ◌≢◌, inl, inr, Bool, true, false, Option, none, some, List, [], arith, length,
  leb, Equals, ◌==◌, Bool-cases, Option-cases, member, find, find-insert,
}
use comon.Lfu.Cache.{LfuCache, contains, emplace, insert_entry}
use comon.Lfu.Invariant.{IsValid, emplace-IsValid, evict_lem}

-- what a client can see: data and use count under each key
abbrev pub View {ℓ κ} : Type ℓ → Type κ → Type (ℓ ⊔ κ)
View K O = K → Option (O × ℕ)

module _ {ℓ κ} {K : Type ℓ} {O : Type κ} ⦃e : Equals K⦄ where
  abbrev pub view : LfuCache K O → View K O
  view c k = find k c.cache

  abbrev pub update : View K O → K → Option (O × ℕ) → View K O
  update m key r k = elim (key == k) [ true ↦ r | false ↦ m k ]

  -- How an insertion may change the view of a cache that is full or not: not at all where the key is
  -- there, by the new entry where there is room, and by the new entry and the loss of one entry of
  -- least count where the cache is full.
  pub data Inserts (full : Bool) (m : View K O) (key : K) (o : O) (m' : View K O)
      : Type (ℓ ⊔ κ) where
    present : (r : O × ℕ) → m key ≡ some r → ((k : K) → m' k ≡ m k) → Inserts full m key o m'
    added :
        full ≡ false
        → m key ≡ none
        → ((k : K) → m' k ≡ update m key (some (o, 1)) k)
        → Inserts full m key o m'
    replaced :
        (victim : K) (p : O) (f : ℕ)
        → full ≡ true
        → m key ≡ none
        → m victim ≡ some (p, f)
        → ((k : K) (q : O) (g : ℕ) → m k ≡ some (q, g) → f ≤ g)
        → ((k : K) → m' k ≡ update (update m victim none) key (some (o, 1)) k)
        → Inserts full m key o m'

  -- Where the key that a set is iterated from is one of the set, `insert` on a valid cache never
  -- fails, keeps the invariant and the capacity, and changes the view as the specification allows:
  -- not at all for a key that is there, else by the new entry alone while there are fewer entries than
  -- the capacity, and by the new entry with the loss of one entry of least count when there are as many
  -- entries as the capacity.
  pub insert_entry-Inserts :
      (pick : List K → K) (c : LfuCache K O) (key : K) (o : O)
      → ((ks : List K) → ks ≢ [] → member (pick ks) ks ≡ true)
      → IsValid c
      → (c' : LfuCache K O) × (insert_entry pick c key o ≡ some c')
        × IsValid c'
        × (c'.capacity ≡ c.capacity)
        × Inserts (leb c.capacity (length c.cache)) (view c) key o (view c')
  unfolding insert_entry contains emplace
  insert_entry-Inserts pick c key o picks v = elim (Option-cases (find key c.cache)) [
    | inr (r, there) ↦ (c, rw (there, contains, insert_entry), v, refl, present r there (λ k. refl))
    | inl gone ↦ elim (Bool-cases (leb c.capacity (length c.cache))) [
      | inl full ↦
          let (c', victim, p, f, done, v', cap, shorter, at, least, kept) =
            evict_lem pick c picks v (ground (arith, v.bounded)) in
          let gone' : find key c'.cache ≡ none = ground (arith, kept key) in
          (
            emplace c' key o,
            ground arith,
            emplace-IsValid c' key o v' gone' (omega (arith, v.bounded)),
            cap,
            replaced victim p f full gone at least
                (λ k. ground (arith, kept k, find-insert key k (o, 1) c'.cache gone')),
          )
      | inr room ↦ (
        emplace c key o,
        ground arith,
        emplace-IsValid c key o v gone (ground arith),
        refl,
        added room gone (λ k. find-insert key k (o, 1) c.cache gone),
      )
    ]
  ]
