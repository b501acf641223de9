-- ===== src/Lfu/Cache.antt =====
-- comon/lfu_cache.h: the constructor and the public operations. `none` is a thrown exception, a
-- failed assertion, or the overflow of an `int32_t` frequency, which C++ leaves undefined.
use comon.Base.{
  ℕ, zero, ◌+◌, Bool, true, false, Option, none, some, List, [], length, leb, nat_beq, Equals, find,
  erase, insert, assign,
}
use comon.Lfu.Freqs.{Freqs, discard_from_frequency, add_to_frequency, extract_least_frequent}

pub record LfuCache {ℓ κ} (K : Type ℓ) (O : Type κ) : Type (ℓ ⊔ κ) where
  pub capacity : ℕ
  pub cache : List (K × (O × ℕ))
  pub cache_freqs : Freqs K

-- the greatest `int32_t`
abbrev pub int32_max : ℕ
int32_max = 0x7fffffff

module _ {ℓ κ} {K : Type ℓ} {O : Type κ} where
  -- the constructor, which throws at capacity 0
  unfoldable pub create : ℕ → Option (LfuCache K O)
  create zero = none
  create capacity = some (record { capacity = capacity; cache = []; cache_freqs = [] })

  unfoldable pub clear : LfuCache K O → LfuCache K O
  clear c = record c { cache = []; cache_freqs = [] }

module _ {ℓ κ} {K : Type ℓ} {O : Type κ} ⦃e : Equals K⦄ where
  unfoldable pub contains : LfuCache K O → K → Bool
  unfolding find
  contains c key = elim (find key c.cache) [ none ↦ false | some _ ↦ true ]

  -- the frequency of an entry goes up by one: the two maps change together
  unfoldable pub bump : LfuCache K O → K → O → ℕ → Option (LfuCache K O × O)
  unfolding assign discard_from_frequency add_to_frequency
  bump c key data' freq = elim (discard_from_frequency freq key c.cache_freqs) [
    | none ↦ none
    | some freqs ↦ some (
      record c {
        cache = assign key (data', freq + 1) c.cache;
        cache_freqs = add_to_frequency (freq + 1) key freqs;
      },
      data',
    )
  ]

  unfoldable pub get : LfuCache K O → K → Option (LfuCache K O × O)
  unfolding find bump
  get c key = elim (find key c.cache) [
    | none ↦ none
    | some (data', freq) ↦ elim (nat_beq freq int32_max) [
      | true ↦ none
      | false ↦ bump c key data' freq
    ]
  ]

  -- `_cache.emplace` and `add_to_frequency` of a new key
  unfoldable pub emplace : LfuCache K O → K → O → LfuCache K O
  unfolding insert add_to_frequency
  emplace c key data' = record c {
    cache = insert key (data', 1) c.cache;
    cache_freqs = add_to_frequency 1 key c.cache_freqs;
  }

  -- frees the place of a least frequent key, which the assertions want in a cache that is just full
  unfoldable pub evict : (List K → K) → LfuCache K O → Option (LfuCache K O)
  unfolding extract_least_frequent erase
  evict pick c = elim (nat_beq (length c.cache) c.capacity) [
    | false ↦ none
    | true ↦ elim (extract_least_frequent pick c.cache_freqs) [
      | none ↦ none
      | some (victim, freqs) ↦ some (record c { cache = erase victim c.cache; cache_freqs = freqs })
    ]
  ]

  unfoldable pub insert_entry : (List K → K) → LfuCache K O → K → O → Option (LfuCache K O)
  unfolding contains evict emplace
  insert_entry pick c key data' = elim (contains c key) [
    | true ↦ some c
    | false ↦ elim (leb c.capacity (length c.cache)) [
      | false ↦ some (emplace c key data')
      | true ↦ elim (evict pick c) [ none ↦ none | some c' ↦ some (emplace c' key data') ]
    ]
  ]
