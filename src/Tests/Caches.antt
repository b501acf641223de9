-- ===== src/Tests/Caches.antt =====
-- comon/lfu_cache.h at concrete requests.
use comon.Base.{ℕ, ◌≡◌, ◌≢◌, refl, true, some, List, [], ◌∷◌, arith, nat_eq, member, find}
use comon.Lfu.Freqs.{has}
use comon.Lfu.Cache.{LfuCache, create, emplace, insert_entry}
use comon.Lfu.Invariant.{IsValid, emplace-IsValid}
use comon.Lfu.Spec.{Inserts, view, insert_entry-Inserts}
use comon.Lfu.Run.{read, store, reset, run, run-IsValid}

-- the key that an unordered set is iterated from
abbrev pub first_key : List ℕ → ℕ
first_key [] = 0
first_key (k ∷ ks) = k

pub first_key_picks : (ks : List ℕ) → ks ≢ [] → member (first_key ks) ks ≡ true
unfolding member
first_key_picks [] h = ground arith
first_key_picks (k ∷ ks) h = ground arith

-- a cache of one place, with an entry
abbrev full_cache : LfuCache ℕ ℕ
full_cache = emplace (record { capacity = 1; cache = []; cache_freqs = [] }) 3 30

empty-IsValid : IsValid {K = ℕ} {O = ℕ} (record { capacity = 1; cache = []; cache_freqs = [] })
unfolding has find
empty-IsValid = record {
  positive = omega arith;
  bounded = omega arith;
  distinct = tt;
  ascending = tt;
  agree = λ f k. refl;
}

full-IsValid : IsValid full_cache
unfolding find
full-IsValid = emplace-IsValid _ 3 30 empty-IsValid refl (omega arith)

insert_entry-Inserts_example :
    (c' : LfuCache ℕ ℕ) × (insert_entry first_key full_cache 4 40 ≡ some c')
    × IsValid c'
    × (c'.capacity ≡ 1)
    × Inserts true (view full_cache) 4 40 (view c')
unfolding emplace
insert_entry-Inserts_example =
    insert_entry-Inserts first_key full_cache 4 40 first_key_picks full-IsValid

run-IsValid_example :
    (c : LfuCache ℕ ℕ) × (c' : LfuCache ℕ ℕ) × (create 2 ≡ some c)
    × (run first_key c (store 3 30 ∷ read 3 ∷ store 4 40 ∷ store 5 50 ∷ reset ∷ []) ≡ some c')
    × IsValid c'
    × (c'.capacity ≡ 2)
run-IsValid_example =
    run-IsValid first_key first_key_picks 1
      (store 3 30 ∷ read 3 ∷ store 4 40 ∷ store 5 50 ∷ reset ∷ []) (omega arith)
