-- ===== src/Lfu/Run.antt =====
-- comon/lfu_cache.h as its client `cometa` uses it: a key is read only if it is there.
use comon.Base.{
  ℕ, suc, ◌+◌, ◌≤◌, ◌<◌, ◌≡◌, refl, ◌≢◌, inl, inr, Bool, true, false, Option, none, some, List, [],
  ◌∷◌, ◌∙◌, arith, length, Equals, Option-cases, member, find,
}
use comon.Lfu.Cache.{LfuCache, int32_max, create, clear, contains, get, insert_entry}
use comon.Lfu.Invariant.{IsValid, create-IsValid, clear-IsValid, get_lem}
use comon.Lfu.Spec.{view, Inserts, present, added, replaced, insert_entry-Inserts}

pub data Request {ℓ κ} (K : Type ℓ) (O : Type κ) : Type (ℓ ⊔ κ) where
  read : K → Request K O
  store : K → O → Request K O
  reset : Request K O

module _ {ℓ κ} {K : Type ℓ} {O : Type κ} ⦃e : Equals K⦄ (pick : List K → K) where
  read_entry : LfuCache K O → K → Option (LfuCache K O)
  unfolding contains get
  read_entry c k = elim (contains c k) [
    | false ↦ some c
    | true ↦ elim (get c k) [ none ↦ none | some (c', _) ↦ some c' ]
  ]

  unfoldable pub step : LfuCache K O → Request K O → Option (LfuCache K O)
  unfolding read_entry insert_entry clear
  step c (read k) = read_entry c k
  step c (store k o) = insert_entry pick c k o
  step c reset = some (clear c)

  unfoldable pub run : LfuCache K O → List (Request K O) → Option (LfuCache K O)
  unfolding step
  run c [] = some c
  run c (r ∷ rs) = elim (step c r) [ none ↦ none | some c' ↦ run c' rs ]

module _ {ℓ κ} {K : Type ℓ} {O : Type κ} ⦃e : Equals K⦄ where
  -- no entry was used more often than `n` times
  abbrev pub UsedAtMost : ℕ → LfuCache K O → Type (ℓ ⊔ κ)
  UsedAtMost n c = (k : K) (o : O) (f : ℕ) → find k c.cache ≡ some (o, f) → f ≤ n

  UsedAtMost-Inserts :
      {full : Bool} (n : ℕ) (c c' : LfuCache K O) (key : K) (o : O)
      → 0 < n
      → UsedAtMost n c
      → Inserts full (view c) key o (view c')
      → UsedAtMost n c'
  UsedAtMost-Inserts n c c' key o h u (present r there same) k p f at =
      u k p f (ground (arith, same k))
  UsedAtMost-Inserts n c c' key o h u (added room gone change) k p f at =
      ground (arith, change k, u k p f)
  UsedAtMost-Inserts n c c' key o h u (replaced victim q g crowded gone there least change) k p f
        at =
      ground (arith, change k, u k p f)

module _ {ℓ κ} {K : Type ℓ} {O : Type κ} ⦃e : Equals K⦄ (pick : List K → K)
    (picks : (ks : List K) → ks ≢ [] → member (pick ks) ks ≡ true) where
  read_entry_lem :
      (n : ℕ) (c : LfuCache K O) (k : K)
      → n < int32_max
      → IsValid c
      → UsedAtMost n c
      → (c' : LfuCache K O) × (read_entry pick c k ≡ some c')
        × IsValid c'
        × (c'.capacity ≡ c.capacity)
        × UsedAtMost (suc n) c'
  unfolding read_entry contains
  read_entry_lem n c k small v u = elim (Option-cases (find k c.cache)) [
    | inl gone ↦ (c, ground arith, v, refl, λ j o f at. ground (arith, u j o f at))
    | inr ((o, f), there) ↦
        let (c', got, v', cap, _, change) =
          get_lem c k o f v there (ground (arith, u k o f there)) in
        (c', ground arith, v', cap, λ j p g at. ground (arith, change j, u k o f there, u j p g))
  ]

  step_lem :
      (n : ℕ) (c : LfuCache K O) (r : Request K O)
      → 0 < n
      → n < int32_max
      → IsValid c
      → UsedAtMost n c
      → (c' : LfuCache K O) × (step pick c r ≡ some c')
        × IsValid c'
        × (c'.capacity ≡ c.capacity)
        × UsedAtMost (suc n) c'
  unfolding step clear find
  step_lem n c (read k) h small v u = read_entry_lem n c k small v u
  step_lem n c (store k o) h small v u =
      let (c', done, v', cap, ins) = insert_entry-Inserts pick c k o picks v in
      (
        c',
        done,
        v',
        cap,
        λ j p f at. ground (arith, UsedAtMost-Inserts n c c' k o h u ins j p f at),
      )
  step_lem n c reset h small v u =
      (clear c, refl, clear-IsValid c v, refl, λ j p f at. ground arith)

  run_lem :
      (n : ℕ) (c : LfuCache K O) (rs : List (Request K O))
      → 0 < n
      → n + length rs ≤ int32_max
      → IsValid c
      → UsedAtMost n c
      → (c' : LfuCache K O) × (run pick c rs ≡ some c') × IsValid c' × (c'.capacity ≡ c.capacity)
  unfolding run
  run_lem n c [] h small v u = (c, refl, v, refl)
  run_lem n c (r ∷ rs) h small v u =
      let (c', done, v', cap, u') = step_lem n c r h (omega arith) v u in
      let (c'', rest, v'', cap') = run_lem (suc n) c' rs (omega arith) (omega arith) v' u' in
      (c'', rw (done, run) rest, v'', cap' ∙ cap)

  -- From the constructor on, fewer than 2^31 - 1 requests never fail, whatever order the unordered
  -- sets are iterated in, and leave a valid cache of the capacity asked for.
  pub run-IsValid :
      (cap : ℕ) (rs : List (Request K O))
      → length rs < int32_max
      → (c : LfuCache K O) × (c' : LfuCache K O) × (create (suc cap) ≡ some c)
        × (run pick c rs ≡ some c')
        × IsValid c'
        × (c'.capacity ≡ suc cap)
  unfolding create find
  run-IsValid cap rs small =
      let (c, made, v, empty) = create-IsValid {K = K} {O = O} cap in
      let (c', done, v', same) =
        run_lem 1 c rs (omega arith) (omega arith) v (λ k o f at. ground arith) in
      (c, c', made, done, v', ground arith)
