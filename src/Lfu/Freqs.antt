-- ===== src/Lfu/Freqs.antt =====
-- comon/lfu_cache.h: `_cache_freqs`, the ordered map from a frequency to the set of the keys that
-- were used so often, as a list in ascending order of the frequency. `none` is a failed assertion.
use comon.Base.{
  ℕ, ◌≤◌, ◌<◌, ◌≡◌, refl, ◌≢◌, Bool, true, false, not, ◌&&◌, ◌||◌, Option, none, some, List, [],
  ◌∷◌, arith, ltb, nat_beq, Bool-cases, inl, inr, Equals, ◌==◌, member, add_member, remove_member,
  member-add_member, member-remove_member,
}

abbrev pub Freqs {ℓ} : Type ℓ → Type ℓ
Freqs K = List (ℕ × List K)

-- The frequencies ascend above a bound, and no set is empty.
abbrev pub Above {ℓ} : {K : Type ℓ} → ℕ → Freqs K → Type ℓ
Above n [] = Unit
Above n ((f, ks) ∷ m) = (n < f) × (ks ≢ []) × Above f m

module _ {ℓ} {K : Type ℓ} where
  -- an emptied set is erased from the map
  unfoldable pub keep : ℕ → List K → Freqs K → Freqs K
  keep f [] m = m
  keep f (k ∷ ks) m = (f, k ∷ ks) ∷ m

  Above-weaken : (n n' : ℕ) (m : Freqs K) → n' ≤ n → Above n m → Above n' m
  Above-weaken n n' [] h a = tt
  Above-weaken n n' ((f, ks) ∷ m) h a = (omega arith, a.1, a.2)

  keep-Above : (n f : ℕ) (ks : List K) (m : Freqs K) → n < f → Above f m → Above n (keep f ks m)
  unfolding keep
  keep-Above n f [] m h a = Above-weaken f n m (omega arith) a
  keep-Above n f (x ∷ ks) m h a = (h, ground arith, a)

module _ {ℓ} {K : Type ℓ} ⦃e : Equals K⦄ where
  unfoldable pub discard_from_frequency : ℕ → K → Freqs K → Option (Freqs K)
  unfolding keep member remove_member
  discard_from_frequency freq key [] = none
  discard_from_frequency freq key ((f, ks) ∷ m) =
      let rest = discard_from_frequency freq key m in
      elim (nat_beq f freq) [
        | true ↦ elim (member key ks) [
          | true ↦ some (keep f (remove_member key ks) m)
          | false ↦ none
        ]
        | false ↦ elim rest [ none ↦ none | some m' ↦ some ((f, ks) ∷ m') ]
      ]

  unfoldable pub add_to_frequency : ℕ → K → Freqs K → Freqs K
  unfolding add_member
  add_to_frequency freq key [] = (freq, key ∷ []) ∷ []
  add_to_frequency freq key ((f, ks) ∷ m) =
      let rest = add_to_frequency freq key m in
      elim (nat_beq f freq) [
        | true ↦ (f, add_member key ks) ∷ m
        | false ↦ elim (ltb freq f) [
          | true ↦ (freq, key ∷ []) ∷ (f, ks) ∷ m
          | false ↦ (f, ks) ∷ rest
        ]
      ]

  -- `pick` is the key at which the iteration of an unordered set begins.
  unfoldable pub extract_least_frequent : (List K → K) → Freqs K → Option (K × Freqs K)
  unfolding keep remove_member
  extract_least_frequent pick [] = none
  extract_least_frequent pick ((f, []) ∷ m) = none
  extract_least_frequent pick ((f, k ∷ ks) ∷ m) =
      let res = pick (k ∷ ks) in some (res, keep f (remove_member res (k ∷ ks)) m)

  -- whether the key stands under the frequency
  unfoldable pub has : Freqs K → ℕ → K → Bool
  unfolding member
  has [] f k = false
  has ((g, ks) ∷ m) f k = (nat_beq g f && member k ks) || has m f k

  has-keep :
      (f g : ℕ) (k : K) (ks : List K) (m : Freqs K)
      → has (keep f ks m) g k ≡ ((nat_beq f g && member k ks) || has m g k)
  unfolding has keep member
  has-keep f g k [] m = ground arith
  has-keep f g k (x ∷ ks) m = refl

  -- nothing stands at or below the bound
  pub has_below : (n f : ℕ) (k : K) (m : Freqs K) → Above n m → f ≤ n → has m f k ≡ false
  unfolding has
  has_below n f k [] a h = refl
  has_below n f k ((g, ks) ∷ m) a h = ground (arith, has_below g f k m a.2)

  pub has-add :
      (f g : ℕ) (k j : K) (m : Freqs K)
      → has (add_to_frequency f k m) g j ≡ ((nat_beq f g && k == j) || has m g j)
  unfolding has add_to_frequency member
  has-add f g k j [] = ground arith
  has-add f g k j ((h, ks) ∷ m) = ground (arith, member-add_member k j ks, has-add f g k j m)

  add_member_ne : (k : K) (ks : List K) → ks ≢ [] → add_member k ks ≢ []
  unfolding add_member
  add_member_ne k ks h = ground arith

  pub add-Above :
      (n f : ℕ) (k : K) (m : Freqs K) → n < f → Above n m → Above n (add_to_frequency f k m)
  unfolding add_to_frequency
  add-Above n f k [] h a = (h, ground arith, tt)
  add-Above n f k ((g, ks) ∷ m) h a = elim (Bool-cases (nat_beq g f)) [
    | inl same ↦ rw (same, add_to_frequency) (a.0, add_member_ne k ks a.1, a.2)
    | inr other ↦ elim (Bool-cases (ltb f g)) [
      | inl less ↦ rw (other, add_to_frequency, less) (h, (λ eq. cc), (ground arith, a.1, a.2))
      | inr more ↦
          rw (other, add_to_frequency, more) (a.0, a.1, add-Above g f k m (ground arith) a.2)
    ]
  ]

  has-shrink :
      (f g : ℕ) (k j : K) (ks : List K) (m : Freqs K)
      → Above f m
      → has (keep f (remove_member k ks) m) g j
        ≡ (not (nat_beq f g && k == j) && ((nat_beq f g && member j ks) || has m g j))
  has-shrink f g k j ks m a = ground (
    arith,
    has-keep f g j (remove_member k ks) m,
    member-remove_member k j ks,
    has_below f g j m a,
  )

  -- taking a key out of its set succeeds and changes nothing else
  pub discard_lem :
      (n f : ℕ) (k : K) (m : Freqs K)
      → Above n m
      → has m f k ≡ true
      → (m' : Freqs K) × (discard_from_frequency f k m ≡ some m')
        × Above n m'
        × ((g : ℕ) (j : K) → has m' g j ≡ (not (nat_beq f g && k == j) && has m g j))
  unfolding has discard_from_frequency
  discard_lem n f k [] a h = ground arith
  discard_lem n f k ((g, ks) ∷ m) a h = elim (Bool-cases (nat_beq g f)) [
    | inl same ↦ elim (Bool-cases (member k ks)) [
      | inl there ↦ (
        keep g (remove_member k ks) m,
        rw (same, discard_from_frequency, there),
        keep-Above n g (remove_member k ks) m a.0 a.2,
        λ i j. ground (arith, has-shrink g i k j ks m a.2),
      )
      | inr gone ↦ absurd (ground (arith, has_below g f k m a.2))
    ]
    | inr other ↦
        let (m', found, above, rest) = discard_lem g f k m a.2 (ground arith) in
        (
          (g, ks) ∷ m',
          rw (other, discard_from_frequency, found),
          (a.0, a.1, above),
          λ i j. ground (arith, rest i j),
        )
  ]

  -- the least set is not empty, and loses the key that `pick` chooses in it
  pub extract_lem :
      (pick : List K → K) (n : ℕ) (m : Freqs K)
      → ((ks : List K) → ks ≢ [] → member (pick ks) ks ≡ true)
      → Above n m
      → m ≢ []
      → (f : ℕ) × (k : K) × (m' : Freqs K) × (extract_least_frequent pick m ≡ some (k, m'))
        × (has m f k ≡ true)
        × ((g : ℕ) (j : K) → has m g j ≡ true → f ≤ g)
        × Above n m'
        × ((g : ℕ) (j : K) → has m' g j ≡ (not (nat_beq f g && k == j) && has m g j))
  unfolding has extract_least_frequent
  extract_lem pick n [] picks a h = absurd (h refl)
  extract_lem pick n ((f, []) ∷ m) picks a h = absurd (a.1 refl)
  extract_lem pick n ((f, x ∷ ks) ∷ m) picks a h =
      let k = pick (x ∷ ks) in
      (
        f,
        k,
        keep f (remove_member k (x ∷ ks)) m,
        refl,
        ground (arith, picks (x ∷ ks) (λ eq. cc)),
        (λ g j there. ground (arith, λ (low : g ≤ f). has_below f g j m a.2 low)),
        keep-Above n f (remove_member k (x ∷ ks)) m a.0 a.2,
        λ g j. has-shrink f g k j (x ∷ ks) m a.2,
      )
