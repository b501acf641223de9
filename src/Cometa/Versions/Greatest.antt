-- ===== src/Cometa/Versions/Greatest.antt =====
-- comon/cometa_helpers.cpp, `version`, `ranges::max_element` and `get_tlbinfo`: the version that is
-- taken.
use Prim.Native.Nat.{Ordering}
use comon.Base.{
  ℕ, ◌≡◌, refl, inl, inr, ◌⊎◌, Bool, true, false, List, [], ◌∷◌, some, arith, All, Bool-cases,
}
use comon.Cometa.Registry.{Registry, get_child_key_names}
use comon.Cometa.Versions.{
  new_versions, tlbinfo_of_version, get_tlbinfo, Version, compare_nums, is_below, greatest_from,
  max_element,
}

compare_nums_refl : (xs : List ℕ) → compare_nums xs xs ≡ Ordering.eq
unfolding compare_nums
compare_nums_refl [] = refl
compare_nums_refl (x ∷ xs) = ground (arith, compare_nums_refl xs)

is_less : List ℕ → List ℕ → Bool
is_less xs ys = elim (compare_nums xs ys) [ Ordering.lt ↦ true | _ ↦ false ]

less_trans :
    (xs ys zs : List ℕ) → is_less xs ys ≡ false → is_less ys zs ≡ false → is_less xs zs ≡ false
unfolding is_less compare_nums
less_trans [] [] [] h k = refl
less_trans [] [] (z ∷ zs) h k = ground (arith, k)
less_trans [] (y ∷ ys) zs h k = ground (arith, h)
less_trans (x ∷ xs) [] [] h k = refl
less_trans (x ∷ xs) [] (z ∷ zs) h k = ground (arith, k)
less_trans (x ∷ xs) (y ∷ ys) [] h k = refl
less_trans (x ∷ xs) (y ∷ ys) (z ∷ zs) h k = ground (arith, h, k, less_trans xs ys zs)

less_asym : (xs ys : List ℕ) → is_less xs ys ≡ true → is_less ys xs ≡ false
unfolding is_less compare_nums
less_asym [] [] h = refl
less_asym [] (y ∷ ys) h = refl
less_asym (x ∷ xs) [] h = ground (arith, h)
less_asym (x ∷ xs) (y ∷ ys) h = ground (arith, h, less_asym xs ys)

not_below_trans :
    (u v w : Version) → is_below u v ≡ false → is_below v w ≡ false → is_below u w ≡ false
unfolding is_less
not_below_trans u v w h k = less_trans u.version_nums v.version_nums w.version_nums h k

below_asym : (u v : Version) → is_below u v ≡ true → is_below v u ≡ false
unfolding is_less
below_asym u v h = less_asym u.version_nums v.version_nums h

below_irrefl : (v : Version) → is_below v v ≡ false
below_irrefl v = ground (arith, compare_nums_refl v.version_nums)

-- no version of a list is above `v`
abbrev pub Tops : Version → List Version → Type 0
Tops v = All (λ w. is_below v w ≡ false)

-- a version of a list
abbrev pub OneOf : Version → List Version → Type 0
OneOf v [] = ⊥
OneOf v (w ∷ ws) = (v ≡ w) ⊎ OneOf v ws

-- one of the versions, with none above it
pub record IsGreatest (r : Version) (vs : List Version) : Type 0 where
  pub one_of : OneOf r vs
  pub tops : Tops r vs

skip_second : (r a b : Version) (vs : List Version) → OneOf r (a ∷ vs) → OneOf r (a ∷ b ∷ vs)
skip_second r a b vs (inl e) = inl e
skip_second r a b vs (inr o) = inr (inr o)

greatest_from_nil : (l : Version) → greatest_from l [] ≡ l
unfolding greatest_from
greatest_from_nil l = refl

greatest_from_above :
    (l v : Version) (vs : List Version)
    → is_below l v ≡ true
    → greatest_from l (v ∷ vs) ≡ greatest_from v vs
unfolding greatest_from
greatest_from_above l v vs h = ground (arith, h)

greatest_from_under :
    (l v : Version) (vs : List Version)
    → is_below l v ≡ false
    → greatest_from l (v ∷ vs) ≡ greatest_from l vs
unfolding greatest_from
greatest_from_under l v vs h = ground (arith, h)

greatest_from_lem :
    (largest : Version) (vs : List Version) → IsGreatest (greatest_from largest vs) (largest ∷ vs)
greatest_from_lem largest [] =
    rw (greatest_from_nil largest) (record { one_of = inl refl; tops = (below_irrefl largest, tt) })
greatest_from_lem largest (v ∷ vs) = elim (Bool-cases (is_below largest v)) [
  | inl above ↦
      let h = greatest_from_lem v vs in
      rw (greatest_from_above largest v vs above) (record {
        one_of = inr h.one_of;
        tops = (
          not_below_trans (greatest_from v vs) v largest h.tops.0 (below_asym largest v above),
          h.tops,
        );
      })
  | inr under ↦
      let h = greatest_from_lem largest vs in
      rw (greatest_from_under largest v vs under) (record {
        one_of = skip_second (greatest_from largest vs) largest v vs h.one_of;
        tops = (
          h.tops.0,
          (not_below_trans (greatest_from largest vs) largest v h.tops.0 under, h.tops.1),
        );
      })
]

max_element_lem :
    (v : Version) (vs : List Version)
    → (r : Version) × (max_element (v ∷ vs) ≡ some r) × IsGreatest r (v ∷ vs)
unfolding max_element
max_element_lem v vs = (greatest_from v vs, refl, greatest_from_lem v vs)

-- Where the keys below a type library all name versions, and there is one, `get_tlbinfo` reads the
-- name and the path of one of these versions, with none above it in the order of their numbers.
pub get_tlbinfo_lem :
    (R : Registry) (arch_x64 : Bool) (typelib_hkey : R.Key) (v : Version) (vs : List Version)
    → new_versions (get_child_key_names R typelib_hkey) ≡ some (v ∷ vs)
    → (r : Version) × (get_tlbinfo R arch_x64 typelib_hkey
        ≡ some (tlbinfo_of_version R arch_x64 typelib_hkey r))
      × IsGreatest r (v ∷ vs)
unfolding get_tlbinfo
get_tlbinfo_lem R arch_x64 k v vs e =
    let (r, taken, greatest) = max_element_lem v vs in (r, ground (arith, e, taken), greatest)
