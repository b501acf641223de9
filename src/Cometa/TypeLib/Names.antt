-- ===== src/Cometa/TypeLib/Names.antt =====
-- comon/cometa_helpers.cpp, `get_comethod_names`: the names that `index_tlb` counts on, and the
-- array of 64 that they stand in.
use comon.Base.{
  suc, ◌≤◌, ◌<◌, ◌≡◌, refl, ◌⊎◌, inl, inr, List, [], ◌∷◌, ◌++◌, arith, length, length-append, take,
  Text, codes,
}
use comon.Base.Result.{ok}
use comon.Cometa.TypeLib.{TypeInfos, FuncDesc, get_comethod_names}

take-append : (xs ys : List Text) → take (length xs) (xs ++ ys) ≡ xs
take-append [] ys = refl
take-append (x ∷ xs) ys = ground (arith, take-append xs ys)

take-length : (xs : List Text) → take (length xs) xs ≡ xs
take-length [] = refl
take-length (x ∷ xs) = ground (arith, take-length xs)

-- `GetNames` answers the name of the function and those of its parameters, or all but the last,
-- as it does where a property is set. For a function with fewer than 64 parameters the result then
-- has one name for the function and one for each parameter, fits into the array of 64, and starts
-- with the names that were answered.
pub get_comethod_names_lem :
    (O : TypeInfos) (ti : O.TypeInfo) (fd : FuncDesc) (names : List Text)
    → O.get_names ti fd.memid 64 ≡ ok names
    → (length names ≡ suc (length fd.params)) ⊎ (length names ≡ length fd.params)
    → length fd.params < 64
    → (result : List Text) × (get_comethod_names O ti fd ≡ ok result)
      × (length result ≡ suc (length fd.params))
      × (length result ≤ 64)
      × (take (length names) result ≡ names)
unfolding get_comethod_names
get_comethod_names_lem O ti fd names e (inl all) few =
    (names, ground (arith, e, all, few), all, omega arith, take-length names)
get_comethod_names_lem O ti fd names e (inr one_less) few = (
  names ++ codes "rhs" ∷ [],
  ground (arith, e, one_less, few),
  omega (arith, length-append names (codes "rhs" ∷ [])),
  omega (arith, length-append names (codes "rhs" ∷ [])),
  take-append names (codes "rhs" ∷ []),
)
