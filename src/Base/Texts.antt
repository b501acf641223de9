-- ===== src/Base/Texts.antt =====
-- Text of the program, narrow or wide, as the list of its code units.
use Prim.Native.Nat.{ℕ}
use Prim.Native.Char.{code}
use Prim.Native.String.{String}
use mathlib.Core.Path.{◌≡◌, refl}
use mathlib.Core.Bool.{Bool, true, false, ◌&&◌, ◌||◌}
use mathlib.Core.List.{List, [], ◌∷◌, ◌++◌}
use native.Mathlib.Omega.{arith}
use comon.Base.Equality.{◌==◌, nat_eq, list_eq}

abbrev pub Text : Type 0
Text = List ℕ

-- the code units of an ASCII literal
abbrev pub codes : String → Text
codes String.[] = []
codes (String.◌∷◌ c s) = code c ∷ codes s

-- `text.starts_with(prefix)`
unfoldable pub starts_with : Text → Text → Bool
starts_with [] t = true
starts_with (p ∷ ps) [] = false
starts_with (p ∷ ps) (c ∷ t) = p == c && starts_with ps t

-- `text.ends_with(suffix)`
unfoldable pub ends_with : Text → Text → Bool
ends_with s [] = s == []
ends_with s (c ∷ t) = s == c ∷ t || ends_with s t

pub ends_with-append : (t s : Text) → ends_with s (t ++ s) ≡ true
unfolding ends_with
ends_with-append [] [] = refl
ends_with-append [] (c ∷ s) = ground (arith, (list_eq ⦃e = nat_eq⦄).equals_iff (c ∷ s) (c ∷ s))
ends_with-append (c ∷ t) s = ground (arith, ends_with-append t s)
