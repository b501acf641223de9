-- ===== src/Base/Result.antt =====
-- `HRESULT` as a result: `ok` is success, `err` carries the code of the failure.
use Prim.Native.Nat.{ℕ}
use mathlib.Core.Path.{◌≡◌, refl}
use mathlib.Core.Logic.{◌⊎◌, inl, inr}

pub data Result {ℓ} (A : Type ℓ) : Type ℓ where
  ok : A → Result A
  err : ℕ → Result A

infixl 5 ◌>>=◌ ◌>>◌
-- `RETURN_IF_FAILED`
abbrev pub ◌>>=◌ {ℓ κ} : {A : Type ℓ} {B : Type κ} → Result A → (A → Result B) → Result B
ok a >>= f = f a
err hr >>= f = err hr

abbrev pub ◌>>◌ {ℓ κ} : {A : Type ℓ} {B : Type κ} → Result A → Result B → Result B
m >> k = m >>= λ _. k

abbrev pub e_invalidarg : ℕ
e_invalidarg = 0x80070057

abbrev pub e_fail : ℕ
e_fail = 0x80004005

abbrev pub e_notimpl : ℕ
e_notimpl = 0x80004001

abbrev pub e_unexpected : ℕ
e_unexpected = 0x8000ffff

-- `HRESULT_FROM_WIN32(ERROR_NOT_FOUND)`
abbrev pub error_not_found : ℕ
error_not_found = 0x80070490

-- `HRESULT_FROM_WIN32(ERROR_NOT_SUPPORTED)`
abbrev pub error_not_supported : ℕ
error_not_supported = 0x80070032

pub Result-cases {ℓ} :
    {A : Type ℓ} (r : Result A) → ((a : A) × (r ≡ ok a)) ⊎ ((hr : ℕ) × (r ≡ err hr))
Result-cases (ok a) = inl (a, refl)
Result-cases (err hr) = inr (hr, refl)
