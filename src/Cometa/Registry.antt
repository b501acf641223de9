-- ===== src/Cometa/Registry.antt =====
-- comon/cometa_helpers.cpp, namespace `registry`: reading the registry of Windows, whose functions
-- are a parameter.
use comon.Base.{
  ℕ, zero, suc, ◌+◌, ◌^◌, ◌<◌, ◌≡◌, true, false, List, [], ◌∷◌, arith, nat_beq, length, Text,
}
use comon.Base.Result.{Result, ok, err}

-- `HRESULT_FROM_WIN32` of a code below 2^16, and `ERROR_NO_MORE_ITEMS` and `ERROR_MORE_DATA`
abbrev pub hresult_from_win32 : ℕ → ℕ
hresult_from_win32 code = 0x80070000 + code

abbrev pub error_no_more_items : ℕ
error_no_more_items = 259

abbrev pub error_more_data : ℕ
error_more_data = 234

-- `RETURN_IF_WIN32_ERROR`
abbrev pub win32 : {A : Type 0} → Result A → Result A
win32 (ok a) = ok a
win32 (err code) = err (hresult_from_win32 code)

-- the answer of `RegGetValue`, with the length that it wants where the buffer is too small
pub data ValueAnswer : Type 0 where
  text : Text → ValueAnswer
  failed : ℕ → ℕ → ValueAnswer

-- Win32: `RegOpenKeyEx`, `RegEnumKeyEx` and `RegGetValue`; an error is its Win32 code.
pub record Registry : Type 1 where
  pub Key : Type 0
  pub local_machine : Key
  pub reg_open_key_ex : Key → Text → ℕ → Result Key
  pub reg_enum_key_ex : Key → ℕ → Result Text
  pub reg_get_value : Key → Text → ℕ → ValueAnswer

module _ (R : Registry) where
  open R use {Key, reg_enum_key_ex, reg_get_value}

  -- The loop over the index `i`, on fuel.
  unfoldable pub child_key_names_from : ℕ → Key → ℕ → List Text
  child_key_names_from zero parent_hkey i = []
  child_key_names_from (suc fuel) parent_hkey i =
      let rest = child_key_names_from fuel parent_hkey (i + 1) in
      elim (reg_enum_key_ex parent_hkey i) [ err _ ↦ [] | ok key_name ↦ key_name ∷ rest ]

  -- The index is a `DWORD`.
  unfoldable pub get_child_key_names : Key → List Text
  unfolding child_key_names_from
  get_child_key_names parent_hkey = child_key_names_from (2 ^ 32) parent_hkey 0

  -- `wil` turns the code into an `HRESULT`
  abbrev pub answer_value : ValueAnswer → Result Text
  answer_value (text t) = ok t
  answer_value (failed code _) = err (hresult_from_win32 code)

  -- the value of a subkey, with a second try in a greater buffer
  unfoldable pub read_text_value : Key → Text → Result Text
  read_text_value hkey subkey = elim (reg_get_value hkey subkey 1024) [
    | text t ↦ ok t
    | failed code len ↦ elim (nat_beq code error_more_data) [
      | true ↦ answer_value (reg_get_value hkey subkey len)
      | false ↦ err (hresult_from_win32 code)
    ]
  ]

  -- the names of the children of a key from an index on
  abbrev pub Children : Key → ℕ → List Text → Type 0
  Children k i [] = (code : ℕ) × (reg_enum_key_ex k i ≡ err code)
  Children k i (name ∷ names) = (reg_enum_key_ex k i ≡ ok name) × Children k (i + 1) names

  child_key_names_from_lem :
      (fuel : ℕ) (k : Key) (i : ℕ) (names : List Text)
      → length names < fuel
      → Children k i names
      → child_key_names_from fuel k i ≡ names
  unfolding child_key_names_from
  child_key_names_from_lem zero k i names h c = absurd (omega arith)
  child_key_names_from_lem (suc fuel) k i [] h c = let (code, e) = c in ground (arith, e)
  child_key_names_from_lem (suc fuel) k i (name ∷ names) h c =
      ground (arith, child_key_names_from_lem fuel k (i + 1) names, c.0)

  -- A key with fewer than 2^32 children: the loop ends and gives the name of each, in the order of
  -- their indexes.
  pub get_child_key_names_lem :
      (k : Key) (names : List Text)
      → length names < 2 ^ 32
      → Children k 0 names
      → get_child_key_names k ≡ names
  unfolding get_child_key_names
  get_child_key_names_lem k names h c = child_key_names_from_lem (2 ^ 32) k 0 names h c
