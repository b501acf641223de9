-- ===== src/Cometa/Versions.antt =====
-- comon/cometa_helpers.cpp: the class `version` and `typelib::get_tlbinfo`, with `std::stoi` and
-- `std::getline` of the standard library as they read a version. `none` is a thrown exception.
pub mod Greatest
use Prim.Native.Nat.{compare, Ordering}
use comon.Base.{
  ℕ, zero, suc, ◌+◌, ◌-◌, ◌^◌, Bool, true, false, List, [], ◌∷◌, ◌++◌, Option, none, some, nat_beq,
  ltb, drop, Text, codes,
}
use comon.Base.Result.{Result, ok, err, ◌>>=◌, e_invalidarg}
use comon.Ext.Number.{count_spaces, sign, hex_mark, scan_digits}
use comon.Cometa.Types.{TypelibInfo}
use comon.Cometa.Registry.{Registry, win32, get_child_key_names, read_text_value}

-- an `int32_t`, moved up by 2^31, which keeps the order
abbrev pub int32 : ℕ → ℕ
int32 n = 2 ^ 31 + n

abbrev signed_int32 : Bool → ℕ → Option ℕ
signed_int32 true n = elim (ltb (2 ^ 31) n) [ true ↦ none | false ↦ some (2 ^ 31 - n) ]
signed_int32 false n = elim (ltb n (2 ^ 31)) [ true ↦ some (int32 n) | false ↦ none ]

-- `std::stoi(token, nullptr, 16)`
unfoldable pub stoi : Text → Option ℕ
unfolding count_spaces sign hex_mark scan_digits
stoi t =
    let spaces = count_spaces t in
    let (signs, negative) = sign (drop spaces t) in
    let rest = drop (spaces + signs) t in
    let (value, n) = scan_digits 16 0 0 (drop (hex_mark rest) rest) in
    elim (nat_beq n 0) [ true ↦ none | false ↦ signed_int32 negative value ]

-- `std::getline` up to a dot: the token, and what is behind the dot if there is one
unfoldable pub getline : Text → Text × Option Text
getline [] = ([], none)
getline (c ∷ t) =
    let (token, rest) = getline t in
    elim (nat_beq c b'.') [ true ↦ ([], some t) | false ↦ (c ∷ token, rest) ]

abbrev zeros : ℕ → List ℕ
zeros zero = []
zeros (suc n) = int32 0 ∷ zeros n

abbrev with_front : ℕ → Option (List ℕ) → Option (List ℕ)
with_front v none = none
with_front v (some vs) = some (v ∷ vs)

-- the loop of the constructor, with the number of entries left
unfoldable pub version_nums : ℕ → Text → Option (List ℕ)
unfolding getline stoi
version_nums zero t = some []
version_nums (suc n) t =
    let (token, rest) = getline t in
    elim (stoi token) [
      | none ↦ none
      | some v ↦ elim rest [
        | none ↦ some (v ∷ zeros n)
        | some behind ↦ with_front v (version_nums n behind)
      ]
    ]

pub record Version : Type 0 where
  pub version_nums : List ℕ
  pub text : Text

unfoldable pub new_version : Text → Option Version
new_version t = elim (version_nums 4 t) [
  | none ↦ none
  | some nums ↦ some (record { version_nums = nums; text = t })
]

-- `std::lexicographical_compare_three_way`
unfoldable pub compare_nums : List ℕ → List ℕ → Ordering
compare_nums [] [] = Ordering.eq
compare_nums [] (y ∷ ys) = Ordering.lt
compare_nums (x ∷ xs) [] = Ordering.gt
compare_nums (x ∷ xs) (y ∷ ys) =
    let rest = compare_nums xs ys in
    elim (compare x y) [
      | Ordering.lt ↦ Ordering.lt
      | Ordering.gt ↦ Ordering.gt
      | Ordering.eq ↦ rest
    ]

-- `operator<=>`, and `<` from it
abbrev pub is_below : Version → Version → Bool
is_below v w = elim (compare_nums v.version_nums w.version_nums) [ Ordering.lt ↦ true | _ ↦ false ]

-- `ranges::max_element`
unfoldable pub greatest_from : Version → List Version → Version
greatest_from largest [] = largest
greatest_from largest (v ∷ versions) =
    greatest_from (elim (is_below largest v) [ true ↦ v | false ↦ largest ]) versions

unfoldable pub max_element : List Version → Option Version
max_element [] = none
max_element (v ∷ versions) = some (greatest_from v versions)

-- `ranges::transform` with the constructor
unfoldable pub new_versions : List Text → Option (List Version)
new_versions [] = some []
new_versions (t ∷ texts) =
    let rest = new_versions texts in
    elim (new_version t) [
      | none ↦ none
      | some v ↦ elim rest [ none ↦ none | some vs ↦ some (v ∷ vs) ]
    ]

abbrev pub key_read : ℕ
key_read = 0x20019

-- The registry, and whether the extension was built for x64.
module _ (R : Registry) (arch_x64 : Bool) where
  open R use {Key, reg_open_key_ex}

  unfoldable pub tlbinfo_of_version : Key → Version → Result TypelibInfo
  tlbinfo_of_version typelib_hkey latest_version = do
    latest_version_hkey ← win32 (reg_open_key_ex typelib_hkey latest_version.text key_read)
    name ← read_text_value R latest_version_hkey []
    path ←
        read_text_value R latest_version_hkey
          (elim arch_x64 [ true ↦ codes "0\\win64" | false ↦ codes "0\\win32" ])
    ok (record { name = name; version = latest_version.text; tlb_path = path })

  abbrev pub tlbinfo_of_greatest : Key → List Version → Result TypelibInfo
  tlbinfo_of_greatest typelib_hkey versions = elim (max_element versions) [
    | none ↦ err e_invalidarg
    | some latest_version ↦ tlbinfo_of_version typelib_hkey latest_version
  ]

  unfoldable pub get_tlbinfo : Key → Option (Result TypelibInfo)
  get_tlbinfo typelib_hkey = elim (new_versions (get_child_key_names R typelib_hkey)) [
    | none ↦ none
    | some versions ↦ some (tlbinfo_of_greatest typelib_hkey versions)
  ]
