-- ===== src/Tests/Images.antt =====
-- comon/comonitor.cpp, `get_exported_function_addr`, at a small image.
use comon.Base.{
  ℕ, zero, suc, ◌≡◌, refl, ◌≤◌, ◌<◌, true, false, List, [], ◌∷◌, nat_beq, list_eq, nat_eq, arith,
  codes,
}
use comon.Base.Result.{ok}
use comon.Engine.{Engine, ExportTable}
use comon.Monitor.Exports.{Names, has_name, find_name, export_address, find_name-first}
use comon.Tests.Debuggee.{small_engine}

-- the bytes at an address: two names, and where they stand
abbrev image : ℕ → List ℕ
image a = elim (nat_beq a 0x10100) [
  | true ↦ 0 ∷ 2 ∷ 0 ∷ 0 ∷ []
  | false ↦ elim (nat_beq a 0x10104) [
    | true ↦ 16 ∷ 2 ∷ 0 ∷ 0 ∷ []
    | false ↦ elim (nat_beq a 0x10200) [
      | true ↦ b'A' ∷ 0 ∷ []
      | false ↦ elim (nat_beq a 0x10210) [ true ↦ b'B' ∷ 0 ∷ [] | false ↦ [] ]
    ]
  ]
]

abbrev image_engine : Engine
image_engine = record small_engine { read_virtual = λ a n w. ok (image a) }

abbrev exports : ExportTable
exports = record {
  number_of_names = 2;
  address_of_functions = 0x300;
  address_of_names = 0x100;
  address_of_name_ordinals = 0x400;
}

abbrev name_at : ℕ → ℕ
name_at zero = 0x10200
name_at (suc j) = 0x10210

exports-Names :
    (j : ℕ) → 0 ≤ j → j ≤ 1 → Names image_engine 0x10000 (codes "B") 0 exports j (name_at j)
exports-Names zero l h = (_, refl, refl)
exports-Names (suc zero) l h = (_, refl, refl)
exports-Names (suc (suc j)) l h = absurd (omega arith)

exports-others :
    (j : ℕ) → 0 ≤ j → j < 1 → has_name image_engine 0x10000 (codes "B") 0 (name_at j) ≡ false
unfolding has_name
exports-others zero l h = refl
exports-others (suc j) l h = absurd (omega arith)

exports-here : has_name image_engine 0x10000 (codes "B") 0 (name_at 1) ≡ true
unfolding has_name
exports-here = refl

find_name-first_example :
    find_name image_engine 0x10000 (codes "B") 0 exports 2 0
    ≡ export_address image_engine 0x10000 (codes "B") 0 exports 1
find_name-first_example =
    find_name-first image_engine 0x10000 (codes "B") 0 exports 2 0 1 name_at (omega arith)
      (omega arith) exports-Names exports-others exports-here
