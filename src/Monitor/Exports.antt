-- ===== src/Monitor/Exports.antt =====
-- comon/comonitor.cpp, `get_exported_function_addr`: where a module has a function, by its export
-- table or by its symbols.
use comon.Base.{
  little_endian, add64, ℕ, zero, suc, ◌+◌, ◌*◌, ◌<◌, ◌≤◌, ◌≡◌, refl, ◌∙◌, Bool, true, false, List,
  [], ◌∷◌, ◌++◌, nat_beq, nat_eq, list_eq, ◌==◌, length, Text, inl, inr, Bool-cases, arith, map,
}
use comon.Base.Result.{Result, ok, err, ◌>>=◌, error_not_found, error_not_supported}
use comon.Engine.{Engine, ExportTable}
use comon.Monitor.Types.{DebuggeeType, live, time_travel, memory_dump, unknown}

-- the name with its terminating zero, and nothing else
abbrev pub is_name : Text → Result (List ℕ) → Bool
is_name name (err hr) = false
is_name name (ok bytes) = bytes == name ++ 0 ∷ []

abbrev pub sanitized : Text → Text
sanitized = map (λ c. elim (nat_beq c b'.') [ true ↦ b'_' | false ↦ c ])

module _ (E : Engine) (module_base_addr : ℕ) (function_name : Text) (w : E.World) where
  open E use {read_export_directory, read_export_table, read_virtual, get_offset_by_name}

  -- the function behind entry `i` of the names
  unfoldable pub export_address : ExportTable → ℕ → Result ℕ
  export_address t i = do
    ordinal ← read_virtual (add64 module_base_addr (t.address_of_name_ordinals + i * 2)) 2 w
    offset ←
        read_virtual (add64 module_base_addr (t.address_of_functions + little_endian ordinal * 4)) 4
          w
    ok (add64 module_base_addr (little_endian offset))

  -- whether the name at an address is the function's
  unfoldable pub has_name : ℕ → Bool
  has_name addr = is_name function_name (read_virtual addr (length function_name + 1) w)

  -- the loop over `n` entries from entry `i` on
  unfoldable pub find_name : ExportTable → ℕ → ℕ → Result ℕ
  find_name t zero i = err error_not_found
  find_name t (suc n) i = do
    name_addr ← read_virtual (add64 module_base_addr (t.address_of_names + i * 4)) 4 w
    elim (has_name (add64 module_base_addr (little_endian name_addr))) [
      | true ↦ export_address t i
      | false ↦ find_name t n (suc i)
    ]

  unfoldable pub find_in_export_table : Result ℕ
  find_in_export_table = do
    directory ← read_export_directory module_base_addr w
    t ← read_export_table (add64 module_base_addr directory) w
    find_name t t.number_of_names 0

  unfoldable pub find_using_symbols : Text → Result ℕ
  find_using_symbols module_name =
      get_offset_by_name (sanitized module_name ++ b'!' ∷ function_name) w

  unfoldable pub get_exported_function_addr : DebuggeeType → Text → Result ℕ
  get_exported_function_addr live module_name = find_in_export_table
  get_exported_function_addr time_travel module_name = find_using_symbols module_name
  get_exported_function_addr memory_dump module_name = find_using_symbols module_name
  get_exported_function_addr unknown module_name = err error_not_supported

  -- the address of the name of an entry
  abbrev pub Names : ExportTable → ℕ → ℕ → Type 0
  Names t i addr =
      (bytes : List ℕ) × (read_virtual (add64 module_base_addr (t.address_of_names + i * 4)) 4 w
        ≡ ok bytes)
      × (add64 module_base_addr (little_endian bytes) ≡ addr)

  find_name_step :
      (t : ExportTable) (n i addr : ℕ)
      → Names t i addr
      → find_name t (suc n) i
        ≡ elim (has_name addr) [ true ↦ export_address t i | false ↦ find_name t n (suc i) ]
  unfolding find_name
  find_name_step t n i addr (bytes, there, same) = rw (there, ← same) refl

  -- The search of an export table whose names can be read up to the first that matches gives the
  -- function behind that entry, whatever stands behind it in the table.
  pub find_name-first :
      (t : ExportTable) (n i m : ℕ) (addrs : ℕ → ℕ)
      → i ≤ m
      → m < i + n
      → ((j : ℕ) → i ≤ j → j ≤ m → Names t j (addrs j))
      → ((j : ℕ) → i ≤ j → j < m → has_name (addrs j) ≡ false)
      → has_name (addrs m) ≡ true
      → find_name t n i ≡ export_address t m
  unfolding find_name
  find_name-first t zero i m addrs low high names others here = ground arith
  find_name-first t (suc n) i m addrs low high names others here = elim (Bool-cases (nat_beq i m)) [
    | inl same ↦
        let e : i ≡ m = ground arith in
        let first_here : has_name (addrs i) ≡ true = rw e here in
        find_name_step t n i (addrs i) (names i (omega arith) (omega arith))
        ∙ rw (first_here, ← e) refl
    | inr more ↦
        let above : i < m = ground arith in
        find_name_step t n i (addrs i) (names i (omega arith) (omega arith))
        ∙ rw (others i (omega arith) above) (
            find_name-first t n (suc i) m addrs (omega arith) (omega arith)
              (λ j l h. names j (omega arith) h) (λ j l h. others j (omega arith) h) here)
  ]

  -- A table none of whose names matches, where they can be read, has no such function.
  find_name-none :
      (t : ExportTable) (n i : ℕ) (addrs : ℕ → ℕ)
      → ((j : ℕ) → i ≤ j → j < i + n → Names t j (addrs j))
      → ((j : ℕ) → i ≤ j → j < i + n → has_name (addrs j) ≡ false)
      → find_name t n i ≡ err error_not_found
  unfolding find_name
  find_name-none t zero i addrs names others = refl
  find_name-none t (suc n) i addrs names others =
      find_name_step t n i (addrs i) (names i (omega arith) (omega arith))
      ∙ rw (others i (omega arith) (omega arith)) (
          find_name-none t n (suc i) addrs (λ j l h. names j (omega arith) (omega arith))
            (λ j l h. others j (omega arith) (omega arith)))
