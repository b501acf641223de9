-- ===== src/CallContext/Frame.antt =====
-- comon/arch.cpp: what `read_method_frame` reads for every argument, and which frames it refuses.
use mathlib.Core.Path.{subst}
use comon.Base.{
  ℕ, suc, ◌+◌, ◌*◌, ◌≡◌, refl, Bool, true, false, not, ◌&&◌, ◌||◌, List, [], ◌∷◌, inl, inr,
  Bool-cases, arith, nat_beq, ltb, length, add64, Text, codes, take, drop, little_endian, ap, sym,
  ◌==◌, list_eq, nat_eq,
}
use comon.Base.Result.{ok, err, e_notimpl}
use comon.Arch.{Arch, x86, x64, is_64bit, pointer_size, cc_stdcall}
use comon.Engine.{Engine}
use comon.CallContext.Types.{is_primitive_type, is_float_type, is_pointer_type}
use comon.CallContext.{
  value_at, stack_slot, get_nth_arg_value, get_arg_values, get_stack_base, get_reg_values,
  read_method_frame,
}

-- whether a value of the type fits a register or a slot
abbrev pub is_supported : Text → Bool
is_supported type = is_primitive_type type || (is_pointer_type type || is_float_type type)

-- types of 8 bytes on an architecture of 4 bytes
abbrev pub is_wide : Text → Bool
is_wide type = type == codes "int64" || (type == codes "uint64" || type == codes "double")

-- the bytes that an argument takes on the stack
abbrev pub bytes_of : Arch → Text → ℕ
bytes_of (x86 is_wow64 esp eax) type = elim (is_wide type) [ true ↦ 8 | false ↦ 4 ]
bytes_of (x64 rsp rax reg_args) type = 8

-- all bytes of an argument, from where those in front of it end
abbrev pub on_stack : Arch → List ℕ → ℕ → Text → ℕ
on_stack a buffer start type = little_endian (take (bytes_of a type) (drop start buffer))

-- Where the convention keeps argument `n`, which starts at a byte of the stack: on x64 the first four
-- in the registers for integers, or in those for floating point numbers behind them, all others on the
-- stack, each behind the one in front of it.
abbrev pub home : Arch → List ℕ → List ℕ → ℕ → ℕ → Text → ℕ
home (x86 is_wow64 esp eax) regs buffer n start type =
    on_stack (x86 is_wow64 esp eax) buffer start type
home (x64 rsp rax reg_args) regs buffer n start type = elim (ltb n 4) [
  | false ↦ on_stack (x64 rsp rax reg_args) buffer start type
  | true ↦ elim (is_primitive_type type || is_pointer_type type) [
    | true ↦ value_at regs n
    | false ↦ value_at regs (n + 4)
  ]
]

-- the values of the arguments from argument `n` on
abbrev pub homes : Arch → List ℕ → List ℕ → ℕ → ℕ → List Text → List ℕ
homes a regs buffer n start [] = []
homes a regs buffer n start (type ∷ types) =
    home a regs buffer n start type ∷ homes a regs buffer (suc n) (start + bytes_of a type) types

-- the argument fits one slot of the stack
abbrev pub is_narrow : Arch → Text → Bool
is_narrow a type = is_64bit a || not (is_wide type)

abbrev pub all_narrow : Arch → List Text → Bool
all_narrow a [] = true
all_narrow a (type ∷ types) = is_narrow a type && all_narrow a types

abbrev pub all_supported : List Text → Bool
all_supported [] = true
all_supported (type ∷ types) = is_supported type && all_supported types

bytes_narrow : (a : Arch) (type : Text) → is_narrow a type ≡ true → bytes_of a type ≡ pointer_size a
unfolding pointer_size
bytes_narrow (x86 wow64 esp eax) type h = ground (arith, h)
bytes_narrow (x64 rsp rax reg_args) type h = refl

slot-on_stack :
    (a : Arch) (buffer : List ℕ) (n : ℕ) (type : Text)
    → is_narrow a type ≡ true
    → stack_slot a buffer n ≡ on_stack a buffer (n * pointer_size a) type
unfolding stack_slot
slot-on_stack a buffer n type h =
    ap (λ (k : ℕ). little_endian (take k (drop (n * pointer_size a) buffer)))
      (sym (bytes_narrow a type h))

nth_supported :
    (a : Arch) (regs buffer : List ℕ) (n : ℕ) (type : Text)
    → is_supported type ≡ true
    → is_narrow a type ≡ true
    → get_nth_arg_value a regs buffer n type ≡ ok (home a regs buffer n (n * pointer_size a) type)
unfolding get_nth_arg_value
nth_supported (x86 wow64 esp eax) regs buffer n type h narrow =
    ground (arith, slot-on_stack (x86 wow64 esp eax) buffer n type narrow)
nth_supported (x64 rsp rax reg_args) regs buffer n type h narrow =
    ground (arith, slot-on_stack (x64 rsp rax reg_args) buffer n type narrow)

nth_unsupported :
    (a : Arch) (regs buffer : List ℕ) (n : ℕ) (type : Text)
    → is_supported type ≡ false
    → get_nth_arg_value a regs buffer n type ≡ err e_notimpl
unfolding get_nth_arg_value
nth_unsupported (x86 wow64 esp eax) regs buffer n type h = ground arith
nth_unsupported (x64 rsp rax reg_args) regs buffer n type h = ground arith

next_slot :
    (a : Arch) (n : ℕ) (type : Text)
    → is_narrow a type ≡ true
    → n * pointer_size a + bytes_of a type ≡ suc n * pointer_size a
next_slot a n type fits = ground (arith, bytes_narrow a type fits)

get_arg_values_lem :
    (a : Arch) (regs buffer : List ℕ) (n : ℕ) (types : List Text)
    → all_narrow a types ≡ true
    → get_arg_values a regs buffer n types ≡ elim (all_supported types) [
      | true ↦ ok (homes a regs buffer n (n * pointer_size a) types)
      | false ↦ err e_notimpl
    ]
unfolding get_arg_values
get_arg_values_lem a regs buffer n [] narrow = refl
get_arg_values_lem a regs buffer n (type ∷ types) narrow =
    let fits : is_narrow a type ≡ true = ground (arith, narrow) in
    let fit : all_narrow a types ≡ true = ground (arith, narrow) in
    elim (Bool-cases (is_supported type)) [
      | inr unknown ↦ rw (nth_unsupported a regs buffer n type unknown, unknown) refl
      | inl known ↦
          let tail = get_arg_values_lem a regs buffer (suc n) types fit in
          let own = nth_supported a regs buffer n type known fits in
          elim (Bool-cases (all_supported types)) [
            | inl rest ↦ rw (own, rw rest at tail, known, rest, next_slot a n type fits) refl
            | inr rest ↦ rw (own, rw rest at tail, known, rest) refl
          ]
    ]

module _ (E : Engine) where
  open E use {World, arch, read_pointers_virtual, read_virtual}

  -- Where the registers and the stack can be read, the convention is one that the architecture has, and
  -- on x86 no argument takes 8 bytes, the frame of a method is its return address with each argument
  -- from where the convention keeps it, or `E_NOTIMPL` if some argument is of a type that is neither a
  -- primitive one nor a pointer nor a floating point number.
  pub read_method_frame_lem :
      (w : World) (convention : ℕ) (types : List Text) (regs buffer : List ℕ) (base ret_addr : ℕ)
      → (is_64bit arch || nat_beq convention cc_stdcall) ≡ true
      → all_narrow arch types ≡ true
      → get_reg_values E arch w ≡ ok regs
      → get_stack_base E w ≡ ok base
      → read_pointers_virtual base w ≡ ok ret_addr
      → read_virtual (add64 base (pointer_size arch)) (length types * pointer_size arch) w
        ≡ ok buffer
      → read_method_frame E convention types w ≡ elim (all_supported types) [
        | true ↦ ok (homes arch regs buffer 0 0 types, ret_addr)
        | false ↦ err e_notimpl
      ]
  unfolding read_method_frame
  read_method_frame_lem w convention types regs buffer base ret_addr conv narrow hr hb ha hs =
      let stands : (not (is_64bit arch) && not (nat_beq convention cc_stdcall)) ≡ false =
        ground arith in
      let first : 0 * pointer_size arch ≡ 0 = omega arith in
      let values =
        subst
          (λ (k : ℕ). get_arg_values arch regs buffer 0 types ≡ elim (all_supported types) [
            | true ↦ ok (homes arch regs buffer 0 k types)
            | false ↦ err e_notimpl
          ])
          first (get_arg_values_lem arch regs buffer 0 types narrow) in
      rw (stands, read_method_frame, hr, hb, ha, hs, values)
        (elim (Bool-cases (all_supported types)) [
          | inl known ↦ rw known refl
          | inr unknown ↦ rw unknown refl
        ])
