-- ===== src/CallContext.antt =====
-- comon/arch.h and arch.cpp: the class `call_context`, which reads the memory of the debuggee and the
-- frame of a method at its first instruction.
pub mod Types
pub mod Frame
pub mod Printing
use comon.Base.{
  ℕ, zero, suc, ◌+◌, ◌*◌, ◌%◌, ◌^◌, Bool, true, false, not, ◌&&◌, ◌||◌, Option, none, some, List,
  [], ◌∷◌, nat_beq, nat_eq, list_eq, ◌==◌, ltb, length, take, drop, nth, little_endian, big_endian,
  add64, Text, codes,
}
use comon.Base.Result.{Result, ok, err, ◌>>=◌, e_notimpl, e_unexpected}
use comon.Guid.{Guid}
use comon.Arch.{Arch, x86, x64, is_64bit, pointer_size, cc_stdcall}
use comon.Engine.{Engine}
use Types.{is_primitive_type, is_float_type, is_pointer_type}

-- the registers that hold the stack pointer and the result
abbrev pub stack_register : Arch → ℕ
stack_register (x86 is_wow64 esp eax) = esp
stack_register (x64 rsp rax reg_args) = rsp

abbrev pub result_register : Arch → ℕ
result_register (x86 is_wow64 esp eax) = eax
result_register (x64 rsp rax reg_args) = rax

-- `DEBUG_VALUE::I32` or `I64` of a value
abbrev pub register_part : Arch → ℕ → ℕ
register_part (x86 is_wow64 esp eax) v = v % 2 ^ 32
register_part (x64 rsp rax reg_args) v = v

abbrev pub value_at : List ℕ → ℕ → ℕ
value_at values n = elim (nth values n) [ none ↦ 0 | some v ↦ v ]

-- `*reinterpret_cast<ULONG64*>(buffer + n * 8)`, or `ULONG32` and 4; bytes that were not read are 0
unfoldable pub stack_slot : Arch → List ℕ → ℕ → ℕ
stack_slot a buffer n = little_endian (take (pointer_size a) (drop (n * pointer_size a) buffer))

-- `get_nth_arg_value`
unfoldable pub get_nth_arg_value : Arch → List ℕ → List ℕ → ℕ → Text → Result ℕ
get_nth_arg_value a regs buffer n type = elim (ltb n 4 && is_64bit a) [
  | true ↦ elim (is_primitive_type type || is_pointer_type type) [
    | true ↦ ok (value_at regs n)
    | false ↦ elim (is_float_type type) [
      | true ↦ ok (value_at regs (n + 4))
      | false ↦ err e_notimpl
    ]
  ]
  | false ↦
      elim (not (is_primitive_type type)
        && (not (is_pointer_type type) && not (is_float_type type))) [
          | true ↦ err e_notimpl
          | false ↦ ok (stack_slot a buffer n)
        ]
]

-- the loop over the arguments, from argument `n` on
unfoldable pub get_arg_values : Arch → List ℕ → List ℕ → ℕ → List Text → Result (List ℕ)
get_arg_values a regs buffer n [] = ok []
get_arg_values a regs buffer n (type ∷ types) = do
  v ← get_nth_arg_value a regs buffer n type
  vs ← get_arg_values a regs buffer (suc n) types
  ok (v ∷ vs)

-- the fields of a `GUID` in memory
unfoldable pub guid_of_bytes : List ℕ → Guid
guid_of_bytes bytes =
    little_endian (take 4 bytes) * 2 ^ 96
    + little_endian (take 2 (drop 4 bytes)) * 2 ^ 80
    + little_endian (take 2 (drop 6 bytes)) * 2 ^ 64
    + big_endian 0 (take 8 (drop 8 bytes))

module _ (E : Engine) where
  open E use {World, arch, get_value, get_values, read_pointers_virtual, read_virtual}

  unfoldable pub read_pointer : ℕ → World → Result ℕ
  read_pointer addr w = read_pointers_virtual addr w

  unfoldable pub read_object : ℕ → ℕ → World → Result (List ℕ)
  read_object addr obj_size w = do
    bytes ← read_virtual addr obj_size w
    elim (nat_beq (length bytes) obj_size) [ true ↦ ok bytes | false ↦ err e_unexpected ]

  -- `read_object` of a `GUID`
  unfoldable pub read_guid : ℕ → World → Result Guid
  read_guid addr w = do bytes ← read_object addr 16 w; ok (guid_of_bytes bytes)

  unfoldable pub read_method_return_code : Text → World → Result ℕ
  read_method_return_code type w = elim (type == codes "HRESULT") [
    | false ↦ err e_notimpl
    | true ↦ do r ← get_value (result_register arch) w; ok (register_part arch r)
  ]

  unfoldable pub get_stack_base : World → Result ℕ
  get_stack_base w = do r ← get_value (stack_register arch) w; ok (register_part arch r)

  -- the values of the registers for arguments, all 0 on x86
  unfoldable pub get_reg_values : Arch → World → Result (List ℕ)
  get_reg_values (x86 is_wow64 esp eax) w = ok []
  get_reg_values (x64 rsp rax reg_args) w = get_values reg_args w

  -- the values of the arguments, and the return address
  unfoldable pub read_method_frame : ℕ → List Text → World → Result (List ℕ × ℕ)
  read_method_frame cc types w = elim (not (is_64bit arch) && not (nat_beq cc cc_stdcall)) [
    | true ↦ err e_notimpl
    | false ↦ do
      regs ← get_reg_values arch w
      base ← get_stack_base w
      ret_addr ← read_pointers_virtual base w
      buffer ← read_virtual (add64 base (pointer_size arch)) (length types * pointer_size arch) w
      args ← get_arg_values arch regs buffer 0 types
      ok (args, ret_addr)
  ]
