-- ===== src/Arch.antt =====
-- comon/arch.h and arch.cpp: the architecture of the debuggee, by the indexes that the engine gives
-- to its registers.
use comon.Base.{ℕ, Bool, true, false, List, [], ◌∷◌, nat_beq, Text, codes}
use comon.Base.Result.{Result, ok, err, ◌>>=◌, e_invalidarg}

-- `CALLCONV::CC_STDCALL`
abbrev pub cc_stdcall : ℕ
cc_stdcall = 4

-- x86 with `is_wow64`, `esp` and `eax`; x64 with `rsp`, `rax` and `reg_args`
pub data Arch : Type 0 where
  x86 : Bool → ℕ → ℕ → Arch
  x64 : ℕ → ℕ → List ℕ → Arch

abbrev pub is_64bit : Arch → Bool
is_64bit (x86 is_wow64 esp eax) = false
is_64bit (x64 rsp rax reg_args) = true

unfoldable pub pointer_size : Arch → ℕ
pointer_size (x86 is_wow64 esp eax) = 4
pointer_size (x64 rsp rax reg_args) = 8

unfoldable pub is_wow64 : Arch → Bool
is_wow64 (x86 wow64 esp eax) = wow64
is_wow64 (x64 rsp rax reg_args) = false

-- `IMAGE_FILE_MACHINE_I386` and `IMAGE_FILE_MACHINE_AMD64`
abbrev pub machine_i386 : ℕ
machine_i386 = 0x14c

abbrev pub machine_amd64 : ℕ
machine_amd64 = 0x8664

-- What the engine answers for the name of a register, for the effective processor, and for the module
-- `wow64`. A failure is thrown as an exception, and so is the code of an unknown processor.
module _ (get_index_by_name : Text → Result ℕ) where
  unfoldable pub init_arch_x86 : Bool → Result Arch
  init_arch_x86 wow64 = do
    eax ← get_index_by_name (codes "eax")
    esp ← get_index_by_name (codes "esp")
    ok (x86 wow64 esp eax)

  unfoldable pub init_arch_x64 : Result Arch
  init_arch_x64 = do
    rax ← get_index_by_name (codes "rax")
    rsp ← get_index_by_name (codes "rsp")
    rcx ← get_index_by_name (codes "rcx")
    rdx ← get_index_by_name (codes "rdx")
    r8 ← get_index_by_name (codes "r8")
    r9 ← get_index_by_name (codes "r9")
    xmm0 ← get_index_by_name (codes "xmm0")
    xmm1 ← get_index_by_name (codes "xmm1")
    xmm2 ← get_index_by_name (codes "xmm2")
    xmm3 ← get_index_by_name (codes "xmm3")
    ok (x64 rsp rax (rcx ∷ rdx ∷ r8 ∷ r9 ∷ xmm0 ∷ xmm1 ∷ xmm2 ∷ xmm3 ∷ []))

  abbrev found : Result ℕ → Bool
  found (ok idx) = true
  found (err hr) = false

  unfoldable pub get_process_arch : Result ℕ → Result ℕ → Result Arch
  get_process_arch get_effective_processor_type find_wow64 = do
    effmach ← get_effective_processor_type
    elim (nat_beq effmach machine_i386) [
      | true ↦ init_arch_x86 (found find_wow64)
      | false ↦ elim (nat_beq effmach machine_amd64) [
        | true ↦ elim (found find_wow64) [ true ↦ init_arch_x86 true | false ↦ init_arch_x64 ]
        | false ↦ err e_invalidarg
      ]
    ]
