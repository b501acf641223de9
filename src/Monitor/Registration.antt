-- ===== src/Monitor/Registration.antt =====
-- comon/comonitor.cpp, `register_vtable`: the table that is recorded for a class and an interface.
use comon.Base.{
  ℕ, ◌≡◌, refl, sym, ap, ◌∙◌, Bool, true, false, Option, none, some, List, arith, nat_beq, nat_eq,
  pair_eq, ◌==◌, find, find-erase, find-insert, Text,
}
use mathlib.Core.Path.{subst}
use comon.Base.Result.{Result, ok}
use comon.Guid.{Guid, iid_iclassfactory}
use comon.Engine.{Engine, EngineLaws}
use comon.Monitor.Types.{Monitor, Breakpoint, MemoryProtect, DebuggeeType, live}
use comon.Monitor.Monad.{
  State, M, Keeps, Triple, Post, skip, act, call, modify, gets, ◌>>=◌, ◌>>◌, continue, Keeps-bind,
  Keeps-then, Keeps-pure, Keeps-throw, Keeps-ask, Keeps-gets, Keeps-attempt, Keeps-skip,
  Keeps-branch, Keeps-option, Triple-bind, Triple-then, Triple-Keeps,
}
use comon.Monitor.Breakpoints.{
  set_breakpoint, create_breakpoint, protect_memory, protect_page, store_breakpoint,
  replace_breakpoint, mem_commit,
}
use comon.Monitor.Vtables.{
  get_module_info, save_vtable, break_on_method, register_new, unset_interface, register_vtable,
  add_cotype, erase_cotype,
}
use comon.Monitor.Effects.{unset-vtables}

-- what is recorded afterwards: the table that was there, unless a different one replaces it
abbrev pub recorded : Bool → ℕ → Option ℕ → Option ℕ
recorded replace addr none = some addr
recorded replace addr (some a) = elim replace [ true ↦ some addr | false ↦ some a ]

module _ {W : Type 0} (F : List ((Guid × Guid) × ℕ) → Type 0) where
  -- a property of the recorded tables
  abbrev pub Tables : State W → Type 0
  Tables s = F s.monitor.cotype_with_vtables

  act-Tables : {A : Type 0} (f : W → W × Result A) → Keeps Tables (act f)
  unfolding act
  act-Tables f = record { after = λ s p. p }

  call-Tables : (f : W → W) → Keeps Tables (call f)
  unfolding call
  call-Tables f = record { after = λ s p. p }

  modify-Tables :
      (f : Monitor → Monitor)
      → ((m : Monitor) → (f m).cotype_with_vtables ≡ m.cotype_with_vtables)
      → Keeps Tables (modify f)
  unfolding modify
  modify-Tables f same = record { after = λ s p. subst F (sym (same s.monitor)) p }

store-cotypes :
    (i a : ℕ) (brk : Breakpoint) (mp : Option MemoryProtect) (m : Monitor)
    → (store_breakpoint i brk a mp m).cotype_with_vtables ≡ m.cotype_with_vtables
unfolding store_breakpoint
store-cotypes i a brk mp m = refl

replace-cotypes :
    (i a : ℕ) (brk : Breakpoint) (m : Monitor)
    → (replace_breakpoint i brk a m).cotype_with_vtables ≡ m.cotype_with_vtables
unfolding replace_breakpoint
replace-cotypes i a brk m = ground arith

module _ (E : Engine) (F : List ((Guid × Guid) × ℕ) → Type 0) where
  open E use {World}

  protect_memory-Tables : (t : DebuggeeType) (a : ℕ) → Keeps (Tables F) (protect_memory E t a)
  unfolding protect_memory protect_page
  protect_memory-Tables live a = Keeps-bind (Keeps-ask _) (λ info.
      Keeps-branch (nat_beq info.state mem_commit) (Keeps-throw _)
        (Keeps-branch _ (Keeps-pure none) (Keeps-bind (act-Tables F _) (λ old. Keeps-pure _))))
  protect_memory-Tables t a = Keeps-pure none

  pub set_breakpoint-Tables : (brk : Breakpoint) (a : ℕ) → Keeps (Tables F) (set_breakpoint E brk a)
  unfolding set_breakpoint create_breakpoint
  set_breakpoint-Tables brk a = Keeps-bind (Keeps-gets _) (λ found.
      Keeps-option found
        (Keeps-bind (act-Tables F _) (λ h. Keeps-bind (Keeps-gets _) (λ t.
          Keeps-bind (protect_memory-Tables t a) (λ mp. Keeps-then (act-Tables F _) (
            Keeps-then (call-Tables F _) (
              Keeps-bind (Keeps-ask _) (λ i.
                Keeps-then (act-Tables F _)
                  (Keeps-then (modify-Tables F _ (store-cotypes i a brk mp)) (Keeps-pure i)))))))))
        (λ i. Keeps-then (modify-Tables F _ (replace-cotypes i a brk)) (Keeps-pure i)))

  pub break_on_method-Tables :
      (clsid iid : Guid) (name : Text) (slot : ℕ)
      → Keeps (Tables F) (break_on_method E clsid iid name slot)
  unfolding break_on_method
  break_on_method-Tables clsid iid name slot =
      Keeps-bind (Keeps-ask _) (λ a. set_breakpoint-Tables _ a)

  save_vtable-Tables :
      (clsid iid : Guid) (addr : ℕ) → Keeps (Tables F) (save_vtable E clsid iid addr)
  unfolding save_vtable get_module_info
  save_vtable-Tables clsid iid addr = Keeps-bind (Keeps-ask _) (λ base.
      Keeps-bind (Keeps-bind (Keeps-ask _) (λ m. Keeps-bind (Keeps-ask _) (λ name. Keeps-pure _)))
        (λ mi. call-Tables F _))

key_self : (k : Guid × Guid) → (k == k) ≡ true
key_self k = ((pair_eq {A = Guid} {B = Guid}).equals_iff k k).0 refl

-- nothing is claimed of a failure
abbrev Any : {W : Type 0} → State W → Type 0
Any s = Unit {0}

module _ {W A : Type 0} {P : State W → Type 0} where
  kept : {m : M W A} → Keeps P m → Triple P m (λ _. P) Any
  kept k = Triple-Keeps (λ s p. tt) k

module _ (E : Engine) (L : EngineLaws E) (clsid iid : Guid) (addr : ℕ) where
  open E use {World}

  -- the table that is recorded for the pair
  abbrev Records : Option ℕ → State World → Type 0
  Records o = Tables (λ m. find (clsid, iid) m ≡ o)

  add-Records :
      Triple (Records none) (modify (add_cotype clsid iid addr)) (λ _. Records (some addr)) Any
  unfolding modify
  add-Records = record {
    after = λ s gone.
        let key : Guid × Guid = (clsid, iid) in
        find-insert key key addr s.monitor.cotype_with_vtables gone ∙ rw (key_self key) refl;
  }

  register_new-Records :
      (save : Bool)
      → Triple (Records none) (register_new E clsid iid addr save) (λ _. Records (some addr)) Any
  unfolding register_new
  register_new-Records save =
      Triple-then
        (kept
          (Keeps-branch save Keeps-skip (Keeps-attempt (save_vtable-Tables E _ clsid iid addr))))
        (Triple-bind (kept (Keeps-ask _)) (λ fn.
          Triple-then (kept (Keeps-attempt (set_breakpoint-Tables E _ _ fn))) (
            Triple-then add-Records (
              kept (
                Keeps-branch (iid == iid_iclassfactory) Keeps-skip
                  (Keeps-attempt (break_on_method-Tables E _ clsid iid _ _)))))))

  erase-Records :
      (o : Option ℕ) → Triple (Records o) (modify (erase_cotype clsid iid)) (λ _. Records none) Any
  unfolding modify
  erase-Records o = record {
    after = λ s p.
        let key : Guid × Guid = (clsid, iid) in
        find-erase key key s.monitor.cotype_with_vtables ∙ rw (key_self key) refl;
  }

  unset-Records : (o : Option ℕ) → Keeps (Records o) (unset_interface E clsid iid)
  unfolding unset_interface
  unset-Records o = record {
    after = λ s p. ap (find (clsid, iid)) (unset-vtables E L _ s.monitor.breakpoints s) ∙ p;
  }

  replace-Records :
      (save : Bool) (same replace : Bool) (a : ℕ)
      → nat_beq a addr ≡ same
      → Triple
          (Records (some a))
          (elim same [
            | true ↦ skip
            | false ↦ elim replace [
              | false ↦ skip
              | true ↦
                  modify (erase_cotype clsid iid)
                  >> (unset_interface E clsid iid >> register_new E clsid iid addr save)
            ]
          ])
          (λ _. Records (recorded replace addr (some a)))
          Any
  replace-Records save true true a e =
      let same : a ≡ addr = ground arith in rw (← same) (kept Keeps-skip)
  replace-Records save true false a e = kept Keeps-skip
  replace-Records save false false a e = kept Keeps-skip
  replace-Records save false true a e =
      Triple-then (erase-Records (some a))
        (Triple-then (kept (unset-Records none)) (register_new-Records save))

  found-Records :
      (save replace : Bool) (found : Option ℕ)
      → Triple
          (Records found)
          (elim found [
            | none ↦ register_new E clsid iid addr save
            | some a ↦ elim (nat_beq a addr) [
              | true ↦ skip
              | false ↦ elim replace [
                | false ↦ skip
                | true ↦
                    modify (erase_cotype clsid iid)
                    >> (unset_interface E clsid iid >> register_new E clsid iid addr save)
              ]
            ]
          ])
          (λ _. Records (recorded replace addr found))
          Any
  found-Records save replace none = register_new-Records save
  found-Records save replace (some a) = replace-Records save (nat_beq a addr) replace a refl

  register_vtable-Records :
      (save replace : Bool) (s : State World)
      → Post
          (λ _. Records (recorded replace addr (find (clsid, iid) s.monitor.cotype_with_vtables)))
          Any
          (register_vtable E clsid iid addr save replace s)
  unfolding register_vtable gets ◌>>=◌ continue
  register_vtable-Records save replace s =
      (found-Records save replace (find (clsid, iid) s.monitor.cotype_with_vtables)).after s refl

  -- Where `register_vtable` succeeds, the class and the interface have the table that they had, or the
  -- new one where they had none or a replacement is asked for.
  pub register_vtable_lem :
      (save replace : Bool) (s t : State World)
      → register_vtable E clsid iid addr save replace s ≡ (t, ok tt)
      → find (clsid, iid) t.monitor.cotype_with_vtables
        ≡ recorded replace addr (find (clsid, iid) s.monitor.cotype_with_vtables)
  register_vtable_lem save replace s t done =
      subst
        (λ o.
          Post
            (λ _. Records (recorded replace addr (find (clsid, iid) s.monitor.cotype_with_vtables)))
            Any o)
        done (register_vtable-Records save replace s)
