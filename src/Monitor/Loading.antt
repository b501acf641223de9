-- ===== src/Monitor/Loading.antt =====
-- comon/comonitor.cpp, `handle_module_load`: which tables are recorded when a module is loaded.
pub mod Recorded
use comon.Base.{
  add64, ℕ, ◌≡◌, ◌↔◌, refl, ap, ◌∙◌, Bool, true, false, ◌&&◌, Option, none, some, List, [], ◌∷◌,
  inl, inr, Option-cases, Bool-cases, arith, nat_beq, nat_eq, pair_eq, ◌==◌, find, insert,
  find-insert, Text,
}
use comon.Base.Result.{Result, ok, err}
use comon.Arch.{pointer_size}
use comon.Guid.{Guid}
use comon.Engine.{Engine, Covtable}
use comon.Ext.Filter.{Cofilter, is_clsid_allowed}
use comon.Monitor.Types.{DebuggeeType}
use comon.Monitor.Monad.{
  State, M, Keeps, Triple, Post, skip, attempt, modify, gets, ask, ◌>>=◌, ◌>>◌, continue,
  Keeps-bind, Keeps-ask, Keeps-gets, Triple-then,
}
use comon.Monitor.Vtables.{add_cotype}
use comon.Monitor.Modules.{
  breaks, functions_to_monitor, load_vtable, load_vtables, break_on_function, break_on_functions,
  handle_module_load,
}
use comon.Monitor.Registration.{Tables, set_breakpoint-Tables, break_on_method-Tables}
use comon.Monitor.Loading.Recorded.{load_one, load_all, find-add, load_refused}

-- no outcome
abbrev Never : {W : Type 0} → State W → Type 0
Never s = ⊥

-- The method succeeds, and leads from the one property to the other.
abbrev Sure : {W : Type 0} → (State W → Type 0) → M W (Unit {0}) → (State W → Type 0) → Type 0
Sure P m Q = Triple P m (λ _. Q) Never

module _ {W : Type 0} where
  skip-Sure : (P : State W → Type 0) → Sure P skip P
  unfolding skip
  skip-Sure P = record { after = λ s p. p }

  attempt-Sure : {A : Type 0} {P : State W → Type 0} {m : M W A} → Keeps P m → Sure P (attempt m) P
  unfolding attempt
  attempt-Sure k = record { after = λ s p. k.after s p }

  branch-Sure :
      {P Q : State W → Type 0} (b : Bool) {m k : M W (Unit {0})}
      → Sure P m Q
      → Sure P k Q
      → Sure P (elim b [ false ↦ m | true ↦ k ]) Q
  branch-Sure true h k = k
  branch-Sure false h k = h

module _ (E : Engine) (key : Guid × Guid) where
  open E use {World}

  -- the table that is recorded for the pair
  abbrev Records : Option ℕ → State World → Type 0
  Records o = Tables (λ m. find key m ≡ o)

  -- what `load_one` comes to where the filter lets the class through
  add-Sure :
      (fltr : Cofilter) (base : ℕ) (v : Covtable) (o : Option ℕ)
      → is_clsid_allowed fltr v.clsid ≡ true
      → Sure
          (Records o)
          (modify (add_cotype v.clsid v.iid (add64 base v.address)))
          (Records (load_one fltr base key v o))
  unfolding modify
  add-Sure fltr base v none allowed = record {
    after = λ s at. ground (
      arith,
      allowed,
      find-add key (v.clsid, v.iid) (add64 base v.address) s.monitor.cotype_with_vtables none at,
    );
  }
  add-Sure fltr base v (some a) allowed = record {
    after = λ s at.
        find-add key (v.clsid, v.iid) (add64 base v.address) s.monitor.cotype_with_vtables (some a)
          at;
  }

  load_vtable-Sure :
      (fltr : Cofilter) (dbgtype : DebuggeeType) (base : ℕ) (v : Covtable) (o : Option ℕ)
      → Sure (Records o) (load_vtable E fltr dbgtype base v) (Records (load_one fltr base key v o))
  unfolding load_vtable
  load_vtable-Sure fltr dbgtype base v o = elim (Bool-cases (is_clsid_allowed fltr v.clsid)) [
    | inl allowed ↦
        rw (allowed, load_vtable)
          (Triple-then
            (branch-Sure (breaks dbgtype) (skip-Sure _)
              (attempt-Sure (break_on_method-Tables E _ v.clsid v.iid _ _)))
            (add-Sure fltr base v o allowed))
    | inr refused ↦ rw (refused, load_vtable, load_refused key fltr base v o refused) (skip-Sure _)
  ]

  load_vtables-Sure :
      (fltr : Cofilter) (dbgtype : DebuggeeType) (base : ℕ) (vs : List Covtable) (o : Option ℕ)
      → Sure
          (Records o)
          (load_vtables E fltr dbgtype base vs)
          (Records (load_all fltr base key vs o))
  unfolding load_vtables
  load_vtables-Sure fltr dbgtype base [] o = skip-Sure _
  load_vtables-Sure fltr dbgtype base (v ∷ vs) o =
      Triple-then (load_vtable-Sure fltr dbgtype base v o)
        (load_vtables-Sure fltr dbgtype base vs (load_one fltr base key v o))

  break_on_functions-Sure :
      (name : Text) (base : ℕ) (fs : List Text) (o : Option ℕ)
      → Sure (Records o) (break_on_functions E name base fs) (Records o)
  unfolding break_on_functions break_on_function
  break_on_functions-Sure name base [] o = skip-Sure _
  break_on_functions-Sure name base (f ∷ fs) o =
      Triple-then
        (attempt-Sure (
          Keeps-bind (Keeps-gets _)
            (λ t. Keeps-bind (Keeps-ask _) (λ a. set_breakpoint-Tables E _ _ a))))
        (break_on_functions-Sure name base fs o)

  -- the tables that the database has for a module
  abbrev pub tables_in : Text → ℕ → World → List Covtable
  tables_in name timestamp w =
      E.get_module_vtables
        (record { name = name; timestamp = timestamp; is_64bit = nat_beq (pointer_size E.arch) 8 })
        w

  handle_module_load-steps :
      (name : Text) (timestamp base : ℕ) (s : State World)
      → handle_module_load E name timestamp base s
        ≡ (load_vtables E s.monitor.filter s.monitor.dbgtype base (tables_in name timestamp s.world)
              >> elim (breaks s.monitor.dbgtype) [
                | false ↦ skip
                | true ↦ break_on_functions E name base (functions_to_monitor name)
              ])
            s
  unfolding handle_module_load gets ask ◌>>=◌ continue
  handle_module_load-steps name timestamp base s = refl

  sure_ok :
      {P Q : State World → Type 0} (m : M World (Unit {0})) (s : State World)
      → Sure P m Q
      → P s
      → (t : State World) × (m s ≡ (t, ok tt)) × Q t
  sure_ok {Q} m s sure p = outcome (m s) refl (sure.after s p)
    where
      outcome :
          (o : State World × Result (Unit {0}))
          → m s ≡ o
          → Post (λ _. Q) Never o
          → (t : State World) × (m s ≡ (t, ok tt)) × Q t
      outcome (t, ok u) e q = (t, e, q)
      outcome (t, err hr) e q = absurd q

  -- `handle_module_load` always succeeds, and leaves for a class and an interface the table that was
  -- recorded, or where there was none that of the first row of the database for the module that is
  -- theirs and that the filter lets through, counted from the base address of the module.
  pub handle_module_load_lem :
      (name : Text) (timestamp base : ℕ) (s : State World)
      → (t : State World) × (handle_module_load E name timestamp base s ≡ (t, ok tt))
        × (find key t.monitor.cotype_with_vtables
            ≡ load_all s.monitor.filter base key
                (tables_in name timestamp s.world)
                (find key s.monitor.cotype_with_vtables))
  handle_module_load_lem name timestamp base s =
      rw (handle_module_load-steps name timestamp base s) (
        sure_ok _ s
          (Triple-then
            (load_vtables-Sure s.monitor.filter s.monitor.dbgtype base
              (tables_in name timestamp s.world) (find key s.monitor.cotype_with_vtables))
            (branch-Sure (breaks s.monitor.dbgtype) (skip-Sure _)
              (break_on_functions-Sure name base (functions_to_monitor name) _)))
          refl)
