-- ===== src/Monitor/Effects.antt =====
-- comon/comonitor.cpp and comonitor_com_breakpoints.cpp: what the methods do to the breakpoints and to
-- the tables that are recorded.
use mathlib.Core.Path.{subst}
use mathlib.Core.Option.{some-injective}
use comon.Base.{
  ◌<◌, ◌+◌, ◌%◌, ◌^◌, ◌⊎◌, ◌↔◌, ℕ, ◌≡◌, refl, ap, sym, ◌∙◌, Bool, true, false, Option, none, some,
  List, [], ◌∷◌, inl, inr, Bool-cases, arith, nat_eq, pair_eq, ◌==◌, find, Distinct,
}
use comon.Base.Result.{Result, ok}
use comon.Guid.{Guid}
use comon.Engine.{Engine, EngineLaws}
use comon.Monitor.Types.{Monitor, BreakpointData, ModuleInfo}
use comon.Monitor.Monad.{
  State, Keeps-bind, Keeps-ask, Keeps-pure, modify, skip, ◌>>=◌, ◌>>◌, continue,
}
use comon.Monitor.Breakpoints.{unset_breakpoint, unset_where, remove_from_maps}
use comon.Monitor.Breakpoints.Sound.{IsSound, Alone}
use comon.Monitor.Breakpoints.Removal.{unset_breakpoint-monitor}
use comon.Monitor.Breakpoints.Loop.{unset_where_lem, left, Removes}
use comon.Monitor.Vtables.{get_module_info}
use comon.Monitor.Modules.{in_module, drop_vtables, unset_module, handle_module_unload}

same_key : (k j : Guid × Guid) → (k == j) ≡ true → k ≡ j
same_key k j = ((pair_eq {A = Guid} {B = Guid}).equals_iff k j).1

-- what is left of an entry when a module goes, by its address
abbrev kept_where : {A : Type 0} → (A → ℕ) → ℕ → ℕ → Option A → Option A
kept_where addr base size none = none
kept_where addr base size (some x) = elim (in_module base size (addr x)) [
  | true ↦ none
  | false ↦ some x
]

abbrev kept : ℕ → ℕ → Option ℕ → Option ℕ
kept base size o = kept_where (λ a. a) base size o

abbrev kept_breakpoint : ℕ → ℕ → Option BreakpointData → Option BreakpointData
kept_breakpoint base size o = kept_where (λ d. d.addr) base size o

find-drop :
    (base size : ℕ) (key : Guid × Guid) (m : List ((Guid × Guid) × ℕ))
    → Distinct m
    → find key (drop_vtables base size m) ≡ kept base size (find key m)
unfolding drop_vtables find
find-drop base size key [] dist = refl
find-drop base size key ((k, a) ∷ m) dist = elim (Bool-cases (k == key)) [
  | inl same ↦
      let e = same_key k key same in ground (arith, find-drop base size key m dist.1, e, dist.0)
  | inr other ↦ ground (arith, find-drop base size key m dist.1, other)
]

-- The address stands before the base of a module or behind the end of its range, which is one byte
-- behind the last of its bytes.
abbrev pub IsOutside : ℕ → ℕ → ℕ → Type 0
IsOutside base size a = (a < base) ⊎ ((base + size) % 2 ^ 64 < a)

in_module-IsOutside :
    (base size a : ℕ)
    → (in_module base size a ≡ false → IsOutside base size a)
      × (IsOutside base size a → in_module base size a ≡ false)
in_module-IsOutside base size a = (λ e. ground (arith, e), λ o. ground (arith, o))

kept_iff :
    {A : Type 0} (addr : A → ℕ) (base size : ℕ) (o : Option A) (y : A)
    → (kept_where addr base size o ≡ some y) ↔ ((o ≡ some y) × IsOutside base size (addr y))
kept_iff addr base size none y = (λ e. absurd (ground (arith, e)), λ q. q.0)
kept_iff {A} addr base size (some x) y = by_test (in_module base size (addr x)) refl
  where
    by_test :
        (b : Bool)
        → in_module base size (addr x) ≡ b
        → (elim b [ true ↦ none | false ↦ some x ] ≡ some y)
          ↔ ((some x ≡ some y) × IsOutside base size (addr y))
    by_test true inside = (
      λ e. absurd (ground (arith, e)),
      λ q.
          let out : IsOutside base size (addr x) =
            subst (λ (z : A). IsOutside base size (addr z)) (sym (some-injective _ _ q.0)) q.1 in
          absurd (ground (arith, inside, (in_module-IsOutside base size (addr x)).1 out)),
    )
    by_test false outside = (
      λ e. (
        e,
        subst (λ (z : A). IsOutside base size (addr z)) (some-injective _ _ e)
            ((in_module-IsOutside base size (addr x)).0 outside),
      ),
      λ q. q.0,
    )

module _ (E : Engine) (L : EngineLaws E) where
  open E use {World}

  module_info-monitor :
      (base : ℕ) (s : State World) → (get_module_info E base s).0.monitor ≡ s.monitor
  unfolding get_module_info
  module_info-monitor base s =
      (Keeps-bind {P = λ t. t.monitor ≡ s.monitor} (Keeps-ask _)
          (λ m. Keeps-bind (Keeps-ask _) (λ name. Keeps-pure _))).after
        s refl

  kept_lem :
      (base size : ℕ) (o : Option BreakpointData)
      → left E L (λ d. in_module base size d.addr) o o ≡ kept_breakpoint base size o
  kept_lem base size none = refl
  kept_lem base size (some d) = refl

  -- the state behind `get_module_info` and the loss of the tables
  abbrev dropped : ℕ → ℕ → State World → State World
  dropped base size s = record s {
    monitor = record s.monitor {
      cotype_with_vtables = drop_vtables base size s.monitor.cotype_with_vtables;
    };
  }

  unload_known :
      (base : ℕ) (s t : State World) (mi : ModuleInfo)
      → get_module_info E base s ≡ (t, ok mi)
      → handle_module_unload E base s ≡ unset_module E base mi.size (dropped base mi.size t)
  unfolding handle_module_unload modify ◌>>=◌ ◌>>◌ continue
  unload_known base s t mi known = rw known refl

  after-vtables :
      (i : ℕ) (d : BreakpointData) (s : State World)
      → (unset_breakpoint E i d s).0.monitor.cotype_with_vtables ≡ s.monitor.cotype_with_vtables
  unfolding remove_from_maps
  after-vtables i d s = rw (unset_breakpoint-monitor E L i d s) refl

  pub unset-vtables :
      (p : BreakpointData → Bool) (rest : List (ℕ × BreakpointData)) (s : State World)
      → (unset_where E p rest s).0.monitor.cotype_with_vtables ≡ s.monitor.cotype_with_vtables
  unfolding unset_where skip
  unset-vtables p [] s = refl
  unset-vtables p ((i, d) ∷ []) s = ground (arith, after-vtables i d s)
  unset-vtables p ((i, d) ∷ e ∷ rest) s = ground (
    arith,
    after-vtables i d s,
    unset-vtables p (e ∷ rest) s,
    unset-vtables p rest (unset_breakpoint E i d s).0,
    unset-vtables p (e ∷ rest) (unset_breakpoint E i d s).0,
  )

  module-breakpoints :
      (base size i : ℕ) (u : State World)
      → Removes E L
      → Distinct u.monitor.breakpoints
      → find i (unset_module E base size u).0.monitor.breakpoints
        ≡ kept_breakpoint base size (find i u.monitor.breakpoints)
  unfolding unset_module
  module-breakpoints base size i u all dist =
      unset_where_lem E L all (λ d. in_module base size d.addr) u.monitor.breakpoints u i dist
      ∙ kept_lem base size (find i u.monitor.breakpoints)

  module-vtables :
      (base size : ℕ) (u : State World)
      → (unset_module E base size u).0.monitor.cotype_with_vtables ≡ u.monitor.cotype_with_vtables
  unfolding unset_module
  module-vtables base size u = unset-vtables _ u.monitor.breakpoints u

  unload_kept :
      (s t : State World) (base i : ℕ) (key : Guid × Guid) (mi : ModuleInfo)
      → get_module_info E base s ≡ (t, ok mi)
      → IsSound E L Alone s
      → Removes E L
      → Distinct s.monitor.cotype_with_vtables
      → (find i (handle_module_unload E base s).0.monitor.breakpoints
          ≡ kept_breakpoint base mi.size (find i s.monitor.breakpoints))
        × (find key (handle_module_unload E base s).0.monitor.cotype_with_vtables
            ≡ kept base mi.size (find key s.monitor.cotype_with_vtables))
  unload_kept s t base i key mi known v all dist =
      let same : t.monitor ≡ s.monitor =
        ap (λ (o : State World × Result ModuleInfo). o.0.monitor) (sym known)
        ∙ module_info-monitor base s in
      rw (unload_known base s t mi known) (
        module-breakpoints base mi.size i (dropped base mi.size t) all (rw same v.linked.distinct)
            ∙ ap (λ (m : Monitor). kept_breakpoint base mi.size (find i m.breakpoints)) same,
        ap (find key) (module-vtables base mi.size (dropped base mi.size t))
            ∙ find-drop base mi.size key t.monitor.cotype_with_vtables (rw same dist)
            ∙ ap (λ (m : Monitor). kept base mi.size (find key m.cotype_with_vtables)) same,
      )

  -- When a module goes of which the engine knows the size, a breakpoint and a table are there behind
  -- `handle_module_unload` exactly if they were there before and stand in front of the base address or
  -- behind the sum of base address and size, modulo 2^64; so what stands at this sum goes too, although
  -- it is the first byte behind the module. The maps are in step, the engine removes every breakpoint
  -- that it is asked to, and no class and interface have two tables.
  pub handle_module_unload_lem :
      (s t : State World) (base i a : ℕ) (d : BreakpointData) (key : Guid × Guid) (mi : ModuleInfo)
      → get_module_info E base s ≡ (t, ok mi)
      → IsSound E L Alone s
      → Removes E L
      → Distinct s.monitor.cotype_with_vtables
      → ((find i (handle_module_unload E base s).0.monitor.breakpoints ≡ some d)
          ↔ ((find i s.monitor.breakpoints ≡ some d) × IsOutside base mi.size d.addr))
        × ((find key (handle_module_unload E base s).0.monitor.cotype_with_vtables ≡ some a)
            ↔ ((find key s.monitor.cotype_with_vtables ≡ some a) × IsOutside base mi.size a))
  handle_module_unload_lem s t base i a d key mi known v all dist =
      let (brks, tables) = unload_kept s t base i key mi known v all dist in
      (
        rw brks (kept_iff (λ d. d.addr) base mi.size (find i s.monitor.breakpoints) d),
        rw tables (kept_iff (λ a. a) base mi.size (find key s.monitor.cotype_with_vtables) a),
      )
