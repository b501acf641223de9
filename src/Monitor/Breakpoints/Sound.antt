-- ===== src/Monitor/Breakpoints/Sound.antt =====
-- comon/comonitor_com_breakpoints.cpp: what holds of the two maps of breakpoints and of the engine.

use comon.Base.{ℕ, ◌≡◌, true, Option, none, some, arith, nat_eq, find}
use comon.Base.Result.{Result}
use comon.Engine.{Engine, EngineLaws}
use comon.Monitor.Types.{Breakpoint, BreakpointData, MemoryProtect}
use comon.Monitor.Monad.{State, Keeps, act, call}
use comon.Monitor.Links.{Linked}

module _ (E : Engine) (L : EngineLaws E) where
  open E use {World, Handle}
  open L use {live, ident}

  -- The property depends on the world through the identifiers in use only.
  abbrev pub Stable : (State World → Type 0) → Type 0
  Stable P =
      (s : State World) (w : World)
      → ((i : ℕ) → live w i ≡ live s.world i)
      → P s
      → P (record s { world = w })

  pub Keeps-act :
      {A : Type 0} {P : State World → Type 0} (f : World → World × Result A)
      → Stable P
      → ((w : World) (i : ℕ) → live (f w).0 i ≡ live w i)
      → Keeps P (act f)
  unfolding act
  Keeps-act f stable same = record { after = λ s p. stable s (f s.world).0 (same s.world) p }

  pub Keeps-call :
      {P : State World → Type 0} (f : World → World)
      → Stable P
      → ((w : World) (i : ℕ) → live (f w) i ≡ live w i)
      → Keeps P (call f)
  unfolding call
  Keeps-call f stable same = record { after = λ s p. stable s (f s.world) (same s.world) p }

  -- the breakpoint stands under its identifier and under its address
  pub record IsRecorded (brk : Breakpoint) (a i : ℕ) (s : State World) : Type 0 where
    pub protection : Option MemoryProtect
    pub by_id :
        find i s.monitor.breakpoints
        ≡ some (record { brk = brk; addr = a; mem_protect = protection })
    pub by_address : find a s.monitor.breakpoint_addresses ≡ some i

-- no breakpoint of others
abbrev pub Alone : ℕ → Type 0
Alone i = ⊥

-- `foreign` are the identifiers of breakpoints that others than the monitor set.
module _ (E : Engine) (L : EngineLaws E) (foreign : ℕ → Type 0) where
  open E use {World, Handle}
  open L use {live, ident}

  -- The maps are in step, the engine has every recorded breakpoint and every foreign one, and no
  -- foreign one is recorded.
  pub record IsSound (s : State World) : Type 0 where
    pub linked : Linked s.monitor
    pub alive :
        (i : ℕ) (d : BreakpointData) → find i s.monitor.breakpoints ≡ some d → live s.world i ≡ true
    pub apart :
        (i : ℕ) → foreign i → (live s.world i ≡ true) × (find i s.monitor.breakpoints ≡ none)

  pub IsSound-Stable : Stable E L IsSound
  IsSound-Stable s w same v = record {
    linked = v.linked;
    alive = λ i d at. ground (arith, same i, v.alive i d at);
    apart = λ i f. ground (arith, same i, v.apart i f);
  }
