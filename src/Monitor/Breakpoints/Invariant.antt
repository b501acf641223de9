-- ===== src/Monitor/Breakpoints/Invariant.antt =====
-- comon/comonitor_com_breakpoints.cpp: the methods on breakpoints keep the two maps in step and
-- every recorded identifier in use by the engine.
use mathlib.Core.Path.{subst}
use comon.Base.{
  ℕ, ◌≡◌, refl, true, Option, none, some, inl, inr, Option-cases, arith, nat_eq, find, erase,
  find-erase, find-insert,
}
use comon.Base.Result.{ok}
use comon.Engine.{Engine, EngineLaws}
use comon.Monitor.Types.{Breakpoint, BreakpointData}
use comon.Monitor.Monad.{
  State, Keeps, pure, gets, modify, ◌>>◌, Triple, Post, Triple-bind, Keeps-Triple, Triple-then,
  Triple-give, Triple-weaken,
}
use comon.Monitor.Links.{replace-Linked}
use comon.Monitor.Breakpoints.{replace_breakpoint, create_breakpoint, set_breakpoint}
use comon.Monitor.Breakpoints.Sound.{IsSound, IsRecorded}
use comon.Monitor.Breakpoints.Creation.{SoundAndRecorded, create_breakpoint-Triple}

module _ (E : Engine) (L : EngineLaws E) (foreign : ℕ → Type 0) where
  open E use {World, Handle}
  open L use {live, ident}

  replace_alive :
      (s : State World) (i a : ℕ) (brk : Breakpoint)
      → IsSound E L foreign s
      → (j : ℕ) (d : BreakpointData)
      → find j (replace_breakpoint i brk a s.monitor).breakpoints ≡ some d
      → live s.world j ≡ true
  unfolding replace_breakpoint
  replace_alive s i a brk v j d = elim (Option-cases (find i s.monitor.breakpoints)) [
    | inl gone ↦ rw (gone, replace_breakpoint) (λ at. v.alive j d at)
    | inr (old, there) ↦
        rw (there, replace_breakpoint)
          (λ at. ground (
            arith,
            v.alive i old there,
            v.alive j d,
            find-erase i i s.monitor.breakpoints,
            find-erase i j s.monitor.breakpoints,
            find-insert i j (record { brk = brk; addr = a; mem_protect = old.mem_protect })
                (erase i s.monitor.breakpoints),
          ))
  ]

  replace_apart :
      (s : State World) (i a : ℕ) (brk : Breakpoint) (j : ℕ)
      → find j s.monitor.breakpoints ≡ none
      → find j (replace_breakpoint i brk a s.monitor).breakpoints ≡ none
  unfolding replace_breakpoint
  replace_apart s i a brk j gone = elim (Option-cases (find i s.monitor.breakpoints)) [
    | inl none_there ↦ rw (none_there, replace_breakpoint) gone
    | inr (old, there) ↦
        rw (there, replace_breakpoint)
          (ground (
            arith,
            gone,
            there,
            find-erase i i s.monitor.breakpoints,
            find-erase i j s.monitor.breakpoints,
            find-insert i j (record { brk = brk; addr = a; mem_protect = old.mem_protect })
                (erase i s.monitor.breakpoints),
          ))
  ]

  replace-IsRecorded :
      (s : State World) (i a : ℕ) (brk : Breakpoint)
      → IsSound E L foreign s
      → find a s.monitor.breakpoint_addresses ≡ some i
      → IsRecorded E L brk a i (record s { monitor = replace_breakpoint i brk a s.monitor })
  unfolding replace_breakpoint
  replace-IsRecorded s i a brk v at = elim (Option-cases (find i s.monitor.breakpoints)) [
    | inl gone ↦ absurd (ground (arith, v.linked.inverse i a, at, gone))
    | inr (d, there) ↦
        let gone : find i (erase i s.monitor.breakpoints) ≡ none =
          ground (arith, find-erase i i s.monitor.breakpoints) in
        record {
          protection = d.mem_protect;
          by_id =
              rw (there, replace_breakpoint)
                (ground (
                  arith,
                  find-insert i i (record { brk = brk; addr = a; mem_protect = d.mem_protect })
                      (erase i s.monitor.breakpoints) gone,
                ));
          by_address = rw (there, replace_breakpoint) at;
        }
  ]

  replace-IsSound :
      (i a : ℕ) (brk : Breakpoint)
      → Triple
          (λ s. IsSound E L foreign s × (find a s.monitor.breakpoint_addresses ≡ some i))
          (modify (replace_breakpoint i brk a))
          (λ _. SoundAndRecorded E L foreign brk a i)
          (IsSound E L foreign)
  unfolding modify
  replace-IsSound i a brk = record {
    after = λ s p. (
      record {
        linked = replace-Linked s.monitor i a brk p.1 p.0.linked;
        alive = replace_alive s i a brk p.0;
        apart = λ j f. ((p.0.apart j f).0, replace_apart s i a brk j (p.0.apart j f).1);
      },
      replace-IsRecorded s i a brk p.0 p.1,
    );
  }

  set_found :
      (brk : Breakpoint) (a : ℕ) (found : Option ℕ)
      → Triple
          (λ s. IsSound E L foreign s × (find a s.monitor.breakpoint_addresses ≡ found))
          (elim found [
            | some i ↦ modify (replace_breakpoint i brk a) >> pure i
            | none ↦ create_breakpoint E brk a
          ])
          (SoundAndRecorded E L foreign brk a)
          (IsSound E L foreign)
  set_found brk a none = create_breakpoint-Triple E L foreign brk a
  set_found brk a (some i) = Triple-then (replace-IsSound i a brk) (Triple-give i)

  set_breakpoint-Triple :
      (brk : Breakpoint) (a : ℕ)
      → Triple
          (IsSound E L foreign)
          (set_breakpoint E brk a)
          (SoundAndRecorded E L foreign brk a)
          (IsSound E L foreign)
  unfolding set_breakpoint gets
  set_breakpoint-Triple brk a = Triple-bind (record { after = λ s v. (v, refl) }) (set_found brk a)

  -- `set_breakpoint` keeps the maps in step, on success and on every failure.
  pub set_breakpoint-IsSound :
      (brk : Breakpoint) (address : ℕ) → Keeps (IsSound E L foreign) (set_breakpoint E brk address)
  set_breakpoint-IsSound brk a =
      Keeps-Triple (Triple-weaken (set_breakpoint-Triple brk a) (λ i s p. p.0))

  -- Where the maps are in step and `set_breakpoint` succeeds, the breakpoint stands under the address
  -- and under the identifier that is returned, whether the address had a breakpoint before or not.
  pub set_breakpoint_lem :
      (brk : Breakpoint) (address i : ℕ) (s t : State World)
      → IsSound E L foreign s
      → set_breakpoint E brk address s ≡ (t, ok i)
      → IsRecorded E L brk address i t
  set_breakpoint_lem brk address i s t v done =
      (subst (λ o. Post (SoundAndRecorded E L foreign brk address) (IsSound E L foreign) o) done
        ((set_breakpoint-Triple brk address).after s v)).1
