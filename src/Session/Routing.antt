-- ===== src/Session/Routing.antt =====
-- comon/dbgsession.h and dbgsession.cpp: which monitor an event or a command reaches.
use comon.Base.{
  ℕ, ◌≡◌, refl, ap, ◌∙◌, false, Option, none, some, List, [], ◌∷◌, inl, inr, ◌⊎◌, Option-cases,
  arith, nat_beq, nat_eq, find, insert, assign, find-erase, find-insert, find-assign, Text,
}
use comon.Base.Result.{Result-cases}
use comon.Engine.{Engine}
use comon.Ext.Filter.{Cofilter}
use comon.Monitor.Types.{Monitor}
use comon.Monitor.Monad.{M}
use comon.Session.{
  Session, Debugger, active, on_monitor, attach, detach, breakpoint_event, load_module_event,
  unload_module_event, exit_process_event, module_name_of,
}

module _ (p j : ℕ) (v : Monitor) (ms : List (ℕ × Monitor)) where
  find-assign_other :
      (m : Monitor) → find p ms ≡ some m → nat_beq p j ≡ false → find j (assign p v ms) ≡ find j ms
  find-assign_other m at other = ground (arith, find-assign p j v m ms at, other)

  find-insert_other : find p ms ≡ none → nat_beq p j ≡ false → find j (insert p v ms) ≡ find j ms
  find-insert_other gone other = ground (arith, find-insert p j v ms gone, other)

  find-insert_same : find p ms ≡ none → find p (insert p v ms) ≡ some v
  find-insert_same gone = ground (arith, find-insert p p v ms gone)

pub Text-cases : (t : Text) → (t ≡ []) ⊎ ((c : ℕ) × (t' : Text) × (t ≡ c ∷ t'))
Text-cases [] = inl refl
Text-cases (c ∷ t) = inr (c, t, refl)

module _ (E : Engine) (D : Debugger E) where
  open E use {World, Handle}

  -- the monitors of all processes but one are the same
  abbrev SameOthers : ℕ → Session World → Session World → Type 0
  SameOthers pid s t = (j : ℕ) → nat_beq pid j ≡ false → find j t.monitors ≡ find j s.monitors

  on_monitor-others :
      {A : Type 0} (pid : ℕ) (method : M World A) (s : Session World)
      → SameOthers pid s (on_monitor E D pid method s).0
  unfolding on_monitor
  on_monitor-others pid method s j other = elim (Option-cases (find pid s.monitors)) [
    | inl gone ↦ rw (gone, on_monitor) refl
    | inr (m, at) ↦ rw (at, on_monitor) (find-assign_other pid j _ s.monitors m at other)
  ]

  attach-others :
      (fltr : Cofilter) (s : Session World) → SameOthers (active E D s) s (attach E D fltr s)
  unfolding attach
  attach-others fltr s j other = elim (Option-cases (find (active E D s) s.monitors)) [
    | inr (m, at) ↦ rw (at, attach) refl
    | inl gone ↦ rw (gone, attach) (find-insert_other (active E D s) j _ s.monitors gone other)
  ]

  detach-others : (s : Session World) → SameOthers (active E D s) s (detach E D s)
  unfolding detach
  detach-others s j other = elim (Option-cases (find (active E D s) s.monitors)) [
    | inl gone ↦ rw (gone, detach) refl
    | inr (m, at) ↦ rw (at, detach) (ground (arith, find-erase (active E D s) j s.monitors, other))
  ]

  load_module-others :
      (base : ℕ) (name image : Option Text) (timestamp : ℕ) (s : Session World)
      → SameOthers (active E D s) s (load_module_event E D base name image timestamp s).0
  unfolding load_module_event
  load_module-others base name image timestamp s j other =
      elim (Text-cases (module_name_of E D name image)) [
        | inl e ↦ rw (e, load_module_event) refl
        | inr (c, t, e) ↦ rw (e, load_module_event) (on_monitor-others _ _ s j other)
      ]

  breakpoint-others :
      (bp : Handle) (s : Session World) → SameOthers (active E D s) s (breakpoint_event E D bp s).0
  unfolding breakpoint_event
  breakpoint-others bp s j other = elim (Result-cases (E.get_id bp s.world)) [
    | inl (i, e) ↦ rw (e, breakpoint_event) (on_monitor-others _ _ s j other)
    | inr (hr, e) ↦ rw (e, breakpoint_event) refl
  ]

  -- A breakpoint, a module that is loaded or unloaded, the end of a process and the commands that
  -- attach and detach a monitor leave the monitor of a process that is not the current one as it is.
  pub events-others :
      (s : Session World) (j : ℕ) (fltr : Cofilter) (bp : Handle) (base : ℕ)
      (name image : Option Text) (timestamp : ℕ)
      → nat_beq (active E D s) j ≡ false
      → (find j (attach E D fltr s).monitors ≡ find j s.monitors)
        × (find j (exit_process_event E D s).0.monitors ≡ find j s.monitors)
        × (find j (breakpoint_event E D bp s).0.monitors ≡ find j s.monitors)
        × (find j (load_module_event E D base name image timestamp s).0.monitors
            ≡ find j s.monitors)
        × (find j (unload_module_event E D base s).0.monitors ≡ find j s.monitors)
  unfolding exit_process_event unload_module_event
  events-others s j fltr bp base name image timestamp other = (
    attach-others fltr s j other,
    detach-others s j other,
    breakpoint-others bp s j other,
    load_module-others base name image timestamp s j other,
    on_monitor-others _ _ s j other,
  )

  attach_found :
      (fltr : Cofilter) (s : Session World)
      → (m : Monitor) × (find (active E D s) (attach E D fltr s).monitors ≡ some m)
  unfolding attach
  attach_found fltr s = elim (Option-cases (find (active E D s) s.monitors)) [
    | inr (m, at) ↦ rw (at, attach) (m, at)
    | inl gone ↦ rw (gone, attach) (_, find-insert_same (active E D s) 0 _ s.monitors gone)
  ]

  attach_again :
      (fltr : Cofilter) (s : Session World) (m : Monitor)
      → find (active E D s) s.monitors ≡ some m
      → attach E D fltr s ≡ s
  unfolding attach
  attach_again fltr s m at = rw (at, attach) refl

  -- A second `attach` in a process changes nothing, whatever its filter, where the first did not make
  -- another process the current one.
  pub attach-attach :
      (first second : Cofilter) (s : Session World)
      → active E D (attach E D first s) ≡ active E D s
      → attach E D second (attach E D first s) ≡ attach E D first s
  attach-attach first second s same =
      attach_again second (attach E D first s) (attach_found first s).0
        (ap (λ p. find p (attach E D first s).monitors) same ∙ (attach_found first s).1)

  -- After `detach` the process that was current has no monitor.
  pub detach_lem : (s : Session World) → find (active E D s) (detach E D s).monitors ≡ none
  unfolding detach
  detach_lem s = elim (Option-cases (find (active E D s) s.monitors)) [
    | inl gone ↦ rw (gone, detach) gone
    | inr (m, at) ↦
        rw (at, detach) (ground (arith, find-erase (active E D s) (active E D s) s.monitors))
  ]
