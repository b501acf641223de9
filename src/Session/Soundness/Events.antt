-- ===== src/Session/Soundness/Events.antt =====
-- comon/dbgsession.h, dbgsession.cpp and ext.cpp: every event that the engine sends to a session keeps
-- all its monitors in step with the engine.
use comon.Base.{
  ℕ, ◌%◌, ◌^◌, ◌≡◌, false, Option, ◌∷◌, inl, inr, Bool-cases, nat_beq, nat_eq, list_eq, Text,
}
use comon.Base.Result.{ok, Result-cases}
use comon.Engine.{Engine, EngineLaws}
use comon.Monitor.Soundness.Events.{handle_module_load-Sound, handle_module_unload-Sound}
use comon.Monitor.Soundness.Handlers.{handle_breakpoint-Sound}
use comon.Session.{
  Session, Debugger, breakpoint_event, change_engine_state, load_module_event, unload_module_event,
  module_name_of,
}
use comon.Session.Routing.{Text-cases}
use comon.Session.Soundness.{IsSoundSession, on_monitor-IsSoundSession}
use comon.Session.Soundness.Removal.{IsSoundSessionBut, notify-IsSoundSession}

module _ (E : Engine) (L : EngineLaws E) (D : Debugger E) where
  open E use {World, Handle}

  pub breakpoint-IsSoundSession :
      (bp : Handle) (s : Session World)
      → IsSoundSession E L s
      → IsSoundSession E L (breakpoint_event E D bp s).0
  unfolding breakpoint_event
  breakpoint-IsSoundSession bp s v = elim (Result-cases (E.get_id bp s.world)) [
    | inl (i, e) ↦
        rw (e, breakpoint_event)
          (on_monitor-IsSoundSession E L D _ s (λ foreign. handle_breakpoint-Sound E L foreign i) v)
    | inr (hr, e) ↦ rw (e, breakpoint_event) v
  ]

  pub load_module-IsSoundSession :
      (base : ℕ) (name image : Option Text) (timestamp : ℕ) (s : Session World)
      → IsSoundSession E L s
      → IsSoundSession E L (load_module_event E D base name image timestamp s).0
  unfolding load_module_event
  load_module-IsSoundSession base name image timestamp s v =
      elim (Text-cases (module_name_of E D name image)) [
        | inl e ↦ rw (e, load_module_event) v
        | inr (c, t, e) ↦
            rw (e, load_module_event)
              (on_monitor-IsSoundSession E L D _ s
                (λ foreign. handle_module_load-Sound E L foreign (c ∷ t) timestamp base) v)
      ]

  pub unload_module-IsSoundSession :
      (base : ℕ) (s : Session World)
      → IsSoundSession E L s
      → IsSoundSession E L (unload_module_event E D base s).0
  unfolding unload_module_event
  unload_module-IsSoundSession base s v =
      on_monitor-IsSoundSession E L D _ s (λ foreign. handle_module_unload-Sound E L foreign base) v

  pub change_state-IsSoundSession :
      (flags argument : ℕ) (s : Session World)
      → IsSoundSessionBut E L D (argument % 2 ^ 32) s
      → (nat_beq flags 4 ≡ false → IsSoundSession E L s)
      → ((bp : Handle)
          → E.get_breakpoint_by_id (argument % 2 ^ 32) s.world ≡ ok bp
          → IsSoundSession E L s)
      → IsSoundSession E L (change_engine_state E D flags argument s).0
  unfolding change_engine_state
  change_state-IsSoundSession flags argument s v other there = elim (Bool-cases (nat_beq flags 4)) [
    | inr e ↦ rw (e, change_engine_state) (other e)
    | inl e ↦ elim (Result-cases (E.get_breakpoint_by_id (argument % 2 ^ 32) s.world)) [
      | inl (bp, found) ↦ rw (e, change_engine_state, found) (there bp found)
      | inr (hr, gone) ↦
          rw (e, change_engine_state, gone) (notify-IsSoundSession E L D (argument % 2 ^ 32) s v)
    ]
  ]
