-- ===== src/Session/Soundness/Runs.antt =====
-- comon/dbgsession.h, dbgsession.cpp and ext.cpp: the sequences of events and commands that a session
-- goes through, and what holds behind each.
use comon.Base.{
  ℕ, ◌%◌, ◌^◌, ◌≡◌, true, false, Option, [], arith, nat_beq, nat_eq, list_eq, find, Text,
}
use comon.Base.Result.{Result, ok}
use comon.Guid.{Guid}
use comon.Engine.{Engine, EngineLaws}
use comon.Ext.Args.{split_args}
use comon.Session.{
  Session, Debugger, breakpoint_event, change_engine_state, load_module_event, unload_module_event,
  exit_process_event,
}
use comon.Session.Commands.{take_behavior, coreg, cobp, comon_command}
use comon.Session.Soundness.{IsSoundSession, detach-IsSoundSession}
use comon.Session.Soundness.Removal.{IsSoundSessionBut}
use comon.Session.Soundness.Events.{
  breakpoint-IsSoundSession, load_module-IsSoundSession, unload_module-IsSoundSession,
  change_state-IsSoundSession,
}
use comon.Session.Soundness.Commands.{
  coreg-IsSoundSession, cobp_args-IsSoundSession, comon-IsSoundSession,
}

module _ (E : Engine) (L : EngineLaws E) (D : Debugger E) (parse : Text → Result Guid) where
  open E use {World, Handle}

  -- What the engine has lost between two states of its world is what the event of a changed state
  -- tells of.
  pub record Announced (flags argument : ℕ) (w w' : World) : Type 0 where
    pub kept :
        (j : ℕ) → nat_beq j (argument % 2 ^ 32) ≡ false → L.live w j ≡ true → L.live w' j ≡ true
    pub kept_silent : (j : ℕ) → nat_beq flags 4 ≡ false → L.live w j ≡ true → L.live w' j ≡ true
    pub kept_found :
        (j : ℕ) (bp : Handle)
        → E.get_breakpoint_by_id (argument % 2 ^ 32) w' ≡ ok bp
        → L.live w j ≡ true
        → L.live w' j ≡ true

  -- The states of a session that its constructor and any sequence of events and commands lead to.
  pub data IsReachable : Session World → Type 0 where
    created : (w : World) → IsReachable (record { world = w; monitors = [] })
    -- the debuggees run, and the user works with the debugger
    went_on :
        (s : Session World) (w : World)
        → ((j : ℕ) → L.live s.world j ≡ true → L.live w j ≡ true)
        → IsReachable s
        → IsReachable (record s { world = w })
    changed_state :
        (s : Session World) (w : World) (flags argument : ℕ)
        → Announced flags argument s.world w
        → IsReachable s
        → IsReachable (change_engine_state E D flags argument (record s { world = w })).0
    hit_breakpoint :
        (s : Session World) (bp : Handle)
        → IsReachable s
        → IsReachable (breakpoint_event E D bp s).0
    loaded_module :
        (s : Session World) (base : ℕ) (name image : Option Text) (timestamp : ℕ)
        → IsReachable s
        → IsReachable (load_module_event E D base name image timestamp s).0
    unloaded_module :
        (s : Session World) (base : ℕ)
        → IsReachable s
        → IsReachable (unload_module_event E D base s).0
    exited_process : (s : Session World) → IsReachable s → IsReachable (exit_process_event E D s).0
    ran_comon :
        (s : Session World) (args : Text)
        → IsReachable s
        → IsReachable (comon_command E D parse args s).0
    ran_coreg :
        (s : Session World) (args : Text) → IsReachable s → IsReachable (coreg E D parse args s).0
    ran_cobp :
        (s : Session World) (args : Text) → IsReachable s → IsReachable (cobp E D parse args s).0

  keep-IsSoundSession :
      (s : Session World) (w : World)
      → ((j : ℕ) → L.live s.world j ≡ true → L.live w j ≡ true)
      → IsSoundSession E L s
      → IsSoundSession E L (record s { world = w })
  keep-IsSoundSession s w stay v = record {
    each = λ p m at. record {
      linked = (v.each p m at).linked;
      alive = λ i d has. stay i ((v.each p m at).alive i d has);
      apart = λ i f. absurd f;
    };
    disjoint = v.disjoint;
  }

  lose-IsSoundSessionBut :
      (i : ℕ) (s : Session World) (w : World)
      → ((j : ℕ) → nat_beq j i ≡ false → L.live s.world j ≡ true → L.live w j ≡ true)
      → IsSoundSession E L s
      → IsSoundSessionBut E L D i (record s { world = w })
  lose-IsSoundSessionBut i s w stay v = record {
    each = λ p m at. record {
      linked = (v.each p m at).linked;
      others = λ j d other has. stay j other ((v.each p m at).alive j d has);
      apart = λ j f. absurd f;
    };
    disjoint = v.disjoint;
  }

  -- Whatever sequence of events and commands a session went through since its constructor, for any
  -- number of processes and whatever the engine answered: each of its monitors names the same
  -- breakpoints from the identifier and from the address, the engine has every breakpoint that some
  -- monitor records, and no two monitors record the same one, where a breakpoint that the engine loses
  -- by other hands than the session's is announced to it at once.
  pub IsReachable-IsSoundSession : (s : Session World) → IsReachable s → IsSoundSession E L s
  unfolding find exit_process_event cobp
  IsReachable-IsSoundSession _ (created w) = record {
    each = λ p m at. absurd (ground (arith, at));
    disjoint = λ p q i m n d differ at at' has. absurd (ground (arith, at));
  }
  IsReachable-IsSoundSession _ (went_on s w stay r) =
      keep-IsSoundSession s w stay (IsReachable-IsSoundSession s r)
  IsReachable-IsSoundSession _ (changed_state s w flags argument told r) =
      let v = IsReachable-IsSoundSession s r in
      change_state-IsSoundSession E L D flags argument (record s { world = w })
        (lose-IsSoundSessionBut (argument % 2 ^ 32) s w told.kept v)
        (λ silent. keep-IsSoundSession s w (λ j. told.kept_silent j silent) v)
        (λ bp found. keep-IsSoundSession s w (λ j. told.kept_found j bp found) v)
  IsReachable-IsSoundSession _ (hit_breakpoint s bp r) =
      breakpoint-IsSoundSession E L D bp s (IsReachable-IsSoundSession s r)
  IsReachable-IsSoundSession _ (loaded_module s base name image timestamp r) =
      load_module-IsSoundSession E L D base name image timestamp s (IsReachable-IsSoundSession s r)
  IsReachable-IsSoundSession _ (unloaded_module s base r) =
      unload_module-IsSoundSession E L D base s (IsReachable-IsSoundSession s r)
  IsReachable-IsSoundSession _ (exited_process s r) =
      detach-IsSoundSession E L D s (IsReachable-IsSoundSession s r)
  IsReachable-IsSoundSession _ (ran_comon s args r) =
      comon-IsSoundSession E L D parse args s (IsReachable-IsSoundSession s r)
  IsReachable-IsSoundSession _ (ran_coreg s args r) =
      coreg-IsSoundSession E L D parse args s (IsReachable-IsSoundSession s r)
  IsReachable-IsSoundSession _ (ran_cobp s args r) =
      let (behavior, vargs) = take_behavior (split_args args) in
      cobp_args-IsSoundSession E L D parse behavior vargs s (IsReachable-IsSoundSession s r)
