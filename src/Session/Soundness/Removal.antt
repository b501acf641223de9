-- ===== src/Session/Soundness/Removal.antt =====
-- comon/dbgsession.cpp, `ChangeEngineState`: a breakpoint that the engine has lost is taken out of
-- every monitor of the session.
use mathlib.Core.Option.{some-injective}
use comon.Base.{
  ℕ, ◌≡◌, refl, ap, sym, ◌∙◌, true, false, Option, none, some, List, [], ◌∷◌, inl, inr,
  Option-cases, Bool-cases, arith, nat_beq, nat_eq, find, find-erase,
}
use comon.Engine.{Engine, EngineLaws}
use comon.Monitor.Types.{Monitor, BreakpointData}
use comon.Monitor.Monad.{State, gets, throw, ◌>>=◌, continue}
use comon.Monitor.Breakpoints.{remove_from_maps, handle_breakpoint_removed}
use comon.Monitor.Breakpoints.Sound.{IsSound, IsSound-Stable, Alone}
use comon.Monitor.Breakpoints.Removal.{
  SameLive, inner_lem, restored-monitor, restored-live, IsSoundBut, IsSound-IsSoundBut,
  handle_breakpoint_removed_lem,
}
use comon.Session.{Session, Debugger, notify_removed}
use comon.Session.Soundness.{IsSoundSession}

-- the monitor without the breakpoint
abbrev pub forget : ℕ → Monitor → Monitor
forget i m = elim (find i m.breakpoints) [ none ↦ m | some d ↦ remove_from_maps i d.addr m ]

-- `find` in a map where every monitor forgot the breakpoint
abbrev pub forget_found : ℕ → Option Monitor → Option Monitor
forget_found i none = none
forget_found i (some m) = some (forget i m)

find-forget :
    (i j : ℕ) (m : Monitor)
    → find j (forget i m).breakpoints
      ≡ elim (nat_beq i j) [ true ↦ none | false ↦ find j m.breakpoints ]
unfolding remove_from_maps
find-forget i j m = elim (Option-cases (find i m.breakpoints)) [
  | inl gone ↦ rw (gone, forget) (ground (arith, gone))
  | inr (d, at) ↦ rw (at, forget) (find-erase i j m.breakpoints)
]

forget-some :
    (i j : ℕ) (m : Monitor) (d : BreakpointData)
    → find j (forget i m).breakpoints ≡ some d
    → find j m.breakpoints ≡ some d
forget-some i j m d at = ground (arith, find-forget i j m, at)

forget-none :
    (i j : ℕ) (m : Monitor) → find j m.breakpoints ≡ none → find j (forget i m).breakpoints ≡ none
forget-none i j m gone = ground (arith, find-forget i j m, gone)

module _ (E : Engine) (L : EngineLaws E) (D : Debugger E) where
  open E use {World}
  open L use {live}

  pub removed_lem :
      (i : ℕ) (s : State World)
      → ((handle_breakpoint_removed E i s).0.monitor ≡ forget i s.monitor)
        × SameLive E L s.world (handle_breakpoint_removed E i s).0.world
  unfolding handle_breakpoint_removed gets throw ◌>>=◌ continue
  removed_lem i s = elim (Option-cases (find i s.monitor.breakpoints)) [
    | inl gone ↦ rw (gone, handle_breakpoint_removed, forget) (refl, λ j. refl)
    | inr (d, at) ↦
        rw (at, handle_breakpoint_removed, forget, inner_lem E L i d s)
          (ap (remove_from_maps i d.addr) (restored-monitor E L s d), restored-live E L s d)
  ]

  notify_live :
      (i : ℕ) (w : World) (ms : List (ℕ × Monitor)) → SameLive E L w (notify_removed E D i w ms).0
  unfolding notify_removed
  notify_live i w [] j = refl
  notify_live i w ((p, m) ∷ ms) j =
      notify_live i (handle_breakpoint_removed E i (record { world = w; monitor = m })).0.world ms j
      ∙ (removed_lem i (record { world = w; monitor = m })).1 j

  -- Every monitor of the session forgets the breakpoint, and nothing else of it changes.
  find-notify_removed :
      (i p : ℕ) (w : World) (ms : List (ℕ × Monitor))
      → find p (notify_removed E D i w ms).1 ≡ forget_found i (find p ms)
  unfolding notify_removed find
  find-notify_removed i p w [] = refl
  find-notify_removed i p w ((q, m) ∷ ms) =
      let s : State World = record { world = w; monitor = m } in
      let w' = (handle_breakpoint_removed E i s).0.world in
      elim (Bool-cases (nat_beq q p)) [
        | inl same ↦ ground (arith, same, (removed_lem i s).0)
        | inr other ↦ ground (arith, other, find-notify_removed i p w' ms)
      ]

  -- A session as it should be, but that the engine may have lost one breakpoint.
  pub record IsSoundSessionBut (i : ℕ) (s : Session World) : Type 0 where
    pub each :
        (p : ℕ) (m : Monitor)
        → find p s.monitors ≡ some m
        → IsSoundBut E L Alone i (record { world = s.world; monitor = m })
    pub disjoint :
        (p q j : ℕ) (m n : Monitor) (d : BreakpointData)
        → nat_beq p q ≡ false
        → find p s.monitors ≡ some m
        → find q s.monitors ≡ some n
        → find j m.breakpoints ≡ some d
        → find j n.breakpoints ≡ none

  pub IsSoundSession-IsSoundSessionBut :
      (i : ℕ) (s : Session World) → IsSoundSession E L s → IsSoundSessionBut i s
  IsSoundSession-IsSoundSessionBut i s v = record {
    each = λ p m at. IsSound-IsSoundBut E L Alone i _ (v.each p m at);
    disjoint = v.disjoint;
  }

  forget-IsSound :
      (i : ℕ) (w w' : World) (m : Monitor)
      → SameLive E L w w'
      → IsSoundBut E L Alone i (record { world = w; monitor = m })
      → IsSound E L Alone (record { world = w'; monitor = forget i m })
  forget-IsSound i w w' m same v =
      let s : State World = record { world = w; monitor = m } in
      let r = removed_lem i s in
      rw (← r.0) (
        IsSound-Stable E L Alone (handle_breakpoint_removed E i s).0 w' (λ j. same j ∙ sym (r.1 j))
          (handle_breakpoint_removed_lem E L Alone i s v).0)

  found-forget :
      (i : ℕ) (o : Option Monitor) (m : Monitor)
      → forget_found i o ≡ some m
      → (n : Monitor) × (o ≡ some n) × (m ≡ forget i n)
  found-forget i none m e = absurd (ground (arith, e))
  found-forget i (some n) m e = (n, refl, sym (some-injective _ _ e))

  pub notify-IsSoundSession :
      (i : ℕ) (s : Session World)
      → IsSoundSessionBut i s
      → IsSoundSession E L (record {
        world = (notify_removed E D i s.world s.monitors).0;
        monitors = (notify_removed E D i s.world s.monitors).1;
      })
  notify-IsSoundSession i s v = record {
    each = λ p m at.
        let (n, there, e) =
          found-forget i _ m (sym (find-notify_removed i p s.world s.monitors) ∙ at) in
        rw e (forget-IsSound i s.world _ n (notify_live i s.world s.monitors) (v.each p n there));
    disjoint = λ p q j m n d differ at at' has.
        let (m', there, e) =
          found-forget i _ m (sym (find-notify_removed i p s.world s.monitors) ∙ at) in
        let (n', there', e') =
          found-forget i _ n (sym (find-notify_removed i q s.world s.monitors) ∙ at') in
        rw e' (
          forget-none i j n'
            (v.disjoint p q j m' n' d differ there there' (forget-some i j m' d (rw (← e) has))));
  }
