-- ===== src/Session/Soundness.antt =====
-- comon/dbgsession.h: the monitors of a session share one engine. Each keeps its maps in step, and no
-- two of them record the same breakpoint, whichever of them works.
pub mod Removal
pub mod Commands
pub mod Events
pub mod Runs
use comon.Base.{
  ℕ, ◌≡◌, refl, ◌⊎◌, true, false, Option, none, some, List, ◌∷◌, inl, inr, Option-cases, Bool-cases,
  arith, nat_beq, nat_eq, find, insert, assign, erase, find-insert, find-assign, find-erase,
}
use comon.Engine.{Engine, EngineLaws}
use comon.Ext.Filter.{Cofilter}
use comon.Monitor.Types.{Monitor, BreakpointData, DebuggeeType}
use comon.Monitor.Monad.{State, M}
use comon.Monitor.Links.{Linked}
use comon.Monitor.Modules.{new_monitor, start, stop}
use comon.Monitor.Breakpoints.Sound.{IsSound, Alone}
use comon.Monitor.Soundness.{Sound}
use comon.Monitor.Soundness.Events.{start-Sound, stop-Sound}
use comon.Session.{Session, Debugger, active, on_monitor, attach, detach}

-- the monitor records the breakpoint
abbrev pub Owns : Monitor → ℕ → Type 0
Owns m i = (d : BreakpointData) × (find i m.breakpoints ≡ some d)

-- what one map of monitors has of another: the monitor of the process, or one of another process
abbrev Taken : ℕ → Monitor → List (ℕ × Monitor) → ℕ → Monitor → Type 0
Taken p m ms q n = ((nat_beq p q ≡ true) × (m ≡ n)) ⊎ ((nat_beq p q ≡ false) × (find q ms ≡ some n))

module _ (E : Engine) (L : EngineLaws E) where
  open E use {World}
  open L use {live}

  abbrev with_world : World → Monitor → State World
  with_world w m = record { world = w; monitor = m }

  -- Each monitor has its maps in step and its breakpoints in the engine, and no breakpoint is recorded
  -- by two monitors.
  pub record IsSoundSession (s : Session World) : Type 0 where
    pub each :
        (p : ℕ) (m : Monitor)
        → find p s.monitors ≡ some m
        → IsSound E L Alone (with_world s.world m)
    pub disjoint :
        (p q i : ℕ) (m n : Monitor) (d : BreakpointData)
        → nat_beq p q ≡ false
        → find p s.monitors ≡ some m
        → find q s.monitors ≡ some n
        → find i m.breakpoints ≡ some d
        → find i n.breakpoints ≡ none

  -- the monitor of one process, with those of the others beside it
  record IsBeside (ms : List (ℕ × Monitor)) (p : ℕ) (s : State World) : Type 0 where
    own : IsSound E L Alone s
    others :
        (q : ℕ) (n : Monitor)
        → nat_beq p q ≡ false
        → find q ms ≡ some n
        → IsSound E L (Owns n) s × Linked n
    disjoint :
        (q r i : ℕ) (n o : Monitor) (d : BreakpointData)
        → nat_beq q r ≡ false
        → find q ms ≡ some n
        → find r ms ≡ some o
        → find i n.breakpoints ≡ some d
        → find i o.breakpoints ≡ none

  focus :
      (s : Session World) (p : ℕ) (m : Monitor)
      → IsSoundSession s
      → find p s.monitors ≡ some m
      → IsBeside s.monitors p (with_world s.world m)
  focus s p m v at = record {
    own = v.each p m at;
    others = λ q n other there. (
      record {
        linked = (v.each p m at).linked;
        alive = (v.each p m at).alive;
        apart = λ i o. (
          (v.each q n there).alive i o.0 o.1,
          v.disjoint q p i n m o.0 (ground (arith, other)) there at o.1,
        );
      },
      (v.each q n there).linked,
    );
    disjoint = v.disjoint;
  }

  -- nothing of the other monitors changes
  method-IsBeside :
      {A : Type 0} {method : M World A} (ms : List (ℕ × Monitor)) (p : ℕ) (s : State World)
      → ((foreign : ℕ → Type 0) → Sound E L foreign method)
      → IsBeside ms p s
      → IsBeside ms p (method s).0
  method-IsBeside ms p s k b = record {
    own = (k Alone).after s b.own;
    others = λ q n other there. let v = b.others q n other there in ((k (Owns n)).after s v.0, v.1);
    disjoint = b.disjoint;
  }

  other-IsSound :
      (n : Monitor) (s : State World)
      → IsSound E L (Owns n) s × Linked n
      → IsSound E L Alone (with_world s.world n)
  other-IsSound n s v = record {
    linked = v.1;
    alive = λ i d at. (v.0.apart i (d, at)).0;
    apart = λ i f. absurd f;
  }

  own-disjoint :
      (n : Monitor) (s : State World) (i : ℕ) (d : BreakpointData)
      → IsSound E L (Owns n) s
      → find i s.monitor.breakpoints ≡ some d
      → find i n.breakpoints ≡ none
  own-disjoint n s i d v at = elim (Option-cases (find i n.breakpoints)) [
    | inl gone ↦ gone
    | inr (e, there) ↦ absurd (ground (arith, at, (v.apart i (e, there)).1))
  ]

  unfocus :
      (ms ms' : List (ℕ × Monitor)) (p : ℕ) (s : State World)
      → ((q : ℕ) (n : Monitor) → find q ms' ≡ some n → Taken p s.monitor ms q n)
      → IsBeside ms p s
      → IsSoundSession (record { world = s.world; monitors = ms' })
  unfocus ms ms' p s taken b = record {
    each = λ q n at. elim (taken q n at) [
      | inl (same, e) ↦ rw (← e) b.own
      | inr (other, there) ↦ other-IsSound n s (b.others q n other there)
    ];
    disjoint = λ q r i n o d differ at at' has. elim (taken q n at) [
      | inl (same, e) ↦ elim (taken r o at') [
        | inl (same', e') ↦ absurd (ground (arith, same, same', differ))
        | inr (other, there) ↦ own-disjoint o s i d (b.others r o other there).0 (rw e has)
      ]
      | inr (other, there) ↦ elim (taken r o at') [
        | inl (same', e') ↦ rw (← e') ((b.others q n other there).0.apart i (d, has)).1
        | inr (other', there') ↦ b.disjoint q r i n o d differ there there' has
      ]
    ];
  }

  Taken-assign :
      (p q : ℕ) (v m n : Monitor) (ms : List (ℕ × Monitor))
      → find p ms ≡ some m
      → find q (assign p v ms) ≡ some n
      → Taken p v ms q n
  Taken-assign p q v m n ms at there = elim (Bool-cases (nat_beq p q)) [
    | inl same ↦ inl (same, ground (arith, find-assign p q v m ms at, there, same))
    | inr other ↦ inr (other, ground (arith, find-assign p q v m ms at, there, other))
  ]

  Taken-insert :
      (p q : ℕ) (v n : Monitor) (ms : List (ℕ × Monitor))
      → find p ms ≡ none
      → find q (insert p v ms) ≡ some n
      → Taken p v ms q n
  Taken-insert p q v n ms gone there = elim (Bool-cases (nat_beq p q)) [
    | inl same ↦ inl (same, ground (arith, find-insert p q v ms gone, there, same))
    | inr other ↦ inr (other, ground (arith, find-insert p q v ms gone, there, other))
  ]

  Taken-erase :
      (p q : ℕ) (v n : Monitor) (ms : List (ℕ × Monitor))
      → find q (erase p ms) ≡ some n
      → Taken p v ms q n
  Taken-erase p q v n ms there = elim (Bool-cases (nat_beq p q)) [
    | inl same ↦ absurd (ground (arith, find-erase p q ms, there, same))
    | inr other ↦ inr (other, ground (arith, find-erase p q ms, there, other))
  ]

  new-IsBeside :
      (s : Session World) (p : ℕ) (dbgtype : DebuggeeType) (fltr : Cofilter)
      → IsSoundSession s
      → IsBeside s.monitors p (with_world s.world (new_monitor p dbgtype fltr))
  unfolding find
  new-IsBeside s p dbgtype fltr v = record {
    own = record {
      linked = record { inverse = λ i a. refl; distinct = tt };
      alive = λ i d at. ground (arith, at);
      apart = λ i f. absurd f;
    };
    others = λ q n other there. (
      record {
        linked = record { inverse = λ i a. refl; distinct = tt };
        alive = λ i d at. ground (arith, at);
        apart = λ i o. ((v.each q n there).alive i o.0 o.1, refl);
      },
      (v.each q n there).linked,
    );
    disjoint = v.disjoint;
  }

module _ (E : Engine) (L : EngineLaws E) (D : Debugger E) where
  open E use {World}

  -- A method that is sound for one monitor, whatever breakpoints others have, keeps the session sound.
  pub on_monitor-IsSoundSession :
      {A : Type 0} {method : M World A} (p : ℕ) (s : Session World)
      → ((foreign : ℕ → Type 0) → Sound E L foreign method)
      → IsSoundSession E L s
      → IsSoundSession E L (on_monitor E D p method s).0
  unfolding on_monitor
  on_monitor-IsSoundSession {method} p s k v = elim (Option-cases (find p s.monitors)) [
    | inl gone ↦ rw (gone, on_monitor) v
    | inr (m, at) ↦
        rw (at, on_monitor)
          (unfocus E L s.monitors _ p (method (record { world = s.world; monitor = m })).0
            (λ q n there. Taken-assign E L p q _ m n s.monitors at there)
            (method-IsBeside E L s.monitors p _ k (focus E L s p m v at)))
  ]

  pub attach-IsSoundSession :
      (fltr : Cofilter) (s : Session World)
      → IsSoundSession E L s
      → IsSoundSession E L (attach E D fltr s)
  unfolding attach
  attach-IsSoundSession fltr s v = elim (Option-cases (find (active E D s) s.monitors)) [
    | inr (m, at) ↦ rw (at, attach) v
    | inl gone ↦
        rw (gone, attach)
          (unfocus E L s.monitors _ (active E D s) _
            (λ q n there. Taken-insert E L (active E D s) q _ n s.monitors gone there)
            (method-IsBeside E L s.monitors (active E D s) _ (λ foreign. start-Sound E L foreign)
              (new-IsBeside E L s (active E D s) _ fltr v)))
  ]

  pub detach-IsSoundSession :
      (s : Session World) → IsSoundSession E L s → IsSoundSession E L (detach E D s)
  unfolding detach
  detach-IsSoundSession s v = elim (Option-cases (find (active E D s) s.monitors)) [
    | inl gone ↦ rw (gone, detach) v
    | inr (m, at) ↦
        rw (at, detach)
          (unfocus E L s.monitors _ (active E D s) _
            (λ q n there. Taken-erase E L (active E D s) q _ n s.monitors there)
            (method-IsBeside E L s.monitors (active E D s) _ (λ foreign. stop-Sound E L foreign)
              (focus E L s (active E D s) m v at)))
  ]
