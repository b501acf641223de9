-- ===== src/Monitor/Breakpoints/Loop.antt =====
-- comon/comonitor.cpp and comon/comonitor_com_breakpoints.cpp: the loops over `_breakpoints` that
-- unset what passes a test.
use comon.Base.{
  ℕ, ◌≡◌, refl, Bool, true, false, Option, none, some, List, [], ◌∷◌, inl, inr, Bool-cases, arith,
  nat_beq, nat_eq, find, erase, Distinct, find-erase,
}
use comon.Base.Result.{ok, Result-cases}
use comon.Engine.{Engine, EngineLaws}
use comon.Monitor.Types.{BreakpointData}
use comon.Monitor.Monad.{State, skip, act}
use comon.Monitor.Breakpoints.{
  remove_from_maps, unset_inner_breakpoint, remove_engine_breakpoint, unset_breakpoint, unset_where,
}
use comon.Monitor.Breakpoints.Sound.{IsSound}
use comon.Monitor.Breakpoints.Removal.{
  unset_breakpoint-monitor, unset_breakpoint-IsSound, unset_lem,
}

-- the map holds the entries
abbrev pub Listed : List (ℕ × BreakpointData) → List (ℕ × BreakpointData) → Type 0
Listed m [] = Unit {0}
Listed m ((i, d) ∷ rest) = (find i m ≡ some d) × Listed m rest

Listed-erase :
    (i : ℕ) (m rest : List (ℕ × BreakpointData))
    → find i rest ≡ none
    → Listed m rest
    → Listed (erase i m) rest
unfolding find
Listed-erase i m [] gone h = tt
Listed-erase i m ((j, d) ∷ rest) gone h =
    (ground (arith, find-erase i j m), Listed-erase i m rest (ground arith) h.1)

Listed-cons :
    (j : ℕ) (d : BreakpointData) (m rest : List (ℕ × BreakpointData))
    → find j rest ≡ none
    → Listed m rest
    → Listed ((j, d) ∷ m) rest
unfolding find
Listed-cons j d m [] gone h = tt
Listed-cons j d m ((i, d') ∷ rest) gone h =
    (ground arith, Listed-cons j d m rest (ground arith) h.1)

-- a map holds its own entries
pub Listed-self : (m : List (ℕ × BreakpointData)) → Distinct m → Listed m m
unfolding find
Listed-self [] h = tt
Listed-self ((i, d) ∷ m) h = (ground arith, Listed-cons i d m m h.0 (Listed-self m h.1))

module _ (E : Engine) (L : EngineLaws E) where
  open E use {World, Handle}

  abbrev after : ℕ → BreakpointData → State World → State World
  after i d s = (unset_breakpoint E i d s).0

  after-Listed :
      (i : ℕ) (d : BreakpointData) (s : State World) (rest : List (ℕ × BreakpointData))
      → find i rest ≡ none
      → Listed s.monitor.breakpoints rest
      → Listed (after i d s).monitor.breakpoints rest
  unfolding remove_from_maps
  after-Listed i d s rest gone h =
      rw (unset_breakpoint-monitor E L i d s) (Listed-erase i s.monitor.breakpoints rest gone h)

  -- the engine removes every breakpoint that it is asked to
  abbrev pub Removes : Type 0
  Removes = (h : Handle) (w : World) → (E.remove_breakpoint h w).1 ≡ ok tt

  unset_done :
      Removes
      → (i : ℕ) (d : BreakpointData) (s : State World) → (unset_breakpoint E i d s).1 ≡ ok tt
  unfolding remove_engine_breakpoint act skip
  unset_done all i d s =
      rw (unset_lem E L i d s)
        (elim (Result-cases (E.get_breakpoint_by_id i (unset_inner_breakpoint E i d s).0.world)) [
          | inl (h, e) ↦ rw (e, remove_engine_breakpoint) (all h _)
          | inr (hr, e) ↦ rw (e, remove_engine_breakpoint) refl
        ])

  -- what is left of an entry
  abbrev pub left :
      (BreakpointData → Bool)
      → Option BreakpointData
      → Option BreakpointData
      → Option BreakpointData
  left p none r = r
  left p (some d) r = elim (p d) [ true ↦ none | false ↦ r ]

  find-unset :
      (p : BreakpointData → Bool) (j i : ℕ) (d : BreakpointData) (s : State World)
      → find j (after i d s).monitor.breakpoints
        ≡ elim (nat_beq i j) [ true ↦ none | false ↦ find j s.monitor.breakpoints ]
  unfolding remove_from_maps
  find-unset p j i d s =
      rw (unset_breakpoint-monitor E L i d s) (find-erase i j s.monitor.breakpoints)

  pub unset_where_lem :
      Removes
      → (p : BreakpointData → Bool) (rest : List (ℕ × BreakpointData)) (s : State World) (j : ℕ)
      → Distinct rest
      → find j (unset_where E p rest s).0.monitor.breakpoints
        ≡ left p (find j rest) (find j s.monitor.breakpoints)
  unfolding unset_where skip find
  unset_where_lem all p [] s j dist = refl
  unset_where_lem all p ((i, d) ∷ []) s j dist = ground (arith, find-unset p j i d s)
  unset_where_lem all p ((i, d) ∷ e ∷ rest) s j dist = ground (
    arith,
    find-unset p j i d s,
    unset_done all i d s,
    unset_where_lem all p (e ∷ rest) s j dist.1,
    unset_where_lem all p (e ∷ rest) (after i d s) j dist.1,
    dist.0,
  )

module _ (E : Engine) (L : EngineLaws E) (foreign : ℕ → Type 0) where
  open E use {World}

  -- The loop keeps the maps in step, whichever removals fail.
  pub unset_where-IsSound :
      (p : BreakpointData → Bool) (rest : List (ℕ × BreakpointData)) (s : State World)
      → Distinct rest
      → Listed s.monitor.breakpoints rest
      → IsSound E L foreign s
      → IsSound E L foreign (unset_where E p rest s).0
  unfolding unset_where skip
  unset_where-IsSound p [] s dist at v = v
  unset_where-IsSound p ((i, d) ∷ []) s dist at v = elim (Bool-cases (p d)) [
    | inl yes' ↦
        let v' = unset_breakpoint-IsSound E L foreign i d s at.0 v in
        elim (Result-cases (unset_breakpoint E i d s).1) [
          | inl (u, done) ↦ rw (yes', unset_where, done) v'
          | inr (hr, failed) ↦ rw (yes', unset_where, failed) v'
        ]
    | inr no' ↦ rw (no', unset_where) v
  ]
  unset_where-IsSound p ((i, d) ∷ e ∷ rest) s dist at v = elim (Bool-cases (p d)) [
    | inr no' ↦ rw (no', unset_where) (unset_where-IsSound p (e ∷ rest) s dist.1 at.1 v)
    | inl yes' ↦
        let v' = unset_breakpoint-IsSound E L foreign i d s at.0 v in
        let at' = after-Listed E L i d s (e ∷ rest) dist.0 at.1 in
        elim (Result-cases (unset_breakpoint E i d s).1) [
          | inl (u, done) ↦
              rw (yes', unset_where, done)
                (unset_where-IsSound p (e ∷ rest) (after E L i d s) dist.1 at' v')
          | inr (hr, failed) ↦
              rw (yes', unset_where, failed)
                (unset_where-IsSound p rest (after E L i d s) dist.1.1 at'.1 v')
        ]
  ]
