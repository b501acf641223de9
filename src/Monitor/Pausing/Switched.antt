-- ===== src/Monitor/Pausing/Switched.antt =====
-- comon/comonitor.cpp, the loops of `pause` and `resume`: what they make of the flags of each breakpoint.
use Prim.Native.Nat.{bit_and, bit_or}
use comon.Base.{
  ℕ, ◌-◌, ◌≡◌, refl, ◌∙◌, Bool, true, false, not, Option, none, some, List, [], ◌∷◌, inl, inr,
  Bool-cases, arith, nat_beq, nat_eq, find, Distinct,
}
use comon.Base.Result.{ok}
use comon.Engine.{Engine, EngineLaws}
use comon.Monitor.Types.{BreakpointData, is_onetime_breakpoint}
use comon.Monitor.Monad.{State, skip, attempt, ask, act, ◌>>=◌, ◌>>◌, continue}
use comon.Monitor.Vtables.{modify_breakpoint_flag, switch_breakpoints}

module _ (E : Engine) (L : EngineLaws E) where
  open E use {World, Handle, get_breakpoint_by_id, get_flags, set_flags}

  -- An engine that finds each breakpoint in use, and reads and writes its flags, those of one breakpoint
  -- at a time.
  pub record FlagLaws : Type 0 where
    pub flags_of : World → ℕ → ℕ
    pub found :
        (i : ℕ) (w : World) → L.live w i ≡ true → (h : Handle) × (get_breakpoint_by_id i w ≡ ok h)
    pub read :
        (i : ℕ) (w : World) (h : Handle)
        → get_breakpoint_by_id i w ≡ ok h
        → get_flags h w ≡ ok (flags_of w i)
    pub written :
        (i : ℕ) (w : World) (h : Handle) (f : ℕ)
        → get_breakpoint_by_id i w ≡ ok h
        → ((set_flags h f w).1 ≡ ok tt)
          × ((j : ℕ)
              → flags_of (set_flags h f w).0 j
                ≡ elim (nat_beq i j) [ true ↦ f | false ↦ flags_of w j ])

-- the flags with `DEBUG_BREAKPOINT_ENABLED` or without it
abbrev pub new_flags : Bool → ℕ → ℕ
new_flags enable flags = elim enable [
  | true ↦ bit_or flags 4
  | false ↦ bit_and flags (0xffffffff - 4)
]

-- a breakpoint that is switched
abbrev pub is_switched : Option BreakpointData → Bool
is_switched none = false
is_switched (some d) = not (is_onetime_breakpoint d.brk)

module _ (E : Engine) (L : EngineLaws E) (F : FlagLaws E L) where
  open E use {World, Handle}
  open F use {flags_of}

  -- what a loop over a part of the map makes of the flags
  pub record IsSwitched (enable : Bool) (m : List (ℕ × BreakpointData)) (s t : State World)
      : Type 0 where
    pub monitor : t.monitor ≡ s.monitor
    pub live : (j : ℕ) → L.live t.world j ≡ L.live s.world j
    pub flags :
        (j : ℕ)
        → flags_of t.world j ≡ elim (is_switched (find j m)) [
          | true ↦ new_flags enable (flags_of s.world j)
          | false ↦ flags_of s.world j
        ]

  modify_flag_lem :
      (enable : Bool) (i : ℕ) (s : State World)
      → L.live s.world i ≡ true
      → (h : Handle) × (attempt (modify_breakpoint_flag E i 4 enable) s ≡ (
        record s { world = (E.set_flags h (new_flags enable (flags_of s.world i)) s.world).0 },
        ok tt,
      ))
        × (E.get_breakpoint_by_id i s.world ≡ ok h)
  unfolding modify_breakpoint_flag attempt ask act ◌>>=◌ continue
  modify_flag_lem enable i s alive =
      let (h, e) = F.found i s.world alive in (h, rw (e, F.read i s.world h e) refl, e)

  switch_skipped :
      (enable : Bool) (i : ℕ) (d : BreakpointData) (rest : List (ℕ × BreakpointData))
      (s : State World)
      → is_onetime_breakpoint d.brk ≡ true
      → switch_breakpoints E enable ((i, d) ∷ rest) s ≡ switch_breakpoints E enable rest s
  unfolding switch_breakpoints skip ◌>>◌ continue
  switch_skipped enable i d rest s once = rw (once, switch_breakpoints) refl

  switch_written :
      (enable : Bool) (i : ℕ) (d : BreakpointData) (rest : List (ℕ × BreakpointData))
      (s t : State World)
      → is_onetime_breakpoint d.brk ≡ false
      → attempt (modify_breakpoint_flag E i 4 enable) s ≡ (t, ok tt)
      → switch_breakpoints E enable ((i, d) ∷ rest) s ≡ switch_breakpoints E enable rest t
  unfolding switch_breakpoints ◌>>◌ continue
  switch_written enable i d rest s t often done = rw (often, switch_breakpoints, done) refl

  empty_run : (enable : Bool) (s : State World) → switch_breakpoints E enable [] s ≡ (s, ok tt)
  unfolding switch_breakpoints skip
  empty_run enable s = refl

  alive_rest :
      (i : ℕ) (d : BreakpointData) (rest : List (ℕ × BreakpointData)) (w : World)
      → find i rest ≡ none
      → ((j : ℕ) (e : BreakpointData) → find j ((i, d) ∷ rest) ≡ some e → L.live w j ≡ true)
      → (j : ℕ) (e : BreakpointData) → find j rest ≡ some e
      → L.live w j ≡ true
  unfolding find
  alive_rest i d rest w gone alive j e at = elim (Bool-cases (nat_beq i j)) [
    | inl same ↦ absurd (ground (arith, gone, at, same))
    | inr other ↦ alive j e (ground (arith, other, at))
  ]

  pub switch_lem :
      (enable : Bool) (m : List (ℕ × BreakpointData)) (s : State World)
      → Distinct m
      → ((i : ℕ) (d : BreakpointData) → find i m ≡ some d → L.live s.world i ≡ true)
      → (t : State World) × (switch_breakpoints E enable m s ≡ (t, ok tt)) × IsSwitched enable m s t
  unfolding find
  switch_lem enable [] s dist alive =
      (s, empty_run enable s, record { monitor = refl; live = λ j. refl; flags = λ j. refl })
  switch_lem enable ((i, d) ∷ rest) s dist alive =
      let alive' = alive_rest i d rest s.world dist.0 alive in
      elim (Bool-cases (is_onetime_breakpoint d.brk)) [
        | inl once ↦
            let (t, run, v) = switch_lem enable rest s dist.1 alive' in
            (
              t,
              switch_skipped enable i d rest s once ∙ run,
              record {
                monitor = v.monitor;
                live = v.live;
                flags = λ j. ground (arith, v.flags j, once, dist.0);
              },
            )
        | inr often ↦
            let (h, done, e) = modify_flag_lem enable i s (alive i d (ground arith)) in
            let flags = new_flags enable (flags_of s.world i) in
            let s1 : State World = record s { world = (E.set_flags h flags s.world).0 } in
            let (t, run, v) =
              switch_lem enable rest s1 dist.1
                (λ j d' at. L.set_flags-live h flags s.world j ∙ alive' j d' at) in
            (
              t,
              switch_written enable i d rest s s1 often done ∙ run,
              record {
                monitor = v.monitor;
                live = λ j. v.live j ∙ L.set_flags-live h flags s.world j;
                flags = λ j.
                    ground (arith, v.flags j, often, dist.0, (F.written i s.world h flags e).1 j);
              },
            )
      ]
