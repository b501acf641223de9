-- ===== src/Monitor/Pausing.antt =====
-- comon/comonitor.cpp, `pause` and `resume`: which breakpoints of the engine they switch off and on.
pub mod Switched
use Prim.Native.Nat.{bit_and, bit_or}
use comon.Base.{
  ℕ, ◌-◌, ◌<◌, ◌≡◌, refl, ap, ◌∙◌, Bool, true, false, not, Option, none, some, List, [], ◌∷◌, inl,
  inr, Bool-cases, arith, nat_beq, nat_eq, find, Distinct,
}
use comon.Base.Bits.{bit, bit-bit_and, bit-bit_or, bit_mask, bit_flag, bit_small}
use comon.Base.Result.{ok}
use comon.Engine.{Engine, EngineLaws}
use comon.Monitor.Types.{Monitor, BreakpointData, is_onetime_breakpoint}
use comon.Monitor.Monad.{State, skip, attempt, ask, act, gets, modify, ◌>>=◌, ◌>>◌, continue}
use comon.Monitor.Vtables.{modify_breakpoint_flag, switch_breakpoints, pause, resume}
use comon.Monitor.Breakpoints.Sound.{IsSound, Alone}
use comon.Monitor.Pausing.Switched.{FlagLaws, new_flags, is_switched, IsSwitched, switch_lem}

-- the digits of the new flags
paused_bit :
    (n f : ℕ)
    → n < 32
    → bit n (new_flags false f) ≡ elim (nat_beq n 2) [ true ↦ 0 | false ↦ bit n f ]
paused_bit n f small = ground (arith, bit-bit_and n f 0xfffffffb, bit_mask n small, bit_small n f)

resumed_bit :
    (n f : ℕ)
    → n < 32
    → bit n (new_flags true f) ≡ elim (nat_beq n 2) [ true ↦ 1 | false ↦ bit n f ]
resumed_bit n f small = ground (arith, bit-bit_or n f 4, bit_flag n small, bit_small n f)

module _ (E : Engine) (L : EngineLaws E) (F : FlagLaws E L) where
  open E use {World, Handle}
  open F use {flags_of}

  -- the state behind `pause` or `resume`
  abbrev behind : Bool → State World → State World
  behind paused t = record t { monitor = record t.monitor { is_paused = paused } }

  pause_run :
      (s t : State World)
      → switch_breakpoints E false s.monitor.breakpoints s ≡ (t, ok tt)
      → pause E s ≡ (behind true t, ok tt)
  unfolding pause gets modify ◌>>=◌ ◌>>◌ continue
  pause_run s t run = rw run refl

  resume_run :
      (s t : State World)
      → switch_breakpoints E true s.monitor.breakpoints s ≡ (t, ok tt)
      → resume E s ≡ (behind false t, ok tt)
  unfolding resume gets modify ◌>>=◌ ◌>>◌ continue
  resume_run s t run = rw run refl

  -- what `pause` and a `resume` behind it leave of the flags of one breakpoint
  restored_bit :
      (switched : Bool) (n f g h : ℕ)
      → n < 32
      → (switched ≡ true → bit 2 f ≡ 1)
      → g ≡ elim switched [ true ↦ new_flags false f | false ↦ f ]
      → h ≡ elim switched [ true ↦ new_flags true g | false ↦ g ]
      → bit n h ≡ bit n f
  restored_bit false n f g h small on e e' = ap (bit n) (e' ∙ e)
  restored_bit true n f g h small on e e' = ap (bit n) e' ∙ elim (Bool-cases (nat_beq n 2)) [
    | inl same ↦
        let two : n ≡ 2 = ground (arith, same) in
        ground (arith, resumed_bit n g small, same, ap (λ (k : ℕ). bit k f) two, on refl)
    | inr other ↦ ground (arith, resumed_bit n g small, other, ap (bit n) e, paused_bit n f small)
  ]

  -- Where the maps are in step and the flags of every breakpoint that is not meant to be hit once have
  -- it enabled, `pause` succeeds and disables exactly these breakpoints in the engine, leaving the flags
  -- of all others as they were, and `resume` behind it succeeds and brings every one of the 32 flags of
  -- every breakpoint back; of the monitor only the mark that it is paused changes. The engine finds the
  -- breakpoints it has, and reads and writes their flags.
  pub pause-resume :
      (s : State World)
      → IsSound E L Alone s
      → ((i : ℕ)
          → is_switched (find i s.monitor.breakpoints) ≡ true
          → bit 2 (flags_of s.world i) ≡ 1)
      → (t : State World) × (u : State World) × (pause E s ≡ (t, ok tt))
        × (resume E t ≡ (u, ok tt))
        × ((i : ℕ)
            → is_switched (find i s.monitor.breakpoints) ≡ true
            → bit 2 (flags_of t.world i) ≡ 0)
        × ((i : ℕ)
            → is_switched (find i s.monitor.breakpoints) ≡ false
            → flags_of t.world i ≡ flags_of s.world i)
        × ((i n : ℕ) → n < 32 → bit n (flags_of u.world i) ≡ bit n (flags_of s.world i))
        × (t.monitor ≡ record s.monitor { is_paused = true })
        × (u.monitor ≡ record s.monitor { is_paused = false })
  pause-resume s v on =
      let m = s.monitor.breakpoints in
      let (t, run, p) = switch_lem E L F false m s v.linked.distinct v.alive in
      let t' = behind true t in
      let same : t'.monitor.breakpoints ≡ m = ap (λ (k : Monitor). k.breakpoints) p.monitor in
      let (u, run', q) =
        switch_lem E L F true m t' v.linked.distinct (λ i d at. p.live i ∙ v.alive i d at) in
      let run'' : switch_breakpoints E true t'.monitor.breakpoints t' ≡ (u, ok tt) =
        ap (λ (k : List (ℕ × BreakpointData)). switch_breakpoints E true k t') same ∙ run' in
      (
        t',
        behind false u,
        pause_run s t run,
        resume_run t' u run'',
        λ i switched.
            ap (bit 2) (p.flags i) ∙ rw switched (paused_bit 2 (flags_of s.world i) (omega arith)),
        λ i others. p.flags i ∙ rw others refl,
        λ i n small.
            restored_bit (is_switched (find i m)) n (flags_of s.world i) (flags_of t'.world i)
              (flags_of u.world i) small (on i) (p.flags i) (q.flags i),
        ap (λ (k : Monitor). record k { is_paused = true }) p.monitor,
        ap (λ (k : Monitor). record k { is_paused = false }) q.monitor
            ∙ ap (λ (k : Monitor). record k { is_paused = false }) p.monitor,
      )
