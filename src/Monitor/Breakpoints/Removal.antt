-- ===== src/Monitor/Breakpoints/Removal.antt =====
-- comon/comonitor_com_breakpoints.cpp: what the removal of breakpoints does to the two maps, for one
-- breakpoint and for the loops that remove all that pass a test.
use mathlib.Core.Path.{subst}
use comon.Base.{
  ℕ, ◌≡◌, refl, ap, ◌∙◌, true, false, Option, none, some, inl, inr, Option-cases, Bool-cases, arith,
  nat_beq, nat_eq, find, find-erase,
}
use comon.Base.Result.{Result, ok, err, Result-cases, error_not_found}
use comon.Engine.{Engine, EngineLaws}
use comon.Monitor.Types.{BreakpointData, MemoryProtect}
use comon.Monitor.Monad.{
  State, Keeps, act, gets, attempt, modify, skip, throw, ◌>>=◌, ◌>>◌, continue, Keeps-bind,
  Keeps-then, Keeps-ask, Keeps-skip, Keeps-branch,
}
use comon.Monitor.Links.{Linked, remove-Linked}
use comon.Monitor.Breakpoints.{
  remove_from_maps, restore_page, unset_inner_breakpoint, remove_engine_breakpoint,
  unset_breakpoint, handle_breakpoint_removed,
}
use comon.Monitor.Breakpoints.Sound.{IsSound, Stable, Keeps-act}

module _ (E : Engine) (L : EngineLaws E) where
  open E use {World, Handle}
  open L use {live, ident}

  restore_page-Keeps :
      {P : State World → Type 0} (a : ℕ) (mp : Option MemoryProtect)
      → Stable E L P
      → Keeps P (restore_page E a mp)
  unfolding restore_page
  restore_page-Keeps a none stable = Keeps-skip
  restore_page-Keeps a (some mp) stable = Keeps-bind (Keeps-ask _) λ info.
      Keeps-branch (nat_beq info.protect mp.new_protect) Keeps-skip
        (Keeps-then (Keeps-act E L _ stable (L.virtual_protect-live _ _)) Keeps-skip)

  -- the state before the maps change
  pub restored : State World → BreakpointData → State World
  restored s d = (restore_page E d.addr d.mem_protect s).0

  pub inner_lem :
      (i : ℕ) (d : BreakpointData) (s : State World)
      → unset_inner_breakpoint E i d s ≡ (
        record (restored s d) { monitor = remove_from_maps i d.addr (restored s d).monitor },
        ok tt,
      )
  unfolding unset_inner_breakpoint restored attempt modify ◌>>◌ continue
  inner_lem i d s = refl

  pub restored-monitor : (s : State World) (d : BreakpointData) → (restored s d).monitor ≡ s.monitor
  unfolding restored
  restored-monitor s d =
      (restore_page-Keeps {P = λ t. t.monitor ≡ s.monitor} d.addr d.mem_protect
          (λ t w same e. e)).after
        s refl

  -- the same breakpoints are in use
  abbrev pub SameLive : World → World → Type 0
  SameLive w w' = (j : ℕ) → live w' j ≡ live w j

  pub restored-live : (s : State World) (d : BreakpointData) → SameLive s.world (restored s d).world
  unfolding restored
  restored-live s d =
      (restore_page-Keeps {P = λ t. SameLive s.world t.world} d.addr d.mem_protect
          (λ t w same e j. same j ∙ e j)).after
        s (λ j. refl)

  remove_engine-monitor :
      (i : ℕ) (s : State World) → (remove_engine_breakpoint E i s).0.monitor ≡ s.monitor
  unfolding remove_engine_breakpoint act skip
  remove_engine-monitor i s = elim (Result-cases (E.get_breakpoint_by_id i s.world)) [
    | inl (h, e) ↦ rw (e, remove_engine_breakpoint) refl
    | inr (hr, e) ↦ rw (e, remove_engine_breakpoint) refl
  ]

  pub unset_lem :
      (i : ℕ) (d : BreakpointData) (s : State World)
      → unset_breakpoint E i d s ≡ remove_engine_breakpoint E i (unset_inner_breakpoint E i d s).0
  unfolding unset_breakpoint unset_inner_breakpoint attempt modify ◌>>◌ continue
  unset_lem i d s = refl

  -- Whatever the engine answers, the breakpoint leaves both maps, and nothing else changes.
  pub unset_breakpoint-monitor :
      (i : ℕ) (d : BreakpointData) (s : State World)
      → (unset_breakpoint E i d s).0.monitor ≡ remove_from_maps i d.addr s.monitor
  unset_breakpoint-monitor i d s =
      ap (λ (o : State World × Result (Unit {0})). o.0.monitor) (unset_lem i d s)
      ∙ remove_engine-monitor i (unset_inner_breakpoint E i d s).0
      ∙ ap (λ (o : State World × Result (Unit {0})). o.0.monitor) (inner_lem i d s)
      ∙ ap (remove_from_maps i d.addr) (restored-monitor s d)

  inner-gone :
      (i : ℕ) (d : BreakpointData) (s : State World)
      → find i (unset_inner_breakpoint E i d s).0.monitor.breakpoints ≡ none
  unfolding remove_from_maps
  inner-gone i d s =
      rw (inner_lem i d s) (ground (arith, find-erase i i (restored s d).monitor.breakpoints))

  inner-ok :
      (i : ℕ) (d : BreakpointData) (s : State World) → (unset_inner_breakpoint E i d s).1 ≡ ok tt
  inner-ok i d s = ap (λ (o : State World × Result (Unit {0})). o.1) (inner_lem i d s)

module _ (E : Engine) (L : EngineLaws E) (foreign : ℕ → Type 0) where
  open E use {World, Handle}
  open L use {live, ident}

  -- the maps are in step, and the engine has every recorded breakpoint but perhaps one
  pub record IsSoundBut (i : ℕ) (s : State World) : Type 0 where
    pub linked : Linked s.monitor
    pub others :
        (j : ℕ) (d : BreakpointData)
        → nat_beq j i ≡ false
        → find j s.monitor.breakpoints ≡ some d
        → live s.world j ≡ true
    pub apart :
        (j : ℕ) → foreign j → (live s.world j ≡ true) × (find j s.monitor.breakpoints ≡ none)

  IsSoundBut-Stable : (i : ℕ) → Stable E L (IsSoundBut i)
  IsSoundBut-Stable i s w same v = record {
    linked = v.linked;
    others = λ j d other at. ground (arith, same j, v.others j d other at);
    apart = λ j f. ground (arith, same j, v.apart j f);
  }

  pub IsSound-IsSoundBut : (i : ℕ) (s : State World) → IsSound E L foreign s → IsSoundBut i s
  IsSound-IsSoundBut i s v = record {
    linked = v.linked;
    others = λ j d other. v.alive j d;
    apart = v.apart;
  }

  restored-IsSoundBut :
      (i : ℕ) (s : State World) (d : BreakpointData)
      → IsSoundBut i s
      → IsSoundBut i (restored E L s d)
  unfolding restored
  restored-IsSoundBut i s d =
      (restore_page-Keeps E L d.addr d.mem_protect (IsSoundBut-Stable i)).after s

  -- No identifier of the maps is lost to the engine when one that is not there is removed.
  remove_engine-IsSound :
      (i : ℕ) (s : State World)
      → IsSound E L foreign s
      → find i s.monitor.breakpoints ≡ none
      → ¬ foreign i
      → IsSound E L foreign (remove_engine_breakpoint E i s).0
  unfolding remove_engine_breakpoint act skip
  remove_engine-IsSound i s v gone unclaimed =
      elim (Result-cases (E.get_breakpoint_by_id i s.world)) [
        | inr (hr, e) ↦ rw (e, remove_engine_breakpoint) v
        | inl (h, e) ↦
            rw (e, remove_engine_breakpoint)
              (record {
                linked = v.linked;
                alive = λ j d at.
                    L.remove_keeps h s.world j
                      (λ same. ground (arith, L.get_breakpoint_by_id-ident i s.world h e))
                      (v.alive j d at);
                apart = λ j f. (
                  L.remove_keeps h s.world j
                      (λ same.
                        let e' = L.get_breakpoint_by_id-ident i s.world h e in
                        unclaimed (subst foreign (ground arith) f))
                      (v.apart j f).0,
                  (v.apart j f).1,
                );
              })
      ]

  unset_inner-IsSound :
      (i : ℕ) (d : BreakpointData) (s : State World)
      → find i s.monitor.breakpoints ≡ some d
      → IsSoundBut i s
      → IsSound E L foreign (unset_inner_breakpoint E i d s).0
  unfolding remove_from_maps
  unset_inner-IsSound i d s at v =
      rw (inner_lem E L i d s, restored-monitor E L s d)
        (record {
          linked = remove-Linked s.monitor i d at v.linked;
          alive = λ j d' at'. elim (Bool-cases (nat_beq j i)) [
            | inl same ↦ ground (arith, find-erase i j s.monitor.breakpoints, at', same)
            | inr other ↦ (restored-IsSoundBut i s d v).others j d' other (
                rw (restored-monitor E L s d)
                  (ground (arith, find-erase i j s.monitor.breakpoints, at')))
          ];
          apart = λ j f. (
            ((restored-IsSoundBut i s d v).apart j f).0,
            ground (arith, find-erase i j s.monitor.breakpoints, (v.apart j f).1),
          );
        })

  -- `unset_breakpoint` of a recorded breakpoint keeps the maps in step.
  pub unset_breakpoint-IsSound :
      (i : ℕ) (d : BreakpointData) (s : State World)
      → find i s.monitor.breakpoints ≡ some d
      → IsSound E L foreign s
      → IsSound E L foreign (unset_breakpoint E i d s).0
  unset_breakpoint-IsSound i d s at v = rw (unset_lem E L i d s) (
      remove_engine-IsSound i _ (unset_inner-IsSound i d s at (IsSound-IsSoundBut i s v))
        (inner-gone E L i d s) (λ f. ground (arith, at, (v.apart i f).1)))

  gone-IsSound :
      (i : ℕ) (s : State World)
      → find i s.monitor.breakpoints ≡ none
      → IsSoundBut i s
      → IsSound E L foreign s
  gone-IsSound i s gone v = record {
    linked = v.linked;
    alive = λ j d at. elim (Bool-cases (nat_beq j i)) [
      | inl same ↦ ground (arith, gone, at, same)
      | inr other ↦ v.others j d other at
    ];
    apart = v.apart;
  }

  -- The notice that the engine has lost a breakpoint: where the maps are in step and the engine has
  -- every other recorded breakpoint, the maps are in step afterwards, the engine has every breakpoint
  -- that is left in them, and none is recorded under the identifier; an identifier that was not
  -- recorded is answered with ERROR_NOT_FOUND, and a recorded one with success.
  pub handle_breakpoint_removed_lem :
      (i : ℕ) (s : State World)
      → IsSoundBut i s
      → IsSound E L foreign (handle_breakpoint_removed E i s).0
        × (find i (handle_breakpoint_removed E i s).0.monitor.breakpoints ≡ none)
        × ((handle_breakpoint_removed E i s).1
            ≡ (elim (find i s.monitor.breakpoints) [ none ↦ err error_not_found | some d ↦ ok tt ]))
  unfolding handle_breakpoint_removed gets throw ◌>>=◌ continue
  handle_breakpoint_removed_lem i s v = elim (Option-cases (find i s.monitor.breakpoints)) [
    | inl gone ↦ rw (gone, handle_breakpoint_removed) (gone-IsSound i s gone v, gone, refl)
    | inr (d, at) ↦
        rw (at, handle_breakpoint_removed)
          (unset_inner-IsSound i d s at v, inner-gone E L i d s, inner-ok E L i d s)
  ]
