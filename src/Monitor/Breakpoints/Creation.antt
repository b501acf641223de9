-- ===== src/Monitor/Breakpoints/Creation.antt =====
-- comon/comonitor_com_breakpoints.cpp, `set_breakpoint`: the creation of a breakpoint.
use mathlib.Core.Path.{subst}
use comon.Base.{
  ℕ, ◌≡◌, refl, true, Option, none, inl, inr, Option-cases, Bool-cases, arith, nat_beq, nat_eq,
  find, find-insert,
}
use comon.Base.Result.{Result, ok, err, e_invalidarg}
use comon.Engine.{Engine, EngineLaws, MemoryInfo}
use comon.Monitor.Types.{Breakpoint, MemoryProtect, DebuggeeType, live as live_debuggee}
use comon.Monitor.Monad.{
  State, Keeps, act, ask, modify, Keeps-bind, Keeps-pure, Keeps-throw, Keeps-ask, Keeps-gets,
  Keeps-branch, Triple, Post, Triple-bind, Triple-Keeps, Triple-then, Triple-fact, Triple-give,
}
use comon.Monitor.Links.{store-Linked}
use comon.Monitor.Breakpoints.{
  store_breakpoint, protect_page, protect_memory, create_breakpoint, mem_commit,
}
use comon.Monitor.Breakpoints.Sound.{
  IsSound, IsSound-Stable, IsRecorded, Stable, Keeps-act, Keeps-call,
}

module _ (E : Engine) (L : EngineLaws E) where
  open E use {World, Handle}

  protect_page-Keeps :
      {P : State World → Type 0} (info : MemoryInfo) → Stable E L P → Keeps P (protect_page E info)
  unfolding protect_page
  protect_page-Keeps info stable =
      Keeps-branch (nat_beq info.state mem_commit) (Keeps-throw e_invalidarg) (
        Keeps-branch _ (Keeps-pure none)
          (Keeps-bind (Keeps-act E L _ stable (L.virtual_protect-live _ _)) (λ old. Keeps-pure _)))

  protect_memory-Keeps :
      {P : State World → Type 0} (t : DebuggeeType) (a : ℕ)
      → Stable E L P
      → Keeps P (protect_memory E t a)
  unfolding protect_memory
  protect_memory-Keeps live_debuggee a stable =
      Keeps-bind (Keeps-ask _) (λ info. protect_page-Keeps info stable)
  protect_memory-Keeps t a stable = Keeps-pure none

module _ (E : Engine) (L : EngineLaws E) (foreign : ℕ → Type 0) where
  open E use {World, Handle}
  open L use {live, ident}

  -- the invariant for these foreign breakpoints
  abbrev Sound : State World → Type 0
  Sound = IsSound E L foreign

  -- a new breakpoint of the engine, not yet recorded
  record IsReady (h : Handle) (a : ℕ) (s : State World) : Type 0 where
    sound : Sound s
    unclaimed : ¬ foreign (ident h)
    recent : live s.world (ident h) ≡ true
    new_id : find (ident h) s.monitor.breakpoints ≡ none
    new_addr : find a s.monitor.breakpoint_addresses ≡ none

  abbrev pub SoundAndRecorded : Breakpoint → ℕ → ℕ → State World → Type 0
  SoundAndRecorded brk a i s = Sound s × IsRecorded E L brk a i s

  IsReady-Stable : (h : Handle) (a : ℕ) → Stable E L (IsReady h a)
  IsReady-Stable h a s w same v = record {
    sound = IsSound-Stable E L foreign s w same v.sound;
    unclaimed = v.unclaimed;
    recent = ground (arith, same (ident h), v.recent);
    new_id = v.new_id;
    new_addr = v.new_addr;
  }

  add_post :
      (s : State World) (a : ℕ) (r : Result Handle)
      → (E.add_breakpoint s.world).1 ≡ r
      → Sound s
      → find a s.monitor.breakpoint_addresses ≡ none
      → Post (λ h. IsReady h a) Sound (record s { world = (E.add_breakpoint s.world).0 }, r)
  add_post s a (ok h) e v free = record {
    sound = record {
      linked = v.linked;
      alive = λ i d at. L.add_keeps s.world i (v.alive i d at);
      apart = λ i f. (L.add_keeps s.world i (v.apart i f).0, (v.apart i f).1);
    };
    unclaimed = λ f. ground (arith, v.apart (ident h) f, L.add_fresh s.world h e);
    recent = L.add_new s.world h e;
    new_id = elim (Option-cases (find (ident h) s.monitor.breakpoints)) [
      | inl gone ↦ gone
      | inr (d, at) ↦ absurd (ground (arith, v.alive (ident h) d at, L.add_fresh s.world h e))
    ];
    new_addr = free;
  }
  add_post s a (err hr) e v free = record {
    linked = v.linked;
    alive = λ i d at. L.add_keeps s.world i (v.alive i d at);
    apart = λ i f. (L.add_keeps s.world i (v.apart i f).0, (v.apart i f).1);
  }

  add-IsReady :
      (a : ℕ)
      → Triple
          (λ s. Sound s × (find a s.monitor.breakpoint_addresses ≡ none))
          (act E.add_breakpoint)
          (λ h. IsReady h a)
          Sound
  unfolding act
  add-IsReady a = record { after = λ s p. add_post s a _ refl p.0 p.1 }

  store-IsSound :
      (h : Handle) (a i : ℕ) (brk : Breakpoint) (mp : Option MemoryProtect)
      → i ≡ ident h
      → Triple
          (IsReady h a)
          (modify (store_breakpoint i brk a mp))
          (λ _. SoundAndRecorded brk a i)
          Sound
  unfolding modify store_breakpoint
  store-IsSound h a i brk mp e = record {
    after = λ s v.
        let fresh : find i s.monitor.breakpoints ≡ none = rw e v.new_id in
        (
          record {
            linked = store-Linked s.monitor i a brk mp fresh v.new_addr v.sound.linked;
            alive = λ j d at. ground (
              arith,
              e,
              v.recent,
              v.sound.alive j d,
              find-insert i j (record { brk = brk; addr = a; mem_protect = mp })
                  s.monitor.breakpoints fresh,
            );
            apart = λ j f. (
              (v.sound.apart j f).0,
              elim (Bool-cases (nat_beq i j)) [
                | inl same ↦
                    let f' : foreign (ident h) = subst foreign (ground (arith, same, e)) f in
                    absurd (v.unclaimed f')
                | inr other ↦ ground (
                  arith,
                  other,
                  (v.sound.apart j f).1,
                  find-insert i j (record { brk = brk; addr = a; mem_protect = mp })
                      s.monitor.breakpoints fresh,
                )
              ],
            );
          },
          record {
            protection = mp;
            by_id = ground (
              arith,
              find-insert i i (record { brk = brk; addr = a; mem_protect = mp })
                  s.monitor.breakpoints fresh,
            );
            by_address =
                ground (arith, find-insert a a i s.monitor.breakpoint_addresses v.new_addr);
          },
        );
  }

  get_id_post :
      (h : Handle) (a : ℕ) (s : State World) (r : Result ℕ)
      → E.get_id h s.world ≡ r
      → IsReady h a s
      → Post (λ i s. IsReady h a s × (i ≡ ident h)) Sound (s, r)
  get_id_post h a s (ok i) e v = (v, L.get_id-ident h s.world i e)
  get_id_post h a s (err hr) e v = v.sound

  get_id-ident :
      (h : Handle) (a : ℕ)
      → Triple (IsReady h a) (ask (E.get_id h)) (λ i s. IsReady h a s × (i ≡ ident h)) Sound
  unfolding ask
  get_id-ident h a = record { after = λ s v. get_id_post h a s _ refl v }

  pub create_breakpoint-Triple :
      (brk : Breakpoint) (a : ℕ)
      → Triple
          (λ s. Sound s × (find a s.monitor.breakpoint_addresses ≡ none))
          (create_breakpoint E brk a)
          (SoundAndRecorded brk a)
          Sound
  unfolding create_breakpoint
  create_breakpoint-Triple brk a = Triple-bind (add-IsReady a) λ h.
      let stable = IsReady-Stable h a in
      let sound : (s : State World) → IsReady h a s → Sound s = λ s v. v.sound in
      Triple-bind (Triple-Keeps sound (Keeps-gets _)) λ t.
        Triple-bind (Triple-Keeps sound (protect_memory-Keeps E L t a stable)) λ mp.
          Triple-then (Triple-Keeps sound (Keeps-act E L _ stable (L.set_offset-live h a))) (
            Triple-then (Triple-Keeps sound (Keeps-call E L _ stable (L.set_command-live h))) (
              Triple-bind (get_id-ident h a) λ i. Triple-fact λ e.
                Triple-then (Triple-Keeps sound (Keeps-act E L _ stable (L.add_flags-live h _)))
                  (Triple-then (store-IsSound h a i brk mp e) (Triple-give i))))
