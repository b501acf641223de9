-- ===== src/Session/Soundness/Commands.antt =====
-- comon/ext.cpp: what `!coreg`, `!cobp` and `!comon` run in a monitor is sound for it, whatever
-- breakpoints other monitors have; so the commands keep all monitors of a session in step.
use comon.Base.{
  ℕ, ◌%◌, ◌^◌, Bool, none, some, List, [], ◌∷◌, Text, ◌≡◌, refl, ◌∙◌, inl, inr, ◌⊎◌, Option-cases,
  Bool-cases, nat_eq, list_eq, ◌==◌, ltb, length, codes,
}
use comon.Base.Result.{Result, ok, err, Result-cases, e_fail, e_invalidarg}
use comon.Guid.{Guid}
use comon.Engine.{Engine, EngineLaws}
use comon.Ext.Number.{evaluate_number}
use comon.Monitor.Types.{CobreakpointBehavior}
use comon.Monitor.Monad.{
  Keeps-bind, Keeps-ask, Keeps-gets, Keeps-throw, Keeps-pure, Keeps-option, M, throw,
}
use comon.Monitor.Vtables.{list_cotypes}
use comon.Monitor.Breakpoints.Sound.{IsSound}
use comon.Monitor.Soundness.{
  Sound, act-Sound, call-Sound, register_vtable-Sound, create_cobreakpoint-Sound, pause-Sound,
  resume-Sound,
}
use comon.Session.{Debugger, Session, active, detach, find_active_monitor}
use comon.Session.Commands.{
  register_args, method_number, method_index, break_args, show_vtables, show_cotypes, status,
  with_active_monitor, coreg, cobp_args, comon_command, comon_monitor,
}
use comon.Ext.Args.{split_args}
use comon.Session.Soundness.{
  IsSoundSession, on_monitor-IsSoundSession, attach-IsSoundSession, detach-IsSoundSession,
}

args_cases : (l : List Text) → (l ≡ []) ⊎ ((a : Text) × (as' : List Text) × (l ≡ a ∷ as'))
args_cases [] = inl refl
args_cases (a ∷ as') = inr (a, as', refl)

module _ (E : Engine) (L : EngineLaws E) (D : Debugger E) (parse : Text → Result Guid)
    (foreign : ℕ → Type 0) where
  open E use {World}

  pub register_args-Sound :
      (save replace : Bool) (args : List Text)
      → Sound E L foreign (register_args E D parse save replace args)
  unfolding register_args
  register_args-Sound save replace [] = Keeps-throw _
  register_args-Sound save replace (a ∷ []) = Keeps-throw _
  register_args-Sound save replace (a ∷ b ∷ []) = Keeps-throw _
  register_args-Sound save replace (a ∷ b ∷ c ∷ args) = Keeps-bind (Keeps-ask _) (λ clsid.
      Keeps-bind (Keeps-ask _) (λ iid.
        Keeps-bind (Keeps-ask _)
          (λ addr. register_vtable-Sound E L foreign clsid iid addr save replace)))

  method_number-Sound :
      (iid : Guid) (arg : Text) → Sound E L foreign (method_number E D parse iid arg)
  unfolding method_number
  method_number-Sound iid arg = record {
    after = λ s v. elim (Result-cases (evaluate_number (D.get_radix s.world) arg)) [
      | inl (n, e) ↦ rw (e, method_number) ((Keeps-pure {P = IsSound E L foreign} n).after s v)
      | inr (hr, e) ↦
          rw (e, method_number)
            ((Keeps-bind (act-Sound E L foreign _ (L.get_type_methods-live iid)) (λ methods.
                Keeps-option methods (Keeps-throw _) (λ ms.
                  Keeps-option (method_index arg ms) (Keeps-throw _) (λ n. Keeps-pure n)))).after
              s v)
    ];
  }

  pub break_args-Sound :
      (behavior : CobreakpointBehavior) (class_arg iid_arg method_arg : Text)
      → Sound E L foreign (break_args E D parse behavior class_arg iid_arg method_arg)
  unfolding break_args
  break_args-Sound behavior class_arg iid_arg method_arg = Keeps-bind (Keeps-ask _) (λ clsid.
      Keeps-bind (Keeps-ask _) (λ iid.
        Keeps-bind (method_number-Sound iid method_arg)
          (λ n. create_cobreakpoint-Sound E L foreign clsid iid (n % 2 ^ 32) behavior)))

  show_vtables-live :
      (vs : List (ℕ × Guid)) (w : World) (i : ℕ)
      → L.live (show_vtables E D parse vs w) i ≡ L.live w i
  unfolding show_vtables
  show_vtables-live [] w i = refl
  show_vtables-live ((a, iid) ∷ vs) w i =
      show_vtables-live vs (E.resolve_type_name iid w).0 i ∙ L.resolve_type_name-live iid w i

  show_cotypes-live :
      (cs : List (Guid × List (ℕ × Guid))) (w : World) (i : ℕ)
      → L.live (show_cotypes E D parse cs w) i ≡ L.live w i
  unfolding show_cotypes
  show_cotypes-live [] w i = refl
  show_cotypes-live ((c, vs) ∷ cs) w i =
      show_cotypes-live cs _ i
      ∙ show_vtables-live vs (E.resolve_class_name c w).0 i
      ∙ L.resolve_class_name-live c w i

  pub status-Sound : Sound E L foreign (status E D parse)
  unfolding status
  status-Sound =
      Keeps-bind (Keeps-gets list_cotypes) (λ cs. call-Sound E L foreign _ (show_cotypes-live cs))

module _ (E : Engine) (L : EngineLaws E) (D : Debugger E) (parse : Text → Result Guid) where
  open E use {World, Handle}

  with_active-IsSoundSession :
      {method : M World (Unit {0})} (s : Session World)
      → ((foreign : ℕ → Type 0) → Sound E L foreign method)
      → IsSoundSession E L s
      → IsSoundSession E L (with_active_monitor E D parse method s).0
  unfolding with_active_monitor
  with_active-IsSoundSession s k v = on_monitor-IsSoundSession E L D (active E D s) s k v

  pub coreg-IsSoundSession :
      (args : Text) (s : Session World)
      → IsSoundSession E L s
      → IsSoundSession E L (coreg E D parse args s).0
  unfolding coreg
  coreg-IsSoundSession args s v = elim (Bool-cases (ltb (length (split_args args)) 3)) [
    | inl few ↦ rw (few, coreg) v
    | inr enough ↦
        rw (enough, coreg)
          (with_active-IsSoundSession s (λ foreign. register_args-Sound E L D parse foreign _ _ _)
            v)
  ]

  pub cobp_args-IsSoundSession :
      (behavior : CobreakpointBehavior) (vargs : List Text) (s : Session World)
      → IsSoundSession E L s
      → IsSoundSession E L (cobp_args E D parse behavior vargs s).0
  unfolding cobp_args
  cobp_args-IsSoundSession behavior [] s v = v
  cobp_args-IsSoundSession behavior (a ∷ []) s v = v
  cobp_args-IsSoundSession behavior (a ∷ b ∷ []) s v = v
  cobp_args-IsSoundSession behavior (a ∷ b ∷ c ∷ vargs) s v =
      with_active-IsSoundSession s (λ foreign. break_args-Sound E L D parse foreign behavior a b c)
        v

  detach_command-IsSoundSession :
      (s : Session World)
      → IsSoundSession E L s
      → IsSoundSession E L
          ((elim (find_active_monitor E D s) as (λ x. Session World × Result (Unit {0})) [
            | none ↦ (s, err e_fail)
            | some m ↦ (detach E D s, ok tt)
          ])).0
  detach_command-IsSoundSession s v = elim (Option-cases (find_active_monitor E D s)) [
    | inl gone ↦ rw gone v
    | inr (m, at) ↦ rw at (detach-IsSoundSession E L D s v)
  ]

  throw-Sound :
      (hr : ℕ) (foreign : ℕ → Type 0) → Sound E L foreign (throw {W = World} {A = Unit {0}} hr)
  throw-Sound hr foreign = Keeps-throw hr

  monitor_command-IsSoundSession :
      (subcommand : Text) (s : Session World)
      → IsSoundSession E L s
      → IsSoundSession E L (comon_monitor E D parse subcommand s).0
  unfolding comon_monitor
  monitor_command-IsSoundSession subcommand s v = elim (Bool-cases (subcommand == codes "attach")) [
    | inl e ↦ rw (e, comon_monitor) (with_active-IsSoundSession s (throw-Sound e_fail) v)
    | inr e1 ↦ elim (Bool-cases (subcommand == codes "pause")) [
      | inl e ↦
          rw (e1, comon_monitor, e)
            (with_active-IsSoundSession s (λ foreign. pause-Sound E L foreign) v)
      | inr e2 ↦ elim (Bool-cases (subcommand == codes "resume")) [
        | inl e ↦
            rw (e1, comon_monitor, e2, e)
              (with_active-IsSoundSession s (λ foreign. resume-Sound E L foreign) v)
        | inr e3 ↦ elim (Bool-cases (subcommand == codes "detach")) [
          | inl e ↦ rw (e1, comon_monitor, e2, e3, e) (detach_command-IsSoundSession s v)
          | inr e4 ↦ elim (Bool-cases (subcommand == codes "status")) [
            | inl e ↦
                rw (e1, comon_monitor, e2, e3, e4, e)
                  (with_active-IsSoundSession s (λ foreign. status-Sound E L D parse foreign) v)
            | inr e ↦
                rw (e1, comon_monitor, e2, e3, e4, e)
                  (with_active-IsSoundSession s (throw-Sound e_invalidarg) v)
          ]
        ]
      ]
    ]
  ]

  pub comon-IsSoundSession :
      (args : Text) (s : Session World)
      → IsSoundSession E L s
      → IsSoundSession E L (comon_command E D parse args s).0
  unfolding comon_command
  comon-IsSoundSession args s v = elim (args_cases (split_args args)) [
    | inl e ↦ rw (e, comon_command) v
    | inr (a, vargs, e) ↦ elim (Bool-cases (a == codes "attach")) [
      | inl same ↦ rw (e, comon_command, same) (attach-IsSoundSession E L D _ s v)
      | inr other ↦ rw (e, comon_command, other) (monitor_command-IsSoundSession a s v)
    ]
  ]
