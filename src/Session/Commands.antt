-- ===== src/Session/Commands.antt =====
-- comon/ext.cpp: the commands `!comon`, `!coreg` and `!cobp`, from their arguments to the calls of the
-- session and of the monitor of the current process.
use comon.Base.{
  ℕ, suc, ◌%◌, ◌^◌, Bool, true, false, not, Option, none, some, List, [], ◌∷◌, nat_eq, list_eq,
  ◌==◌, ltb, length, Text, codes,
}
use comon.Base.Result.{Result, ok, err, e_invalidarg, e_fail}
use comon.Guid.{Guid}
use comon.Engine.{Engine, Comethod}
use comon.Ext.Args.{split_args}
use comon.Ext.Filter.{parse_filter}
use comon.Ext.Number.{evaluate_number}
use comon.Monitor.Types.{
  CobreakpointBehavior, stop_before_call, stop_after_call, always_stop, never_stop,
}
use comon.Monitor.Monad.{M, ◌>>=◌, ask, act, pure, throw, call, gets}
use comon.Monitor.Vtables.{register_vtable, create_cobreakpoint, pause, resume, list_cotypes}
use comon.Session.{Session, Debugger, on_monitor, active, find_active_monitor, attach, detach}

-- drops a first argument that is the flag
unfoldable pub take_flag : Text → List Text → Bool × List Text
take_flag flag [] = (false, [])
take_flag flag (arg ∷ args) = elim (arg == flag) [
  | true ↦ (true, args)
  | false ↦ (false, arg ∷ args)
]

unfoldable pub parse_behavior : Text → Option CobreakpointBehavior
parse_behavior arg = elim (arg == codes "--before") [
  | true ↦ some stop_before_call
  | false ↦ elim (arg == codes "--after") [
    | true ↦ some stop_after_call
    | false ↦ elim (arg == codes "--always") [
      | true ↦ some always_stop
      | false ↦ elim (arg == codes "--trace-only") [ true ↦ some never_stop | false ↦ none ]
    ]
  ]
]

-- the behaviour of a breakpoint, and the arguments behind it
unfoldable pub take_behavior : List Text → CobreakpointBehavior × List Text
take_behavior [] = (stop_before_call, [])
take_behavior (arg ∷ args) = elim (parse_behavior arg) [
  | some b ↦ (b, args)
  | none ↦ (stop_before_call, arg ∷ args)
]

-- the index of the first method of a name
unfoldable pub method_index : Text → List Comethod → Option ℕ
method_index name [] = none
method_index name (m ∷ ms) = elim (m.name == name) [
  | true ↦ some 0
  | false ↦ elim (method_index name ms) [ none ↦ none | some n ↦ some (suc n) ]
]

module _ (E : Engine) (D : Debugger E) (parse : Text → Result Guid) where
  open E use {World, get_type_methods, resolve_class_name, resolve_type_name}
  open D use {get_radix}

  -- `try_finding_active_monitor`, and a method of the monitor that is found
  unfoldable pub with_active_monitor :
      M World (Unit {0}) → Session World → Session World × Result (Unit {0})
  with_active_monitor method s =
      let (s', r) = on_monitor E D (active E D s) method s in
      (s', elim r [ none ↦ err e_fail | some result ↦ result ])

  -- the part of `coreg` behind the flags
  unfoldable pub register_args : Bool → Bool → List Text → M World (Unit {0})
  register_args save_in_database replace_if_exists (class_arg ∷ iid_arg ∷ addr_arg ∷ args) = do
    clsid ← ask (λ _. parse class_arg)
    iid ← ask (λ _. parse iid_arg)
    vtable_addr ← ask (λ w. evaluate_number (get_radix w) addr_arg)
    register_vtable E clsid iid vtable_addr save_in_database replace_if_exists
  register_args _ _ _ = throw e_invalidarg

  unfoldable pub coreg : Text → Session World → Session World × Result (Unit {0})
  coreg args s =
      let vargs = split_args args in
      let (nosave, vargs') = take_flag (codes "--nosave") vargs in
      let (force, vargs'') = take_flag (codes "--force") vargs' in
      elim (ltb (length vargs) 3) [
        | true ↦ (s, err e_invalidarg)
        | false ↦ with_active_monitor (register_args (not nosave) force vargs'') s
      ]

  -- a number, or else the name of a method of the interface
  unfoldable pub method_number : Guid → Text → M World ℕ
  method_number iid arg s = elim (evaluate_number (get_radix s.world) arg) [
    | ok n ↦ pure n s
    | err hr ↦
        (do
          methods ← act (λ w. let (w', r) = get_type_methods iid w in (w', ok r))
          elim methods [
            | none ↦ throw e_invalidarg
            | some ms ↦ elim (method_index arg ms) [ none ↦ throw e_invalidarg | some n ↦ pure n ]
          ])
          s
  ]

  -- the part of `cobp` behind the behaviour; the number is cut to 32 bits
  unfoldable pub break_args : CobreakpointBehavior → Text → Text → Text → M World (Unit {0})
  break_args behavior class_arg iid_arg method_arg = do
    clsid ← ask (λ _. parse class_arg)
    iid ← ask (λ _. parse iid_arg)
    method_num ← method_number iid method_arg
    create_cobreakpoint E clsid iid (method_num % 2 ^ 32) behavior

  unfoldable pub cobp_args :
      CobreakpointBehavior → List Text → Session World → Session World × Result (Unit {0})
  cobp_args behavior (class_arg ∷ iid_arg ∷ method_arg ∷ vargs) s =
      with_active_monitor (break_args behavior class_arg iid_arg method_arg) s
  cobp_args behavior _ s = (s, err e_invalidarg)

  unfoldable pub cobp : Text → Session World → Session World × Result (Unit {0})
  cobp args s =
      let (behavior, vargs) = take_behavior (split_args args) in cobp_args behavior vargs s

  unfoldable pub show_vtables : List (ℕ × Guid) → World → World
  show_vtables [] w = w
  show_vtables ((addr, iid) ∷ vtables) w = show_vtables vtables (resolve_type_name iid w).0

  unfoldable pub show_cotypes : List (Guid × List (ℕ × Guid)) → World → World
  show_cotypes [] w = w
  show_cotypes ((clsid, vtables) ∷ cotypes) w =
      show_cotypes cotypes (show_vtables vtables (resolve_class_name clsid w).0)

  -- `status`, for its effect on the caches of `cometa`
  unfoldable pub status : M World (Unit {0})
  status = do cotypes ← gets list_cotypes; call (show_cotypes cotypes)

  -- the subcommands that need a monitor; the failures of `pause` and `resume` are not looked at
  unfoldable pub comon_monitor : Text → Session World → Session World × Result (Unit {0})
  comon_monitor subcommand s = elim (subcommand == codes "attach") [
    | true ↦ with_active_monitor (throw e_fail) s
    | false ↦ elim (subcommand == codes "pause") [
      | true ↦ with_active_monitor (pause E) s
      | false ↦ elim (subcommand == codes "resume") [
        | true ↦ with_active_monitor (resume E) s
        | false ↦ elim (subcommand == codes "detach") [
          | true ↦ elim (find_active_monitor E D s) [
            | none ↦ (s, err e_fail)
            | some m ↦ (detach E D s, ok tt)
          ]
          | false ↦ elim (subcommand == codes "status") [
            | true ↦ with_active_monitor status s
            | false ↦ with_active_monitor (throw e_invalidarg) s
          ]
        ]
      ]
    ]
  ]

  unfoldable pub comon_command : Text → Session World → Session World × Result (Unit {0})
  comon_command args s = elim (split_args args) [
    | [] ↦ (s, err e_invalidarg)
    | subcommand ∷ vargs ↦ elim (subcommand == codes "attach") [
      | true ↦ (attach E D (parse_filter parse vargs) s, ok tt)
      | false ↦ comon_monitor subcommand s
    ]
  ]
