-- ===== src/Tests/Sessions.antt =====
-- comon/dbgsession.h, dbgsession.cpp and ext.cpp over the small engine: sessions with two processes.
use comon.Base.{ℕ, ◌≡◌, refl, true, false, none, some, [], ◌∷◌, nat_beq, nat_eq, find, codes, Text}
use comon.Base.Result.{Result, ok, err, e_invalidarg}
use comon.Guid.{Guid}
use comon.Ext.Filter.{no_filter}
use comon.Monitor.Types.{live}
use comon.Monitor.Modules.{new_monitor}
use comon.Session.{
  Session, Debugger, attach, breakpoint_event, load_module_event, unload_module_event,
  exit_process_event,
}
use comon.Session.Commands.{comon_command}
use comon.Session.Routing.{events-others, attach-attach}
use comon.Session.Soundness.{IsSoundSession}
use comon.Session.Soundness.Runs.{
  IsReachable, created, ran_comon, hit_breakpoint, IsReachable-IsSoundSession,
}
use comon.Tests.Debuggee.{small_engine, small_laws}

abbrev pub small_debugger : Debugger small_engine
small_debugger = record {
  current_process_id = λ w. 9;
  query_debuggee_type = λ w. ok (2, 0);
  get_radix = λ w. ok 16;
  stem = λ t. t;
}

-- process 8 has a monitor
abbrev opened : Session ℕ
opened = record { world = 0; monitors = (8, new_monitor 8 live no_filter) ∷ [] }

events-others_example :
    (find 8 (attach small_engine small_debugger no_filter opened).monitors ≡ find 8 opened.monitors)
    × (find 8 (exit_process_event small_engine small_debugger opened).0.monitors
        ≡ find 8 opened.monitors)
    × (find 8 (breakpoint_event small_engine small_debugger 0 opened).0.monitors
        ≡ find 8 opened.monitors)
    × (find 8
          (load_module_event small_engine small_debugger 0x10000 none
            (some (codes "x"))
            7
            opened).0.monitors
        ≡ find 8 opened.monitors)
    × (find 8 (unload_module_event small_engine small_debugger 0x10000 opened).0.monitors
        ≡ find 8 opened.monitors)
events-others_example =
    events-others small_engine small_debugger opened 8 no_filter 0 0x10000 none (some (codes "x")) 7
      refl

attach-attach_example :
    attach small_engine small_debugger no_filter
      (attach small_engine small_debugger no_filter opened)
    ≡ attach small_engine small_debugger no_filter opened
attach-attach_example = attach-attach small_engine small_debugger no_filter no_filter opened refl

-- two processes: the second runs once the first has a breakpoint
abbrev two_processes : Debugger small_engine
two_processes = record small_debugger {
  current_process_id = λ w. elim (nat_beq w 0) [ true ↦ 8 | false ↦ 9 ];
}

abbrev pub no_guid : Text → Result Guid
no_guid t = err e_invalidarg

abbrev untouched : Session ℕ
untouched = record { world = 0; monitors = [] }

-- a monitor for each process; the second has its breakpoint hit
abbrev attached_twice : Session ℕ
attached_twice =
    (comon_command small_engine two_processes no_guid (codes "attach")
      (comon_command small_engine two_processes no_guid (codes "attach") untouched).0).0

abbrev hit_second : Session ℕ
hit_second = (breakpoint_event small_engine two_processes 1 attached_twice).0

hit_second-IsReachable : IsReachable small_engine small_laws two_processes no_guid hit_second
hit_second-IsReachable =
    hit_breakpoint attached_twice 1
      (ran_comon _ (codes "attach") (ran_comon untouched (codes "attach") (created 0)))

IsReachable-IsSoundSession_example : IsSoundSession small_engine small_laws hit_second
IsReachable-IsSoundSession_example =
    IsReachable-IsSoundSession small_engine small_laws two_processes no_guid hit_second
      hit_second-IsReachable
