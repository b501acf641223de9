-- ===== src/Lib.antt =====
-- comon: a model of the WinDbg extension that follows COM calls of a debuggee, and the theorems about it.
--
-- The program. A session (comon/dbgsession.h, comon/dbgsession.cpp) keeps one monitor for each process
-- and passes the events of the debugger engine on to the monitor of the current process. A monitor
-- (comon/comonitor.h, comon/comonitor.cpp, comon/comonitor_com_breakpoints.cpp) sets breakpoints on the
-- functions that create COM objects, learns from their returns where the virtual tables of classes are,
-- and sets breakpoints on methods; where a call keeps its arguments and how they are written is known
-- to `call_context` (comon/arch.h, comon/arch.cpp). The commands (comon/ext.cpp) read their arguments
-- and call the session, the monitor and the metadata. The metadata (comon/cometa.h, comon/cometa.cpp, comon/cometa_helpers.cpp) know
-- the names and methods of types, from type libraries and the registry, with a cache of the least
-- frequently used kind (comon/lfu_cache.h) before the database.
--
-- The files.
--   Base         the names all modules share: tests, lists, maps as association lists, texts, HRESULT
--   Guid         comon/helpers.cpp, `try_parse_guid`; comon/comon.h, the formatter of identifiers
--                (Printing)
--   Helpers      comon/helpers.cpp: text between encodings, and `parse_guid`
--   Logger       comon/comon.h, `dbgeng_logger`: log lines and the texts of errors
--   Ext          comon/ext.cpp: `split_args` (Args), `parse_filter` (Filter), `evaluate_number` (Number),
--                `!cometa` with what it prints (Metadata), and that showing changes nothing
--                (Metadata/Unchanged); comon/cohelp.cpp (Help)
--   Arch         the architecture that `call_context` finds
--   Engine       the parameter of the monitor: DbgEng, Win32 and `cometa` as operations on a world of
--                which nothing is known but the laws of `EngineLaws`
--   CallContext  comon/arch.cpp: the kinds of types (Types), the frame of a method, return codes, and
--                the text of an argument (Printing); what a frame holds (Frame), when memory that
--                was not read shows in a text (Printing/Strings)
--   Cometa       the class `cometa`: its records (Types), the parameter SQLite (Database), the writing
--                methods (Writing), `index_tlb` (Indexing), the object with its caches and queries
--                (Queries), the constructor (Setup), the two methods `index` (Index);
--                comon/cometa_helpers.cpp in Registry, Versions and TypeLib;
--                proofs: what indexing keeps and how its loop ends (Indexing/Rows), transactions and
--                known identifiers (Indexing/Commits), the cache against the database
--                (Queries/Coherence, Setup/Fresh, Index/Ends, Index/Agreement), the chain of parents
--                (Queries/Chain), virtual tables (Queries/Tables), the version that is taken
--                (Versions/Greatest), the names of parameters (TypeLib/Names)
--   Monitor      the class `comonitor`: its data (Types), its methods as functions of the world and
--                the fields that end in an HRESULT (Monad), the methods on breakpoints (Breakpoints),
--                tables (Vtables), exports (Exports), handlers (Handlers, with
--                Handlers/Methods and Handlers/Creators), modules, constructor and
--                destructor (Modules);
--                proofs: the two maps of breakpoints (Links), methods and handlers and events
--                (Breakpoints/Sound, Breakpoints/Creation, Breakpoints/Invariant, Breakpoints/Removal,
--                Breakpoints/Loop, Soundness), effects (Effects), the list of tables (Listing), recorded
--                tables (Registration), what `handle_breakpoint` answers and leaves (Hits), tables of
--                the database when a module is loaded (Loading) and when a table is saved (Saving), the
--                flags of breakpoints under `pause` and `resume` (Pausing)
--   Session      the class `dbgsession`, the commands `!comon`, `!coreg`, `!cobp` (Commands), which
--                monitor an event reaches (Routing), the database of a session
--                (Metadata), the operations of `cometa` in Engine filled by Cometa (Composed),
--                what `!comon` prints (Status), the entry points (Extension);
--                proofs: all monitors of a session at once, through events and commands (Soundness),
--                a table from its registration to the next load of its module (Restored)
--   Lfu          the class `lfu_cache`: frequency sets (Freqs), operations (Cache), invariant, abstract
--                map with use counts (Spec), sequences of requests (Run)
--   Tests        the theorems at concrete inputs, with a small engine that satisfies the laws
--
-- How the code is modelled.
--   - An unordered map is an association list in its order of iteration, and an insertion puts the
--     entry in front. The order in which an unordered set is iterated is a parameter (`pick`).
--   - A GUID is its 128-bit value. Addresses are sums modulo 2^64, written out.
--   - A method of the monitor is a function from the world and the fields to the world, the fields and
--     a result; `attempt` is a failure that is only logged. Methods that the source calls with an
--     iterator take the identifier and the data of the entry.
--   - The loops that unset breakpoints move the iterator on once more behind a failed removal, as the
--     code does. Where the code then uses an iterator beyond the end, or one whose entry a handler has
--     erased, the outcome is not defined in C++; the model's method ends there with `invalid_iterator`.
--     An insertion into an unordered map leaves iterators valid here, as in Microsoft's library.
--   - While the engine removes a breakpoint, the session is told and asks the monitors to forget it. The
--     model leaves this notice out: the monitor that removes the breakpoint has dropped it before, and
--     no other monitor of a session has recorded it.
--   - SQLite is the record `Database`, with one operation for each statement of the code and its
--     laws in `DatabaseLaws`; the registry is `Registry`, OLE Automation is `TypeInfos`, files of
--     databases are `Files`. A writing method of `cometa` ends in an `Outcome`; a failed assertion or
--     an exception is `stops` or `none`. Every `insert or replace` of the metadata can throw, which the
--     database decides (`throws`), and then leaves the method; a transaction is rolled back by it.
--   - The loops of the monitor are structural on the lists and counts they go through. On fuel run
--     `index_funcs`, with the number of functions, `child_key_names_from`, with the 2^32 values of its
--     index, `digits_text`, with more than the number, and `get_type_methods`, whose recursion the
--     code does not bound: there the fuel is an argument. Theorems say when the fuel is enough, for
--     `digits_text` in base 16.
--   - A failed assertion, an exception and an overflow of a frequency make the result of an operation
--     of the cache `none`; the monitor's assertions are left out, as in a release build.
--
-- Not modelled: which lines are logged where, the messages of `!coreg` and `!cobp`, the command text of
-- a breakpoint, the set-up of COM interfaces, statements of the database that throw while they read or
-- while a monitor saves a table, an argument that the system cannot widen on its way through a command,
-- and the hashes, since the order of a map is a parameter.
pub mod Base
pub mod Guid
pub mod Helpers
pub mod Logger
pub mod Ext
pub mod Arch
pub mod Engine
pub mod CallContext
pub mod Cometa
pub mod Monitor
pub mod Session
pub mod Lfu
pub mod Tests
