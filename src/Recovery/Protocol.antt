-- ===== src/Recovery/Protocol.antt =====
-- What a drill may do to the cluster, as an automaton over the trace of its calls and events. It is
-- stated apart from the engine: it knows no step, no plan and no error.
pub mod Silent
pub mod Triple
pub mod Steps
pub mod Reserve
pub mod Restore
pub mod Start
pub mod Workflow
pub mod Contract
pub mod Teardown
pub mod Safety
pub mod Isolation
use restorelab.Prelude.{
  Bool, true, false, not, ◌&&◌, String, Option, none, some, List, [], ◌∷◌, str_eq, is_some,
  if◌then◌else◌,
}
use restorelab.Core.Types.{RestoreOptions}
use restorelab.Recovery.Engine.{Engine, Session, Event, Entry}

-- Where the temporary workload of a drill stands. `broken` is a trace that breaks the protocol.
pub data Phase : Type 0 where
  idle broken : Phase
  allocated announced refused restored hardened unhardened : String → Phase
  started doomed removed orphaned : String → Phase

-- From its allocation on, every event names the workload.
abbrev pub names : String → String → Phase → Phase
names id said next = if str_eq said id then next else broken

abbrev pub on_emit : String → Phase → Phase
on_emit said idle = idle
on_emit said broken = broken
on_emit said (allocated id) = names id said (announced id)
on_emit said (announced id) = names id said (announced id)
on_emit said (refused id) = names id said (refused id)
on_emit said (restored id) = names id said (restored id)
on_emit said (hardened id) = names id said (hardened id)
on_emit said (unhardened id) = names id said (unhardened id)
on_emit said (started id) = names id said (started id)
on_emit said (doomed id) = names id said (doomed id)
on_emit said (removed id) = names id said (removed id)
on_emit said (orphaned id) = names id said (orphaned id)

abbrev pub on_allocate : Option String → Phase → Phase
on_allocate none idle = idle
on_allocate (some id) idle = allocated id
on_allocate _ _ = broken

-- One restore, of the announced workload, powered off and onto a network that is marked isolated.
abbrev pub on_restore : RestoreOptions → Bool → Phase → Phase
on_restore options done (announced id) =
    if str_eq options.target_workload_id id && options.network.isolated && not options.start
    then if done then restored id else refused id
    else broken
on_restore _ _ _ = broken

abbrev pub on_finalize : String → Bool → Phase → Phase
on_finalize target done (restored id) =
    if str_eq target id then if done then hardened id else unhardened id else broken
on_finalize _ _ _ = broken

-- `hardens`: the provider has a hardening pass, which must have succeeded.
abbrev pub on_start : Bool → String → Phase → Phase
on_start hardens target (restored id) =
    if str_eq target id && not hardens then started id else broken
on_start hardens target (hardened id) = names id target (started id)
on_start hardens target (started id) = names id target (started id)
on_start _ _ _ = broken

abbrev pub on_stop : String → Phase → Phase
on_stop target (restored id) = names id target (doomed id)
on_stop target (hardened id) = names id target (doomed id)
on_stop target (unhardened id) = names id target (doomed id)
on_stop target (started id) = names id target (doomed id)
on_stop target (doomed id) = names id target (doomed id)
on_stop _ _ = broken

-- One delete, behind a stop.
abbrev pub on_delete : String → Bool → Phase → Phase
on_delete target done (doomed id) =
    if str_eq target id then if done then removed id else orphaned id else broken
on_delete _ _ _ = broken

abbrev pub advance : Bool → Entry → Phase → Phase
advance hardens (Entry.query q) ph = ph
advance hardens (Entry.emit ev) ph = on_emit ev.temp_workload_id ph
advance hardens (Entry.allocate id) ph = on_allocate id ph
advance hardens (Entry.restore options done) ph = on_restore options done ph
advance hardens (Entry.finalize options done) ph = on_finalize options.target_workload_id done ph
advance hardens (Entry.start id done) ph = on_start hardens id ph
advance hardens (Entry.stop id done) ph = on_stop id ph
advance hardens (Entry.delete id done) ph = on_delete id done ph

abbrev pub follow : Bool → List Entry → Phase
follow hardens [] = idle
follow hardens (x ∷ earlier) = advance hardens x (follow hardens earlier)

abbrev pub phase : {e : Engine} → Session e → Phase
phase {e} s = follow (is_some e.finalize_restore) s.trace
