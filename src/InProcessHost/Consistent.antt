-- ===== src/InProcessHost/Consistent.antt =====
-- Every change of one session keeps it consistent.
use parasor.Base.Classes.{string_eq}
use parasor.Base.Int.{ℤ}
use parasor.Base.{◌≡◌, true, Bool, Option, List, [], String, arith}
use parasor.InProcessHost.Invariant.{IsConsistent}
use parasor.InProcessHost.Lifecycle.{
  CreateSessionInput, SpawnSpec, created, spawned, restarted, resumed, exited_session, shut_down,
  loaded,
}
use parasor.InProcessHost.{
  Session, AttachedClient, PtyProcess, PtySize, ManagedSession, DaemonContext, SessionRecord,
  Surroundings, is_spawning, is_ended, flow_paused_flags, should_pause_output,
  apply_output_pause_state,
}
use parasor.TerminalRelay.{should_pause_output_for_clients}
use parasor.SessionPolicy.{SessionEndReason}

pub apply_output_pause_state_lem :
    (m : ManagedSession)
    → (apply_output_pause_state m).0 ≡ record m { output_paused = should_pause_output m }
unfolding apply_output_pause_state
apply_output_pause_state_lem m = ground arith

module _ (env : Surroundings) (daemon : Option DaemonContext) where
  pub created-IsConsistent :
      (id : String) (input : CreateSessionInput) (spec : SpawnSpec)
      → IsConsistent (created env daemon id input spec)
  created-IsConsistent id input spec = ground arith

  pub spawned-IsConsistent :
      (proc : PtyProcess) (size : PtySize) (m : ManagedSession)
      → IsConsistent m
      → is_spawning m.info.state ≡ true
      → IsConsistent (spawned env daemon proc size m)
  unfolding spawned should_pause_output flow_paused_flags should_pause_output_for_clients
  spawned-IsConsistent proc size m c s = ground arith

  pub restarted-IsConsistent :
      (m : ManagedSession) → IsConsistent m → IsConsistent (restarted env daemon m)
  unfolding restarted
  restarted-IsConsistent m c = ground arith

  pub resumed-IsConsistent :
      (m : ManagedSession)
      → IsConsistent m
      → is_ended m.info.state ≡ true
      → IsConsistent (resumed env daemon m)
  unfolding resumed
  resumed-IsConsistent m c e = ground arith

  pub exited_session-IsConsistent :
      (code : ℤ) (signal : Option ℤ) (m : ManagedSession)
      → IsConsistent m
      → IsConsistent (exited_session env daemon code signal m)
  unfolding exited_session should_pause_output
  exited_session-IsConsistent code signal m c = ground arith

  pub shut_down-IsConsistent :
      (reason : SessionEndReason) (m : ManagedSession)
      → IsConsistent m
      → IsConsistent (shut_down env daemon reason m)
  unfolding shut_down should_pause_output
  shut_down-IsConsistent reason m c = ground arith

pub loaded-IsConsistent :
    (daemon : Option DaemonContext) (graceful : Bool) (existing : Option SessionRecord)
    (session : Session)
    → IsConsistent (loaded daemon graceful existing session)
unfolding loaded should_pause_output flow_paused_flags should_pause_output_for_clients
loaded-IsConsistent daemon graceful existing session = ground arith

-- A change of the attached clients, with the pause that follows.
pub apply_output_pause_state-IsConsistent :
    (m : ManagedSession) (clients : List (String × AttachedClient))
    → IsConsistent m
    → (is_spawning m.info.state ≡ true → clients ≡ [])
    → IsConsistent (apply_output_pause_state (record m { attached_clients = clients })).0
unfolding should_pause_output
apply_output_pause_state-IsConsistent m clients c u =
    rw (apply_output_pause_state_lem (record m { attached_clients = clients })) (ground arith)
