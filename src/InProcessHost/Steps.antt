-- ===== src/InProcessHost/Steps.antt =====
-- The host as a machine: one event for each call of an operation and of a PTY's handler, which keeps the
-- invariant.
use parasor.Base.Bytes.{Bytes}
use parasor.Base.Classes.{string_eq}
use parasor.Base.Int.{ℤ}
use parasor.Base.Map.{lookup}
use parasor.Base.{ℕ, ◌≡◌, true, false, Bool, Option, none, some, [], String}
use parasor.InProcessHost.Attaching.{
  detach_client-IsValid, set_flow-IsValid, init_client-IsValid, attach_client-IsValid,
}
use parasor.InProcessHost.Bootstrap.{send}
use parasor.InProcessHost.Clients.{
  Capabilities, detach_client, pause_output, resume_output, init_client, attach_client,
}
use parasor.InProcessHost.Ending.{
  restart-IsValid, on_exit-IsValid, shutdown_all-IsValid, dispose-IsValid,
  load_persisted_session-IsValid,
}
use parasor.InProcessHost.Input.{resize, set_title, set_pinned}
use parasor.InProcessHost.Invariant.{IsValid}
use parasor.InProcessHost.Lifecycle.{
  CreateSessionInput, SpawnSpec, create, restart, on_exit, dispose, shutdown_all,
  load_persisted_session,
}
use parasor.InProcessHost.Output.{flush}
use parasor.InProcessHost.Creating.{IsFresh, create-IsValid}
use parasor.InProcessHost.Renaming.{
  resize-IsValid, set_title-IsValid, set_pinned-IsValid, flush-IsValid, send-IsValid,
}
use parasor.InProcessHost.{Session, PtyProcess, PtySize, Host, Surroundings}
use parasor.SessionPolicy.{SessionEndReason}

pub data Event : Type 0 where
  creates : String → CreateSessionInput → SpawnSpec → Event
  restarts : String → Event
  loads : Session → Bool → Event
  inits : Option PtyProcess → (Bytes → Bytes) → Bool → String → String → PtySize → Option ℕ → Event
  attaches :
      Option PtyProcess → (Bytes → Bytes) → Bool → String → String → PtySize → Capabilities → Event
  detaches : String → String → Option ℕ → Event
  pauses resumes : String → String → Event
  resizes : Bool → String → PtySize → Event
  titles : String → String → Bool → Event
  pins : String → Bool → Event
  bootstraps : String → PtyProcess → ℕ → Event
  flushes : String → ℕ → Bytes → Event
  exits : String → ℕ → ℤ → Option ℤ → Event
  disposes : String → Event
  shuts_down : SessionEndReason → Event

unfoldable pub step : Surroundings → Event → Host → Host
step env (creates id input spec) h = (create env id input spec h).0
step env (restarts id) h = (restart env id h).0
step env (loads session graceful) h = load_persisted_session session graceful h
step env (inits spawn strip listens id client size token) h =
    (init_client env spawn strip listens id client size token h).0
step env (attaches spawn build has_on_exit id client size capabilities) h =
    (attach_client env spawn build has_on_exit id client size capabilities h).0
step env (detaches id client token) h = (detach_client id client token h).0
step env (pauses id client) h = (pause_output id client h).0
step env (resumes id client) h = (resume_output id client h).0
step env (resizes accepts id size) h = (resize accepts id size h).0
step env (titles id title manual) h = (set_title id title manual h).0
step env (pins id pinned) h = (set_pinned id pinned h).0
step env (bootstraps id proc generation) h = (send id proc generation h).0
step env (flushes id generation batch) h = (flush env id generation batch h).0
step env (exits id generation code signal) h = (on_exit env id generation code signal h).0
step env (disposes id) h = (dispose env id h).0
step env (shuts_down reason) h = (shutdown_all env reason h).0

-- What an event asks of the caller: a new session has a new identifier.
abbrev pub IsAllowed : Event → Host → Type 0
IsAllowed (creates id input spec) h = IsFresh id h
IsAllowed _ h = Unit

step-IsValid :
    (env : Surroundings) (event : Event) (h : Host)
    → IsValid h
    → IsAllowed event h
    → IsValid (step env event h)
unfolding step pause_output resume_output
step-IsValid env (creates id input spec) h v a = create-IsValid env id input spec h v a
step-IsValid env (restarts id) h v a = restart-IsValid env id h v
step-IsValid env (loads session graceful) h v a =
    load_persisted_session-IsValid session graceful h v
step-IsValid env (inits spawn strip listens id client size token) h v a =
    init_client-IsValid env spawn strip listens id client size token h v
step-IsValid env (attaches spawn build has_on_exit id client size capabilities) h v a =
    attach_client-IsValid env spawn build has_on_exit id client size capabilities h v
step-IsValid env (detaches id client token) h v a = detach_client-IsValid id client token h v
step-IsValid env (pauses id client) h v a = set_flow-IsValid true id client h v
step-IsValid env (resumes id client) h v a = set_flow-IsValid false id client h v
step-IsValid env (resizes accepts id size) h v a = resize-IsValid accepts id size h v
step-IsValid env (titles id title manual) h v a = set_title-IsValid id title manual h v
step-IsValid env (pins id pinned) h v a = set_pinned-IsValid id pinned h v
step-IsValid env (bootstraps id proc generation) h v a = send-IsValid id proc generation h v
step-IsValid env (flushes id generation batch) h v a = flush-IsValid env id generation batch h v
step-IsValid env (exits id generation code signal) h v a =
    on_exit-IsValid env id generation code signal h v
step-IsValid env (disposes id) h v a = dispose-IsValid env id h v
step-IsValid env (shuts_down reason) h v a = shutdown_all-IsValid env reason h v

-- The hosts that some course of events leads to, from one that has no sessions but may have saved ones.
pub data Reached : Host → Type 0 where
  starts : (h : Host) → h.sessions ≡ [] → Reached h
  happens :
      {h : Host}
      → Reached h
      → (env : Surroundings) (event : Event) → IsAllowed event h
      → Reached (step env event h)

starts-IsValid : (h : Host) → h.sessions ≡ [] → IsValid h
unfolding lookup
starts-IsValid h e = record { each = λ id m f. let g : none ≡ some m = rw e at f in absurd cc }

-- Whatever calls and PTY events come, in whatever order, each session of the host is consistent, and its saved copy
-- and its saved record are the ones it has: a PTY is there exactly while the state is "running", and its process
-- id is the one told; the generation told is the current one; a reason is told exactly if the session is over; no
-- client is attached before the PTY is spawned; while it runs, its size is known and its output is paused exactly if
-- one client alone is attached and that one asked for it; with a daemon, the record of a session that is not over names the process. The
-- one condition on the calls is that a new session has a new identifier.
pub Reached-IsValid : {h : Host} → Reached h → IsValid h
Reached-IsValid (starts h e) = starts-IsValid h e
Reached-IsValid (happens {h} r env event a) = step-IsValid env event h (Reached-IsValid r) a
