-- ===== src/InProcessHost.antt =====
-- packages/server/src/pty/in-process-host.ts: class `InProcessPtyHost`, which owns the PTYs of the sessions
-- and the clients attached to them, with `Session` and `SessionRecord` of packages/shared/src/state.ts.
-- A method is a function on the host; what it calls on a PTY or on a client is listed as an effect. A
-- text that is sent on is given by the bytes of its UTF-8. The body of a method under a session's mutex
-- runs to its end, so a method is one step.
pub mod Lifecycle
pub mod Clients
pub mod Output
pub mod Input
pub mod Bootstrap
pub mod Invariant
pub mod Saved
pub mod Consistent
pub mod Preserved
pub mod Attaching
pub mod Ending
pub mod Creating
pub mod Renaming
pub mod Steps
pub mod Fencing
pub mod Course
pub mod Stale
pub mod Recorded
pub mod Residue
pub mod FirstInput
mod Tests
use parasor.Base.Bytes.{Bytes}
use parasor.Base.Classes.{string_eq}
use parasor.Base.Int.{ℤ}
use parasor.Base.Keyed.{upsert}
use parasor.Base.Map.{insert}
use parasor.Base.{ℕ, Bool, true, false, Option, none, some, List, [], ◌∷◌, String, if◌then◌else◌}
use parasor.Scrollback.{ChunkLog}
use parasor.Scrollback.Disk.{DiskLog, FileSystem}
use parasor.SessionPolicy.Exit.{SignalName}
use parasor.SessionPolicy.{SessionCommand, SessionEndReason}
use parasor.TerminalRelay.{should_pause_output_for_clients}

pub data SessionState : Type 0 where
  spawning running ended : SessionState

abbrev pub is_spawning : SessionState → Bool
is_spawning spawning = true
is_spawning _ = false

abbrev pub is_running : SessionState → Bool
is_running running = true
is_running _ = false

abbrev pub is_ended : SessionState → Bool
is_ended ended = true
is_ended _ = false

-- `titleManual` and `pinned` are present only as `true`.
pub record Session : Type 0 where
  pub id : String
  pub project_id : String
  pub pid : Option ℕ
  pub state : SessionState
  pub generation : ℕ
  pub title : String
  pub title_manual : Bool
  pub command : SessionCommand
  pub cwd : String
  pub shell : String
  pub launch_preset : Option String
  pub created_at : ℕ
  pub ended_at : Option ℕ
  pub end_reason : Option SessionEndReason
  pub pinned : Bool

pub data RecordState : Type 0 where
  alive exited lost orphaned : RecordState

-- `alive` is the state "running" of a record.
pub record SessionRecord : Type 0 where
  pub id : String
  pub project_id : String
  pub command : SessionCommand
  pub cwd : String
  pub pid : Option ℕ
  pub pgid : Option ℕ
  pub argv : List String
  pub started_at : String
  pub state : RecordState
  pub exit_code : Option ℤ
  pub exit_signal : Option SignalName
  pub daemon_pid : ℕ
  pub daemon_started_at : String

-- A listener is known by its client and the token of its attach.
pub data ClientKind : Type 0 where
  text_client : ClientKind
  chunk_client : Bool → ClientKind

pub record AttachedClient : Type 0 where
  pub attach_token : ℕ
  pub flow_paused : Bool
  pub kind : ClientKind

-- `pty.IPty`: the object, which is compared by identity, and the `pid` it reports.
pub record PtyProcess : Type 0 where
  pub handle : ℕ
  pub pid : ℕ

pub record PtySize : Type 0 where
  pub cols : ℕ
  pub rows : ℕ

pub record ManagedSession : Type 0 where
  pub info : Session
  pub process : Option PtyProcess
  pub pty_size : Option PtySize
  pub current_generation : ℕ
  pub attached_clients : List (String × AttachedClient)
  pub output_paused : Bool
  pub bootstrap_input : Option Bytes
  pub session_record : Option SessionRecord

pub record DaemonContext : Type 0 where
  pub pid : ℕ
  pub started_at : String

pub record ScrollbackLog : Type 0 where
  pub memory : ChunkLog
  pub disk : DiskLog

-- `disposed` keeps, for the handlers of their PTYs, the objects that `dispose` took out of `sessions`.
pub record Host : Type 0 where
  pub sessions : List (String × ManagedSession)
  pub disposed : List (String × ManagedSession)
  pub next_attach_token : ℕ
  pub scrollback_log : Option ScrollbackLog
  pub daemon_context : Option DaemonContext
  pub stored_sessions : List Session
  pub stored_records : List SessionRecord

-- What a step finds around it: the clock, as a number and as a text, the file system's answers, and the
-- marker of a restart.
pub record Surroundings : Type 0 where
  pub now : ℕ
  pub iso_now : String
  pub fs : FileSystem
  pub restart_separator : Bytes

pub data Effect : Type 0 where
  pause_pty resume_pty kill_pty : PtyProcess → Effect
  write_pty : PtyProcess → Bytes → Effect
  resize_pty : PtyProcess → PtySize → Effect
  tap_input : String → Bytes → Effect
  send_text : String → ℕ → Bytes → Effect
  send_chunk : String → ℕ → ℕ → ℕ → Bytes → Effect
  send_exit : String → ℕ → ℤ → Effect
  tap_output : String → Bytes → ℕ → Effect
  session_exit : String → ℕ → SessionEndReason → Effect

abbrev pub is_some {ℓ} : {A : Type ℓ} → Option A → Bool
is_some none = false
is_some (some x) = true

abbrev pub same : Bool → Bool → Bool
same true b = b
same false true = false
same false false = true

unfoldable pub flow_paused_flags : List (String × AttachedClient) → List Bool
flow_paused_flags [] = []
flow_paused_flags ((id, client) ∷ rest) = client.flow_paused ∷ flow_paused_flags rest

unfoldable pub should_pause_output : ManagedSession → Bool
unfolding flow_paused_flags
should_pause_output m = should_pause_output_for_clients (flow_paused_flags m.attached_clients)

abbrev pub on_process : (PtyProcess → Effect) → Option PtyProcess → List Effect
on_process call none = []
on_process call (some proc) = call proc ∷ []

unfoldable pub apply_output_pause_state : ManagedSession → ManagedSession × List Effect
apply_output_pause_state m =
    let should_pause = should_pause_output m in
    if same should_pause m.output_paused then (m, []) else (
      record m { output_paused = should_pause },
      on_process (if should_pause then pause_pty else resume_pty) m.process,
    )

abbrev pub session_key : Session → String
session_key s = s.id

abbrev pub record_key : SessionRecord → String
record_key r = r.id

unfoldable pub persist_session : Session → Host → Host
persist_session info h = record h { stored_sessions = upsert session_key info h.stored_sessions }

unfoldable pub persist_record : SessionRecord → Host → Host
persist_record r h = record h { stored_records = upsert record_key r h.stored_records }

-- A write to the object that `sessions` holds under the key.
abbrev pub put : String → ManagedSession → Host → Host
put id m h = record h { sessions = insert id m h.sessions }

-- `if (managed.record && this.daemonContext)`: a method's update of the record, under that test.
abbrev pub update_record :
    Option DaemonContext
    → (SessionRecord → SessionRecord)
    → Option SessionRecord
    → Option SessionRecord
update_record none change r = r
update_record (some daemon) change none = none
update_record (some daemon) change (some r) = some (change r)

-- The same test around `persistRecord`.
abbrev pub persist_tracked : Option DaemonContext → Option SessionRecord → Host → Host
persist_tracked (some daemon) (some r) h = persist_record r h
persist_tracked _ _ h = h

-- `persistSession(managed.info)` and, where there is a record, `persistRecord(managed.record)`, which write to
-- different arrays.
unfoldable pub save : String → ManagedSession → Host → Host
save id m h =
    persist_tracked h.daemon_context m.session_record (persist_session m.info (put id m h))
