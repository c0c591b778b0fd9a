-- ===== src/InProcessHost/Lifecycle.antt =====
-- packages/server/src/pty/in-process-host.ts: from the creation of a session over the spawn of its PTY and
-- the end of its process to the restart, the shutdown and the removal.
use parasor.Base.Bytes.{Bytes}
use parasor.Base.Classes.{string_eq}
use parasor.Base.Int.{ℤ}
use parasor.Base.Keyed.{find_by, remove_by}
use parasor.Base.Map.{lookup, insert, erase}
use parasor.Base.{
  ℕ, ◌+◌, Bool, false, not, Option, none, some, List, [], ◌∷◌, ◌++◌, String, if◌then◌else◌, ◌==◌,
}
use parasor.InProcessHost.{
  Session, spawning, running, ended, is_spawning, is_ended, SessionRecord, alive, exited,
  text_client, chunk_client, AttachedClient, PtyProcess, PtySize, ManagedSession, DaemonContext,
  ScrollbackLog, Host, Surroundings, Effect, kill_pty, send_exit, session_exit, is_some, on_process,
  session_key, record_key, persist_session, put, update_record, save,
}
use parasor.Scrollback.Disk.{FileSystem, append, flush_all, remove_file}
use parasor.Scrollback.{bump_generation, remove_ring}
use parasor.SessionPolicy.Exit.{posix, derive_record_exit}
use parasor.SessionPolicy.{
  SessionCommand, SessionEndReason, is_auto_resumable, derive_end_reason,
  derive_load_fallback_end_reason,
}

-- The calls on `this.scrollbackLog?`.
abbrev pub on_log : (ScrollbackLog → ScrollbackLog) → Host → Host
on_log call h = record h {
  scrollback_log = elim h.scrollback_log [ none ↦ none | some l ↦ some (call l) ];
}

abbrev pub log_append : Surroundings → String → Bytes → Host → Host
log_append env id bytes =
    on_log (λ (l : ScrollbackLog). record l { disk = append env.fs id bytes l.disk })

abbrev pub log_bump : String → ℕ → Host → Host
log_bump id generation =
    on_log (λ (l : ScrollbackLog). record l { memory = bump_generation l.memory id generation })

abbrev pub log_remove : FileSystem → String → Host → Host
log_remove fs id = on_log (λ (l : ScrollbackLog). record {
  memory = remove_ring l.memory id;
  disk = remove_file fs id l.disk;
})

abbrev pub log_flush_all : Surroundings → Host → Host
log_flush_all env = on_log (λ (l : ScrollbackLog). record l { disk = flush_all env.fs l.disk })

pub record CreateSessionInput : Type 0 where
  pub project_id : String
  pub command : SessionCommand
  pub cwd : String
  pub title : Option String
  pub launch_preset : Option String
  pub bootstrap_input : Option Bytes

-- The result of `resolveCommand`, with the `basename` of its command.
pub record SpawnSpec : Type 0 where
  pub spawn_cmd : String
  pub spawn_args : List String
  pub base_name : String

abbrev pub get_or {ℓ} : {A : Type ℓ} → A → Option A → A
get_or default none = default
get_or default (some x) = x

abbrev created_info : Surroundings → String → CreateSessionInput → SpawnSpec → Session
created_info env id input spec = record {
  id = id;
  project_id = input.project_id;
  pid = none;
  state = spawning;
  generation = 1;
  title = get_or spec.base_name input.title;
  title_manual = is_some input.title;
  command = input.command;
  cwd = input.cwd;
  shell = spec.spawn_cmd;
  launch_preset = input.launch_preset;
  created_at = env.now;
  ended_at = none;
  end_reason = none;
  pinned = false;
}

abbrev created_record :
    Surroundings → String → CreateSessionInput → SpawnSpec → DaemonContext → SessionRecord
created_record env id input spec daemon = record {
  id = id;
  project_id = input.project_id;
  command = input.command;
  cwd = input.cwd;
  pid = none;
  pgid = none;
  argv = spec.spawn_cmd ∷ spec.spawn_args;
  started_at = env.iso_now;
  state = alive;
  exit_code = none;
  exit_signal = none;
  daemon_pid = daemon.pid;
  daemon_started_at = daemon.started_at;
}

abbrev pub created :
    Surroundings → Option DaemonContext → String → CreateSessionInput → SpawnSpec → ManagedSession
created env daemon id input spec = record {
  info = created_info env id input spec;
  process = none;
  pty_size = none;
  current_generation = 1;
  attached_clients = [];
  output_paused = false;
  bootstrap_input = input.bootstrap_input;
  session_record = elim daemon [ none ↦ none | some d ↦ some (created_record env id input spec d) ];
}

abbrev pub push_option {ℓ} : {A : Type ℓ} → Option A → List A → List A
push_option none xs = xs
push_option (some x) xs = xs ++ x ∷ []

-- `id` is the fresh `randomUUID()`.
unfoldable pub create :
    Surroundings → String → CreateSessionInput → SpawnSpec → Host → Host × Session
create env id input spec h =
    let m = created env h.daemon_context id input spec in
    (
      record h {
        sessions = insert id m h.sessions;
        stored_sessions = h.stored_sessions ++ m.info ∷ [];
        stored_records = push_option m.session_record h.stored_records;
      },
      m.info,
    )

-- `spawnProcess`, on the session's object, when `pty.spawn` gave a process.
unfoldable pub spawned :
    Surroundings → Option DaemonContext → PtyProcess → PtySize → ManagedSession → ManagedSession
spawned env daemon proc size m = record m {
  process = some proc;
  pty_size = some size;
  output_paused = false;
  info = record m.info { pid = some proc.pid; state = running };
  session_record =
      update_record daemon
        (λ (r : SessionRecord). record r {
          pid = some proc.pid;
          pgid = some proc.pid;
          state = alive;
          started_at = env.iso_now;
        })
        m.session_record;
}

-- The fields that `restart` and `autoResumeIfSafe` reset in the same way.
abbrev next_life : ℕ → Session → Session
next_life generation info = record info {
  pid = none;
  state = spawning;
  generation = generation;
  ended_at = none;
  end_reason = none;
}

abbrev rearmed : Surroundings → SessionRecord → SessionRecord
rearmed env r = record r {
  pid = none;
  pgid = none;
  state = alive;
  exit_code = none;
  exit_signal = none;
  started_at = env.iso_now;
}

unfoldable pub restarted : Surroundings → Option DaemonContext → ManagedSession → ManagedSession
restarted env daemon m = record m {
  current_generation = m.current_generation + 1;
  info = next_life (m.current_generation + 1) m.info;
  process = none;
  pty_size = none;
  attached_clients = [];
  session_record = update_record daemon (rearmed env) m.session_record;
}

pub data RestartResult : Type 0 where
  restarting : Session → RestartResult
  not_found not_ended : RestartResult

unfoldable pub restart : Surroundings → String → Host → Host × RestartResult
restart env id h = elim (lookup id h.sessions) [
  | none ↦ (h, not_found)
  | some m ↦
      if not (is_ended m.info.state)
      then (h, not_ended)
      else let m' = restarted env h.daemon_context m in
        (save id m' (log_bump id m'.current_generation h), restarting m'.info)
]

-- `autoResumeIfSafe`, up to its call of `spawnProcess`.
unfoldable pub resumed : Surroundings → Option DaemonContext → ManagedSession → ManagedSession
resumed env daemon m = record m {
  current_generation = m.current_generation + 1;
  info = next_life (m.current_generation + 1) m.info;
  attached_clients = [];
  session_record = update_record daemon (rearmed env) m.session_record;
}

-- What `initClient` and `attachClient` find at first: a PTY to attach to, a session that is over and may not be
-- resumed, or a spawn that threw. `spawn` is what `pty.spawn` gives, if it is called.
pub data Readiness : Type 0 where
  ready : ManagedSession → Readiness
  refused spawn_failed : Readiness

abbrev pub spawn_process :
    Surroundings → Option PtyProcess → PtySize → String → ManagedSession → Host → Host × Readiness
spawn_process env none size id m h = (h, spawn_failed)
spawn_process env (some proc) size id m h =
    let m' = spawned env h.daemon_context proc size m in (save id m' h, ready m')

-- The two writes around `resumed` are to the log: the separator before, the new ring after.
abbrev pub auto_resume_if_safe :
    Surroundings → Option PtyProcess → PtySize → String → ManagedSession → Host → Host × Readiness
auto_resume_if_safe env spawn size id m h =
    if not (is_auto_resumable m.info.command m.info.end_reason)
    then (h, refused)
    else let m' = resumed env h.daemon_context m in
      spawn_process env spawn size id m'
        (save id m' (log_bump id m'.current_generation (log_append env id env.restart_separator h)))

unfoldable pub ready_session :
    Surroundings → Option PtyProcess → PtySize → String → ManagedSession → Host → Host × Readiness
ready_session env spawn size id m h =
    if is_ended m.info.state
    then auto_resume_if_safe env spawn size id m h
    else if is_spawning m.info.state
    then spawn_process env spawn size id m h
    else (h, ready m)

-- The object after its process has gone.
abbrev pub over : Surroundings → SessionEndReason → ManagedSession → ManagedSession
over env reason m = record m {
  info = record m.info {
    state = ended;
    pid = none;
    ended_at = some env.now;
    end_reason = some reason;
  };
  process = none;
}

abbrev exit_notice : String → AttachedClient → ℤ → List Effect
exit_notice id client code = elim client.kind [
  | text_client ↦ []
  | chunk_client has_on_exit ↦
      if has_on_exit then send_exit id client.attach_token code ∷ [] else []
]

unfoldable pub exit_notices : List (String × AttachedClient) → ℤ → List Effect
exit_notices [] code = []
exit_notices ((id, client) ∷ rest) code = exit_notice id client code ++ exit_notices rest code

unfoldable pub exited_session :
    Surroundings → Option DaemonContext → ℤ → Option ℤ → ManagedSession → ManagedSession
exited_session env daemon exit_code signal m =
    record (over env (derive_end_reason signal exit_code) m) {
      session_record =
          update_record daemon
            (λ (r : SessionRecord). record r {
              pid = none;
              pgid = none;
              state = exited;
              exit_code = (derive_record_exit (some exit_code) signal).exit_code;
              exit_signal = (derive_record_exit (some exit_code) signal).exit_signal;
            })
            m.session_record;
    }

-- The `onExit` handler of the process that was spawned in a generation.
unfoldable pub on_exit : Surroundings → String → ℕ → ℤ → Option ℤ → Host → Host × List Effect
unfolding exit_notices
on_exit env id generation_at_spawn exit_code signal h = elim (lookup id h.sessions) [
  | none ↦ (h, [])
  | some m ↦
      if not (m.current_generation == generation_at_spawn)
      then (h, [])
      else if is_ended m.info.state
      then (h, [])
      else (
        save id (exited_session env h.daemon_context exit_code signal m) h,
        exit_notices m.attached_clients exit_code
            ++ session_exit id generation_at_spawn (derive_end_reason signal exit_code) ∷ [],
      )
]

-- A process that `dispose` kills; its object stays with the handlers, marked as ended.
abbrev pub disposed_session : ManagedSession → ManagedSession
disposed_session m = elim m.process [
  | none ↦ m
  | some proc ↦ record m { info = record m.info { state = ended }; process = none }
]

unfoldable pub dispose : Surroundings → String → Host → Host × List Effect
dispose env id h = elim (lookup id h.sessions) [
  | none ↦ (h, [])
  | some m ↦ (
    log_remove env.fs id (record h {
      sessions = erase id h.sessions;
      disposed = insert id (disposed_session m) h.disposed;
      stored_sessions = remove_by session_key id h.stored_sessions;
      stored_records = remove_by record_key id h.stored_records;
    }),
    on_process kill_pty m.process,
  )
]

-- `shutdownAll`, for one of the sessions.
unfoldable pub shut_down :
    Surroundings → Option DaemonContext → SessionEndReason → ManagedSession → ManagedSession
shut_down env daemon reason m = record (over env reason m) {
  session_record =
      update_record daemon
        (λ (r : SessionRecord). record r {
          pid = none;
          pgid = none;
          state = exited;
          exit_signal = some (posix "SIGHUP");
        })
        m.session_record;
}

unfoldable pub shutdown_session :
    Surroundings → SessionEndReason → String → Host → Host × List Effect
shutdown_session env reason id h = elim (lookup id h.sessions) [
  | none ↦ (h, [])
  | some m ↦
      if is_ended m.info.state
      then (h, [])
      else (save id (shut_down env h.daemon_context reason m) h, on_process kill_pty m.process)
]

-- The sessions are independent, so one order stands for `Promise.all`.
unfoldable pub shutdown_each :
    Surroundings → SessionEndReason → List (String × ManagedSession) → Host → Host × List Effect
shutdown_each env reason [] h = (h, [])
shutdown_each env reason ((id, m) ∷ rest) h =
    let (h1, killed) = shutdown_session env reason id h in
    let (h2, more) = shutdown_each env reason rest h1 in (h2, killed ++ more)

unfoldable pub shutdown_all : Surroundings → SessionEndReason → Host → Host × List Effect
unfolding shutdown_each
shutdown_all env reason h =
    let (h', killed) = shutdown_each env reason h.sessions h in (log_flush_all env h', killed)

unfoldable pub loaded :
    Option DaemonContext → Bool → Option SessionRecord → Session → ManagedSession
loaded daemon graceful existing session = record {
  info = record session {
    state = ended;
    pid = none;
    end_reason =
        some
          (get_or (derive_load_fallback_end_reason (is_some daemon) graceful) session.end_reason);
  };
  process = none;
  pty_size = none;
  current_generation = session.generation;
  attached_clients = [];
  output_paused = false;
  bootstrap_input = none;
  session_record = existing;
}

unfoldable pub load_persisted_session : Session → Bool → Host → Host
load_persisted_session session graceful h =
    let m =
      loaded h.daemon_context graceful (find_by record_key session.id h.stored_records) session in
    persist_session m.info (put session.id m h)
