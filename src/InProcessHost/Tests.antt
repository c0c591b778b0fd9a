-- ===== src/InProcessHost/Tests.antt =====
-- The host at concrete sessions.
use parasor.Base.Classes.{string_eq}
use parasor.Base.Int.{pos}
use parasor.Base.Keyed.{find_by, upsert}
use parasor.Base.Map.{lookup, insert}
use parasor.Base.{
  ℕ, ◌≡◌, ◌⊎◌, refl, true, false, Option, none, some, List, [], ◌∷◌, String, arith, ◌+◌,
}
use parasor.InProcessHost.Bootstrap.{send}
use parasor.InProcessHost.Clients.{
  Capabilities, AttachResponse, attached_with, no_replay, attach_client, attach_chunk_client,
  decide_replay, detach_client, negotiate, add_client,
}
use parasor.InProcessHost.Course.{still, detach_client-attach_client}
use parasor.InProcessHost.FirstInput.{Types, send-Types}
use parasor.InProcessHost.Input
use parasor.InProcessHost.Invariant.{IsValid}
use parasor.InProcessHost.Lifecycle.{
  CreateSessionInput, SpawnSpec, ready, ready_session, restart, restarted, spawned, on_exit,
  dispose,
}
use parasor.InProcessHost.Output.{flush, has_chunk_client}
use parasor.InProcessHost.Recorded.{all_capabilities, decide_replay-flush}
use parasor.InProcessHost.Residue.{flush-dispose}
use parasor.InProcessHost.Stale.{restart-fences}
use parasor.InProcessHost.Steps.{
  Event, creates, attaches, exits, step, starts, happens, Reached-IsValid,
}
use parasor.InProcessHost.{
  Session, SessionState, spawning, running, ended, ClientKind, chunk_client, PtyProcess, PtySize,
  ManagedSession, ScrollbackLog, Host, Surroundings, tap_output, flow_paused_flags,
  should_pause_output, apply_output_pause_state, is_some, save, persist_session,
}
use parasor.Scrollback.Disk.{append, remove_file}
use parasor.Scrollback.{ChunkRing, append_chunk, remove_ring}
use parasor.SessionPolicy.{shell}
use parasor.TerminalRelay.{should_pause_output_for_clients}

abbrev env : Surroundings
env = record {
  now = 7;
  iso_now = "2026-01-01T00:00:00Z";
  fs = record {
    appends = true;
    stats = true;
    rewrites = true;
    truncates = true;
    reads = true;
    unlinks = true;
  };
  restart_separator = 10 ∷ [];
}

abbrev info : SessionState → Session
info state = record {
  id = "s";
  project_id = "p";
  pid = none;
  state = state;
  generation = 1;
  title = "sh";
  title_manual = false;
  command = shell;
  cwd = "/";
  shell = "sh";
  launch_preset = none;
  created_at = 1;
  ended_at = none;
  end_reason = none;
  pinned = false;
}

abbrev proc : PtyProcess
proc = record { handle = 1; pid = 42 }

abbrev size : PtySize
size = record { cols = 80; rows = 24 }

abbrev session : SessionState → ManagedSession
session state = record {
  info = info state;
  process = some proc;
  pty_size = some size;
  current_generation = 1;
  attached_clients = [];
  output_paused = false;
  bootstrap_input = some (b'l' ∷ b's' ∷ []);
  session_record = none;
}

abbrev log : List (String × ChunkRing) → ScrollbackLog
log rings = record {
  memory = record { in_memory_budget = 100; rings = rings };
  disk = record { max_bytes = 100; tail_bytes = 50; buffers = []; files = [] };
}

abbrev host : SessionState → Option ScrollbackLog → Host
host state l = record {
  sessions = ("s", session state) ∷ [];
  disposed = [];
  next_attach_token = 1;
  scrollback_log = l;
  daemon_context = none;
  stored_sessions = info state ∷ [];
  stored_records = [];
}

abbrev no_host : Host
no_host = record {
  sessions = [];
  disposed = [];
  next_attach_token = 1;
  scrollback_log = some (log []);
  daemon_context = some (record { pid = 5; started_at = "2026-01-01T00:00:00Z" });
  stored_sessions = [];
  stored_records = [];
}

abbrev input : CreateSessionInput
input = record {
  project_id = "p";
  command = shell;
  cwd = "/";
  title = none;
  launch_preset = none;
  bootstrap_input = none;
}

abbrev spec : SpawnSpec
spec = record { spawn_cmd = "/bin/sh"; spawn_args = []; base_name = "sh" }

abbrev binary : Capabilities
binary = record { binary = true; chunked_replay = true; last_seen = none }

abbrev creation : Event
creation = creates "s" input spec

abbrev attach : Event
attach = attaches (some proc) (λ bytes. bytes) true "s" "c" size binary

Reached-IsValid_example :
    IsValid (step env (exits "s" 1 (pos 0) none) (step env attach (step env creation no_host)))
unfolding find_by
Reached-IsValid_example = Reached-IsValid (
    happens (happens (happens (starts no_host refl) env creation (refl, refl)) env attach tt) env
      (exits "s" 1 (pos 0) none) tt)

abbrev running_host : Host
running_host = host running none

abbrev response : ℕ → AttachResponse
response token = record {
  capabilities = all_capabilities;
  server_state = record { generation = 1; last_delivered_seq = none; oldest_seq = none };
  replay = no_replay;
  generation = 1;
  attach_token = token;
}

abbrev attached_host : ℕ → Host
attached_host token = record running_host {
  sessions =
      (
        "s",
        record (session running) {
          attached_clients =
              ("c", record { attach_token = token; flow_paused = false; kind = chunk_client true })
              ∷ [];
        },
      )
      ∷ [];
  next_attach_token = token + 1;
}

first_attach :
    attach_client env none (λ bytes. bytes) true "s" "c" size binary running_host
    ≡ (attached_host 1, attached_with (response 1), [])
unfolding attach_client ready_session attach_chunk_client decide_replay negotiate add_client
    apply_output_pause_state should_pause_output flow_paused_flags should_pause_output_for_clients
    lookup insert
first_attach = refl

second_attach :
    attach_client env none (λ bytes. bytes) true "s" "c" size binary (attached_host 1)
    ≡ (attached_host 2, attached_with (response 2), [])
unfolding attach_client ready_session attach_chunk_client decide_replay negotiate add_client
    apply_output_pause_state should_pause_output flow_paused_flags should_pause_output_for_clients
    lookup insert
second_attach = refl

detach_client-attach_client_example :
    detach_client "s" "c" (some 1) (attached_host 2) ≡ (attached_host 2, [])
detach_client-attach_client_example =
    detach_client-attach_client env env none none (λ bytes. bytes) (λ bytes. bytes) true true "s"
      "c" size size binary binary running_host (attached_host 1) (attached_host 1) (attached_host 2)
      (response 1) (response 2) [] [] first_attach still second_attach

abbrev ended_host : Host
ended_host = host ended none

-- The session between its restart and its next attach.
abbrev waiting : ManagedSession
waiting = record (session spawning) {
  info = record (info spawning) { generation = 2 };
  process = none;
  pty_size = none;
  current_generation = 2;
}

abbrev new_proc : PtyProcess
new_proc = record { handle = 2; pid = 43 }

-- The new PTY runs, and the first input is not typed yet.
abbrev respawned : ManagedSession
respawned = record (session running) {
  info = record (info running) { generation = 2; pid = some 43 };
  process = some new_proc;
  current_generation = 2;
}

abbrev respawned_host : Host
respawned_host = record ended_host {
  sessions = ("s", respawned) ∷ [];
  stored_sessions = respawned.info ∷ [];
}

respawned_reached :
    ready_session env (some new_proc) size "s" waiting (restart env "s" ended_host).0
    ≡ (respawned_host, ready respawned)
unfolding ready_session restart restarted spawned save persist_session lookup insert upsert
respawned_reached = refl

restart-fences_example :
    (flush env "s" 1 (b'x' ∷ []) respawned_host
      ≡ (respawned_host, tap_output "s" (b'x' ∷ []) 1 ∷ []))
    × (on_exit env "s" 1 (pos 0) none respawned_host ≡ (respawned_host, []))
    × (send "s" proc 1 respawned_host ≡ (respawned_host, []))
    × (Input.write "s" (b'q' ∷ []) (some 1) respawned_host ≡ [])
unfolding restart restarted save persist_session lookup insert upsert
restart-fences_example =
    restart-fences env env "s" ended_host respawned_host (session ended) waiting respawned
      (b'x' ∷ []) (b'q' ∷ []) (pos 0) none proc refl refl refl refl (omega arith) (omega arith)

send-Types_example :
    (send "s" proc 1 running_host ≡ (running_host, []))
    ⊎ Types "s" proc 1 running_host
        (send "s" proc 1 running_host).0
        (send "s" proc 1 running_host).1
send-Types_example = send-Types "s" proc 1 running_host

abbrev with_client : ClientKind → Option ScrollbackLog → Host
with_client kind l = record (host running l) {
  sessions =
      (
        "s",
        record (session running) {
          attached_clients =
              ("c", record { attach_token = 1; flow_paused = false; kind = kind }) ∷ [];
        },
      )
      ∷ [];
}

abbrev client_session : ClientKind → ManagedSession
client_session kind = record (session running) {
  attached_clients = ("c", record { attach_token = 1; flow_paused = false; kind = kind }) ∷ [];
}

abbrev ring : ChunkRing
ring = record {
  generation = 1;
  next_seq = 1;
  chunks = record { seq = 0; content = b'a' ∷ [] } ∷ [];
  total_bytes = 1;
}

abbrev logged : ScrollbackLog
logged = log (("s", ring) ∷ [])

decide_replay-flush_example :
    (decide_replay env
        (λ bytes. bytes)
        all_capabilities
        (some (record { generation = 1; seq = 0 }))
        "s"
        (flush env "s" 1 (b'x' ∷ []) (host running (some logged))).0
      ≡ ((flush env "s" 1 (b'x' ∷ []) (host running (some logged))).0, no_replay))
    × ((l' : ScrollbackLog) × ((flush env "s" 1
            (b'x' ∷ [])
            (host running (some logged))).0.scrollback_log
          ≡ some l')
        × (l'.disk ≡ append env.fs "s" (b'x' ∷ []) logged.disk))
unfolding lookup has_chunk_client
decide_replay-flush_example =
    decide_replay-flush env "s" (host running (some logged)) (session running) logged refl refl
      (b'x' ∷ []) env (λ bytes. bytes) ring 0 refl refl refl

-- A client for chunks is attached.
abbrev served_host : Host
served_host = with_client (chunk_client true) (some logged)

flush-dispose_example :
    (lookup "s" (dispose env "s" served_host).0.sessions ≡ none)
    × ((dispose env "s" served_host).0.scrollback_log
        ≡ some (record {
          memory = remove_ring logged.memory "s";
          disk = remove_file env.fs "s" logged.disk;
        }))
    × ((flush env "s" 1 (b'x' ∷ []) (dispose env "s" served_host).0).0.scrollback_log
        ≡ some (record {
          memory = (append_chunk (remove_ring logged.memory "s") "s" 1 (b'x' ∷ [])).0;
          disk = append env.fs "s" (b'x' ∷ []) (remove_file env.fs "s" logged.disk);
        }))
    × (is_some
          (lookup "s" (append env.fs "s" (b'x' ∷ []) (remove_file env.fs "s" logged.disk)).buffers)
        ≡ true)
unfolding lookup has_chunk_client
flush-dispose_example =
    flush-dispose env "s" served_host (client_session (chunk_client true)) logged (b'x' ∷ []) refl
      refl
