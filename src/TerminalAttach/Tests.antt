-- ===== src/TerminalAttach/Tests.antt =====
-- Attaches at a concrete session.
use parasor.Base.Classes.{string_eq}
use parasor.Base.Map.{lookup, insert}
use parasor.Base.{◌≡◌, refl, true, false, Option, none, some, [], ◌∷◌}
use parasor.InProcessHost.Clients.{
  Capabilities, AttachResponse, attached_with, no_replay, attach_client, attach_chunk_client,
  decide_replay, detach_client, negotiate, add_client,
}
use parasor.InProcessHost.Lifecycle.{ready_session}
use parasor.InProcessHost.Output.{flush, has_chunk_client}
use parasor.InProcessHost.Recorded.{all_capabilities}
use parasor.InProcessHost.{
  Session, running, chunk_client, PtySize, ManagedSession, ScrollbackLog, Host, Surroundings,
  flow_paused_flags, should_pause_output, apply_output_pause_state,
}
use parasor.Scrollback.Represents.{Histories, Represents, write, extended, append_chunk-Represents}
use parasor.Scrollback.{ChunkLog, append_chunk}
use parasor.SessionPolicy.{shell}
use parasor.TerminalAttach.Abandoned.{attach_binary_client-abandoned}
use parasor.TerminalAttach.Serves.{Answers, attach_chunk_client-flush}
use parasor.TerminalAttach.{release, attach_binary_client}
use parasor.TerminalRelay.Messages.{new_relay}
use parasor.TerminalRelay.{should_pause_output_for_clients}

abbrev env : Surroundings
env = record {
  now = 7;
  iso_now = "2026-01-01T00:00:00Z";
  fs = record {
    appends = true;
    stats = true;
    rewrites = true;
    truncates = true;
    reads = true;
    unlinks = true;
  };
  restart_separator = 10 ∷ [];
}

abbrev info : Session
info = record {
  id = "s";
  project_id = "p";
  pid = some 42;
  state = running;
  generation = 1;
  title = "sh";
  title_manual = false;
  command = shell;
  cwd = "/";
  shell = "sh";
  launch_preset = none;
  created_at = 1;
  ended_at = none;
  end_reason = none;
  pinned = false;
}

abbrev size : PtySize
size = record { cols = 80; rows = 24 }

abbrev session : ManagedSession
session = record {
  info = info;
  process = some (record { handle = 1; pid = 42 });
  pty_size = some size;
  current_generation = 1;
  attached_clients = [];
  output_paused = false;
  bootstrap_input = none;
  session_record = none;
}

abbrev first : ChunkLog
first = (append_chunk (record { in_memory_budget = 100; rings = [] }) "s" 1 (b'a' ∷ [])).0

-- Two chunks were sent.
abbrev log : ScrollbackLog
log = record {
  memory = (append_chunk first "s" 1 (b'b' ∷ [])).0;
  disk = record { max_bytes = 100; tail_bytes = 50; buffers = []; files = [] };
}

abbrev host : Option ScrollbackLog → Host
host l = record {
  sessions = ("s", session) ∷ [];
  disposed = [];
  next_attach_token = 1;
  scrollback_log = l;
  daemon_context = none;
  stored_sessions = info ∷ [];
  stored_records = [];
}

abbrev no_histories : Histories
no_histories id = none

abbrev one_sent : Histories
one_sent = write no_histories "s" (some (extended none 1 (b'a' ∷ [])))

abbrev two_sent : Histories
two_sent = write one_sent "s" (some (extended (one_sent "s") 1 (b'b' ∷ [])))

log-Represents : Represents log.memory two_sent
unfolding lookup
log-Represents = append_chunk-Represents first one_sent "s" 1 (b'b' ∷ []) (
    append_chunk-Represents (record { in_memory_budget = 100; rings = [] }) no_histories "s" 1
      (b'a' ∷ []) (record { each = λ id. tt }))

abbrev watched : ManagedSession
watched = record session {
  attached_clients =
      ("d", record { attach_token = 0; flow_paused = false; kind = chunk_client true }) ∷ [];
}

abbrev watched_host : Host
watched_host = record (host (some log)) { sessions = ("s", watched) ∷ [] }

attach_chunk_client-flush_example :
    Answers log.memory.in_memory_budget
      ((b'a' ∷ []) ∷ (b'b' ∷ []) ∷ (b'c' ∷ []) ∷ [])
      0
      1
      (attach_chunk_client env
        (λ bytes. bytes)
        true
        "s"
        "c"
        (record {
          binary = true;
          chunked_replay = true;
          last_seen = some (record { generation = 1; seq = 0 });
        })
        watched
        (flush env "s" 1 (b'c' ∷ []) watched_host).0).1
      new_relay
unfolding lookup has_chunk_client
attach_chunk_client-flush_example =
    attach_chunk_client-flush env env (λ bytes. bytes) true "s" "c" watched watched_host log
      two_sent ((b'a' ∷ []) ∷ (b'b' ∷ []) ∷ []) (b'c' ∷ []) 0 new_relay refl refl log-Represents
      refl refl

abbrev binary : Capabilities
binary = record { binary = true; chunked_replay = true; last_seen = none }

abbrev response : AttachResponse
response = record {
  capabilities = all_capabilities;
  server_state = record { generation = 1; last_delivered_seq = none; oldest_seq = none };
  replay = no_replay;
  generation = 1;
  attach_token = 1;
}

abbrev attached_host : Host
attached_host = record (host none) {
  sessions =
      (
        "s",
        record session {
          attached_clients =
              ("c", record { attach_token = 1; flow_paused = false; kind = chunk_client true })
              ∷ [];
        },
      )
      ∷ [];
  next_attach_token = 2;
}

attach :
    attach_client env none (λ bytes. bytes) true "s" "c" size binary (host none)
    ≡ (attached_host, attached_with response, [])
unfolding attach_client ready_session attach_chunk_client decide_replay negotiate add_client
    apply_output_pause_state should_pause_output flow_paused_flags should_pause_output_for_clients
    lookup insert
attach = refl

attach_binary_client-abandoned_example :
    (attach_binary_client false (attached_with response) new_relay
      ≡ (record new_relay { attach_token = some 1 }, release 1 ∷ []))
    × ((m : ManagedSession) × (lookup "s" (detach_client "s" "c" (some 1) attached_host).0.sessions
          ≡ some m)
        × (lookup "c" m.attached_clients ≡ none))
attach_binary_client-abandoned_example =
    attach_binary_client-abandoned env none (λ bytes. bytes) true "s" "c" size binary (host none)
      attached_host response [] new_relay attach
