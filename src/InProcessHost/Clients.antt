-- ===== src/InProcessHost/Clients.antt =====
-- packages/server/src/pty/in-process-host.ts: how clients attach, what they are sent first, how they pause the
-- output and how they detach. `AttachClientCapabilities` has its cursor as `parseLastSeen` read it; what
-- `buildFullReplay` makes of the tail on disk is an argument.
use parasor.Base.Bytes.{Bytes}
use parasor.Base.Classes.{string_eq}
use parasor.Base.Map.{lookup, insert, erase}
use parasor.Base.{
  ℕ, ◌+◌, ◌&&◌, Bool, true, false, not, Option, none, some, List, [], ◌∷◌, ◌++◌, String,
  if◌then◌else◌, ◌==◌,
}
use parasor.InProcessHost.Lifecycle.{Readiness, ready, refused, spawn_failed, ready_session}
use parasor.InProcessHost.{
  ClientKind, text_client, chunk_client, AttachedClient, PtyProcess, PtySize, ManagedSession,
  ScrollbackLog, Host, Surroundings, Effect, send_text, is_some, apply_output_pause_state, put,
}
use parasor.Scrollback.Disk.{read_tail}
use parasor.Scrollback.{
  ChunkRecord, Cursor, RingState, delta, full, nothing, read_since, ring_state,
}

-- `mintAttachToken`
abbrev pub mint_attach_token : Option ℕ → Host → Host × ℕ
mint_attach_token (some caller) h = (h, caller)
mint_attach_token none h =
    (record h { next_attach_token = h.next_attach_token + 1 }, h.next_attach_token)

-- The entry of an attach in `attachedClients`, and the pause of the output that follows from it.
unfoldable pub add_client : String → ℕ → ClientKind → ManagedSession → ManagedSession × List Effect
add_client client_id token kind m = apply_output_pause_state (record m {
  attached_clients =
      insert client_id (record { attach_token = token; flow_paused = false; kind = kind })
        m.attached_clients;
})

unfoldable pub remove_client : String → ManagedSession → ManagedSession × List Effect
remove_client client_id m =
    apply_output_pause_state (record m { attached_clients = erase client_id m.attached_clients })

-- `expectedToken`, against the entry of the client.
abbrev pub is_held_by : Option ℕ → Option AttachedClient → Bool
is_held_by none entry = true
is_held_by (some expected) none = false
is_held_by (some expected) (some entry) = entry.attach_token == expected

unfoldable pub detach_client : String → String → Option ℕ → Host → Host × List Effect
detach_client id client_id expected_token h = elim (lookup id h.sessions) [
  | none ↦ (h, [])
  | some m ↦
      if not (is_held_by expected_token (lookup client_id m.attached_clients))
      then (h, [])
      else let (m', calls) = remove_client client_id m in (put id m' h, calls)
]

abbrev pub set_flow : Bool → String → String → Host → Host × List Effect
set_flow paused id client_id h = elim (lookup id h.sessions) [
  | none ↦ (h, [])
  | some m ↦
      if not (is_some m.process) then (h, []) else elim (lookup client_id m.attached_clients) [
        | none ↦ (h, [])
        | some client ↦
            let (m', calls) = apply_output_pause_state (record m {
              attached_clients =
                  insert client_id (record client { flow_paused = paused }) m.attached_clients;
            }) in
            (put id m' h, calls)
      ]
]

unfoldable pub pause_output : String → String → Host → Host × List Effect
pause_output = set_flow true

unfoldable pub resume_output : String → String → Host → Host × List Effect
resume_output = set_flow false

-- `this.scrollbackLog?.readTail(id) ?? ""`, which writes out what is pending.
abbrev pub read_disk_tail : Surroundings → String → Host → Host × Bytes
read_disk_tail env id h = elim h.scrollback_log [
  | none ↦ (h, [])
  | some l ↦
      let (disk', tail) = read_tail env.fs id l.disk in
      (record h { scrollback_log = some (record l { disk = disk' }) }, tail)
]

pub data InitResult : Type 0 where
  attached : ℕ → InitResult
  not_ok failed : InitResult

abbrev pub is_empty : Bytes → Bool
is_empty [] = true
is_empty (b ∷ bs) = false

-- `initClient`, from the token on. `strip` is `stripQueryEscapes`; `listens` is whether the listener takes
-- the replay, or throws.
unfoldable pub attach_text_client :
    Surroundings
    → (Bytes → Bytes)
    → Bool
    → String
    → String
    → Option ℕ
    → ManagedSession
    → Host
    → Host × InitResult × List Effect
attach_text_client env strip listens id client_id caller_token m h =
    let (h1, token) = mint_attach_token caller_token h in
    let (m1, calls) = add_client client_id token text_client m in
    let (h2, tail) = read_disk_tail env id (put id m1 h1) in
    if is_empty tail
    then (h2, attached token, calls)
    else if listens
    then (h2, attached token, calls ++ send_text client_id token (strip tail) ∷ [])
    else let (h3, undone) = detach_client id client_id (some token) h2 in
      (h3, failed, calls ++ undone)

abbrev pub init_ready :
    Surroundings
    → (Bytes → Bytes)
    → Bool
    → String
    → String
    → Option ℕ
    → Host × Readiness
    → Host × InitResult × List Effect
init_ready env strip listens id client_id caller_token (h, refused) = (h, not_ok, [])
init_ready env strip listens id client_id caller_token (h, spawn_failed) = (h, failed, [])
init_ready env strip listens id client_id caller_token (h, ready m) =
    attach_text_client env strip listens id client_id caller_token m h

unfoldable pub init_client :
    Surroundings
    → Option PtyProcess
    → (Bytes → Bytes)
    → Bool
    → String
    → String
    → PtySize
    → Option ℕ
    → Host
    → Host × InitResult × List Effect
init_client env spawn strip listens id client_id size caller_token h = elim (lookup id h.sessions) [
  | none ↦ (h, not_ok, [])
  | some m ↦
      init_ready env strip listens id client_id caller_token (ready_session env spawn size id m h)
]

pub record Capabilities : Type 0 where
  pub binary : Bool
  pub chunked_replay : Bool
  pub last_seen : Option Cursor

pub record TerminalCapabilities : Type 0 where
  pub binary : Bool
  pub chunked_replay : Bool

-- `replay` with what goes with it, `chunks` or `fullReplay`.
pub data Replay : Type 0 where
  no_replay : Replay
  delta_replay : List ChunkRecord → Replay
  full_replay : Bytes → Replay

-- `generation` is that of the chunks in `replay`.
pub record AttachResponse : Type 0 where
  pub capabilities : TerminalCapabilities
  pub server_state : RingState
  pub replay : Replay
  pub generation : ℕ
  pub attach_token : ℕ

pub data AttachResult : Type 0 where
  attached_with : AttachResponse → AttachResult
  not_attached spawn_threw : AttachResult

unfoldable pub negotiate : Capabilities → TerminalCapabilities
negotiate c = record { binary = c.binary; chunked_replay = c.binary && c.chunked_replay }

abbrev pub tail_replay : Surroundings → (Bytes → Bytes) → String → Host → Host × Replay
tail_replay env build id h =
    let (h', tail) = read_disk_tail env id h in
    (h', if is_empty tail then no_replay else full_replay (build tail))

abbrev pub chunked_replay_of :
    Surroundings → (Bytes → Bytes) → Option Cursor → String → ScrollbackLog → Host → Host × Replay
chunked_replay_of env build last_seen id l h = elim (read_since l.memory id last_seen) [
  | delta chunks ↦ (h, delta_replay chunks)
  | full ↦ let (h', tail) = read_disk_tail env id h in (h', full_replay (build tail))
  | nothing ↦ if is_some last_seen then (h, no_replay) else tail_replay env build id h
]

-- What a client is to be sent before the live output.
unfoldable pub decide_replay :
    Surroundings
    → (Bytes → Bytes)
    → TerminalCapabilities
    → Option Cursor
    → String
    → Host
    → Host × Replay
decide_replay env build negotiated last_seen id h = elim h.scrollback_log [
  | none ↦ if negotiated.binary then tail_replay env build id h else (h, no_replay)
  | some l ↦
      if negotiated.chunked_replay
      then chunked_replay_of env build last_seen id l h
      else if negotiated.binary
      then tail_replay env build id h
      else (h, no_replay)
]

abbrev ring_snapshot : String → ℕ → Host → RingState
ring_snapshot id generation h = elim h.scrollback_log [
  | none ↦ record { generation = generation; last_delivered_seq = none; oldest_seq = none }
  | some l ↦ ring_state l.memory id generation
]

unfoldable pub attach_chunk_client :
    Surroundings
    → (Bytes → Bytes)
    → Bool
    → String
    → String
    → Capabilities
    → ManagedSession
    → Host
    → Host × AttachResult × List Effect
attach_chunk_client env build has_on_exit id client_id capabilities m h =
    let negotiated = negotiate capabilities in
    let snapshot = ring_snapshot id m.current_generation h in
    let (h1, replay) = decide_replay env build negotiated capabilities.last_seen id h in
    let (h2, token) = mint_attach_token none h1 in
    let (m', calls) = add_client client_id token (chunk_client has_on_exit) m in
    (
      put id m' h2,
      attached_with (record {
        capabilities = negotiated;
        server_state = snapshot;
        replay = replay;
        generation = m.current_generation;
        attach_token = token;
      }),
      calls,
    )

abbrev pub attach_ready :
    Surroundings
    → (Bytes → Bytes)
    → Bool
    → String
    → String
    → Capabilities
    → Host × Readiness
    → Host × AttachResult × List Effect
attach_ready env build has_on_exit id client_id capabilities (h, refused) = (h, not_attached, [])
attach_ready env build has_on_exit id client_id capabilities (h, spawn_failed) =
    (h, spawn_threw, [])
attach_ready env build has_on_exit id client_id capabilities (h, ready m) =
    attach_chunk_client env build has_on_exit id client_id capabilities m h

-- `attachClient`, as one step: nothing else happens to the host between its look-up of the session, the mutex and
-- the replay that it waits for.
unfoldable pub attach_client :
    Surroundings
    → Option PtyProcess
    → (Bytes → Bytes)
    → Bool
    → String
    → String
    → PtySize
    → Capabilities
    → Host
    → Host × AttachResult × List Effect
attach_client env spawn build has_on_exit id client_id size capabilities h =
    elim (lookup id h.sessions) [
      | none ↦ (h, not_attached, [])
      | some m ↦
          attach_ready env build has_on_exit id client_id capabilities
            (ready_session env spawn size id m h)
    ]
