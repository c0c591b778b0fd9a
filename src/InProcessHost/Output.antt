-- ===== src/InProcessHost/Output.antt =====
-- packages/server/src/pty/in-process-host.ts: the output of a PTY, from `onData` over the batch of its spawn to
-- the logs, the clients and the other listeners. A listener that throws stops no other, so a send is listed
-- whether its listener throws or not.
use parasor.Base.Bytes.{Bytes}
use parasor.Base.Classes.{string_eq}
use parasor.Base.Map.{lookup}
use parasor.Base.{
  ℕ, ◌||◌, Bool, true, false, Option, none, some, List, [], ◌∷◌, ◌++◌, String, if◌then◌else◌, ◌==◌,
}
use parasor.InProcessHost.Lifecycle.{log_append}
use parasor.InProcessHost.{
  ClientKind, text_client, chunk_client, AttachedClient, ManagedSession, Host, Surroundings, Effect,
  send_text, send_chunk, tap_output,
}
use parasor.Scrollback.{append_chunk}

abbrev is_chunk_client : ClientKind → Bool
is_chunk_client text_client = false
is_chunk_client (chunk_client has_on_exit) = true

-- The loop with its `break`.
unfoldable pub has_chunk_client : List (String × AttachedClient) → Bool
has_chunk_client [] = false
has_chunk_client ((id, client) ∷ rest) = is_chunk_client client.kind || has_chunk_client rest

abbrev deliver : String → AttachedClient → ℕ → Option ℕ → Bytes → List Effect
deliver id client generation seq batch = elim client.kind [
  | text_client ↦ send_text id client.attach_token batch ∷ []
  | chunk_client has_on_exit ↦ elim seq [
    | none ↦ []
    | some n ↦ send_chunk id client.attach_token generation n batch ∷ []
  ]
]

unfoldable pub broadcast : List (String × AttachedClient) → ℕ → Option ℕ → Bytes → List Effect
broadcast [] generation seq batch = []
broadcast ((id, client) ∷ rest) generation seq batch =
    deliver id client generation seq batch ++ broadcast rest generation seq batch

-- The object that the handlers of a session's PTY hold.
unfoldable pub held_session : String → Host → Option ManagedSession
held_session id h = elim (lookup id h.sessions) [ none ↦ lookup id h.disposed | some m ↦ some m ]

-- `appendChunk`, if there is a chunk client and a log.
abbrev pub record_chunk : Bool → String → ℕ → Bytes → Host → Host × Option ℕ
record_chunk wanted id generation batch h = elim h.scrollback_log [
  | none ↦ (h, none)
  | some l ↦
      if wanted
      then (
        record h {
          scrollback_log =
              some (record l { memory = (append_chunk l.memory id generation batch).0 });
        },
        some (append_chunk l.memory id generation batch).1,
      )
      else (h, none)
]

-- The callback of `setImmediate`, for the PTY that was spawned in a generation.
unfoldable pub flush : Surroundings → String → ℕ → Bytes → Host → Host × List Effect
flush env id generation_at_spawn batch h = elim (held_session id h) [
  | none ↦ (h, [])
  | some m ↦
      if generation_at_spawn == m.current_generation
      then (let (h', seq) =
            record_chunk (has_chunk_client m.attached_clients) id generation_at_spawn batch
              (log_append env id batch h) in
          (
            h',
            broadcast m.attached_clients generation_at_spawn seq batch
                ++ tap_output id batch generation_at_spawn ∷ [],
          ))
      else (h, tap_output id batch generation_at_spawn ∷ [])
]

-- The variables of one `attachProcHandlers`.
pub record Batch : Type 0 where
  pub pending_data : Bytes
  pub flush_scheduled : Bool

abbrev pub new_batch : Batch
new_batch = record { pending_data = []; flush_scheduled = false }

-- `onData`: the batch, and whether it calls `setImmediate`.
unfoldable pub on_data : Bytes → Batch → Batch × Bool
on_data bytes b =
    if b.flush_scheduled
    then (record b { pending_data = b.pending_data ++ bytes }, false)
    else (record { pending_data = b.pending_data ++ bytes; flush_scheduled = true }, true)

-- What the callback takes, and leaves.
unfoldable pub take_batch : Batch → Bytes × Batch
take_batch b = (b.pending_data, new_batch)
