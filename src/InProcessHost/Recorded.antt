-- ===== src/InProcessHost/Recorded.antt =====
-- What is recorded of the output, and what a client that comes back is sent of it.
use parasor.Base.Bytes.{Bytes}
use parasor.Base.Classes.{string_eq}
use parasor.Base.Map.{lookup}
use parasor.Base.{
  ℕ, ◌+◌, ◌≡◌, refl, ◌∙◌, true, false, Option, some, List, [], ◌∷◌, String, arith, if◌then◌else◌,
  ◌==◌,
}
use parasor.InProcessHost.Clients.{TerminalCapabilities, no_replay, decide_replay}
use parasor.InProcessHost.Output.{flush, held_session, has_chunk_client}
use parasor.InProcessHost.{ManagedSession, ScrollbackLog, Host, Surroundings, is_some}
use parasor.Scrollback.Disk.{append}
use parasor.Scrollback.Represents.{Histories, write, extended, Represents, append_chunk-Represents}
use parasor.Scrollback.{
  ChunkRecord, ChunkRing, Cursor, append_chunk, read_since, read_ring, nothing,
}

abbrev pub all_capabilities : TerminalCapabilities
all_capabilities = record { binary = true; chunked_replay = true }

decide_seen :
    (env : Surroundings) (build : Bytes → Bytes) (cursor : Option Cursor) (id : String) (h : Host)
    (l : ScrollbackLog)
    → h.scrollback_log ≡ some l
    → is_some cursor ≡ true
    → read_since l.memory id cursor ≡ nothing
    → decide_replay env build all_capabilities cursor id h ≡ (h, no_replay)
unfolding decide_replay
decide_seen env build cursor id h l e c r = ground arith

module _ (env : Surroundings) (id : String) (h : Host) (m : ManagedSession) (l : ScrollbackLog)
    (held : lookup id h.sessions ≡ some m) (logged : h.scrollback_log ≡ some l)
    (batch : Bytes) where
  -- The log after a flush of the current generation.
  flush-log :
      (flush env id m.current_generation batch h).0.scrollback_log
      ≡ some (record {
        memory =
            if has_chunk_client m.attached_clients
            then (append_chunk l.memory id m.current_generation batch).0
            else l.memory;
        disk = append env.fs id batch l.disk;
      })
  unfolding flush held_session
  flush-log =
      let q : (m.current_generation == m.current_generation) ≡ true = ground arith in
      rw (held, flush, held_session, q, logged) (ground arith)

  -- While a client that takes chunks is attached, every flush of the current PTY continues the history of the
  -- session's chunks by its batch, so that a client that comes back is served it.
  pub flush-Represents :
      (hs : Histories)
      → Represents l.memory hs
      → has_chunk_client m.attached_clients ≡ true
      → (l' : ScrollbackLog) × ((flush env id m.current_generation batch h).0.scrollback_log
          ≡ some l')
        × Represents l'.memory (write hs id (some (extended (hs id) m.current_generation batch)))
        × (l'.memory.in_memory_budget ≡ l.memory.in_memory_budget)
        × (l'.disk ≡ append env.fs id batch l.disk)
  flush-Represents hs v c = (
    record {
      memory = (append_chunk l.memory id m.current_generation batch).0;
      disk = append env.fs id batch l.disk;
    },
    flush-log ∙ rw c refl,
    append_chunk-Represents l.memory hs id m.current_generation batch v,
    unfold append_chunk in refl,
    refl,
  )

  -- `readSince` for a client that has seen every chunk.
  read_since_seen :
      (ring : ChunkRing) (seq : ℕ)
      → lookup id l.memory.rings ≡ some ring
      → ring.next_seq ≡ seq + 1
      → read_since l.memory id (some (record { generation = ring.generation; seq = seq })) ≡ nothing
  unfolding read_since read_ring
  read_since_seen ring seq e n =
      let q : (ring.generation == ring.generation) ≡ true = ground arith in
      rw (e, read_since, q) (seen ring.chunks)
    where
      seen : (chunks : List ChunkRecord) → read_ring chunks ring.next_seq seq ≡ nothing
      seen [] = refl
      seen (c ∷ cs) = ground arith

  -- While no client that takes chunks is attached, a client that had seen every chunk, and comes back with its cursor
  -- after more output of the same PTY, is told that there is nothing to replay: it misses that output, which is on the disk alone.
  pub decide_replay-flush :
      (env' : Surroundings) (build : Bytes → Bytes) (ring : ChunkRing) (seq : ℕ)
      → has_chunk_client m.attached_clients ≡ false
      → lookup id l.memory.rings ≡ some ring
      → ring.next_seq ≡ seq + 1
      → (decide_replay env' build all_capabilities
            (some (record { generation = ring.generation; seq = seq }))
            id
            (flush env id m.current_generation batch h).0
          ≡ ((flush env id m.current_generation batch h).0, no_replay))
        × ((l' : ScrollbackLog) × ((flush env id m.current_generation batch h).0.scrollback_log
              ≡ some l')
            × (l'.disk ≡ append env.fs id batch l.disk))
  unfolding decide_replay
  decide_replay-flush env' build ring seq c e n = (
    decide_seen env' build (some (record { generation = ring.generation; seq = seq })) id
        (flush env id m.current_generation batch h).0 _ logged' refl (read_since_seen ring seq e n),
    (_, logged', refl),
  )
    where
      logged' :
          (flush env id m.current_generation batch h).0.scrollback_log
          ≡ some (record { memory = l.memory; disk = append env.fs id batch l.disk })
      logged' = flush-log ∙ rw c refl
