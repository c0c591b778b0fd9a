-- ===== src/TerminalAttach/Serves.antt =====
-- What a client that comes back is sent, from the host's rings to the frames on its socket; and what is left of an
-- attach whose socket closed meanwhile.
use parasor.Base.Bytes.{Bytes}
use parasor.Base.Classes.{string_eq, equals_self}
use parasor.Base.Map.{lookup}
use parasor.Base.{
  ℕ, ◌+◌, ◌≤◌, ◌<◌, ◌≡◌, refl, ap, Bool, true, some, List, [], ◌∷◌, ◌++◌, String, arith, length,
  drop, ◌==◌,
}
use parasor.InProcessHost.Clients.{
  AttachResult, attached_with, Replay, no_replay, delta_replay, full_replay, attach_chunk_client,
  decide_replay, negotiate, read_disk_tail,
}
use parasor.InProcessHost.Output.{flush, has_chunk_client}
use parasor.InProcessHost.Recorded.{all_capabilities, flush-Represents}
use parasor.InProcessHost.{ManagedSession, ScrollbackLog, Host, Surroundings}
use parasor.Scrollback.Evict.{number, bytes_of}
use parasor.Scrollback.Replay.{Replays, Serves, read_since-Serves}
use parasor.Scrollback.Represents.{Histories, Represents, write, extended}
use parasor.Scrollback.{Cursor, ReadSinceResult, delta, full, nothing, read_since}
use parasor.TerminalAttach.{AttachCall, send_init_ack, frames, replay_calls, attach_binary_client}
use parasor.TerminalRelay.Messages.{Relay}

-- What is sent behind the acknowledgement to a client that has seen the chunks up to `seq`, of all that its PTY has sent.
abbrev pub Shows : ℕ → List Bytes → ℕ → ℕ → Replay → List AttachCall → Type 0
Shows budget sent seq generation no_replay calls = (length sent ≤ seq + 1) × (calls ≡ [])
Shows budget sent seq generation (delta_replay chunks) calls =
    (seq + 1 < length sent) × (calls ≡ frames generation (number (seq + 1) (drop (seq + 1) sent)))
Shows budget sent seq generation (full_replay text) calls =
    (seq + 1 < length sent) × (budget < bytes_of (drop (seq + 1) sent))

-- `decide_replay` on a cursor, by what `readSince` says.
abbrev pub Decides : ReadSinceResult → Replay → Type 0
Decides (delta chunks) r = r ≡ delta_replay chunks
Decides full r = (text : Bytes) × (r ≡ full_replay text)
Decides nothing r = r ≡ no_replay

decide_replay-Decides :
    (env : Surroundings) (build : Bytes → Bytes) (cursor : Cursor) (id : String) (h : Host)
    (l : ScrollbackLog) (r : ReadSinceResult)
    → h.scrollback_log ≡ some l
    → read_since l.memory id (some cursor) ≡ r
    → Decides r (decide_replay env build all_capabilities (some cursor) id h).1
unfolding decide_replay
decide_replay-Decides env build cursor id h l (delta chunks) e q = ground arith
decide_replay-Decides env build cursor id h l full e q =
    (build (read_disk_tail env id h).1, ground arith)
decide_replay-Decides env build cursor id h l nothing e q = ground arith

Shows-Replays :
    (budget : ℕ) (sent : List Bytes) (seq generation : ℕ) (r : ReadSinceResult) (told : Replay)
    → Decides r told
    → Replays budget sent seq r
    → Shows budget sent seq generation told (replay_calls generation told)
Shows-Replays budget sent seq generation (delta chunks) told d v =
    rw d (v.0, ap (frames generation) v.1)
Shows-Replays budget sent seq generation full told d v = rw d.1 v
Shows-Replays budget sent seq generation nothing told d v = rw d (v, refl)

-- The answer of an attach, as the socket sends it.
abbrev pub Answers : ℕ → List Bytes → ℕ → ℕ → AttachResult → Relay → Type 0
Answers budget sent seq generation (attached_with r) s =
    (rest : List AttachCall) × ((attach_binary_client true (attached_with r) s).1
      ≡ send_init_ack r.capabilities r.server_state r.replay ∷ rest)
    × Shows budget sent seq generation r.replay rest
Answers budget sent seq generation _ s = ⊥

-- A client that comes back with the cursor `seq` of the current generation of a running session, and negotiates the
-- replay in chunks, is sent the acknowledgement and then: nothing, if it has seen all that the rings' history holds of its PTY; else
-- the output frames of exactly the chunks it has missed, in order, under their sequence numbers and generation; or a
-- full replay, the latter only if what it has missed is over the memory budget.
pub attach_chunk_client-Answers :
    (env : Surroundings) (build : Bytes → Bytes) (has_on_exit : Bool) (id client_id : String)
    (m : ManagedSession) (h : Host) (l : ScrollbackLog) (hs : Histories) (sent : List Bytes)
    (seq : ℕ) (s : Relay)
    → h.scrollback_log ≡ some l
    → Represents l.memory hs
    → hs id ≡ some (record { generation = m.current_generation; sent = sent })
    → Answers l.memory.in_memory_budget sent seq m.current_generation
        (attach_chunk_client env build has_on_exit id client_id
          (record {
            binary = true;
            chunked_replay = true;
            last_seen = some (record { generation = m.current_generation; seq = seq });
          })
          m
          h).1
        s
unfolding attach_chunk_client attach_binary_client negotiate
attach_chunk_client-Answers env build has_on_exit id client_id m h l hs sent seq s logged v e = (
  _,
  refl,
  Shows-Replays l.memory.in_memory_budget sent seq m.current_generation _ _ decided replays,
)
  where
    cursor : Cursor
    cursor = record { generation = m.current_generation; seq = seq }

    decided :
        Decides
          (read_since l.memory id (some cursor))
          (decide_replay env build all_capabilities (some cursor) id h).1
    decided = decide_replay-Decides env build cursor id h l _ logged refl

    replays : Replays l.memory.in_memory_budget sent seq (read_since l.memory id (some cursor))
    replays =
        let same : (m.current_generation == m.current_generation) ≡ true = ground arith in
        let served : Serves l.memory.in_memory_budget (hs id) (some cursor)
            (read_since l.memory id (some cursor)) =
          read_since-Serves l.memory hs id (some cursor) v in
        rw (e, same) at served

written :
    (hs : Histories) (id : String) (generation : ℕ) (sent : List Bytes) (batch : Bytes)
    → hs id ≡ some (record { generation = generation; sent = sent })
    → write hs id (some (extended (hs id) generation batch)) id
      ≡ some (record { generation = generation; sent = sent ++ batch ∷ [] })
written hs id generation sent batch e =
    let same : (generation == generation) ≡ true = ground arith in rw (equals_self id, e, same)

pub attach_chunk_client-flush :
    (env env' : Surroundings) (build : Bytes → Bytes) (has_on_exit : Bool) (id client_id : String)
    (m : ManagedSession) (h : Host) (l : ScrollbackLog) (hs : Histories) (sent : List Bytes)
    (batch : Bytes) (seq : ℕ) (s : Relay)
    → lookup id h.sessions ≡ some m
    → h.scrollback_log ≡ some l
    → Represents l.memory hs
    → hs id ≡ some (record { generation = m.current_generation; sent = sent })
    → has_chunk_client m.attached_clients ≡ true
    → Answers l.memory.in_memory_budget
        (sent ++ batch ∷ [])
        seq
        m.current_generation
        (attach_chunk_client env' build has_on_exit id client_id
          (record {
            binary = true;
            chunked_replay = true;
            last_seen = some (record { generation = m.current_generation; seq = seq });
          })
          m
          (flush env id m.current_generation batch h).0).1
        s
attach_chunk_client-flush env env' build has_on_exit id client_id m h l hs sent batch seq s held
      logged v e c =
    let (l', logged', v', same, disk) = flush-Represents env id h m l held logged batch hs v c in
    rw (← same) (
      attach_chunk_client-Answers env' build has_on_exit id client_id m
        (flush env id m.current_generation batch h).0 l'
        (write hs id (some (extended (hs id) m.current_generation batch))) (sent ++ batch ∷ []) seq
        s logged' v' (written hs id m.current_generation sent batch e))
