-- ===== src/InProcessHost/Residue.antt =====
-- What the handlers of a PTY do after its session was disposed of.
use parasor.Base.Bytes.{Bytes}
use parasor.Base.Classes.{string_eq, equals_self}
use parasor.Base.Keyed.{remove_by}
use parasor.Base.Map.{lookup, insert, erase, lookup-insert_self, lookup-erase}
use parasor.Base.{
  ℕ, ◌+◌, ◌≡◌, refl, ap, ◌∙◌, inl, inr, true, Option, none, some, [], ◌∷◌, ◌++◌, String,
  if◌then◌else◌, Bool, arith, ◌==◌, leb, length, Bool-cases,
}
use parasor.InProcessHost.Lifecycle.{dispose, disposed_session, log_remove}
use parasor.InProcessHost.Output.{flush, held_session, has_chunk_client}
use parasor.InProcessHost.{
  ManagedSession, ScrollbackLog, Host, Surroundings, is_some, session_key, record_key,
}
use parasor.Scrollback.Disk.{
  FileSystem, DiskLog, PendingBuffer, append, flush_session, flush_pending, store, no_pending,
  pending_or_new, flush_threshold_bytes, remove_file,
}
use parasor.Scrollback.{ChunkLog, append_chunk, remove_ring}

buffers-store :
    (id : String) (file : Option Bytes) (log : DiskLog) → (store id file log).buffers ≡ log.buffers
buffers-store id none log = refl
buffers-store id (some bytes) log = refl

-- A write of a session's pending bytes leaves it a buffer.
flush_pending-buffered :
    (fs : FileSystem) (id : String) (log : DiskLog) (pending : Option PendingBuffer)
    → is_some (lookup id log.buffers) ≡ true
    → is_some (lookup id (flush_pending fs id log pending).buffers) ≡ true
flush_pending-buffered fs id log none b = b
flush_pending-buffered fs id log (some pending) b = elim (Bool-cases (length pending.chunks == 0)) [
  | inl e ↦ rw e b
  | inr e ↦ rw (
    e,
    buffers-store id _ (record log { buffers = insert id no_pending log.buffers }),
    lookup-insert_self id no_pending log.buffers,
  )
]

flush_session-buffered :
    (fs : FileSystem) (id : String) (log : DiskLog) (pending : PendingBuffer)
    → is_some (
        lookup id
          (flush_session fs id (record log { buffers = insert id pending log.buffers })).buffers)
      ≡ true
unfolding flush_session
flush_session-buffered fs id log pending =
    flush_pending-buffered fs id (record log { buffers = insert id pending log.buffers })
      (lookup id (insert id pending log.buffers))
      (ap is_some (lookup-insert_self id pending log.buffers))

-- After `append` the session has a buffer.
append-buffered :
    (fs : FileSystem) (id : String) (bytes : Bytes) (log : DiskLog)
    → is_some (lookup id (append fs id bytes log).buffers) ≡ true
unfolding append
append-buffered fs id bytes log =
    let pending = pending_or_new (lookup id log.buffers) in
    elim (Bool-cases (leb flush_threshold_bytes (pending.size + length bytes))) [
      | inl e ↦ rw e (
          flush_session-buffered fs id log (record {
            chunks = pending.chunks ++ bytes ∷ [];
            size = pending.size + length bytes;
            timer = pending.timer;
          }))
      | inr e ↦ rw e (
          ap is_some (
            lookup-insert_self id
              (record {
                chunks = pending.chunks ++ bytes ∷ [];
                size = pending.size + length bytes;
                timer = true;
              })
              log.buffers))
    ]

-- The log of chunks after a flush, which keeps the batch if a chunk client is attached.
abbrev kept_chunks : Bool → String → ℕ → Bytes → ChunkLog → ChunkLog
kept_chunks wanted id generation batch memory =
    if wanted then (append_chunk memory id generation batch).0 else memory

-- A flush for a session that is gone goes by the object that its handlers hold.
flush-held :
    (env : Surroundings) (id : String) (h : Host) (m : ManagedSession) (l : ScrollbackLog)
    (generation : ℕ) (batch : Bytes)
    → lookup id h.sessions ≡ none
    → lookup id h.disposed ≡ some m
    → h.scrollback_log ≡ some l
    → m.current_generation ≡ generation
    → (flush env id generation batch h).0.scrollback_log
      ≡ some (record {
        memory = kept_chunks (has_chunk_client m.attached_clients) id generation batch l.memory;
        disk = append env.fs id batch l.disk;
      })
unfolding flush held_session
flush-held env id h m l generation batch gone held logged g =
    elim (Bool-cases (has_chunk_client m.attached_clients)) [
      | inl c ↦ rw c (ground arith)
      | inr c ↦ rw c (ground arith)
    ]

disposed_generation :
    (m : ManagedSession) → (disposed_session m).current_generation ≡ m.current_generation
disposed_generation m = ground arith

disposed_clients : (m : ManagedSession) → (disposed_session m).attached_clients ≡ m.attached_clients
disposed_clients m = ground arith

dispose_held :
    (env : Surroundings) (id : String) (h : Host) (m : ManagedSession)
    → lookup id h.sessions ≡ some m
    → (dispose env id h).0
      ≡ log_remove env.fs id (record h {
        sessions = erase id h.sessions;
        disposed = insert id (disposed_session m) h.disposed;
        stored_sessions = remove_by session_key id h.stored_sessions;
        stored_records = remove_by record_key id h.stored_records;
      })
unfolding dispose
dispose_held env id h m held = rw (held, dispose) refl

-- When a session is disposed of, its scrollback is removed; but output of its PTY that was still to be flushed, or that
-- comes before the process has died, is logged anew under the identifier of the session that is gone: always on the disk's
-- side, which so has a buffer for it again, and among the chunks too if a chunk client was attached.
pub flush-dispose :
    (env : Surroundings) (id : String) (h : Host) (m : ManagedSession) (l : ScrollbackLog)
    (batch : Bytes)
    → lookup id h.sessions ≡ some m
    → h.scrollback_log ≡ some l
    → (lookup id (dispose env id h).0.sessions ≡ none)
      × ((dispose env id h).0.scrollback_log
          ≡ some (record { memory = remove_ring l.memory id; disk = remove_file env.fs id l.disk }))
      × ((flush env id m.current_generation batch (dispose env id h).0).0.scrollback_log
          ≡ some (record {
            memory =
                if has_chunk_client m.attached_clients
                then (append_chunk (remove_ring l.memory id) id m.current_generation batch).0
                else remove_ring l.memory id;
            disk = append env.fs id batch (remove_file env.fs id l.disk);
          }))
      × (is_some (lookup id (append env.fs id batch (remove_file env.fs id l.disk)).buffers) ≡ true)
unfolding dispose
flush-dispose env id h m l batch held logged = (
  gone,
  logged',
  flush-held env id (dispose env id h).0 (disposed_session m)
        (record { memory = remove_ring l.memory id; disk = remove_file env.fs id l.disk })
        m.current_generation batch gone kept logged' (disposed_generation m)
      ∙ rw (disposed_clients m) refl,
  append-buffered env.fs id batch (remove_file env.fs id l.disk),
)
  where
    gone : lookup id (dispose env id h).0.sessions ≡ none
    gone =
        ap (λ (g : Host). lookup id g.sessions) (dispose_held env id h m held)
        ∙ rw (lookup-erase id id h.sessions, equals_self id)

    kept : lookup id (dispose env id h).0.disposed ≡ some (disposed_session m)
    kept =
        ap (λ (g : Host). lookup id g.disposed) (dispose_held env id h m held)
        ∙ lookup-insert_self id (disposed_session m) h.disposed

    logged' :
        (dispose env id h).0.scrollback_log
        ≡ some (record { memory = remove_ring l.memory id; disk = remove_file env.fs id l.disk })
    logged' = ap (λ (g : Host). g.scrollback_log) (dispose_held env id h m held) ∙ rw logged refl
