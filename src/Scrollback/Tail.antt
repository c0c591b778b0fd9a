-- ===== src/Scrollback/Tail.antt =====
-- What a client is shown of the log on disk.
use parasor.Base.Bytes.{Bytes}
use parasor.Base.Classes.{string_eq, equals_self}
use parasor.Base.Map.{lookup, insert, lookup-insert}
use parasor.Base.{
  ℕ, zero, suc, ◌+◌, ◌-◌, ◌≡◌, ◌≤◌, ◌<◌, refl, sym, ap, ◌∙◌, true, Option, some, List, [], ◌∷◌,
  ◌++◌, String, arith, length, drop, flatten, length-drop, drop_add, inl, inr, Bool-cases, leb,
}
use parasor.HostProtocol.Parser.TakeOne.{fill-length}
use parasor.HostProtocol.Parser.{fill}
use parasor.Scrollback.Disk.{
  PendingBuffer, DiskLog, FileSystem, content, rotate, write_out, flush_session, skip_continuation,
  is_continuation, tail_of, read_tail,
}

abbrev pub working : FileSystem
working = record {
  appends = true;
  stats = true;
  rewrites = true;
  truncates = true;
  reads = true;
  unlinks = true;
}

-- The number of continuation bytes that are skipped.
skipped : (n : ℕ) (b : Bytes) → (k : ℕ) × (k ≤ n × (skip_continuation n b ≡ drop k b))
unfolding skip_continuation
skipped zero b = (0, (omega arith, refl))
skipped (suc n) [] = (0, (omega arith, refl))
skipped (suc n) (x ∷ b) = elim (Bool-cases (is_continuation x)) [
  | inl e ↦ let (k, (l, h)) = skipped n b in (suc k, (omega (arith, l), rw e h))
  | inr e ↦ (0, (omega arith, rw e refl))
]

-- The end of a stream of bytes: all of it if it fits, else cut where it fits or at most three bytes later.
pub record IsTail (tail_bytes : ℕ) (stream shown : Bytes) : Type 0 where
  pub cut : ℕ
  pub shows : shown ≡ drop cut stream
  pub fits : length stream - tail_bytes ≤ cut
  pub near : cut ≤ (length stream - tail_bytes) + 3
  pub whole : length stream ≤ tail_bytes → cut ≡ 0

-- A read that skips some bytes of what it cut.
skipped-IsTail :
    (tail_bytes : ℕ) (b : Bytes)
    → tail_bytes < length b
    → IsTail tail_bytes b (skip_continuation 3 (drop (length b - tail_bytes) b))
skipped-IsTail tail_bytes b l =
    let (k, (n, h)) = skipped 3 (drop (length b - tail_bytes) b) in
    record {
      cut = length b - tail_bytes + k;
      shows = h ∙ sym (drop_add (length b - tail_bytes) k b);
      fits = omega arith;
      near = omega (arith, n);
      whole = λ f. absurd (omega (arith, l, f));
    }

tail_of-IsTail : (tail_bytes : ℕ) (b : Bytes) → IsTail tail_bytes b (tail_of tail_bytes b)
tail_of-IsTail tail_bytes b = elim (Bool-cases (leb (length b) tail_bytes)) [
  | inl e ↦
      rw e (record {
        cut = 0;
        shows = refl;
        fits = ground arith;
        near = omega arith;
        whole = λ f. refl;
      })
  | inr e ↦ rw e (skipped-IsTail tail_bytes b (ground arith))
]

-- A file that was cut to the tail is shown as it is.
cut_tail :
    (tail_bytes : ℕ) (b : Bytes)
    → tail_bytes ≤ length b
    → tail_of tail_bytes (drop (length b - tail_bytes) b) ≡ drop (length b - tail_bytes) b
cut_tail tail_bytes b l = ground (arith, length-drop (length b - tail_bytes) b)

rotate_long :
    (max_bytes tail_bytes : ℕ) (b : Bytes)
    → max_bytes < length b
    → rotate working max_bytes tail_bytes b ≡ drop (length b - tail_bytes) b
unfolding rotate
rotate_long max_bytes tail_bytes b l = ground arith

rotate_short :
    (max_bytes tail_bytes : ℕ) (b : Bytes)
    → length b ≤ max_bytes
    → rotate working max_bytes tail_bytes b ≡ b
unfolding rotate
rotate_short max_bytes tail_bytes b l = ground arith

rotate-IsTail :
    (max_bytes tail_bytes : ℕ) (b : Bytes)
    → tail_bytes ≤ max_bytes
    → IsTail tail_bytes b (tail_of tail_bytes (rotate working max_bytes tail_bytes b))
rotate-IsTail max_bytes tail_bytes b l = elim (Bool-cases (leb (length b) max_bytes)) [
  | inl e ↦ rw (rotate_short max_bytes tail_bytes b (ground arith)) (tail_of-IsTail tail_bytes b)
  | inr e ↦
      rw (rotate_long max_bytes tail_bytes b (ground arith), cut_tail tail_bytes b (ground arith))
        (record {
          cut = length b - tail_bytes;
          shows = refl;
          fits = omega arith;
          near = omega arith;
          whole = λ f. omega (arith, f);
        })
]

-- All that was logged of a session and is not yet cut off: the file, then what is pending.
abbrev pub logged : Option Bytes → PendingBuffer → Bytes
logged file pending = content file ++ flatten pending.chunks

-- A pending buffer whose size is that of its chunks, and that is flushed.
pub record IsPending (session_id : String) (log : DiskLog) (pending : PendingBuffer) : Type 0 where
  pub here : lookup session_id log.buffers ≡ some pending
  pub sized : pending.size ≡ length (flatten pending.chunks)
  pub full : 0 < length pending.chunks

flush-write_out :
    (fs : FileSystem) (session_id : String) (log : DiskLog) (pending : PendingBuffer)
    → IsPending session_id log pending
    → flush_session fs session_id log ≡ write_out fs session_id pending log
unfolding flush_session
flush-write_out fs session_id log pending v = rw v.here (ground (arith, v.full))

stored :
    (session_id : String) (b : Bytes) (files : List (String × Bytes))
    → lookup session_id (insert session_id b files) ≡ some b
stored session_id b files = rw (lookup-insert session_id session_id b files, equals_self session_id)

written :
    (session_id : String) (log : DiskLog) (pending : PendingBuffer)
    → IsPending session_id log pending
    → content (lookup session_id (write_out working session_id pending log).files)
      ≡ rotate working log.max_bytes log.tail_bytes (logged (lookup session_id log.files) pending)
written session_id log pending v =
    ap content (stored session_id _ log.files)
    ∙ ap
        (λ b.
          rotate working log.max_bytes log.tail_bytes (content (lookup session_id log.files) ++ b))
        (ap (λ n. fill n (flatten pending.chunks)) v.sized ∙ fill-length (flatten pending.chunks))

-- Where the file system works and the tail's size is at most the file's, `readTail` flushes what is pending
-- and shows the end of all that was logged: everything if it fits the tail, else without what does not
-- fit and at most three bytes more.
read_tail-IsTail :
    (session_id : String) (log : DiskLog) (pending : PendingBuffer)
    → IsPending session_id log pending
    → log.tail_bytes ≤ log.max_bytes
    → IsTail log.tail_bytes
        (logged (lookup session_id log.files) pending)
        (read_tail working session_id log).1
unfolding read_tail
read_tail-IsTail session_id log pending v l =
    rw (flush-write_out working session_id log pending v, written session_id log pending v)
      (rotate-IsTail log.max_bytes log.tail_bytes (logged (lookup session_id log.files) pending) l)

-- When the flush cuts the file, `readTail` shows the bytes from where they were cut, also if that is within a
-- character: no continuation byte is skipped.
pub read_tail_cut :
    (session_id : String) (log : DiskLog) (pending : PendingBuffer)
    → IsPending session_id log pending
    → log.tail_bytes ≤ log.max_bytes
    → log.max_bytes < length (logged (lookup session_id log.files) pending)
    → (read_tail working session_id log).1
      ≡ drop
          (length (logged (lookup session_id log.files) pending) - log.tail_bytes)
          (logged (lookup session_id log.files) pending)
unfolding read_tail
read_tail_cut session_id log pending v l long =
    let b = logged (lookup session_id log.files) pending in
    rw
      (
        flush-write_out working session_id log pending v,
        written session_id log pending v,
        rotate_long log.max_bytes log.tail_bytes b long,
      )
      (cut_tail log.tail_bytes b (omega (arith, l, long)))
