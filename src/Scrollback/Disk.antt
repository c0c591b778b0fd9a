-- ===== src/Scrollback/Disk.antt =====
-- packages/server/src/pty/scrollback-log.ts: the part of `ScrollbackLog` that is on disk. A file is
-- named by its session, and what the file system refuses is an argument.
use parasor.Base.Bytes.{Bytes}
use parasor.Base.Classes.{string_eq}
use parasor.Base.Map.{lookup, insert, erase}
use parasor.Base.{
  ℕ, zero, suc, ◌+◌, ◌-◌, ◌*◌, ◌/◌, Bool, true, false, not, Option, none, some, List, [], ◌∷◌, ◌++◌,
  String, leb, if◌then◌else◌, length, drop, flatten, ◌==◌,
}
use parasor.HostProtocol.Parser.{fill}

abbrev pub flush_threshold_bytes : ℕ
flush_threshold_bytes = 64 * 1024

pub record PendingBuffer : Type 0 where
  pub chunks : List Bytes
  pub size : ℕ
  pub timer : Bool

pub record DiskLog : Type 0 where
  pub max_bytes : ℕ
  pub tail_bytes : ℕ
  pub buffers : List (String × PendingBuffer)
  pub files : List (String × Bytes)

-- Which calls of the file system work: the append, the stat, the rewrite with its rename, the truncation, the
-- read of a whole file, the removal.
pub record FileSystem : Type 0 where
  pub appends : Bool
  pub stats : Bool
  pub rewrites : Bool
  pub truncates : Bool
  pub reads : Bool
  pub unlinks : Bool

abbrev pub no_pending : PendingBuffer
no_pending = record { chunks = []; size = 0; timer = false }

abbrev pub content : Option Bytes → Bytes
content none = []
content (some bytes) = bytes

-- `rotateIfNeeded`, on the file's bytes.
unfoldable pub rotate : FileSystem → ℕ → ℕ → Bytes → Bytes
rotate fs max_bytes tail_bytes file =
    if not fs.stats
    then file
    else if leb (length file) max_bytes
    then file
    else if fs.rewrites
    then drop (length file - tail_bytes) file
    else if fs.truncates
    then []
    else file

-- The write of a flush, whose bytes are `Buffer.concat(chunks, size)`; `openSync` with "a" makes the file.
abbrev pub appended : FileSystem → Option Bytes → Bytes → Option Bytes
appended fs file merged = if fs.appends then some (content file ++ merged) else file

abbrev pub rotated : FileSystem → DiskLog → Option Bytes → Option Bytes
rotated fs log none = none
rotated fs log (some file) = some (rotate fs log.max_bytes log.tail_bytes file)

abbrev pub store : String → Option Bytes → DiskLog → DiskLog
store session_id none log = log
store session_id (some file) log = record log { files = insert session_id file log.files }

abbrev pub write_out : FileSystem → String → PendingBuffer → DiskLog → DiskLog
write_out fs session_id pending log =
    store session_id
      (rotated fs log
        (appended fs (lookup session_id log.files) (fill pending.size (flatten pending.chunks))))
      (record log { buffers = insert session_id no_pending log.buffers })

-- `if (!pending || pending.chunks.length === 0) return;`
abbrev pub flush_pending : FileSystem → String → DiskLog → Option PendingBuffer → DiskLog
flush_pending fs session_id log none = log
flush_pending fs session_id log (some pending) =
    if length pending.chunks == 0 then log else write_out fs session_id pending log

unfoldable pub flush_session : FileSystem → String → DiskLog → DiskLog
flush_session fs session_id log = flush_pending fs session_id log (lookup session_id log.buffers)

abbrev pub pending_or_new : Option PendingBuffer → PendingBuffer
pending_or_new none = no_pending
pending_or_new (some pending) = pending

-- `append`, of the text's bytes. The timer calls `flushSession`.
unfoldable pub append : FileSystem → String → Bytes → DiskLog → DiskLog
append fs session_id buf log =
    let pending = pending_or_new (lookup session_id log.buffers) in
    let size = pending.size + length buf in
    let chunks = pending.chunks ++ buf ∷ [] in
    if leb flush_threshold_bytes size
    then flush_session fs session_id (record log {
      buffers =
          insert session_id (record { chunks = chunks; size = size; timer = pending.timer })
            log.buffers;
    })
    else record log {
      buffers =
          insert session_id (record { chunks = chunks; size = size; timer = true }) log.buffers;
    }

-- The loop of `flushAll` over the sessions.
unfoldable pub flush_each : FileSystem → List (String × PendingBuffer) → DiskLog → DiskLog
flush_each fs [] log = log
flush_each fs ((id, pending) ∷ rest) log = flush_each fs rest (flush_session fs id log)

unfoldable pub flush_all : FileSystem → DiskLog → DiskLog
flush_all fs log = flush_each fs log.buffers log

-- `(byte & 0xc0) === 0x80`
abbrev pub is_continuation : ℕ → Bool
is_continuation byte = byte / 64 == 2

-- `decodeFromUtf8Boundary`: the scan, of at most so many bytes.
unfoldable pub skip_continuation : ℕ → Bytes → Bytes
skip_continuation zero slice = slice
skip_continuation (suc n) [] = []
skip_continuation (suc n) (byte ∷ rest) =
    let skipped = skip_continuation n rest in if is_continuation byte then skipped else byte ∷ rest

abbrev pub tail_of : ℕ → Bytes → Bytes
tail_of tail_bytes file =
    if leb (length file) tail_bytes
    then file
    else skip_continuation 3 (drop (length file - tail_bytes) file)

-- The bytes that `readTail` decodes, none where the file cannot be read.
unfoldable pub read_tail : FileSystem → String → DiskLog → DiskLog × Bytes
read_tail fs session_id log =
    let log' = flush_session fs session_id log in
    (log', if fs.reads then tail_of log.tail_bytes (content (lookup session_id log'.files)) else [])

-- The part of `remove` that concerns the buffer and the file, which stays where it cannot be unlinked.
unfoldable pub remove_file : FileSystem → String → DiskLog → DiskLog
remove_file fs session_id log = record log {
  buffers = erase session_id log.buffers;
  files = if fs.unlinks then erase session_id log.files else log.files;
}
