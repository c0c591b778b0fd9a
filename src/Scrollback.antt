-- ===== src/Scrollback.antt =====
-- packages/server/src/pty/scrollback-log.ts: the in-memory chunk rings of class `ScrollbackLog`, from
-- which a client that reconnects is served. A `bigint` comparison with `x - 1n` is written with `+ 1`
-- on the other side.
pub mod Evict
pub mod Represents
pub mod Replay
pub mod Disk
pub mod Tail
mod DiskTests
mod Tests
use parasor.Base.Bytes.{Bytes}
use parasor.Base.Classes.{string_eq}
use parasor.Base.Map.{lookup, insert, erase}
use parasor.Base.{
  ℕ, zero, suc, ◌+◌, ◌-◌, Option, none, some, List, [], ◌∷◌, ◌++◌, String, ltb, leb, ◌==◌, not,
  if◌then◌else◌, length, drop,
}

pub record ChunkRecord : Type 0 where
  pub seq : ℕ
  pub content : Bytes

pub record ChunkRing : Type 0 where
  pub generation : ℕ
  pub next_seq : ℕ
  pub chunks : List ChunkRecord
  pub total_bytes : ℕ

pub record Cursor : Type 0 where
  pub generation : ℕ
  pub seq : ℕ

pub data ReadSinceResult : Type 0 where
  delta : List ChunkRecord → ReadSinceResult
  full nothing : ReadSinceResult

-- The fields of `ScrollbackLog` that the rings use.
pub record ChunkLog : Type 0 where
  pub in_memory_budget : ℕ
  pub rings : List (String × ChunkRing)

abbrev pub empty_ring : ℕ → ChunkRing
empty_ring generation = record {
  generation = generation;
  next_seq = 0;
  chunks = [];
  total_bytes = 0;
}

-- The `while` loop: the oldest chunks go while the ring is over its budget and has more than one.
unfoldable pub evict : ℕ → ChunkRing → List ChunkRecord → ℕ → ChunkRing
evict budget r [] total = record r { chunks = []; total_bytes = total }
evict budget r (c ∷ []) total = record r { chunks = c ∷ []; total_bytes = total }
evict budget r (c ∷ d ∷ rest) total =
    let shifted = evict budget r (d ∷ rest) (total - length c.content) in
    if ltb budget total then shifted else record r { chunks = c ∷ d ∷ rest; total_bytes = total }

unfoldable pub append_to_ring : ℕ → ChunkRing → Bytes → ChunkRing
append_to_ring budget r content =
    evict budget (record r { next_seq = r.next_seq + 1 })
      (r.chunks ++ record { seq = r.next_seq; content = content } ∷ [])
      (r.total_bytes + length content)

-- The ring that `appendChunk` writes to: the session's, unless it is missing or of another generation.
unfoldable pub current_ring : Option ChunkRing → ℕ → ChunkRing
current_ring none generation = empty_ring generation
current_ring (some r) generation =
    if not (r.generation == generation) then empty_ring generation else r

unfoldable pub append_chunk : ChunkLog → String → ℕ → Bytes → ChunkLog × ℕ
append_chunk log session_id generation content =
    let ring = current_ring (lookup session_id log.rings) generation in
    (
      record log {
        rings = insert session_id (append_to_ring log.in_memory_budget ring content) log.rings;
      },
      ring.next_seq,
    )

unfoldable pub bump_generation : ChunkLog → String → ℕ → ChunkLog
bump_generation log session_id generation = record log {
  rings = insert session_id (empty_ring generation) log.rings;
}

-- The part of `remove` that concerns the rings.
unfoldable pub remove_ring : ChunkLog → String → ChunkLog
remove_ring log session_id = record log { rings = erase session_id log.rings }

-- `chunks.findIndex((c) => c.seq > seq)`
unfoldable pub find_after : ℕ → List ChunkRecord → Option ℕ
find_after seq [] = none
find_after seq (c ∷ cs) =
    let rest = find_after seq cs in
    if ltb seq c.seq then some 0 else elim rest [ none ↦ none | some i ↦ some (suc i) ]

unfoldable pub slice_from : Option ℕ → List ChunkRecord → ReadSinceResult
slice_from none cs = nothing
slice_from (some start) cs = delta (drop start cs)

-- `readSince` on a ring of the cursor's generation.
unfoldable pub read_ring : List ChunkRecord → ℕ → ℕ → ReadSinceResult
unfolding find_after slice_from
read_ring [] next_seq seq = nothing
read_ring (c ∷ cs) next_seq seq =
    if leb next_seq (seq + 1)
    then nothing
    else if ltb (seq + 1) c.seq
    then full
    else slice_from (find_after seq (c ∷ cs)) (c ∷ cs)

unfoldable pub read_since : ChunkLog → String → Option Cursor → ReadSinceResult
unfolding read_ring
read_since log session_id last_seen = elim (lookup session_id log.rings) [
  | none ↦ elim last_seen [ none ↦ nothing | some cursor ↦ full ]
  | some r ↦ elim last_seen [
    | none ↦ nothing
    | some cursor ↦
        if not (cursor.generation == r.generation)
        then full
        else read_ring r.chunks r.next_seq cursor.seq
  ]
]

pub record RingState : Type 0 where
  pub generation : ℕ
  pub last_delivered_seq : Option ℕ
  pub oldest_seq : Option ℕ

abbrev ring_summary : ChunkRing → List ChunkRecord → RingState
ring_summary r [] = record {
  generation = r.generation;
  last_delivered_seq = none;
  oldest_seq = none;
}
ring_summary r (c ∷ cs) = record {
  generation = r.generation;
  last_delivered_seq = some (r.next_seq - 1);
  oldest_seq = some c.seq;
}

unfoldable pub ring_state : ChunkLog → String → ℕ → RingState
ring_state log session_id fallback = elim (lookup session_id log.rings) [
  | none ↦ record { generation = fallback; last_delivered_seq = none; oldest_seq = none }
  | some r ↦ ring_summary r r.chunks
]
