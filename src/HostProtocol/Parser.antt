-- ===== src/HostProtocol/Parser.antt =====
-- packages/server/src/pty/host-protocol/frames.ts: class `FrameParser`. A method returns the new
-- parser beside its result.
mod Split
pub mod TakeOne
pub mod Drain
pub mod Chunks
pub mod RoundTrip
pub mod Limits
use parasor.Base.Bytes.{Bytes, read_u8, read_u32, read_u64}
use parasor.Base.Int.{pos}
use parasor.Base.{
  ℕ, zero, suc, ◌+◌, ◌-◌, Bool, Option, none, some, List, [], ◌∷◌, ◌++◌, ltb, ◌==◌, if◌then◌else◌,
  length, take, drop, flatten,
}
use parasor.HostProtocol.Frame.{
  ErrorCode, frame_too_large, frame_invalid, Result, ok, err, range_error, Frame,
  frame_header_bytes, max_payload_bytes,
}

pub record FrameParser : Type 0 where
  pub chunks : List Bytes
  pub size : ℕ

abbrev pub new_parser : FrameParser
new_parser = record { chunks = []; size = 0 }

pub buffered_bytes : FrameParser → ℕ
buffered_bytes p = p.size

-- `Buffer.concat(list, n)`: cut at `n` bytes, or filled up with zeros.
pub fill : ℕ → Bytes → Bytes
fill zero b = []
fill (suc n) [] = 0 ∷ fill n []
fill (suc n) (x ∷ b) = x ∷ fill n b

-- Whether `chunks.length === 1` decides; the buffer is what `takeOne` works on.
unfoldable pub merge : List Bytes → ℕ → Bytes
merge (b ∷ []) n = b
merge bs n = fill n (flatten bs)

unfoldable pub materialize : FrameParser → FrameParser × Bytes
unfolding merge
materialize p = let merged = merge p.chunks p.size in (record p { chunks = merged ∷ [] }, merged)

-- `Frame | null`
abbrev Taken : Type 0
Taken = Result (Option Frame)

-- The frame at the front of a buffer that holds all of it.
unfoldable pub read_frame : Bytes → ℕ → Result Frame
read_frame buf total = elim (read_u8 buf 4) [
  | none ↦ range_error
  | some type ↦ elim (read_u32 buf 5) [
    | none ↦ range_error
    | some connection_id ↦ elim (read_u64 buf 9) [
      | none ↦ range_error
      | some generation ↦ elim (read_u32 buf 17) [
        | none ↦ range_error
        | some request_id ↦ ok (record {
          type = pos type;
          connection_id = pos connection_id;
          generation = pos generation;
          request_id = pos request_id;
          payload = drop 21 (take (4 + total) buf);
        })
      ]
    ]
  ]
]

-- What `takeOne` leaves behind a frame.
abbrev remaining : Bytes → FrameParser
remaining [] = record { chunks = []; size = 0 }
remaining (x ∷ rest) = record { chunks = (x ∷ rest) ∷ []; size = length (x ∷ rest) }

abbrev deliver : FrameParser → Result Frame → FrameParser → FrameParser × Taken
deliver p (ok f) q = (q, ok (some f))
deliver p (err e) q = (p, err e)
deliver p range_error q = (p, range_error)

-- `takeOne` behind the read of the length.
unfoldable pub take_body : FrameParser → Bytes → ℕ → FrameParser × Taken
take_body p buf total =
    if ltb total frame_header_bytes
    then (p, err frame_invalid)
    else if ltb max_payload_bytes (total - frame_header_bytes)
    then (p, err frame_too_large)
    else if ltb (length buf) (4 + total)
    then (p, ok none)
    else deliver p (read_frame buf total) (remaining (drop (4 + total) buf))

-- `takeOne` behind `materialize`.
unfoldable pub take_merged : FrameParser × Bytes → FrameParser × Taken
take_merged (p, buf) = elim (read_u32 buf 0) [
  | none ↦ (p, range_error)
  | some total ↦ take_body p buf total
]

unfoldable pub take_one : FrameParser → FrameParser × Taken
take_one p = if ltb p.size 4 then (p, ok none) else take_merged (materialize p)

-- What `push` ends with. `out_of_fuel` stands for a loop that goes on.
pub data Pushed : Type 0 where
  frames : List Frame → Pushed
  throws : ErrorCode → Pushed
  throws_range_error : Pushed
  out_of_fuel : Pushed

abbrev prepend : Frame → FrameParser × Pushed → FrameParser × Pushed
prepend f (p, frames fs) = (p, frames (f ∷ fs))
prepend f (p, throws e) = (p, throws e)
prepend f (p, throws_range_error) = (p, throws_range_error)
prepend f (p, out_of_fuel) = (p, out_of_fuel)

-- The `for (;;)` loop: the frames read before an exception are lost with it.
unfoldable pub drain : ℕ → FrameParser → FrameParser × Pushed
drain zero p = (p, out_of_fuel)
drain (suc fuel) p =
    let (q, taken) = take_one p in
    elim taken [
      | err e ↦ (q, throws e)
      | range_error ↦ (q, throws_range_error)
      | ok none ↦ (q, frames [])
      | ok (some f) ↦ prepend f (drain fuel q)
    ]

unfoldable pub push : FrameParser → Bytes → FrameParser × Pushed
push p [] = (p, frames [])
push p (x ∷ chunk) =
    let q : FrameParser = record {
      chunks = p.chunks ++ (x ∷ chunk) ∷ [];
      size = p.size + length (x ∷ chunk);
    } in
    drain (q.size + 1) q
