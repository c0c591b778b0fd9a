-- ===== src/HostProtocol/Parser/Split.antt =====
-- The abstract view of `takeOne` on the bytes buffered so far, and that `takeOne` implements it.
use parasor.Base.Bytes.{
  Bytes, read_u32, read_u8-total, read_u32-total, read_u64-total, read_u32-none,
}
use parasor.Base.Int.{pos}
use parasor.Base.{
  ℕ, ◌+◌, ◌-◌, ◌≤◌, ◌<◌, ◌≡◌, inl, inr, none, some, [], ◌++◌, arith, ltb, if◌then◌else◌, length,
  take, drop, take_append, Bool-cases,
}
use parasor.HostProtocol.Frame.{
  ErrorCode, frame_too_large, frame_invalid, Result, ok, Frame, frame_header_bytes,
  max_payload_bytes,
}
use parasor.HostProtocol.Parser.{read_frame}

-- What stands at the front of a byte stream.
pub data Piece : Type 0 where
  incomplete : Piece
  taken : Frame → Bytes → Piece
  failed : ErrorCode → Piece

abbrev pub piece_of : Result Frame → Bytes → Piece
piece_of (ok f) rest = taken f rest
piece_of _ rest = incomplete

abbrev pub split_at : Bytes → ℕ → Piece
split_at b total =
    if ltb total frame_header_bytes
    then failed frame_invalid
    else if ltb max_payload_bytes (total - frame_header_bytes)
    then failed frame_too_large
    else if ltb (length b) (4 + total)
    then incomplete
    else piece_of (read_frame b total) (drop (4 + total) b)

unfoldable pub split : Bytes → Piece
split b = elim (read_u32 b 0) [ none ↦ incomplete | some total ↦ split_at b total ]

abbrev frame_of : ℕ → ℕ → ℕ → ℕ → Bytes → Frame
frame_of t i g r payload = record {
  type = pos t;
  connection_id = pos i;
  generation = pos g;
  request_id = pos r;
  payload = payload;
}

-- A whole frame is read without an access out of bounds, and the same with more bytes behind it.
pub read_frame-total :
    (b c : Bytes) (total : ℕ)
    → frame_header_bytes ≤ total
    → 4 + total ≤ length b
    → (f : Frame) × (read_frame b total ≡ ok f) × (read_frame (b ++ c) total ≡ ok f)
unfolding read_frame
read_frame-total b c total h k =
    let (t, t0, t1) = read_u8-total b c 4 (omega arith) in
    let (i, i0, i1) = read_u32-total b c 5 (omega arith) in
    let (g, g0, g1) = read_u64-total b c 9 (omega arith) in
    let (r, r0, r1) = read_u32-total b c 17 (omega arith) in
    (
      frame_of t i g r (drop 21 (take (4 + total) b)),
      rw (t0, i0, g0, r0, read_frame),
      rw (t1, i1, g1, r1, take_append (4 + total) b c k, read_frame),
    )

-- How `split` comes to each of its answers.
pub data Splits (b : Bytes) : Piece → Type 0 where
  short : length b < 4 → Splits b incomplete
  waits :
      (total : ℕ)
      → read_u32 b 0 ≡ some total
      → frame_header_bytes ≤ total
      → total ≤ frame_header_bytes + max_payload_bytes
      → length b < 4 + total
      → Splits b incomplete
  whole :
      (total : ℕ) (f : Frame)
      → read_u32 b 0 ≡ some total
      → frame_header_bytes ≤ total
      → total ≤ frame_header_bytes + max_payload_bytes
      → 4 + total ≤ length b
      → read_frame b total ≡ ok f
      → Splits b (taken f (drop (4 + total) b))
  too_small :
      (total : ℕ)
      → 4 ≤ length b
      → read_u32 b 0 ≡ some total
      → total < frame_header_bytes
      → Splits b (failed frame_invalid)
  too_large :
      (total : ℕ)
      → 4 ≤ length b
      → read_u32 b 0 ≡ some total
      → frame_header_bytes + max_payload_bytes < total
      → Splits b (failed frame_too_large)

split_at-Splits :
    (b : Bytes) (total : ℕ) → 4 ≤ length b → read_u32 b 0 ≡ some total → Splits b (split_at b total)
split_at-Splits b total k e = elim (Bool-cases (ltb total frame_header_bytes)) [
  | inl s ↦ rw s (too_small total k e (ground arith))
  | inr s ↦ rw s (elim (Bool-cases (ltb max_payload_bytes (total - frame_header_bytes))) [
    | inl l ↦ rw l (too_large total k e (ground arith))
    | inr l ↦ rw l (elim (Bool-cases (ltb (length b) (4 + total))) [
      | inl w ↦ rw w (waits total e (ground arith) (ground arith) (ground arith))
      | inr w ↦
          let (f, r, _) = read_frame-total b [] total (ground arith) (ground arith) in
          rw (w, r) (whole total f e (ground arith) (ground arith) (ground arith) r)
    ])
  ])
]

pub split-Splits : (b : Bytes) → Splits b (split b)
unfolding split
split-Splits b = elim (Bool-cases (ltb (length b) 4)) [
  | inl s ↦ rw (read_u32-none b (ground arith), split) (short (ground arith))
  | inr s ↦
      let (total, e, _) = read_u32-total b [] 0 (ground arith) in
      rw (e, split) (split_at-Splits b total (ground arith) e)
]
