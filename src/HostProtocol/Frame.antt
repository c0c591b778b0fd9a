-- ===== src/HostProtocol/Frame.antt =====
-- packages/server/src/pty/host-protocol/frames.ts: the frame record, its limits and `encodeFrame`.
-- Fields that TypeScript types as `number` or `bigint` are integers, so that the checks against
-- negative values are there to be seen. The rest of `writeUInt…` is in Base.Bytes.
use parasor.Base.Bytes.{Bytes, u8, u32, u64}
use parasor.Base.Int.{ℤ, pos, negsuc, is_neg, exceeds}
use parasor.Base.{ℕ, ◌+◌, ◌*◌, Bool, ◌||◌, ◌++◌, ltb, if◌then◌else◌, length}

pub data ErrorCode : Type 0 where
  frame_too_large frame_invalid : ErrorCode

-- A returned value, a thrown `FrameError`, or the `RangeError` that Node's buffer methods throw
-- where an access is out of bounds.
pub data Result {ℓ} (A : Type ℓ) : Type ℓ where
  ok : A → Result A
  err : ErrorCode → Result A
  range_error : Result A

pub record Frame : Type 0 where
  pub type : ℤ
  pub connection_id : ℤ
  pub generation : ℤ
  pub request_id : ℤ
  pub payload : Bytes

abbrev pub frame_header_bytes : ℕ
frame_header_bytes = 1 + 4 + 8 + 4

abbrev pub max_payload_bytes : ℕ
max_payload_bytes = 16 * 1024 * 1024

-- The number that a checked field stands for.
abbrev pub to_nat : ℤ → ℕ
to_nat (pos n) = n
to_nat (negsuc n) = 0

abbrev out_of_range : ℤ → ℕ → Bool
out_of_range z max_value = is_neg z || exceeds z max_value

abbrev pub layout : Frame → Bytes
layout f =
    u32 (frame_header_bytes + length f.payload)
    ++ (u8 (to_nat f.type)
        ++ (u32 (to_nat f.connection_id)
            ++ (u64 (to_nat f.generation) ++ (u32 (to_nat f.request_id) ++ f.payload))))

unfoldable pub encode_frame : Frame → Result Bytes
encode_frame f =
    if ltb max_payload_bytes (length f.payload)
    then err frame_too_large
    else if out_of_range f.type 0xff
    then err frame_invalid
    else if out_of_range f.connection_id 0xffff_ffff
    then err frame_invalid
    else if out_of_range f.generation 0xffff_ffff_ffff_ffff
    then err frame_invalid
    else if out_of_range f.request_id 0xffff_ffff
    then err frame_invalid
    else ok (layout f)
