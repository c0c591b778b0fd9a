-- ===== src/TerminalProtocol.antt =====
-- packages/shared/src/terminal.ts: the binary frames of the terminal WebSocket. `>>> 0`, `asUintN`
-- and `| 0` are the value modulo a power of two, which `u32`, `u64` and `to_uint32` write.
pub mod BinaryPrefix
pub mod RoundTrip
pub mod Canonical
mod Tests
use BinaryPrefix
use parasor.Base.Bytes.{Bytes, u32, u64, read_u32, read_u64}
use parasor.Base.Int.{ℤ, pos, negsuc}
use parasor.Base.{
  ℕ, ◌+◌, ◌-◌, ◌%◌, ◌^◌, ◌||◌, not, Option, none, some, [], ◌∷◌, ◌++◌, ltb, ◌==◌, if◌then◌else◌,
  length, drop,
}

abbrev pub output_header_bytes : ℕ
output_header_bytes = 12

abbrev pub input_header_bytes : ℕ
input_header_bytes = 4

abbrev pub resize_payload_bytes : ℕ
resize_payload_bytes = 8

abbrev pub exit_payload_bytes : ℕ
exit_payload_bytes = 4

abbrev pub resize_max_dim : ℕ
resize_max_dim = 8192

pub data BinaryFrame : Type 0 where
  input : ℕ → Bytes → BinaryFrame
  resize : ℕ → ℕ → BinaryFrame
  refresh flow_pause flow_resume : BinaryFrame
  output : ℕ → ℕ → Bytes → BinaryFrame
  exit : ℤ → BinaryFrame

pub data Reason : Type 0 where
  empty_buffer input_header resize_length resize_range refresh_length flow_pause_length : Reason
  flow_resume_length output_header exit_length : Reason
  unknown_prefix : ℕ → Reason

-- `BinaryDecodeResult`, or the `RangeError` of a read past the end of the view.
pub data DecodeResult : Type 0 where
  decoded : BinaryFrame → DecodeResult
  malformed : Reason → DecodeResult
  range_error : DecodeResult

abbrev pub to_uint32 : ℤ → ℕ
to_uint32 (pos n) = n % 2 ^ 32
to_uint32 (negsuc n) = 2 ^ 32 - 1 - n % 2 ^ 32

-- The signed number that 32 bits stand for (`getInt32`).
abbrev pub to_int32 : ℕ → ℤ
to_int32 w = if ltb w (2 ^ 31) then pos w else negsuc (2 ^ 32 - 1 - w)

abbrev pub encode_output_frame : ℕ → ℕ → Bytes → Bytes
encode_output_frame generation seq content =
    BinaryPrefix.output ∷ (u32 generation ++ (u64 seq ++ content))

abbrev pub encode_exit_frame : ℤ → Bytes
encode_exit_frame exit_code = BinaryPrefix.exit ∷ u32 (to_uint32 exit_code)

abbrev pub encode_input_frame : ℕ → Bytes → Bytes
encode_input_frame generation content = BinaryPrefix.input ∷ (u32 generation ++ content)

abbrev pub encode_resize_frame : ℕ → ℕ → Bytes
encode_resize_frame cols rows = BinaryPrefix.resize ∷ (u32 cols ++ u32 rows)

abbrev pub encode_refresh_frame : Bytes
encode_refresh_frame = BinaryPrefix.refresh ∷ []

abbrev pub encode_flow_pause_frame : Bytes
encode_flow_pause_frame = BinaryPrefix.flow_pause ∷ []

abbrev pub encode_flow_resume_frame : Bytes
encode_flow_resume_frame = BinaryPrefix.flow_resume ∷ []

abbrev read {ℓ} : {A : Type ℓ} → Option A → (A → DecodeResult) → DecodeResult
read none next = range_error
read (some a) next = next a

pub decode_input : Bytes → DecodeResult
decode_input buf =
    if ltb (length buf) (1 + input_header_bytes)
    then malformed input_header
    else read (read_u32 buf 1)
        (λ generation. decoded (input generation (drop (1 + input_header_bytes) buf)))

pub resize_of : ℕ → ℕ → DecodeResult
resize_of cols rows =
    if cols == 0 || (rows == 0 || (ltb resize_max_dim cols || ltb resize_max_dim rows))
    then malformed resize_range
    else decoded (resize cols rows)

pub decode_resize : Bytes → DecodeResult
unfolding resize_of
decode_resize buf =
    if not (length buf == 1 + resize_payload_bytes)
    then malformed resize_length
    else read (read_u32 buf 1) (λ cols. read (read_u32 buf 5) (λ rows. resize_of cols rows))

-- A frame that is a prefix byte and nothing else.
abbrev decode_bare : Bytes → Reason → BinaryFrame → DecodeResult
decode_bare buf reason frame = if not (length buf == 1) then malformed reason else decoded frame

pub decode_output : Bytes → DecodeResult
decode_output buf =
    if ltb (length buf) (1 + output_header_bytes)
    then malformed output_header
    else read (read_u32 buf 1) (λ generation.
      read (read_u64 buf 5)
        (λ seq. decoded (output generation seq (drop (1 + output_header_bytes) buf))))

pub decode_exit : Bytes → DecodeResult
decode_exit buf =
    if not (length buf == 1 + exit_payload_bytes)
    then malformed exit_length
    else read (read_u32 buf 1) (λ exit_code. decoded (exit (to_int32 exit_code)))

-- The `switch` on the prefix.
pub decode_prefixed : ℕ → Bytes → DecodeResult
unfolding decode_input decode_resize decode_output decode_exit
decode_prefixed prefix buf =
    if prefix == BinaryPrefix.input
    then decode_input buf
    else if prefix == BinaryPrefix.resize
    then decode_resize buf
    else if prefix == BinaryPrefix.refresh
    then decode_bare buf refresh_length refresh
    else if prefix == BinaryPrefix.flow_pause
    then decode_bare buf flow_pause_length flow_pause
    else if prefix == BinaryPrefix.flow_resume
    then decode_bare buf flow_resume_length flow_resume
    else if prefix == BinaryPrefix.output
    then decode_output buf
    else if prefix == BinaryPrefix.exit
    then decode_exit buf
    else malformed (unknown_prefix prefix)

unfoldable pub decode_binary_frame : Bytes → DecodeResult
unfolding decode_prefixed
decode_binary_frame [] = malformed empty_buffer
decode_binary_frame (prefix ∷ buf) = decode_prefixed prefix (prefix ∷ buf)
