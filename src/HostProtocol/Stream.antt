-- ===== src/HostProtocol/Stream.antt =====
-- packages/server/src/pty/host-protocol/frames.ts: the payloads of WRITE, DATA and SESSION_INPUT.
-- `Buffer.from(id, "utf8")` and `toString("utf8")` are Node's, and parameters here.
pub mod RoundTrip
use mathlib.Core.List.{append_assoc}
use parasor.Base.Bytes.{
  Bytes, u8, u32, read_u8, read_u32, of_digits-u32, read_u8-total, read_u32-total,
}
use parasor.Base.{
  ℕ, ◌+◌, ◌^◌, ◌≤◌, ◌<◌, ◌≡◌, refl, ap, ◌∙◌, sym, String, none, some, [], ◌∷◌, ◌++◌, arith, ltb,
  if◌then◌else◌, length, take, drop, length-append, take-append_self, drop-append_self,
}
use parasor.HostProtocol.Frame.{Result, ok, err, range_error, frame_invalid}

abbrev pub stream_generation_bytes : ℕ
stream_generation_bytes = 4

pub record GenerationPayload : Type 0 where
  pub session_id : String
  pub generation : ℕ
  pub content : Bytes

pub record StreamPayload : Type 0 where
  pub session_id : String
  pub content : Bytes

module _ (utf8_encode : String → Bytes) where
  -- `generation >>> 0` is the value modulo 2 ^ 32, which `u32` writes.
  unfoldable pub encode_generation_stream_payload : String → Bytes → ℕ → Result Bytes
  encode_generation_stream_payload session_id content generation =
      let id = utf8_encode session_id in
      if ltb 0xff (length id)
      then err frame_invalid
      else ok (u8 (length id) ++ (id ++ (u32 generation ++ content)))

  unfoldable pub encode_stream_payload : String → Bytes → Result Bytes
  encode_stream_payload session_id content =
      let id = utf8_encode session_id in
      if ltb 0xff (length id) then err frame_invalid else ok (u8 (length id) ++ (id ++ content))

module _ (utf8_decode : Bytes → String) where
  generation_payload_at : Bytes → ℕ → Result GenerationPayload
  generation_payload_at payload id_length =
      if ltb (length payload) (1 + id_length + stream_generation_bytes)
      then err frame_invalid
      else elim (read_u32 payload (1 + id_length)) [
        | none ↦ range_error
        | some generation ↦ ok (record {
          session_id = utf8_decode (take id_length (drop 1 payload));
          generation = generation;
          content = drop (1 + id_length + stream_generation_bytes) payload;
        })
      ]

  unfoldable pub decode_generation_stream_payload : Bytes → Result GenerationPayload
  unfolding generation_payload_at
  decode_generation_stream_payload payload =
      if ltb (length payload) 1 then err frame_invalid else elim (read_u8 payload 0) [
        | none ↦ range_error
        | some id_length ↦ generation_payload_at payload id_length
      ]

  stream_payload_at : Bytes → ℕ → Result StreamPayload
  stream_payload_at payload id_length =
      if ltb (length payload) (1 + id_length)
      then err frame_invalid
      else ok (record {
        session_id = utf8_decode (take id_length (drop 1 payload));
        content = drop (1 + id_length) payload;
      })

  unfoldable pub decode_stream_payload : Bytes → Result StreamPayload
  unfolding stream_payload_at
  decode_stream_payload payload =
      if ltb (length payload) 1 then err frame_invalid else elim (read_u8 payload 0) [
        | none ↦ range_error
        | some id_length ↦ stream_payload_at payload id_length
      ]
