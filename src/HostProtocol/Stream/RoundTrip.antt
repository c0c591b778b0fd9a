-- ===== src/HostProtocol/Stream/RoundTrip.antt =====
-- The stream payloads read back what was written, and their decoders never leave the buffer.
use parasor.Base.Bytes.{
  Bytes, u8, u32, head_u32, read_u8, read_u32, of_digits-u32_mod, read_u32-total,
}
use parasor.Base.{
  ℕ, ◌+◌, ◌%◌, ◌^◌, ◌≤◌, ◌≡◌, ◌≢◌, ap, inl, inr, Bool-cases, ◌∙◌, String, some, [], ◌∷◌, ◌++◌,
  arith, ltb, length, take, drop, drop_add, length-append, take-append_self, drop-append_self,
}
use parasor.HostProtocol.Frame.{ok, range_error}
use parasor.HostProtocol.Stream.{
  stream_generation_bytes, encode_generation_stream_payload, encode_stream_payload,
  generation_payload_at, decode_generation_stream_payload, decode_stream_payload,
}

-- A payload as it is written: a length byte, the id, and what follows.
abbrev written : Bytes → Bytes → Bytes
written id tail = u8 (length id) ++ (id ++ tail)

module _ (id tail : Bytes) (fits : length id ≤ 0xff) where
  first_is_length : read_u8 (written id tail) 0 ≡ some (length id)
  first_is_length = ap some (omega (arith, fits))

  length-written : length (written id tail) ≡ 1 + length id + length tail
  length-written = omega (arith, length-append id tail)

  id-written : take (length id) (drop 1 (written id tail)) ≡ id
  id-written = take-append_self id tail

  tail-written : drop (1 + length id) (written id tail) ≡ tail
  tail-written = drop_add 1 (length id) (written id tail) ∙ drop-append_self id tail

module _ (utf8_decode : Bytes → String) where
  decode_generation_parts :
      (b : Bytes) (n : ℕ) {g : ℕ} {c : Bytes} {s : String}
      → read_u8 b 0 ≡ some n
      → 1 + n + stream_generation_bytes ≤ length b
      → read_u32 b (1 + n) ≡ some g
      → utf8_decode (take n (drop 1 b)) ≡ s
      → drop (1 + n + stream_generation_bytes) b ≡ c
      → decode_generation_stream_payload utf8_decode b
        ≡ ok (record { session_id = s; generation = g; content = c })
  unfolding decode_generation_stream_payload
  decode_generation_parts b n first size g s c = ground arith

  decode_stream_parts :
      (b : Bytes) (n : ℕ) {c : Bytes} {s : String}
      → read_u8 b 0 ≡ some n
      → 1 + n ≤ length b
      → utf8_decode (take n (drop 1 b)) ≡ s
      → drop (1 + n) b ≡ c
      → decode_stream_payload utf8_decode b ≡ ok (record { session_id = s; content = c })
  unfolding decode_stream_payload
  decode_stream_parts b n first size s c = ground arith

module _ (utf8_encode : String → Bytes) (utf8_decode : Bytes → String) where
  -- For an id that UTF-8 can write: what `encodeGenerationStreamPayload` accepts, its decoder reads
  -- back: the id, the bytes, and the generation as an unsigned 32-bit number.
  pub decode-encode_generation_stream_payload :
      (session_id : String) (content : Bytes) (generation : ℕ) {b : Bytes}
      → utf8_decode (utf8_encode session_id) ≡ session_id
      → encode_generation_stream_payload utf8_encode session_id content generation ≡ ok b
      → decode_generation_stream_payload utf8_decode b
        ≡ ok (record {
          session_id = session_id;
          generation = generation % 2 ^ 32;
          content = content;
        })
  unfolding encode_generation_stream_payload
  decode-encode_generation_stream_payload session_id content generation {b} d e = go (ground arith)
    where
      id : Bytes
      id = utf8_encode session_id

      tail : Bytes
      tail = u32 generation ++ content

      go :
          (length id ≤ 0xff) × (b ≡ written id tail)
          → decode_generation_stream_payload utf8_decode b
            ≡ ok (record {
              session_id = session_id;
              generation = generation % 2 ^ 32;
              content = content;
            })
      go (fits, same) = rw same (
          decode_generation_parts utf8_decode (written id tail) (length id)
            (first_is_length id tail fits) (omega (arith, length-written id tail fits))
            (ap head_u32 (tail-written id tail fits) ∙ ap some (of_digits-u32_mod generation))
            (ap utf8_decode (id-written id tail fits) ∙ d)
            (drop_add (1 + length id) stream_generation_bytes (written id tail)
              ∙ ap (drop stream_generation_bytes) (tail-written id tail fits)))

  -- The same of `encodeStreamPayload` and its decoder.
  pub decode-encode_stream_payload :
      (session_id : String) (content : Bytes) {b : Bytes}
      → utf8_decode (utf8_encode session_id) ≡ session_id
      → encode_stream_payload utf8_encode session_id content ≡ ok b
      → decode_stream_payload utf8_decode b
        ≡ ok (record { session_id = session_id; content = content })
  unfolding encode_stream_payload
  decode-encode_stream_payload session_id content {b} d e = go (ground arith)
    where
      id : Bytes
      id = utf8_encode session_id

      go :
          (length id ≤ 0xff) × (b ≡ written id content)
          → decode_stream_payload utf8_decode b
            ≡ ok (record { session_id = session_id; content = content })
      go (fits, same) = rw same (
          decode_stream_parts utf8_decode (written id content) (length id)
            (first_is_length id content fits) (omega (arith, length-written id content fits))
            (ap utf8_decode (id-written id content fits) ∙ d) (tail-written id content fits))

  -- A stream payload of either kind that is encoded, of a session id that its own UTF-8 decodes to, is decoded to the id
  -- and the content that it was encoded from, and with a generation to the generation modulo 2^32.
  decode-encode_payloads :
      (session_id : String) (content : Bytes) (generation : ℕ) {b b' : Bytes}
      → utf8_decode (utf8_encode session_id) ≡ session_id
      → encode_generation_stream_payload utf8_encode session_id content generation ≡ ok b
      → encode_stream_payload utf8_encode session_id content ≡ ok b'
      → (decode_generation_stream_payload utf8_decode b
          ≡ ok (record {
            session_id = session_id;
            generation = generation % 2 ^ 32;
            content = content;
          }))
        × (decode_stream_payload utf8_decode b'
            ≡ ok (record { session_id = session_id; content = content }))
  decode-encode_payloads session_id content generation d e e' = (
    decode-encode_generation_stream_payload session_id content generation d e,
    decode-encode_stream_payload session_id content d e',
  )

module _ (utf8_decode : Bytes → String) where
  in_bounds :
      (b : Bytes) (n : ℕ)
      → 1 + n + stream_generation_bytes ≤ length b
      → (g : ℕ) × (read_u32 b (1 + n) ≡ some g)
  in_bounds b n h = let (g, e, _) = read_u32-total b [] (1 + n) h in (g, e)

  generation_payload_at-total :
      (b : Bytes) (n : ℕ) → generation_payload_at utf8_decode b n ≢ range_error
  unfolding generation_payload_at
  generation_payload_at-total b n e =
      elim (Bool-cases (ltb (length b) (1 + n + stream_generation_bytes))) [
        | inl short ↦ ground arith
        | inr long ↦ let (g, k) = in_bounds b n (ground arith) in ground arith
      ]

  -- Neither decoder of a stream payload reads past the end of its buffer, whatever the peer sent.
  pub decode_stream_payload-total :
      (b : Bytes)
      → (decode_generation_stream_payload utf8_decode b ≢ range_error)
        × (decode_stream_payload utf8_decode b ≢ range_error)
  unfolding decode_generation_stream_payload decode_stream_payload
  decode_stream_payload-total [] = (λ e. cc, λ e. cc)
  decode_stream_payload-total (x ∷ b) =
      (λ e. ground (arith, generation_payload_at-total (x ∷ b) x), λ e. ground arith)
