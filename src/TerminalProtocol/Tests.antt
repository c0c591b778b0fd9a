-- ===== src/TerminalProtocol/Tests.antt =====
-- The terminal frames on concrete bytes.
use parasor.Base.Int.{negsuc}
use parasor.Base.{◌≡◌, refl, [], ◌∷◌, arith}
use parasor.TerminalProtocol.Canonical.{Answers, decode_binary_frame-Answers}
use parasor.TerminalProtocol.RoundTrip.{encode, decode_binary_frame-encode}
use parasor.TerminalProtocol.{
  resize, exit, decoded, malformed, resize_range, unknown_prefix, decode_binary_frame,
}

resize_bytes : encode (resize 80 24) ≡ 1 ∷ 0 ∷ 0 ∷ 0 ∷ 80 ∷ 0 ∷ 0 ∷ 0 ∷ 24 ∷ []
resize_bytes = refl

resize_too_wide :
    decode_binary_frame (1 ∷ 0 ∷ 0 ∷ 32 ∷ 1 ∷ 0 ∷ 0 ∷ 0 ∷ 24 ∷ []) ≡ malformed resize_range
unfolding decode_binary_frame
resize_too_wide = refl

unknown : decode_binary_frame (9 ∷ []) ≡ malformed (unknown_prefix 9)
unfolding decode_binary_frame
unknown = refl

decode_binary_frame-encode_example :
    decode_binary_frame (encode (exit (negsuc 0))) ≡ decoded (exit (negsuc 0))
decode_binary_frame-encode_example = decode_binary_frame-encode (exit (negsuc 0)) (omega arith)

decode_binary_frame-Answers_example :
    Answers
      (1 ∷ 0 ∷ 0 ∷ 0 ∷ 80 ∷ 0 ∷ 0 ∷ 0 ∷ 24 ∷ [])
      (decode_binary_frame (1 ∷ 0 ∷ 0 ∷ 0 ∷ 80 ∷ 0 ∷ 0 ∷ 0 ∷ 24 ∷ []))
decode_binary_frame-Answers_example =
    decode_binary_frame-Answers (1 ∷ 0 ∷ 0 ∷ 0 ∷ 80 ∷ 0 ∷ 0 ∷ 0 ∷ 24 ∷ []) (omega arith)
