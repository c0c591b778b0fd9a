-- ===== src/HostProtocol/Tests.antt =====
-- The frame codec and parser on concrete bytes.
use Prim.Native.Char.{Char, code}
use parasor.Base.Bytes.{Bytes}
use parasor.Base.Int.{pos, negsuc}
use parasor.Base.{
  ℕ, ◌+◌, ◌^◌, ◌<◌, ◌≡◌, refl, List, [], ◌∷◌, String, arith, ◌==◌, if◌then◌else◌, take, drop,
  flatten,
}
use parasor.HostProtocol.Frame.{
  Frame, ok, err, frame_invalid, encode_frame, frame_header_bytes, max_payload_bytes,
}
use parasor.HostProtocol.Parser.{
  FrameParser, new_parser, frames, throws, push, drain, take_one, buffered_bytes,
}
use parasor.HostProtocol.Parser.Drain.{IsIdle, Outcome, new_parser-IsIdle, push-Outcome}
use parasor.HostProtocol.Parser.Chunks.{push_all, reached, Agree, push_all-Agree}
use parasor.HostProtocol.Parser.RoundTrip.{encode_all, push_all-encode_all}
use parasor.HostProtocol.Parser.Limits.{push-buffered_bytes, push_refuses, below}
use parasor.HostProtocol.Stream.{encode_generation_stream_payload, encode_stream_payload}

abbrev hello : Frame
hello = record {
  type = pos 0x01;
  connection_id = pos 0;
  generation = pos 0;
  request_id = pos 0;
  payload = 7 ∷ 8 ∷ [];
}

abbrev hello_bytes : Bytes
hello_bytes =
    0 ∷ 0 ∷ 0 ∷ 19 ∷ 1 ∷ 0 ∷ 0 ∷ 0 ∷ 0 ∷ 0 ∷ 0 ∷ 0 ∷ 0 ∷ 0 ∷ 0 ∷ 0 ∷ 0 ∷ 0 ∷ 0 ∷ 0 ∷ 0 ∷ 7 ∷ 8 ∷ []

encode_hello : encode_frame hello ≡ ok hello_bytes
unfolding encode_frame
encode_hello = refl

negative_type : encode_frame (record hello { type = negsuc 0 }) ≡ err frame_invalid
unfolding encode_frame
negative_type = refl

-- The frame in two chunks.
abbrev pieces : List Bytes
pieces = take 10 hello_bytes ∷ drop 10 hello_bytes ∷ []

push_all-Agree_example : Agree (push_all new_parser (hello_bytes ∷ [])) (push_all new_parser pieces)
push_all-Agree_example = push_all-Agree new_parser (hello_bytes ∷ []) pieces new_parser-IsIdle refl

encode_all-hello : encode_all (hello ∷ []) ≡ ok (flatten pieces)
unfolding encode_all encode_frame
encode_all-hello = refl

push_all-encode_all_example :
    ((push_all new_parser pieces).delivered ≡ hello ∷ [])
    × ((push_all new_parser pieces).ending ≡ reached)
    × (buffered_bytes (push_all new_parser pieces).parser ≡ 0)
push_all-encode_all_example = push_all-encode_all (hello ∷ []) pieces encode_all-hello

push-Outcome_example : Outcome hello_bytes (push new_parser hello_bytes)
push-Outcome_example = push-Outcome new_parser hello_bytes new_parser-IsIdle

abbrev partial : FrameParser
partial = record { chunks = (0 ∷ 0 ∷ []) ∷ []; size = 2 }

push-partial : push new_parser (0 ∷ 0 ∷ []) ≡ (partial, frames [])
unfolding push drain take_one
push-partial = refl

push-buffered_bytes_example :
    IsIdle partial × (buffered_bytes partial < 4 + frame_header_bytes + max_payload_bytes)
push-buffered_bytes_example =
    push-buffered_bytes new_parser (0 ∷ 0 ∷ []) new_parser-IsIdle push-partial

push_refuses_example : (push new_parser (0 ∷ 0 ∷ 0 ∷ 3 ∷ [])).1 ≡ throws frame_invalid
push_refuses_example =
    push_refuses new_parser (0 ∷ 0 ∷ 0 ∷ 3 ∷ []) 3 new_parser-IsIdle refl (below (omega arith))

-- A UTF-8 coder, for two letters.
abbrev to_utf8 : String → Bytes
to_utf8 String.[] = []
to_utf8 (String.◌∷◌ c s) = code c ∷ to_utf8 s

abbrev letter : ℕ → Char
letter n = if n == b'a' then "a" else "b"

abbrev of_utf8 : Bytes → String
of_utf8 [] = ""
of_utf8 (n ∷ b) = String.◌∷◌ (letter n) (of_utf8 b)

encode_generation_ab :
    encode_generation_stream_payload to_utf8 "ab" (9 ∷ []) (2 ^ 32 + 5)
    ≡ ok (2 ∷ b'a' ∷ b'b' ∷ 0 ∷ 0 ∷ 0 ∷ 5 ∷ 9 ∷ [])
unfolding encode_generation_stream_payload
encode_generation_ab = refl

encode_ab : encode_stream_payload to_utf8 "ab" (9 ∷ []) ≡ ok (2 ∷ b'a' ∷ b'b' ∷ 9 ∷ [])
unfolding encode_stream_payload
encode_ab = refl
