-- ===== src/TerminalRelay/MessageTests.antt =====
-- An input frame, and malformed frames that come fast.
use parasor.Base.Bytes.{Bytes}
use parasor.Base.{◌≡◌, refl, [], ◌∷◌, some, none, true, leb, if◌then◌else◌}
use parasor.TerminalProtocol.RoundTrip.{encode}
use parasor.TerminalProtocol.{input, decode_binary_frame}
use parasor.TerminalRelay.Generation.{other, coerce_wire_generation}
use parasor.TerminalRelay.Messages.{
  Relay, Context, new_relay, handle_binary_frame, handle_json_command, handle_frame, relay_input,
  input_command, warn, write_host, note_malformed_frame,
}
use parasor.TerminalRelay.Strikes.{note_all}

-- A byte that is no UTF-8 becomes U+FFFD.
abbrev replaced : Bytes → Bytes
replaced bytes = elim bytes [
  | [] ↦ []
  | b ∷ bs ↦ if leb 0x80 b then 0xef ∷ 0xbf ∷ 0xbd ∷ [] else b ∷ bs
]

abbrev context : Context
context = record { session_id = "s"; client_id = "c"; now = 7; known = 3; utf8_text = replaced }

abbrev binary_relay : Relay
binary_relay = record new_relay {
  initialized = true;
  binary_attached = true;
  attach_token = some 1;
}

-- What is no UTF-8 reaches the host as the decoder gives it.
input_reaches :
    handle_binary_frame context binary_relay none (encode (input 3 (0xff ∷ [])))
    ≡ some (binary_relay, none, write_host (0xef ∷ 0xbf ∷ 0xbd ∷ []) (some 3) ∷ [])
unfolding handle_binary_frame decode_binary_frame handle_frame relay_input coerce_wire_generation
input_reaches = refl

-- A generation that is no number is a strike, and the input reaches nothing.
refused_input :
    handle_json_command context binary_relay none (input_command (b'l' ∷ []) (some other))
    ≡ (record binary_relay { malformed_frame_count = 1 }, none, [])
unfolding handle_json_command relay_input coerce_wire_generation note_malformed_frame
refused_input = refl

one_warning : (note_all (6000 ∷ 6001 ∷ 12000 ∷ []) new_relay).1 ≡ warn 1 ∷ warn 3 ∷ []
unfolding note_all note_malformed_frame
one_warning = refl
