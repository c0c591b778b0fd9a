-- ===== src/TerminalRelay/Messages.antt =====
-- packages/server/src/ws/terminal.ts: what one terminal socket does with the messages of its client, which come
-- as binary frames or as JSON envelopes. A text is given by the bytes of its UTF-8.
use parasor.Base.Bytes.{Bytes}
use parasor.Base.Int.{pos}
use parasor.Base.{
  ℕ, ◌+◌, ◌-◌, Bool, true, false, not, Option, none, some, List, [], ◌∷◌, ◌++◌, String,
  if◌then◌else◌, leb, map,
}
use parasor.Presence.Manager.{PresenceManager}
use parasor.Presence.Types.{ClientKind, desktop_client, Effect as PresenceEffect}
use parasor.TerminalProtocol.{
  BinaryFrame, input, resize, refresh, flow_pause, flow_resume, output, exit, DecodeResult, decoded,
  malformed, range_error, decode_binary_frame,
}
use parasor.TerminalRelay.Generation.{
  WireNumber, whole, WireGeneration, reject, generation, coerce_wire_generation,
}
use parasor.TerminalRelay.Presence.{Gated, allow_pty_write, apply_presence_resize}
use parasor.TerminalRelay.{
  RelayState, Effect as FlowEffect, flow_pause as pause_flow, flow_resume as resume_flow,
}

abbrev pub malformed_frame_close_threshold : ℕ
malformed_frame_close_threshold = 32

abbrev pub malformed_warn_rate_limit_ms : ℕ
malformed_warn_rate_limit_ms = 5000

-- `TerminalRelayState`
pub record Relay : Type 0 where
  pub initialized : Bool
  pub binary_attached : Bool
  pub malformed_frame_count : ℕ
  pub last_malformed_warn_at : ℕ
  pub attach_token : Option ℕ
  pub flow : RelayState
  pub client_kind : ClientKind

-- What the relay calls: the host on its session, the presence manager, the socket and the console.
pub data Call : Type 0 where
  write_host : Bytes → Option ℕ → Call
  resize_host : ℕ → ℕ → Call
  refresh_host : Call
  detach_host : ℕ → Call
  unsubscribe : Call
  presence : PresenceEffect → Call
  flows : FlowEffect → Call
  warn : ℕ → Call
  close : ℕ → Call

-- The state that `setupTerminalRelay` sets for a session that the host knows.
abbrev pub new_relay : Relay
new_relay = record {
  initialized = false;
  binary_attached = false;
  malformed_frame_count = 0;
  last_malformed_warn_at = 0;
  attach_token = none;
  flow = record { client_paused = false; server_paused = false; drain_timer = false };
  client_kind = desktop_client;
}

-- `setupTerminalRelay`: the state, if the host knows the session.
unfoldable pub setup_terminal_relay : Bool → Option Relay × List Call
setup_terminal_relay known = if known then (some new_relay, []) else (none, close 1008 ∷ [])

unfoldable pub note_malformed_frame : ℕ → Relay → Relay × List Call
note_malformed_frame now s =
    let count = s.malformed_frame_count + 1 in
    let warns = leb malformed_warn_rate_limit_ms (now - s.last_malformed_warn_at) in
    (
      record s {
        malformed_frame_count = count;
        last_malformed_warn_at = if warns then now else s.last_malformed_warn_at;
      },
      (if warns then warn count ∷ [] else [])
          ++ (if leb malformed_frame_close_threshold count then close 1008 ∷ [] else []),
    )

-- What the relay finds around it: the session and the client, the clock, and the session's generation at the
-- host, 0 where there is none. `utf8_text` is `Buffer.toString("utf8")`, which replaces what is no UTF-8.
pub record Context : Type 0 where
  pub session_id : String
  pub client_id : String
  pub now : ℕ
  pub known : ℕ
  pub utf8_text : Bytes → Bytes

abbrev pub Handled : Type 0
Handled = Relay × Option PresenceManager × List Call

-- The calls of a gate, and what is called if it is passed.
abbrev gated : Relay → Gated → List Call → Handled
gated s g calls = (s, some g.manager, map presence g.effects ++ (if g.allowed then calls else []))

abbrev pub with_permit : Context → Relay → Option PresenceManager → List Call → Handled
with_permit ctx s none calls = (s, none, calls)
with_permit ctx s (some m) calls =
    gated s (allow_pty_write s.client_kind ctx.client_id ctx.session_id ctx.now m) calls

abbrev generation_of : WireGeneration → Option ℕ
generation_of (generation g) = some g
generation_of _ = none

abbrev is_rejected : WireGeneration → Bool
is_rejected reject = true
is_rejected _ = false

abbrev pub refused : Context → Relay → Option PresenceManager → Handled
refused ctx s manager = let (s', calls) = note_malformed_frame ctx.now s in (s', manager, calls)

unfoldable pub relay_input :
    Context → Relay → Option PresenceManager → Bytes → Option WireNumber → Handled
relay_input ctx s manager bytes wire =
    let gen = coerce_wire_generation wire ctx.known in
    if is_rejected gen
    then refused ctx s manager
    else with_permit ctx s manager (write_host bytes (generation_of gen) ∷ [])

unfoldable pub relay_resize : Context → Relay → Option PresenceManager → ℕ → ℕ → Handled
relay_resize ctx s none cols rows = (s, none, resize_host cols rows ∷ [])
relay_resize ctx s (some m) cols rows =
    gated s
      (apply_presence_resize s.client_kind ctx.client_id ctx.session_id
        (record { cols = cols; rows = rows }) m)
      (resize_host cols rows ∷ [])

abbrev relay_flow :
    (RelayState → RelayState × List FlowEffect) → Relay → Option PresenceManager → Handled
relay_flow change s manager =
    let (flow', effects) = change s.flow in (record s { flow = flow' }, manager, map flows effects)

-- The branches of `handleBinaryFrame` on a frame that was decoded.
unfoldable pub handle_frame : Context → Relay → Option PresenceManager → BinaryFrame → Handled
handle_frame ctx s manager (input gen bytes) =
    relay_input ctx s manager (ctx.utf8_text bytes) (some (whole (pos gen)))
handle_frame ctx s manager (resize cols rows) = relay_resize ctx s manager cols rows
handle_frame ctx s manager refresh = (s, manager, refresh_host ∷ [])
handle_frame ctx s manager flow_pause = relay_flow pause_flow s manager
handle_frame ctx s manager flow_resume = relay_flow resume_flow s manager
handle_frame ctx s manager (output gen seq bytes) = refused ctx s manager
handle_frame ctx s manager (exit code) = refused ctx s manager

-- `none` is an exception, of a read out of bounds.
abbrev pub handle_decoded : Context → Relay → Option PresenceManager → DecodeResult → Option Handled
handle_decoded ctx s manager (decoded frame) = some (handle_frame ctx s manager frame)
handle_decoded ctx s manager (malformed reason) = some (refused ctx s manager)
handle_decoded ctx s manager range_error = none

unfoldable pub handle_binary_frame :
    Context → Relay → Option PresenceManager → Bytes → Option Handled
handle_binary_frame ctx s manager bytes =
    if not s.binary_attached
    then some (refused ctx s manager)
    else handle_decoded ctx s manager (decode_binary_frame bytes)

-- `WsTerminalClientMessage`, without `init`; `unknown` is any other type.
pub data Command : Type 0 where
  input_command : Bytes → Option WireNumber → Command
  resize_command : ℕ → ℕ → Command
  refresh_command flow_pause_command flow_resume_command unknown : Command

unfoldable pub handle_json_command : Context → Relay → Option PresenceManager → Command → Handled
handle_json_command ctx s manager (input_command bytes wire) = relay_input ctx s manager bytes wire
handle_json_command ctx s manager (resize_command cols rows) = relay_resize ctx s manager cols rows
handle_json_command ctx s manager refresh_command = (s, manager, refresh_host ∷ [])
handle_json_command ctx s manager flow_pause_command = relay_flow pause_flow s manager
handle_json_command ctx s manager flow_resume_command = relay_flow resume_flow s manager
handle_json_command ctx s manager unknown = (s, manager, [])
