-- ===== src/TerminalAttach.antt =====
-- packages/server/src/ws/terminal-attach.ts, with `handleInitFrame` and `cleanupTerminalRelay` of
-- packages/server/src/ws/terminal.ts: how a socket attaches its client to the host, and what it sends of the
-- answer. The state of the socket does not change while the answer is sent.
pub mod Serves
pub mod Abandoned
mod Tests
use parasor.Base.Bytes.{Bytes}
use parasor.Base.{
  Bool, true, false, not, ℕ, Option, none, some, List, [], ◌∷◌, ◌++◌, map, if◌then◌else◌,
}
use parasor.InProcessHost.Clients.{
  AttachResponse, AttachResult, attached_with, not_attached, spawn_threw, InitResult, attached,
  not_ok, failed, Replay, no_replay, delta_replay, full_replay, TerminalCapabilities,
}
use parasor.Presence.Types.{ClientKind, mobile_client, desktop_client}
use parasor.Scrollback.{ChunkRecord, RingState}
use parasor.TerminalProtocol.{encode_output_frame}
use parasor.TerminalRelay.Messages.{Relay, Call, detach_host, unsubscribe, close}
use parasor.TerminalRelay.{stop_drain}

-- What the socket sends, and what else the attach calls. The exception that the host threw ends in
-- `handleTerminalMessage`.
pub data AttachCall : Type 0 where
  send_init_ack : TerminalCapabilities → RingState → Replay → AttachCall
  send_replay send_frame : Bytes → AttachCall
  release : ℕ → AttachCall
  close_socket : ℕ → AttachCall

abbrev pub frames : ℕ → List ChunkRecord → List AttachCall
frames generation chunks =
    map (λ (c : ChunkRecord). send_frame (encode_output_frame generation c.seq c.content)) chunks

-- The replay behind the acknowledgement; an empty text is not sent.
abbrev pub replay_calls : ℕ → Replay → List AttachCall
replay_calls generation no_replay = []
replay_calls generation (full_replay []) = []
replay_calls generation (full_replay (b ∷ bs)) = send_replay (b ∷ bs) ∷ []
replay_calls generation (delta_replay chunks) = frames generation chunks

-- `attachBinaryClient`, on the host's answer; `is_open` is whether the socket is still open then.
unfoldable pub attach_binary_client : Bool → AttachResult → Relay → Relay × List AttachCall
attach_binary_client is_open not_attached s = (s, close_socket 1008 ∷ [])
attach_binary_client is_open spawn_threw s = (s, if is_open then close_socket 1012 ∷ [] else [])
attach_binary_client is_open (attached_with r) s =
    let s' : Relay = record s { attach_token = some r.attach_token } in
    if not is_open then (s', release r.attach_token ∷ []) else (
      record s' { binary_attached = r.capabilities.binary },
      send_init_ack r.capabilities r.server_state r.replay ∷ replay_calls r.generation r.replay,
    )

unfoldable pub attach_legacy_client : Bool → InitResult → Relay → Relay × List AttachCall
attach_legacy_client is_open not_ok s = (s, close_socket 1008 ∷ [])
attach_legacy_client is_open failed s = (s, if is_open then close_socket 1012 ∷ [] else [])
attach_legacy_client is_open (attached token) s =
    (record s { attach_token = some token }, if is_open then [] else release token ∷ [])

abbrev unsubscribes : ClientKind → List Call
unsubscribes mobile_client = unsubscribe ∷ []
unsubscribes desktop_client = []

unfoldable pub cleanup_terminal_relay : Relay → Relay × List Call
cleanup_terminal_relay s =
    let s' : Relay = record s { flow = stop_drain s.flow } in
    elim s.attach_token [
      | none ↦ (s', [])
      | some token ↦ (s', detach_host token ∷ unsubscribes s.client_kind)
    ]
