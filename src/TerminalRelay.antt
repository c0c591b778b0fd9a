-- ===== src/TerminalRelay.antt =====
-- packages/server/src/ws/terminal-flow.ts, packages/server/src/ws/terminal.ts and
-- packages/server/src/pty/session-policy.ts: what one terminal socket does to the flow of its PTY.
pub mod Flow
pub mod Generation
pub mod Presence
pub mod Resize
pub mod Messages
pub mod Strikes
mod Tests
mod MessageTests
use parasor.Base.{
  ℕ, ◌+◌, ◌*◌, ◌||◌, Bool, true, false, not, Option, none, some, List, [], ◌∷◌, ltb, leb,
  if◌then◌else◌,
}

abbrev pub backpressure_high_water : ℕ
backpressure_high_water = 1024 * 1024

abbrev pub backpressure_low_water : ℕ
backpressure_low_water = 256 * 1024

abbrev pub backpressure_hard_limit : ℕ
backpressure_hard_limit = 8 * 1024 * 1024

-- The part of `TerminalRelayState` that is about flow; the timer is only armed or not.
pub record RelayState : Type 0 where
  pub client_paused : Bool
  pub server_paused : Bool
  pub drain_timer : Bool

-- What is called on the host and on the socket.
pub data Effect : Type 0 where
  pause_output resume_output : Effect
  close : ℕ → Effect

abbrev pub sync_pty_flow : RelayState → List Effect
sync_pty_flow s = (if s.client_paused || s.server_paused then pause_output else resume_output) ∷ []

-- `buffered` is the socket's `bufferedAmount`, 0 where the transport has none.
unfoldable pub apply_server_backpressure : ℕ → RelayState → RelayState × List Effect
apply_server_backpressure buffered s =
    if ltb backpressure_hard_limit buffered
    then (s, close 1013 ∷ [])
    else if ltb buffered backpressure_high_water
    then (s, [])
    else if s.server_paused
    then (s, [])
    else (
      record s { server_paused = true; drain_timer = true },
      sync_pty_flow (record s { server_paused = true }),
    )

-- `if (state.serverPaused)` in the drain poll.
abbrev release : Bool → RelayState → RelayState × List Effect
release is_open s =
    if s.server_paused
    then (
      record s { server_paused = false },
      if is_open then sync_pty_flow (record s { server_paused = false }) else [],
    )
    else (s, [])

-- The drain poll: `is_open` is whether the socket's `readyState` is 1, `depth` its `bufferedAmount`.
unfoldable pub drain_poll : Bool → ℕ → RelayState → RelayState × List Effect
drain_poll is_open depth s =
    if not is_open || leb depth backpressure_low_water
    then release is_open (record s { drain_timer = false })
    else (s, [])

unfoldable pub flow_pause : RelayState → RelayState × List Effect
flow_pause s = let s' : RelayState = record s { client_paused = true } in (s', sync_pty_flow s')

unfoldable pub flow_resume : RelayState → RelayState × List Effect
flow_resume s = let s' : RelayState = record s { client_paused = false } in (s', sync_pty_flow s')

-- `cleanupTerminalRelay` stops the poll.
abbrev pub stop_drain : RelayState → RelayState
stop_drain s = record s { drain_timer = false }

-- `shouldPauseOutputForClients`
unfoldable pub should_pause_output_for_clients : List Bool → Bool
should_pause_output_for_clients (flow_paused ∷ []) = flow_paused
should_pause_output_for_clients _ = false
