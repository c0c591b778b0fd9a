-- ===== src/EventStore/Socket.antt =====
-- packages/web/src/hooks/useEventSocket.ts: what the page's event socket does with the frames that come, and when it connects
-- anew. The time is an argument, and the heartbeat's timers are not part of the state.
use parasor.Base.{
  ℕ, ◌+◌, Bool, true, false, Option, none, some, List, [], ◌∷◌, ◌++◌, leb, ltb, if◌then◌else◌,
  length,
}
use parasor.EventStore.Reducers.{apply_event, apply_snapshot}
use parasor.EventStore.{AppStore, HydrationPayload, Message}

abbrev pub max_buffer : ℕ
max_buffer = 1000

-- `WsEventEnvelope`
pub record Envelope : Type 0 where
  pub seq : ℕ
  pub message : Message

-- `HydrationPhase`
pub data Phase : Type 0 where
  awaiting_snapshot : List Envelope → Phase
  live : ℕ → Phase

-- When the next connection is tried: at once, or after the delay of an attempt.
pub data Retry : Type 0 where
  instant : Retry
  backoff : ℕ → Retry

-- `is_current` is `wsRef.current === ws`, `retry` the timer that `reconnect` sets.
pub record EventSocket : Type 0 where
  pub phase : Phase
  pub store : AppStore
  pub is_current : Bool
  pub attempt : ℕ
  pub established : Bool
  pub retry : Option Retry

pub data Frame : Type 0 where
  pong : Frame
  app_state_snapshot : HydrationPayload → Frame
  enveloped : Envelope → Frame

abbrev pub disconnected : AppStore → AppStore
disconnected s = record s { connected = false }

abbrev pub reconnect : Retry → EventSocket → EventSocket
reconnect delay e = record e {
  phase = awaiting_snapshot [];
  store = disconnected e.store;
  is_current = false;
  retry = some delay;
}

abbrev pub schedule_reconnect : Bool → EventSocket → EventSocket
schedule_reconnect true e = reconnect instant e
schedule_reconnect false e =
    reconnect (backoff (e.attempt + 1)) (record e { attempt = e.attempt + 1 })

-- The timer of `reconnect` has passed and the page is authenticated: a new socket.
abbrev pub connect : EventSocket → EventSocket
connect e = record e {
  phase = awaiting_snapshot [];
  is_current = true;
  established = false;
  retry = none;
}

abbrev pub opened : EventSocket → EventSocket
opened e = if e.is_current then record e { attempt = 0 } else e

-- `stable` is that the socket was established for `MIN_STABLE_MS`.
abbrev pub closed : Bool → EventSocket → EventSocket
closed stable e = if e.is_current then schedule_reconnect stable e else e

-- The loop over the buffered messages: the store, and the number of the last one applied.
unfoldable pub apply_buffered : ℕ → ℕ → List Envelope → ℕ → AppStore → AppStore × ℕ
apply_buffered now snapshot_seq [] last s = (s, last)
apply_buffered now snapshot_seq (x ∷ xs) last s = elim (leb x.seq snapshot_seq) [
  | true ↦ apply_buffered now snapshot_seq xs last s
  | false ↦ apply_buffered now snapshot_seq xs x.seq (apply_event now s x.message)
]

abbrev pub buffer_of : Phase → List Envelope
buffer_of (awaiting_snapshot buffer) = buffer
buffer_of (live last) = []

abbrev pub hydrate : ℕ → HydrationPayload → EventSocket → EventSocket
hydrate now payload e =
    let after =
      apply_buffered now payload.seq (buffer_of e.phase) payload.seq (apply_snapshot payload) in
    record e { established = true; phase = live after.1; store = after.0 }

abbrev pub receive : ℕ → Envelope → Phase → EventSocket → EventSocket
receive now x (awaiting_snapshot buffer) e =
    if leb max_buffer (length buffer)
    then schedule_reconnect false e
    else record e { phase = awaiting_snapshot (buffer ++ x ∷ []) }
receive now x (live last) e =
    if leb x.seq last
    then e
    else if ltb (last + 1) x.seq
    then schedule_reconnect false e
    else record e { phase = live x.seq; store = apply_event now e.store x.message }

abbrev pub dispatch : ℕ → Frame → EventSocket → EventSocket
dispatch now pong e = e
dispatch now (app_state_snapshot payload) e = hydrate now payload e
dispatch now (enveloped x) e = receive now x e.phase e

-- `handleMessageText`: a socket that was replaced is not heard.
unfoldable pub handle_message : ℕ → Frame → EventSocket → EventSocket
handle_message now frame e = if e.is_current then dispatch now frame e else e

-- Frames with the times at which they come.
unfoldable pub handle_all : List (ℕ × Frame) → EventSocket → EventSocket
handle_all [] e = e
handle_all ((now, frame) ∷ frames) e = handle_all frames (handle_message now frame e)
