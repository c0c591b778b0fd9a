-- ===== src/ConnectionLifecycle.antt =====
-- packages/server/src/pty/connection-lifecycle.ts: class `ConnectionLifecycle`, the handshake of the server with the
-- daemon that holds the PTYs. `Error` is the type of the errors.
pub mod Handshake
mod Tests
use parasor.Base.{ℕ, Bool, true, false, not, ◌||◌, List, [], ◌∷◌, if◌then◌else◌}

pub data RemoteConnState : Type 0 where
  connecting snapshot_pending ready dropped : RemoteConnState

-- A promise, which takes the first of its settlements and ignores the others.
pub data Deferred (Error : Type 0) : Type 0 where
  pending resolved : Deferred Error
  rejected : Error → Deferred Error

abbrev pub is_connecting : RemoteConnState → Bool
is_connecting connecting = true
is_connecting _ = false

abbrev pub is_snapshot_pending : RemoteConnState → Bool
is_snapshot_pending snapshot_pending = true
is_snapshot_pending _ = false

abbrev pub is_ready : RemoteConnState → Bool
is_ready ready = true
is_ready _ = false

abbrev pub is_dropped : RemoteConnState → Bool
is_dropped dropped = true
is_dropped _ = false

module _ {Error : Type 0} where
  abbrev pub resolve : Deferred Error → Deferred Error
  resolve pending = resolved
  resolve p = p

  abbrev pub refuse : Error → Deferred Error → Deferred Error
  refuse err pending = rejected err
  refuse err p = p

pub record Connection (Error : Type 0) : Type 0 where
  pub state : RemoteConnState
  pub connection_id : ℕ
  pub generation : ℕ
  pub handshake : Deferred Error

abbrev pub new_connection : {Error : Type 0} → Connection Error
new_connection = record {
  state = connecting;
  connection_id = 0;
  generation = 0;
  handshake = pending;
}

module _ {Error : Type 0} where
  abbrev pub is_awaiting_handshake : Connection Error → Bool
  is_awaiting_handshake c = is_connecting c.state || is_snapshot_pending c.state

  unfoldable pub apply_hello_ack : ℕ → ℕ → Connection Error → Connection Error × Bool
  apply_hello_ack connection_id generation c = if not (is_connecting c.state) then (c, false) else (
    record c { connection_id = connection_id; generation = generation; state = snapshot_pending },
    true,
  )

  unfoldable pub mark_ready : Connection Error → Connection Error × Bool
  mark_ready c =
      if not (is_snapshot_pending c.state)
      then (c, false)
      else (record c { state = ready; handshake = resolve c.handshake }, true)

  unfoldable pub reject_handshake_only : Error → Connection Error → Connection Error
  reject_handshake_only err c = record c { handshake = refuse err c.handshake }

  unfoldable pub drop : Error → Connection Error → Connection Error × Bool
  drop err c = if is_dropped c.state then (c, false) else (
    record c {
      state = dropped;
      handshake = if is_awaiting_handshake c then refuse err c.handshake else c.handshake;
    },
    true,
  )
