-- ===== src/Keepalive.antt =====
-- packages/server/src/ws/keepalive.ts: the pings of a socket and the deadline for the pong. The timers
-- are events; no keepalive is attached where the ping interval is not positive.
pub mod Deadline
mod Tests
use parasor.Base.{ℕ, Bool, true, false, not, List, [], ◌∷◌, ltb, if◌then◌else◌}

-- The variables of `attachKeepalive`: the deadline is armed or null.
pub record Keepalive : Type 0 where
  pub disposed : Bool
  pub pong_deadline : Bool

abbrev pub attach_keepalive : Keepalive
attach_keepalive = record { disposed = false; pong_deadline = false }

-- What is done to the socket; `terminate` comes after `onTimeout`.
pub data Action : Type 0 where
  ping on_timeout terminate : Action

unfoldable pub on_pong : Keepalive → Keepalive
on_pong k = record k { pong_deadline = false }

-- The interval: `is_open` is whether the socket is open, `sends` whether `ping` does not throw.
unfoldable pub ping_tick : ℕ → Bool → Bool → Keepalive → Keepalive × List Action
ping_tick pong_timeout_ms is_open sends k =
    if k.disposed
    then (k, [])
    else if not is_open
    then (k, [])
    else if k.pong_deadline
    then (k, [])
    else if not sends
    then (k, [])
    else if not (ltb 0 pong_timeout_ms)
    then (k, ping ∷ [])
    else (record k { pong_deadline = true }, ping ∷ [])

-- The callback of the deadline.
unfoldable pub deadline_passed : Keepalive → Keepalive × List Action
deadline_passed k =
    (record k { pong_deadline = false }, if k.disposed then [] else on_timeout ∷ terminate ∷ [])

-- The function that `attachKeepalive` returns.
unfoldable pub dispose : Keepalive → Keepalive
dispose k = if k.disposed then k else record { disposed = true; pong_deadline = false }
