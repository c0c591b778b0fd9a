-- ===== src/Presence/Manager.antt =====
-- packages/server/src/pty/terminal-presence-manager.ts: the map of sessions, and the methods on it.
use parasor.Base.Classes.{string_eq}
use parasor.Base.Map.{lookup, insert, erase}
use parasor.Base.{Bool, Option, none, some, List, [], String, map}
use parasor.Presence.Calls.{Call, elapses, run_call}
use parasor.Presence.Session.{soft_leave_elapsed, can_write}
use parasor.Presence.Types.{SessionState, Snapshot, Effect, ClientKind}
use parasor.Presence.{new_session, snapshot, changed}

-- `TerminalPresenceManager`
pub record PresenceManager : Type 0 where
  pub sessions : List (String × SessionState)

abbrev found : String → PresenceManager → Option SessionState → PresenceManager × SessionState
found id m (some s) = (m, s)
found id m none = (record { sessions = insert id new_session m.sessions }, new_session)

unfoldable pub get_or_create : String → PresenceManager → PresenceManager × SessionState
get_or_create id m = found id m (lookup id m.sessions)

-- A method that works on the session's state, in place.
unfoldable pub on_session :
    {A : Type 0}
    → (SessionState → SessionState × A)
    → String
    → PresenceManager
    → PresenceManager × A
on_session f id m =
    let (m', s) = get_or_create id m in
    let (s', a) = f s in (record { sessions = insert id s' m'.sessions }, a)

unfoldable pub get : String → PresenceManager → PresenceManager × Snapshot
get id m = let (m', s) = get_or_create id m in (m', snapshot id s)

unfoldable pub get_all : PresenceManager → List (String × Snapshot)
get_all m = map (λ (id, s). (id, snapshot id s)) m.sessions

-- `canWrite` and `canResize`
unfoldable pub may_write : ClientKind → String → String → PresenceManager → PresenceManager × Bool
may_write kind c id m = let (m', s) = get_or_create id m in (m', can_write kind c s)

-- `if (!current) return;`
abbrev pub timer_callback :
    String → String → PresenceManager → Option SessionState → PresenceManager × List Effect
timer_callback id c m none = (m, [])
timer_callback id c m (some s) =
    let (s', effects) = soft_leave_elapsed id c s in
    (record { sessions = insert id s' m.sessions }, effects)

unfoldable pub reset_session : String → PresenceManager → PresenceManager × List Effect
reset_session id m = (record { sessions = erase id m.sessions }, changed id new_session)

pub data Request : Type 0 where
  calls : Call → Request
  resets : Request

unfoldable pub run : String → Request → PresenceManager → PresenceManager × List Effect
run id (calls (elapses c)) m = timer_callback id c m (lookup id m.sessions)
run id (calls call) m = on_session (run_call id call) id m
run id resets m = reset_session id m
