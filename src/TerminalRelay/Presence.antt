-- ===== src/TerminalRelay/Presence.antt =====
-- packages/server/src/ws/terminal.ts: `allowPtyWrite`, `applyPresenceResize` and the resize message,
-- which ask the presence manager first.
use parasor.Base.{ℕ, Bool, true, false, List, [], ◌∷◌, ◌++◌, String, if◌then◌else◌}
use parasor.Presence.Calls.{resizes, acts, desktop_resizes, reclaims}
use parasor.Presence.Manager.{PresenceManager, run, calls, may_write}
use parasor.Presence.Types.{Viewport, ClientKind, desktop_client, mobile_client, Effect, resize}

-- What the presence manager does on the way, and whether the message goes on to the PTY.
pub record Gated : Type 0 where
  pub manager : PresenceManager
  pub effects : List Effect
  pub allowed : Bool

abbrev pub asked : ClientKind → String → String → PresenceManager → List Effect → Gated
asked kind c id m effects =
    let (m', allowed) = may_write kind c id m in
    record { manager = m'; effects = effects; allowed = allowed }

-- A phone that writes takes the floor first. `now` is the time.
unfoldable pub allow_pty_write : ClientKind → String → String → ℕ → PresenceManager → Gated
allow_pty_write mobile_client c id now m =
    let (m', effects) = run id (calls (acts c now)) m in asked mobile_client c id m' effects
allow_pty_write desktop_client c id now m = asked desktop_client c id m []

-- A desktop that may not resize reclaims the session.
abbrev pub reclaim_unless : Bool → String → PresenceManager → List Effect → Gated
reclaim_unless true id m effects = record { manager = m; effects = effects; allowed = true }
reclaim_unless false id m effects =
    let (m', more) = run id (calls reclaims) m in
    record { manager = m'; effects = effects ++ more; allowed = false }

unfoldable pub apply_presence_resize :
    ClientKind → String → String → Viewport → PresenceManager → Gated
apply_presence_resize mobile_client c id v m =
    let (m', effects) = run id (calls (resizes c v)) m in
    record { manager = m'; effects = effects; allowed = false }
apply_presence_resize desktop_client c id v m =
    let (m', effects) = run id (calls (desktop_resizes v)) m in
    let (m'', allowed) = may_write desktop_client c id m' in reclaim_unless allowed id m'' effects

-- The handler of a resize message: the effects, and the resize of the PTY if it is allowed.
unfoldable pub resize_message :
    ClientKind → String → String → Viewport → PresenceManager → PresenceManager × List Effect
resize_message kind c id v m =
    let g = apply_presence_resize kind c id v m in
    (g.manager, g.effects ++ (if g.allowed then resize id v.cols v.rows ∷ [] else []))
