-- ===== src/Presence.antt =====
-- packages/server/src/pty/terminal-presence-manager.ts: class `TerminalPresenceManager`. A method works
-- on the state of one session; `Presence.Manager` has the map of them. Time is an argument.
pub mod Types
pub mod Session
pub mod Calls
pub mod Courses
pub mod Manager
pub mod Isolation
mod Sizes
pub mod Layouts
pub mod SoftLeave
pub mod Stuck
pub mod Floor
mod Tests
use mathlib.Core.List.{filter_map}
use parasor.Base.Classes.{string_eq, ◌==◌}
use parasor.Base.Map.{lookup, insert, erase}
use parasor.Base.{
  ℕ, Bool, true, false, not, ◌&&◌, Option, none, some, List, [], ◌∷◌, ◌++◌, String, ltb,
  if◌then◌else◌, ◌==◌ as nat_beq,
}
use Types.{
  Viewport, ClientKind, desktop_client, mobile_client, Mode, auto, desktop_mode, Driver, idle,
  desktop, mobile, Layout, desktop_layout, mobile_layout, Subscriber, SubscriberRecord, Timer,
  SessionState, Snapshot, Effect, resize, presence_changed, Update,
}

abbrev pub new_session : SessionState
new_session = record {
  driver = idle;
  layout = none;
  desktop_baseline = none;
  subscribers = [];
  soft_leave_timers = [];
}

abbrev same_size : Viewport → Viewport → Bool
same_size v w = nat_beq v.cols w.cols && nat_beq v.rows w.rows

pub same_layout : Option Layout → Layout → Bool
same_layout none b = false
same_layout (some (desktop_layout v)) (desktop_layout w) = same_size v w
same_layout (some (mobile_layout c v)) (mobile_layout d w) = same_size v w && c == d
same_layout (some (desktop_layout v)) (mobile_layout d w) = false
same_layout (some (mobile_layout c v)) (desktop_layout w) = false

-- The subscribers that are not leaving, without the flag.
pub present : List (String × SubscriberRecord) → List Subscriber
present [] = []
present ((c, r) ∷ rest) = if not r.leaving then r.subscriber ∷ present rest else present rest

abbrev is_mobile : ClientKind → Bool
is_mobile mobile_client = true
is_mobile desktop_client = false

pub active_mobile_subscribers : List (String × SubscriberRecord) → List SubscriberRecord
active_mobile_subscribers [] = []
active_mobile_subscribers ((c, r) ∷ rest) =
    if is_mobile r.kind && not r.leaving
    then r ∷ active_mobile_subscribers rest
    else active_mobile_subscribers rest

-- `.filter((candidate) => candidate.clientId !== clientId)`
pub others : String → List SubscriberRecord → List SubscriberRecord
others c [] = []
others c (r ∷ rs) = if r.client_id == c then others c rs else r ∷ others c rs

-- Whether `a` comes strictly before `b` in the order of `selectLatestActor`.
abbrev pub acted_later : SubscriberRecord → SubscriberRecord → Bool
acted_later a b =
    if nat_beq a.last_acted_at b.last_acted_at
    then ltb b.subscribed_at a.subscribed_at
    else ltb b.last_acted_at a.last_acted_at

-- The head of the stable sort: the first of those that come before all others.
unfoldable pub select_latest_actor : SubscriberRecord → List SubscriberRecord → SubscriberRecord
select_latest_actor best [] = best
select_latest_actor best (r ∷ rs) = select_latest_actor (if acted_later r best then r else best) rs

abbrev pub snapshot : String → SessionState → Snapshot
snapshot id s = record {
  session_id = id;
  driver = s.driver;
  layout = s.layout;
  subscribers = present s.subscribers;
}

abbrev pub changed : String → SessionState → List Effect
changed id s = presence_changed (snapshot id s) ∷ []

-- A method's new state with the effects of it, the snapshot of the new state last.
abbrev pub done : String → SessionState → List Effect → SessionState × Update
done id s effects = (s, record { snapshot = snapshot id s; effects = effects ++ changed id s })

abbrev stay : SubscriberRecord → SubscriberRecord
stay r = record r { leaving = false }

-- A change of a subscriber that is there.
pub adjust : (SubscriberRecord → SubscriberRecord) → String → SessionState → SessionState
adjust f c s = elim (lookup c s.subscribers) [
  | none ↦ s
  | some r ↦ record s { subscribers = insert c (f r) s.subscribers }
]

unfoldable pub cancel_soft_leave : String → SessionState → SessionState
unfolding adjust
cancel_soft_leave c s = elim (lookup c s.soft_leave_timers) [
  | none ↦ s
  | some timer ↦ adjust stay c (record s { soft_leave_timers = erase c s.soft_leave_timers })
]

abbrev resize_to : String → Viewport → List Effect
resize_to id v = resize id v.cols v.rows ∷ []

unfoldable pub apply_layout : String → Layout → Viewport → SessionState → SessionState × List Effect
unfolding same_layout
apply_layout id next v s = (
  record s { layout = some next },
  if not (same_layout s.layout next) then resize_to id v else [],
)

abbrev apply_mobile_layout : String → String → Viewport → SessionState → SessionState × List Effect
apply_mobile_layout id c v s = apply_layout id (mobile_layout c v) v s

abbrev floor_with : String → String → Option Viewport → SessionState → SessionState × List Effect
floor_with id c none s = (s, [])
floor_with id c (some v) s = apply_mobile_layout id c v (record s { driver = mobile c })

abbrev viewport_of : Option SubscriberRecord → Option Viewport
viewport_of none = none
viewport_of (some r) = r.viewport

unfoldable pub take_mobile_floor : String → String → SessionState → SessionState × List Effect
unfolding apply_layout
take_mobile_floor id c s = floor_with id c (viewport_of (lookup c s.subscribers)) s
