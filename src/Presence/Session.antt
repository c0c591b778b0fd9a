-- ===== src/Presence/Session.antt =====
-- packages/server/src/pty/terminal-presence-manager.ts: the methods, on the state of one session.
use parasor.Base.Classes.{string_eq, ◌==◌}
use parasor.Base.Map.{lookup, insert, erase}
use parasor.Base.{
  ℕ, Bool, true, false, not, ◌&&◌, Option, none, some, List, [], ◌∷◌, String, if◌then◌else◌,
}
use parasor.Presence.Types.{
  Viewport, ClientKind, desktop_client, mobile_client, Mode, auto, desktop_mode, Driver, idle,
  desktop, mobile, desktop_layout, SubscriberRecord, Timer, SessionState, Effect, Update,
}
use parasor.Presence.{
  cancel_soft_leave, apply_layout, apply_mobile_layout, take_mobile_floor, snapshot, changed, done,
  active_mobile_subscribers, others, select_latest_actor, viewport_of,
}

abbrev pub is_desktop : Driver → Bool
is_desktop desktop = true
is_desktop _ = false

abbrev pub is_auto : Mode → Bool
is_auto auto = true
is_auto desktop_mode = false

-- `driver.kind === "mobile" && driver.clientId === clientId`
abbrev pub driven_by : String → Driver → Bool
driven_by c (mobile d) = d == c
driven_by c _ = false

abbrev pub is_driven_mobile : Driver → Bool
is_driven_mobile (mobile d) = true
is_driven_mobile _ = false

-- The effects of a step in the middle of a method, then the snapshot.
abbrev pub finish : String → SessionState × List Effect → SessionState × Update
finish id (s, effects) = done id s effects

abbrev pub subscribed_before : Option SubscriberRecord → ℕ → ℕ
subscribed_before none at = at
subscribed_before (some r) at = r.subscribed_at

abbrev pub acted_before : Option SubscriberRecord → ℕ → ℕ
acted_before none at = at
acted_before (some r) at = r.last_acted_at

-- Whether a subscription takes the floor.
abbrev pub takes_floor : Mode → Driver → Bool
takes_floor mode driver = is_auto mode && not (is_desktop driver)

abbrev pub subscription : String → Viewport → Bool → Option SubscriberRecord → ℕ → SubscriberRecord
subscription c viewport acts existing at = record {
  subscriber = record {
    client_id = c;
    kind = mobile_client;
    viewport = some viewport;
    subscribed_at = subscribed_before existing at;
    last_acted_at = if acts then at else acted_before existing at;
  };
  leaving = false;
}

-- The state with the subscription in the map, before the floor is taken.
unfoldable pub subscribed : String → Viewport → Mode → ℕ → SessionState → SessionState
subscribed c viewport mode at s =
    let s' = cancel_soft_leave c s in
    let r = subscription c viewport (takes_floor mode s'.driver) (lookup c s'.subscribers) at in
    record s' { subscribers = insert c r s'.subscribers }

unfoldable pub subscribe_mobile :
    String → String → Viewport → Mode → ℕ → SessionState → SessionState × Update
subscribe_mobile id c viewport mode at s =
    let s' = subscribed c viewport mode at s in
    finish id (if takes_floor mode s'.driver then take_mobile_floor id c s' else (s', []))

abbrev pub with_viewport : Viewport → SubscriberRecord → SubscriberRecord
with_viewport v r = record {
  subscriber = record {
    client_id = r.client_id;
    kind = r.kind;
    viewport = some v;
    subscribed_at = r.subscribed_at;
    last_acted_at = r.last_acted_at;
  };
  leaving = false;
}

unfoldable pub update_mobile_viewport :
    String → String → Viewport → SessionState → SessionState × Update
update_mobile_viewport id c viewport s = elim (lookup c s.subscribers) [
  | none ↦ finish id (s, [])
  | some r ↦
      let s' : SessionState = record s {
        subscribers = insert c (with_viewport viewport r) s.subscribers;
      } in
      finish id (if driven_by c s.driver then apply_mobile_layout id c viewport s' else (s', []))
]

abbrev pub acted : ℕ → SubscriberRecord → SubscriberRecord
acted at r = record {
  subscriber = record {
    client_id = r.client_id;
    kind = r.kind;
    viewport = r.viewport;
    subscribed_at = r.subscribed_at;
    last_acted_at = at;
  };
  leaving = false;
}

-- `if (subscriber?.viewport)`
abbrev pub act :
    String
    → String
    → ℕ
    → SessionState
    → Option SubscriberRecord
    → Option Viewport
    → SessionState × List Effect
act id c at s (some r) (some v) =
    take_mobile_floor id c (record s { subscribers = insert c (acted at r) s.subscribers })
act id c at s _ _ = (s, [])

unfoldable pub mark_mobile_acted : String → String → ℕ → SessionState → SessionState × Update
mark_mobile_acted id c at s =
    let s' = cancel_soft_leave c s in
    let r = lookup c s'.subscribers in finish id (act id c at s' r (viewport_of r))

abbrev pub leave : SubscriberRecord → SubscriberRecord
leave r = record r { leaving = true }

-- The last client goes: it is kept for a while as leaving.
unfoldable pub soft_leave : String → SubscriberRecord → SessionState → SessionState
soft_leave c r s =
    let s' = cancel_soft_leave c (record s { subscribers = insert c (leave r) s.subscribers }) in
    record s' { soft_leave_timers = insert c (record { armed = true }) s'.soft_leave_timers }

-- Another client remains: the floor goes to the one that acted last.
unfoldable pub hand_over :
    String
    → String
    → SubscriberRecord
    → List SubscriberRecord
    → SessionState
    → SessionState × List Effect
hand_over id c first rest s =
    let s' = cancel_soft_leave c (record s { subscribers = erase c s.subscribers }) in
    let next = select_latest_actor first rest in
    if driven_by c s.driver then take_mobile_floor id next.client_id s' else (s', [])

unfoldable pub unsubscribe_mobile : String → String → SessionState → SessionState × Update
unsubscribe_mobile id c s = elim (lookup c s.subscribers) [
  | none ↦ (s, record { snapshot = snapshot id s; effects = [] })
  | some r ↦ elim (others c (active_mobile_subscribers s.subscribers)) [
    | first ∷ rest ↦ finish id (hand_over id c first rest s)
    | [] ↦ finish id (soft_leave c r s, [])
  ]
]

abbrev pub settle : SessionState → List SubscriberRecord → SessionState
settle s [] = if is_driven_mobile s.driver then record s { driver = idle; layout = none } else s
settle s (r ∷ rs) = s

-- The timer of a client has fired.
abbrev pub disarm : String → List (String × Timer) → List (String × Timer)
disarm c [] = []
disarm c ((d, timer) ∷ rest) =
    (d, if d == c then record { armed = false } else timer) ∷ disarm c rest

abbrev pub fired : String → SessionState → SessionState
fired c s = record s { soft_leave_timers = disarm c s.soft_leave_timers }

-- The callback of the timer, on a subscriber that is leaving or not.
abbrev pub expire : String → String → SessionState → Bool → SessionState × List Effect
expire id c s false = (fired c s, [])
expire id c s true =
    let s' : SessionState = record s {
      subscribers = erase c s.subscribers;
      soft_leave_timers = erase c s.soft_leave_timers;
    } in
    let s'' = settle s' (active_mobile_subscribers s'.subscribers) in (s'', changed id s'')

abbrev pub is_leaving : Option SubscriberRecord → Bool
is_leaving none = false
is_leaving (some r) = r.leaving

-- The event loop runs the callback of an armed timer.
unfoldable pub soft_leave_elapsed : String → String → SessionState → SessionState × List Effect
soft_leave_elapsed id c s = expire id c s (is_leaving (lookup c s.subscribers))

unfoldable pub record_desktop_geometry : String → Viewport → SessionState → SessionState × Update
record_desktop_geometry id viewport s =
    let s' : SessionState = record s { desktop_baseline = some viewport } in
    finish id (
      if not (is_driven_mobile s.driver)
          then record s' { layout = some (desktop_layout viewport) }
          else s',
      [],
    )

abbrev pub reclaim_layout : String → Option Viewport → SessionState → SessionState × List Effect
reclaim_layout id none s = (s, [])
reclaim_layout id (some v) s = apply_layout id (desktop_layout v) v s

unfoldable pub reclaim_for_desktop : String → SessionState → SessionState × Update
reclaim_for_desktop id s =
    finish id (reclaim_layout id s.desktop_baseline (record s { driver = desktop }))

abbrev pub stays : Option SubscriberRecord → Bool
stays none = false
stays (some r) = not r.leaving

unfoldable pub can_write : ClientKind → String → SessionState → Bool
can_write mobile_client c s = stays (lookup c s.subscribers)
can_write desktop_client c s = not (is_driven_mobile s.driver)
