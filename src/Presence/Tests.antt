-- ===== src/Presence/Tests.antt =====
-- The presence of two phones in one session.
use parasor.Base.Classes.{string_eq}
use parasor.Base.Map.{lookup, insert, erase}
use parasor.Base.{ℕ, ◌≡◌, refl, [], ◌∷◌, some, none, true, false, String, List}
use parasor.Presence.Calls.{Leaves, subscribes, unsubscribes, acts, elapses, run_call}
use parasor.Presence.Courses.{run_all, own, serve_all, run_all-own}
use parasor.Presence.Layouts.{run_call-Leaves}
use parasor.Presence.Manager.{
  PresenceManager, Request, run, calls, resets, get_or_create, on_session, reset_session,
}
use parasor.Presence.Session.{
  subscribe_mobile, unsubscribe_mobile, mark_mobile_acted, soft_leave_elapsed, subscribed,
  soft_leave,
}
use parasor.Presence.Stuck.{IsKept, unsubscribe_twice, IsStuck, elapsed-IsStuck}
use parasor.Presence.Types.{
  Viewport, SessionState, SubscriberRecord, auto, desktop_mode, mobile, mobile_client,
  mobile_layout,
}
use parasor.Presence.{
  new_session, cancel_soft_leave, take_mobile_floor, apply_layout, active_mobile_subscribers,
  others,
}

abbrev small : Viewport
small = record { cols = 40; rows = 20 }

abbrev phone : String → ℕ → SubscriberRecord
phone c at = record {
  subscriber = record {
    client_id = c;
    kind = mobile_client;
    viewport = some small;
    subscribed_at = at;
    last_acted_at = at;
  };
  leaving = false;
}

abbrev leaving_phone : SubscriberRecord
leaving_phone = record (phone "a" 1) { leaving = true }

-- One phone drives.
abbrev alone : SessionState
alone = record {
  driver = mobile "a";
  layout = some (mobile_layout "a" small);
  desktop_baseline = none;
  subscribers = ("a", phone "a" 1) ∷ [];
  soft_leave_timers = [];
}

-- It has unsubscribed, and its window is open.
abbrev closing : SessionState
closing = record alone {
  subscribers = ("a", leaving_phone) ∷ [];
  soft_leave_timers = ("a", record { armed = true }) ∷ [];
}

-- Another phone watches it go.
abbrev watched : SessionState
watched = record closing { subscribers = ("a", leaving_phone) ∷ ("b", phone "b" 2) ∷ [] }

subscription_reached : (subscribe_mobile "s" "a" small auto 1 new_session).0 ≡ alone
unfolding subscribe_mobile subscribed cancel_soft_leave take_mobile_floor apply_layout lookup insert
subscription_reached = refl

closing_reached : (unsubscribe_mobile "s" "a" alone).0 ≡ closing
unfolding unsubscribe_mobile soft_leave cancel_soft_leave active_mobile_subscribers others lookup
    insert
closing_reached = refl

watched_reached : (subscribe_mobile "s" "b" small desktop_mode 2 closing).0 ≡ watched
unfolding subscribe_mobile subscribed cancel_soft_leave take_mobile_floor apply_layout lookup insert
watched_reached = refl

run_call-Leaves_example :
    Leaves
      (subscribes "b" small auto 3)
      small
      alone
      (run_call "s" (subscribes "b" small auto 3) alone)
run_call-Leaves_example =
    run_call-Leaves "s" (subscribes "b" small auto 3) small alone
      (record { owns = (small, refl); tracks = refl })

unsubscribe_twice_example :
    IsKept "a" closing (soft_leave_elapsed "s" "a" (unsubscribe_mobile "s" "a" closing).0).0
unfolding lookup others active_mobile_subscribers
unsubscribe_twice_example =
    unsubscribe_twice "s" "a" closing leaving_phone (record { armed = true }) refl refl refl

elapsed-IsStuck_example : IsStuck "a" "d" (soft_leave_elapsed "s" "a" watched).0
unfolding lookup others active_mobile_subscribers
elapsed-IsStuck_example =
    elapsed-IsStuck "s" "a" "d" watched leaving_phone (phone "b" 2) [] (refl, (refl, tt)) refl refl
      refl refl

abbrev one_session : PresenceManager
one_session = record { sessions = ("s", alone) ∷ [] }

-- A phone comes and goes, its session is reset before the window has passed, and its timer fires late; in between
-- another session is used.
abbrev course : List (String × Request)
course =
    ("t", calls (subscribes "b" small auto 1))
    ∷ ("s", calls (unsubscribes "a"))
    ∷ ("s", resets)
    ∷ ("t", calls (acts "b" 4))
    ∷ ("s", calls (elapses "a"))
    ∷ []

run_all-own_example :
    (lookup "s" (run_all course one_session).0.sessions
      ≡ (serve_all "s" (own "s" course) (lookup "s" one_session.sessions)).0)
    × (own "s" (run_all course one_session).1
        ≡ (serve_all "s" (own "s" course) (lookup "s" one_session.sessions)).1)
run_all-own_example = run_all-own "s" course one_session

-- The late timer creates nothing.
stays_absent : lookup "s" (run_all course one_session).0.sessions ≡ none
unfolding run_all run get_or_create on_session reset_session subscribe_mobile unsubscribe_mobile
    mark_mobile_acted soft_leave_elapsed subscribed cancel_soft_leave take_mobile_floor apply_layout
    soft_leave active_mobile_subscribers others lookup insert erase
stays_absent = refl
