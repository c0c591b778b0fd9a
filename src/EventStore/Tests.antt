-- ===== src/EventStore/Tests.antt =====
-- A page with one project and one session.
use parasor.Base.Keyed.{find_by}
use parasor.Base.Classes.{string_eq}
use parasor.Base.{
  ℕ, ◌+◌, ◌≡◌, refl, inr, arith, true, false, none, some, List, [], ◌∷◌, String, length, map,
}
use parasor.EventBus.Delivery.{received, messages, StaysOpen, AllStayOpen}
use parasor.EventBus.Retention.{add_all}
use parasor.EventBus.{Bus, Event, adds, broadcasts, removes, delivered, has, occur_all}
use parasor.EventStore.Generations.{AllReach, AllTruthful, apply_all-AllReach}
use parasor.EventStore.Isolation.{view, concerns, view-apply_event}
use parasor.EventStore.Reducers.{apply_event, apply_snapshot}
use parasor.EventStore.Changes.{change_by}
use parasor.EventStore.Retention.{apply_all, notes, notifications-apply_snapshot}
use parasor.EventStore.Socket.{
  EventSocket, Frame, live, pong, enveloped, handle_message, handle_all, connect,
}
use parasor.EventStore.Stream.{AllNumbered, Follows, handle_all-Follows}
use parasor.EventStore.Delivery.{stamped, decode, IsLive, handle_all-received}
use parasor.EventStore.{
  AppStore, HydrationPayload, Message, session_restarted, session_ended, notification,
  browser_url_changed, ports_updated,
}
use parasor.InProcessHost.{Session, running}
use parasor.SessionPolicy.{server_crash, shell}

abbrev session : ℕ → Session
session generation = record {
  id = "s";
  project_id = "p";
  pid = some 10;
  state = running;
  generation = generation;
  title = "zsh";
  title_manual = false;
  command = shell;
  cwd = "/";
  shell = "zsh";
  launch_preset = none;
  created_at = 0;
  ended_at = none;
  end_reason = none;
  pinned = false;
}

abbrev payload : List String → HydrationPayload
payload notifications = record {
  seq = 4;
  projects = (record { id = "p"; created_at = 0; details = "" }) ∷ [];
  project_states = [];
  sessions = session 3 ∷ [];
  service_config = "";
  pane_commands = none;
  ide_commands = none;
  agent_states = [];
  notifications = notifications;
  ports = [];
  services = none;
  git_states = [];
  worktrees = none;
  activity_history = none;
  terminal_presences = none;
  mobile_session_snapshots = none;
  host_platform = "linux";
}

abbrev store : AppStore
store = apply_snapshot (payload [])

-- A late end of the generation 2, and the restart of the generation 4.
abbrev course : List (ℕ × Message)
course =
    (1, session_ended "s" 2 server_crash)
    ∷ (2, notification "n")
    ∷ (3, session_restarted (session 4) 4)
    ∷ []

course_restarted : (apply_all course store).sessions ≡ session 4 ∷ []
unfolding apply_all apply_event apply_snapshot change_by find_by
course_restarted = refl

abbrev bus : Bus
bus = record { clients = 7 ∷ []; seq = 4; notifications = "old" ∷ []; client_count_listeners = [] }

notifications-apply_snapshot_example :
    (apply_all course (apply_snapshot (payload ("old" ∷ [])))).notifications
    ≡ (apply_snapshot (payload (add_all (notes course) bus).notifications)).notifications
notifications-apply_snapshot_example =
    notifications-apply_snapshot course bus (payload ("old" ∷ []))
      (payload (add_all (notes course) bus).notifications) (omega arith) refl refl

apply_all-AllReach_example : AllReach "s" 3 (apply_all course store).sessions
unfolding AllReach AllTruthful apply_snapshot
apply_all-AllReach_example =
    apply_all-AllReach "s" 3 course store (tt, (tt, (refl, tt))) (inr (omega arith), tt)

view-apply_event_example :
    view "p" (apply_event 1 store (ports_updated "other" "[]")) ≡ view "p" store
unfolding concerns
view-apply_event_example = view-apply_event 1 store (ports_updated "other" "[]") "p" refl

abbrev page : EventSocket
page = record {
  phase = live 4;
  store = store;
  is_current = true;
  attempt = 0;
  established = true;
  retry = none;
}

abbrev url_at : ℕ → Message
url_at n = browser_url_changed "u"

-- The message 5 twice, and then the message 7.
abbrev frames : List (ℕ × Frame)
frames =
    (1, enveloped (record { seq = 5; message = browser_url_changed "u" }))
    ∷ (2, enveloped (record { seq = 5; message = browser_url_changed "u" }))
    ∷ (3, pong)
    ∷ (4, enveloped (record { seq = 7; message = browser_url_changed "u" }))
    ∷ []

given_up : (handle_all frames page).is_current ≡ false
unfolding handle_all handle_message
given_up = refl

handle_all-Follows_example : Follows url_at 4 store (handle_all frames page)
unfolding AllNumbered
handle_all-Follows_example =
    handle_all-Follows url_at frames 4 page (refl, (refl, (tt, (refl, tt)))) refl refl

abbrev parse_payload : String → HydrationPayload
parse_payload text = payload []

abbrev parse_message : String → Message
parse_message text = browser_url_changed text

abbrev clock : ℕ → ℕ
clock k = k

abbrev calls : List Event
calls = broadcasts "a" (λ c. delivered) ∷ removes 7 ∷ broadcasts "b" (λ c. delivered) ∷ []

handle_all-received_example :
    IsLive parse_payload parse_message clock
      (4 + length (messages calls))
      (apply_all
        (stamped clock 1 (map parse_message (messages calls)))
        (apply_snapshot (payload [])))
      (handle_all
        (stamped clock 0 (
          map
            (decode parse_payload parse_message clock)
            (received 8 (occur_all (adds 8 "now" ∷ calls) bus).1)))
        (connect page))
unfolding has AllStayOpen StaysOpen
handle_all-received_example =
    handle_all-received parse_payload parse_message clock 8 "now" calls bus page refl
      (refl, (refl, (refl, tt)))
