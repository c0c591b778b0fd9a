-- ===== src/EventBus/Tests.antt =====
-- Runs of the event bus: a client that sees two messages while others come, fail and go.
use parasor.Base.{ℕ, List, [], ◌∷◌, ◌≡◌, refl, if◌then◌else◌, ◌==◌}
use parasor.EventBus.{
  Bus, snapshot, envelope, Outcome, delivered, thrown, Event, adds, fails_to_add, removes,
  broadcasts, notifies, has, without, kept, deliver, occur, occur_all, add_notification, add_client,
}
use parasor.EventBus.Delivery.{received}

abbrev bus : Bus
bus = record {
  clients = 7 ∷ [];
  seq = 4;
  notifications = "old" ∷ [];
  client_count_listeners = 1 ∷ [];
}

-- The socket 7 fails.
abbrev outcome : ℕ → Outcome
outcome c = if c == 7 then thrown else delivered

abbrev course : List Event
course =
    broadcasts "a" outcome
    ∷ adds 9 "later"
    ∷ fails_to_add 10 "never"
    ∷ notifies "new"
    ∷ broadcasts "b" outcome
    ∷ removes 9
    ∷ []

received-course :
    received 8 (occur_all (adds 8 "now" ∷ course) bus).1
    ≡ snapshot 4 "now" ∷ envelope 5 "a" ∷ envelope 6 "b" ∷ []
unfolding received occur_all occur add_client has without kept deliver add_notification
received-course = refl
