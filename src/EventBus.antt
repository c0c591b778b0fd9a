-- ===== src/EventBus.antt =====
-- server/src/ws/events.ts: class `EventBus`, which numbers the messages of the server and passes them on to the event
-- sockets. A socket, a listener and a message stand as a number and as JSON text. `addClient` waits for a
-- lock and then runs without a pause, so it is one step, of a call that has got the lock.
pub mod Delivery
pub mod Retention
mod Tests
use parasor.Base.{
  ℕ, zero, suc, ◌+◌, ◌-◌, Bool, true, false, not, List, [], ◌∷◌, ◌++◌, map, String, if◌then◌else◌,
  ◌==◌, ltb, length, drop,
}

abbrev pub notification_retention_limit : ℕ
notification_retention_limit = 200

pub record Bus : Type 0 where
  pub clients : List ℕ
  pub seq : ℕ
  pub notifications : List String
  pub client_count_listeners : List ℕ

-- What a client is sent: the state at a number, or a numbered message.
pub data Data : Type 0 where
  snapshot : ℕ → String → Data
  envelope : ℕ → String → Data

pub data Effect : Type 0 where
  sends : ℕ → Data → Effect
  counts : ℕ → ℕ → Effect

-- What a send meets: a socket that is not open, one that takes the data, or an error.
pub data Outcome : Type 0 where
  not_open : Outcome
  delivered : Outcome
  thrown : Outcome

unfoldable pub add_notification : String → Bus → Bus
add_notification n b =
    let notifications = b.notifications ++ n ∷ [] in
    record b {
      notifications = drop (length notifications - notification_retention_limit) notifications;
    }

unfoldable pub has : ℕ → List ℕ → Bool
has c [] = false
has c (d ∷ ds) = if c == d then true else has c ds

unfoldable pub without : ℕ → List ℕ → List ℕ
without c [] = []
without c (d ∷ ds) = let rest = without c ds in if c == d then rest else d ∷ rest

abbrev pub emit_client_count : Bus → List Effect
emit_client_count b = map (λ listener. counts listener (length b.clients)) b.client_count_listeners

abbrev pub in_set : ℕ → Bus → Bus
in_set c b = record b { clients = if has c b.clients then b.clients else b.clients ++ c ∷ [] }

-- `payload` is what the sources give, or the empty state where there are none. A send that throws leaves the socket in the
-- set and tells nobody; it also leaves the lock taken, so no later call of `addClient` gets here.
unfoldable pub add_client : ℕ → String → Bool → Bus → Bus × List Effect
add_client c payload sent b =
    let after = in_set c b in
    if sent
    then (after, sends c (snapshot b.seq payload) ∷ emit_client_count after)
    else (after, [])

abbrev pub remove_client : ℕ → Bus → Bus × List Effect
remove_client c b =
    let after = record b { clients = without c b.clients } in
    (after, if has c b.clients then emit_client_count after else [])

-- The loop over the clients: what is sent, and who stays.
abbrev pub send_to : Outcome → ℕ → Data → List Effect → List Effect
send_to not_open c data' rest = rest
send_to delivered c data' rest = sends c data' ∷ rest
send_to thrown c data' rest = rest

unfoldable pub deliver : (ℕ → Outcome) → Data → List ℕ → List Effect
deliver outcome data' [] = []
deliver outcome data' (c ∷ cs) = send_to (outcome c) c data' (deliver outcome data' cs)

abbrev pub keep : Outcome → ℕ → List ℕ → List ℕ
keep not_open c rest = c ∷ rest
keep delivered c rest = c ∷ rest
keep thrown c rest = rest

unfoldable pub kept : (ℕ → Outcome) → List ℕ → List ℕ
kept outcome [] = []
kept outcome (c ∷ cs) = keep (outcome c) c (kept outcome cs)

abbrev pub broadcast : String → (ℕ → Outcome) → Bus → Bus × List Effect
broadcast message outcome b =
    let after = record b { seq = b.seq + 1; clients = kept outcome b.clients } in
    let sent = deliver outcome (envelope after.seq message) b.clients in
    (
      after,
      if ltb (length after.clients) (length b.clients)
          then sent ++ emit_client_count after
          else sent,
    )

pub data Event : Type 0 where
  adds : ℕ → String → Event
  fails_to_add : ℕ → String → Event
  removes : ℕ → Event
  broadcasts : String → (ℕ → Outcome) → Event
  notifies : String → Event

unfoldable pub occur : Event → Bus → Bus × List Effect
occur (adds c payload) b = add_client c payload true b
occur (fails_to_add c payload) b = add_client c payload false b
occur (removes c) b = remove_client c b
occur (broadcasts message outcome) b = broadcast message outcome b
occur (notifies n) b = (add_notification n b, [])

unfoldable pub occur_all : List Event → Bus → Bus × List Effect
occur_all [] b = (b, [])
occur_all (e ∷ es) b =
    let next = occur e b in let later = occur_all es next.0 in (later.0, next.1 ++ later.1)
