-- ===== src/TerminalRelay/Flow.antt =====
-- The host's bit of a client follows the two reasons to pause.
use parasor.Base.{ℕ, ◌≡◌, ◌≤◌, refl, ◌||◌, Bool, true, false, List, [], ◌∷◌, if◌then◌else◌, arith}
use parasor.TerminalRelay.{
  RelayState, Effect, pause_output, resume_output, close, apply_server_backpressure, drain_poll,
  flow_pause, flow_resume, backpressure_low_water,
}

-- The relay, the host's `flowPaused` of its client, and whether the socket is open.
pub record World : Type 0 where
  pub relay : RelayState
  pub flow_paused : Bool
  pub is_open : Bool

-- The host takes an effect; a socket that is closed does not get open again.
abbrev pub perform : World → List Effect → World
perform w [] = w
perform w (pause_output ∷ es) = perform (record w { flow_paused = true }) es
perform w (resume_output ∷ es) = perform (record w { flow_paused = false }) es
perform w (close code ∷ es) = perform (record w { is_open = false }) es

abbrev pub after : World → RelayState × List Effect → World
after w (s, es) = perform (record w { relay = s }) es

pub data Event : Type 0 where
  relays polls : ℕ → Event
  pauses resumes closes : Event

-- A poll comes only while its timer is armed.
unfoldable pub occur : Event → World → World
occur (relays buffered) w = after w (apply_server_backpressure buffered w.relay)
occur (polls depth) w =
    if w.relay.drain_timer then after w (drain_poll w.is_open depth w.relay) else w
occur pauses w = after w (flow_pause w.relay)
occur resumes w = after w (flow_resume w.relay)
occur closes w = record w { is_open = false }

unfoldable pub occur_all : List Event → World → World
occur_all [] w = w
occur_all (e ∷ es) w = occur_all es (occur e w)

abbrev pub attached : World
attached = record {
  relay = record { client_paused = false; server_paused = false; drain_timer = false };
  flow_paused = false;
  is_open = true;
}

-- The poll runs while the server pauses, and the host's bit says whether either reason holds.
pub record IsSynced (w : World) : Type 0 where
  pub polled : w.relay.drain_timer ≡ w.relay.server_paused
  pub agrees : w.is_open ≡ true → w.flow_paused ≡ (w.relay.client_paused || w.relay.server_paused)

occur-IsSynced : (e : Event) (w : World) → IsSynced w → IsSynced (occur e w)
unfolding occur apply_server_backpressure drain_poll flow_pause flow_resume
occur-IsSynced (relays buffered) w v = record {
  polled = grind (arith, v.polled);
  agrees = λ o. grind (arith, v.agrees);
}
occur-IsSynced (polls depth) w v = record {
  polled = grind (arith, v.polled);
  agrees = λ o. grind (arith, v.agrees, v.polled);
}
occur-IsSynced pauses w v = record {
  polled = grind (arith, v.polled);
  agrees = λ o. grind (arith, v.agrees);
}
occur-IsSynced resumes w v = record {
  polled = grind (arith, v.polled);
  agrees = λ o. grind (arith, v.agrees);
}
occur-IsSynced closes w v = record { polled = v.polled; agrees = λ o. grind arith }

occur_all-from : (es : List Event) (w : World) → IsSynced w → IsSynced (occur_all es w)
unfolding occur_all
occur_all-from [] w v = v
occur_all-from (e ∷ es) w v = occur_all-from es (occur e w) (occur-IsSynced e w v)

-- After any chunks that are relayed, polls, and pauses and resumes of the client: the drain poll is armed
-- exactly while the server pauses, and on an open socket the host has the client paused exactly while
-- the client or the server wants it.
occur_all-IsSynced : (es : List Event) → IsSynced (occur_all es attached)
occur_all-IsSynced es = occur_all-from es attached (record { polled = refl; agrees = λ o. refl })

-- What is left of a pause when the server's reason is gone.
pub record IsReleased (client_paused : Bool) (w : World) : Type 0 where
  pub released : w.relay.server_paused ≡ false
  pub idle : w.relay.drain_timer ≡ false
  pub follows : w.flow_paused ≡ client_paused

poll-IsReleased :
    (depth : ℕ) (w : World)
    → IsSynced w
    → w.is_open ≡ true
    → depth ≤ backpressure_low_water
    → IsReleased w.relay.client_paused (occur (polls depth) w)
unfolding occur drain_poll
poll-IsReleased depth w v o l = record {
  released = grind (arith, v.polled, l, o);
  idle = grind (arith, v.polled, l, o);
  follows = grind (arith, v.polled, v.agrees o, l, o);
}

-- Whatever came before on a socket that is still open: once a poll finds its send buffer drained, the
-- server does not pause any more, the poll is stopped, and the host's bit is the client's own wish.
pub polls-IsReleased :
    (es : List Event) (depth : ℕ)
    → (occur_all es attached).is_open ≡ true
    → depth ≤ backpressure_low_water
    → IsReleased
        (occur_all es attached).relay.client_paused
        (occur (polls depth) (occur_all es attached))
polls-IsReleased es depth o l =
    poll-IsReleased depth (occur_all es attached) (occur_all-IsSynced es) o l
