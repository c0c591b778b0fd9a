-- ===== src/ConnectionLifecycle/Tests.antt =====
-- A handshake that a refusal settles before the drop.
use parasor.Base.{ℕ, ◌≡◌, refl, [], ◌∷◌, ◌++◌, List}
use parasor.ConnectionLifecycle.Handshake.{
  Event, acks, refuses, drops, IsSound, Keeps, occur, occur_all, occur_all-IsSound,
}
use parasor.ConnectionLifecycle.{
  new_connection, dropped, rejected, apply_hello_ack, mark_ready, reject_handshake_only, drop,
}

abbrev before : List (Event ℕ)
before = acks 7 3 ∷ refuses 1 ∷ []

abbrev after : List (Event ℕ)
after = acks 8 4 ∷ drops 2 ∷ []

refusal_wins :
    occur_all (before ++ after) (new_connection {Error = ℕ})
    ≡ record { state = dropped; connection_id = 7; generation = 3; handshake = rejected 1 }
unfolding occur_all occur apply_hello_ack mark_ready reject_handshake_only drop
refusal_wins = refl

occur_all-IsSound_example :
    IsSound (occur_all before (new_connection {Error = ℕ}))
    × Keeps (occur_all before new_connection) (occur_all (before ++ after) new_connection)
occur_all-IsSound_example = occur_all-IsSound before after
