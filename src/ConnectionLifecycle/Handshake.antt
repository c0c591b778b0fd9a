-- ===== src/ConnectionLifecycle/Handshake.antt =====
-- The handshake over any course of calls.
use parasor.Base.{ℕ, ◌≡◌, refl, ap, ◌∙◌, Bool, true, false, List, [], ◌∷◌, ◌++◌, arith, ◌≤◌}
use parasor.ConnectionLifecycle.{
  RemoteConnState, connecting, snapshot_pending, ready, dropped, Deferred, pending, resolved,
  Connection, new_connection, is_connecting, is_awaiting_handshake, apply_hello_ack, mark_ready,
  reject_handshake_only, drop,
}

pub data Event (Error : Type 0) : Type 0 where
  acks : ℕ → ℕ → Event Error
  lists : Event Error
  refuses drops : Error → Event Error

module _ {Error : Type 0} where
  unfoldable pub occur : Event Error → Connection Error → Connection Error
  unfolding apply_hello_ack mark_ready reject_handshake_only drop
  occur (acks id generation) c = (apply_hello_ack id generation c).0
  occur lists c = (mark_ready c).0
  occur (refuses err) c = reject_handshake_only err c
  occur (drops err) c = (drop err c).0

  unfoldable pub occur_all : List (Event Error) → Connection Error → Connection Error
  occur_all [] c = c
  occur_all (e ∷ es) c = occur_all es (occur e c)

abbrev pub is_pending : {Error : Type 0} → Deferred Error → Bool
is_pending pending = true
is_pending _ = false

abbrev pub is_resolved : {Error : Type 0} → Deferred Error → Bool
is_resolved resolved = true
is_resolved _ = false

abbrev pub rank : RemoteConnState → ℕ
rank connecting = 0
rank snapshot_pending = 1
rank ready = 2
rank dropped = 3

-- A connection that is ready or dropped lets no one wait for its handshake; the handshake is not resolved before; and a
-- connection that waits for the acknowledgement has no identity yet.
pub record IsSound {Error : Type 0} (c : Connection Error) : Type 0 where
  pub answered : is_awaiting_handshake c ≡ false → is_pending c.handshake ≡ false
  pub truthful : is_awaiting_handshake c ≡ true → is_resolved c.handshake ≡ false
  pub nameless : is_connecting c.state ≡ true → (c.connection_id ≡ 0) × (c.generation ≡ 0)

-- What never changes again: the state never goes back; once the acknowledgement has come, the identity stays; once the
-- handshake is settled, it stays as it is.
pub record Keeps {Error : Type 0} (c c' : Connection Error) : Type 0 where
  pub forward : rank c.state ≤ rank c'.state
  pub named :
      is_connecting c.state ≡ false
      → (c'.connection_id ≡ c.connection_id) × (c'.generation ≡ c.generation)
  pub settled : is_pending c.handshake ≡ false → c'.handshake ≡ c.handshake

module _ {Error : Type 0} where
  occur-IsSound : (e : Event Error) (c : Connection Error) → IsSound c → IsSound (occur e c)
  unfolding occur
  occur-IsSound (acks id generation) c v = ground arith
  occur-IsSound lists c v = ground arith
  occur-IsSound (refuses err) c v = ground arith
  occur-IsSound (drops err) c v = ground arith

  occur-Keeps : (e : Event Error) (c : Connection Error) → Keeps c (occur e c)
  unfolding occur
  occur-Keeps (acks id generation) c = ground arith
  occur-Keeps lists c = ground arith
  occur-Keeps (refuses err) c = ground arith
  occur-Keeps (drops err) c = ground arith

  Keeps-connecting :
      (c c' : Connection Error)
      → Keeps c c'
      → is_connecting c.state ≡ false
      → is_connecting c'.state ≡ false
  Keeps-connecting c c' k e = ground arith

  occur_all-Keeps :
      (es : List (Event Error)) (c : Connection Error)
      → IsSound c
      → IsSound (occur_all es c) × Keeps c (occur_all es c)
  unfolding occur_all
  occur_all-Keeps [] c v = (v, ground arith)
  occur_all-Keeps (e ∷ es) c v =
      let step = occur-Keeps e c in
      let rest = occur_all-Keeps es (occur e c) (occur-IsSound e c v) in
      (
        rest.0,
        record {
          forward = omega (arith, step.forward, rest.1.forward);
          named = λ n.
              let m = Keeps-connecting c (occur e c) step n in
              let first = step.named n in
              let then_ = rest.1.named m in (then_.0 ∙ first.0, then_.1 ∙ first.1);
          settled =
              λ n. let first = step.settled n in rest.1.settled (ap is_pending first ∙ n) ∙ first;
        },
      )

  occur_all-append :
      (es fs : List (Event Error)) (c : Connection Error)
      → occur_all (es ++ fs) c ≡ occur_all fs (occur_all es c)
  unfolding occur_all
  occur_all-append [] fs c = refl
  occur_all-append (e ∷ es) fs c = occur_all-append es fs (occur e c)

  new_connection-IsSound : IsSound (new_connection {Error = Error})
  new_connection-IsSound = ground arith

  -- After any acknowledgements, session lists, refusals and drops, in any order: the handshake is settled once the connection is
  -- ready or dropped, and it is not resolved before that; there is no identity before the acknowledgement; and what comes later
  -- never takes the state back, changes the identity that the first acknowledgement gave, or settles the handshake a second
  -- time.
  pub occur_all-IsSound :
      (es fs : List (Event Error))
      → IsSound (occur_all es new_connection)
        × Keeps (occur_all es new_connection) (occur_all (es ++ fs) new_connection)
  occur_all-IsSound es fs =
      let sound = (occur_all-Keeps es new_connection new_connection-IsSound).0 in
      (
        sound,
        rw (occur_all-append es fs new_connection)
            (occur_all-Keeps fs (occur_all es new_connection) sound).1,
      )
