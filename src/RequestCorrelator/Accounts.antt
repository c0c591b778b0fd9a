-- ===== src/RequestCorrelator/Accounts.antt =====
-- Each request is settled once.
use mathlib.Core.List.{append_assoc}
use parasor.RequestCorrelator.Times.{times, times-++, times-erase, times-insert, lookup-times}
use parasor.Base.Classes.{nat_eq, ◌==◌}
use parasor.Base.Map.{lookup}
use parasor.Base.Bytes.{Bytes}
use parasor.Base.{
  ℕ, ◌+◌, ◌≡◌, ◌≤◌, refl, ap, Bool, true, false, ◌&&◌, Option, none, some, List, [], ◌∷◌, ◌++◌,
  if◌then◌else◌, arith, leb, ltb,
}
use parasor.HostProtocol.Frame.{Frame, to_nat}
use parasor.RequestCorrelator.{
  PendingRequest, Deps, Correlator, new_correlator, Settlement, resolved, rejected, Settled,
  request, without, settle_entry, ack, nack, timed_out, reject_each, reject_all,
}

-- What can happen to a correlator.
pub data Event (E : Type 0) : Type 0 where
  requests : ℕ → Bytes → Event E
  acked : Frame → Event E
  nacked : ℕ → E → Event E
  times_out : ℕ → Event E
  drops : E → Event E

module _ {E : Type 0} where
  abbrev pub occur : Deps E → Event E → Correlator → Correlator × Settled E
  occur deps (requests type payload) c = ((request deps type payload c).0, [])
  occur deps (acked frame) c = let (c', (known, s)) = ack frame c in (c', s)
  occur deps (nacked id error) c = let (c', (known, s)) = nack id error c in (c', s)
  occur deps (times_out id) c = let (c', (known, s)) = timed_out deps id c in (c', s)
  occur deps (drops error) c = reject_all error c

  -- All that is settled by a sequence of events, in order.
  unfoldable pub occur_all : Deps E → List (Event E) → Correlator → Correlator × Settled E
  occur_all deps [] c = (c, [])
  occur_all deps (e ∷ es) c =
      let (c', now) = occur deps e c in
      let (c'', later) = occur_all deps es c' in (c'', now ++ later)

-- 1 for an id that has been given to a request, else 0.
abbrev pub assigned : ℕ → ℕ → ℕ
assigned id next_id = if leb 1 id && ltb id next_id then 1 else 0

-- Each id that was given to a request is pending or settled, once, and no other id is.
pub record Accounts {E : Type 0} (c : Correlator) (settled : Settled E) : Type 0 where
  pub positive : 1 ≤ c.next_id
  pub once : (id : ℕ) → times id settled + times id c.pending ≡ assigned id c.next_id

-- What a list of settlements leaves of the pending entries: each id is in the one or in the other.
abbrev Moves : {E : Type 0} → Correlator → Correlator × Settled E → Type 0
Moves c (c', s) =
    (c'.next_id ≡ c.next_id) × ((id : ℕ) → times id s + times id c'.pending ≡ times id c.pending)

module _ {E : Type 0} where
  moved :
      (c : Correlator) (l : Settled E) (x : Correlator × Settled E)
      → Accounts c l
      → Moves c x
      → Accounts x.0 (l ++ x.1)
  moved c l (c', s) v (same, m) = record {
    positive = rw same v.positive;
    once = λ id. omega (arith, times-++ id l s, m id, v.once id, ap (assigned id) same);
  }

  only : (c : Correlator) (l : Settled E) → Accounts c l → (id : ℕ) → times id c.pending ≤ 1
  only c l v id = ground (arith, v.once id)

  settle_entry-Moves :
      (c : Correlator) (l : Settled E) (id : ℕ) (with : Settlement E) (o : Option PendingRequest)
      → Accounts c l
      → lookup id c.pending ≡ o
      → Moves c ((settle_entry id with c o).0, (settle_entry id with c o).1.1)
  unfolding times
  settle_entry-Moves c l id with none v e = (refl, λ j. omega arith)
  settle_entry-Moves c l id with (some entry) v e = (
    refl,
    λ j.
        ground (arith, times-erase id j c.pending, only c l v j, lookup-times id entry c.pending e),
  )

  reject_each-next_id :
      (error : E) (m : List (ℕ × PendingRequest)) (c : Correlator)
      → (reject_each error m c).0.next_id ≡ c.next_id
  unfolding reject_each
  reject_each-next_id error [] c = refl
  reject_each-next_id error ((j, entry) ∷ m) c = reject_each-next_id error m (without j c)

  reject_each-settled :
      (error : E) (id : ℕ) (m : List (ℕ × PendingRequest)) (c : Correlator)
      → times id (reject_each error m c).1 ≡ times id m
  unfolding reject_each times
  reject_each-settled error id [] c = refl
  reject_each-settled error id ((j, entry) ∷ m) c =
      omega (arith, reject_each-settled error id m (without j c))

  reject_each-pending :
      (error : E) (id : ℕ) (m : List (ℕ × PendingRequest)) (c : Correlator)
      → times id (reject_each error m c).0.pending
        ≡ (if times id m == 0 then times id c.pending else 0)
  unfolding reject_each times
  reject_each-pending error id [] c = refl
  reject_each-pending error id ((j, entry) ∷ m) c =
      ground (arith, reject_each-pending error id m (without j c), times-erase j id c.pending)

  -- A dropped connection leaves no request pending, and settles each of those that were.
  reject_all-empties :
      (error : E) (id : ℕ) (c : Correlator)
      → (times id (reject_all error c).0.pending ≡ 0)
        × (times id (reject_all error c).1 ≡ times id c.pending)
  unfolding reject_all
  reject_all-empties error id c = (
    ground (arith, reject_each-pending error id c.pending c),
    reject_each-settled error id c.pending c,
  )

  request-Accounts :
      (deps : Deps E) (type : ℕ) (payload : Bytes) (c : Correlator) (l : Settled E)
      → Accounts c l
      → Accounts (request deps type payload c).0 (l ++ [])
  unfolding request times
  request-Accounts deps type payload c l v = record {
    positive = omega (arith, v.positive);
    once = λ id. ground (
      arith,
      times-++ id l [],
      times-insert c.next_id id (record { timer = deps.timeout_ms }) c.pending
          (ground (arith, v.once c.next_id)),
      v.once id,
      v.positive,
    );
  }

  nack-Moves :
      (id : ℕ) (error : E) (c : Correlator) (l : Settled E)
      → Accounts c l
      → Moves c ((nack id error c).0, (nack id error c).1.1)
  unfolding nack times
  nack-Moves id error c l v = go (id == 0)
    where
      x : Correlator × (Bool × Settled E)
      x = settle_entry id (rejected error) c (lookup id c.pending)

      y : Bool → Correlator × (Bool × Settled E)
      y b = if b then (c, (false, [])) else x

      go : (b : Bool) → Moves c ((y b).0, (y b).1.1)
      go true = (refl, λ j. omega arith)
      go false = settle_entry-Moves c l id (rejected error) (lookup id c.pending) v refl

  occur-Accounts :
      (deps : Deps E) (e : Event E) (c : Correlator) (l : Settled E)
      → Accounts c l
      → Accounts (occur deps e c).0 (l ++ (occur deps e c).1)
  unfolding ack timed_out reject_all
  occur-Accounts deps (requests type payload) c l v = request-Accounts deps type payload c l v
  occur-Accounts deps (acked frame) c l v =
      let id = to_nat frame.request_id in
      moved c l (occur deps (acked frame) c) v
        (settle_entry-Moves c l id (resolved frame) (lookup id c.pending) v refl)
  occur-Accounts deps (nacked id error) c l v =
      moved c l (occur deps (nacked id error) c) v (nack-Moves id error c l v)
  occur-Accounts deps (times_out id) c l v = moved c l (occur deps (times_out id) c) v (
      settle_entry-Moves c l id (rejected (deps.build_timeout_error id deps.timeout_ms))
        (lookup id c.pending) v refl)
  occur-Accounts deps (drops error) c l v =
      moved c l (reject_all error c) v
        (reject_each-next_id error c.pending c, λ id. omega (arith, reject_all-empties error id c))

  occur_all-from :
      (deps : Deps E) (es : List (Event E)) (c : Correlator) (l : Settled E)
      → Accounts c l
      → Accounts (occur_all deps es c).0 (l ++ (occur_all deps es c).1)
  unfolding occur_all times
  occur_all-from deps [] c l v = moved c l (c, []) v (refl, λ id. omega arith)
  occur_all-from deps (e ∷ es) c l v =
      let now = (occur deps e c).1 in
      let c' = (occur deps e c).0 in
      rw (← append_assoc l now (occur_all deps es c').1)
        (occur_all-from deps es c' (l ++ now) (occur-Accounts deps e c l v))

  fresh-Accounts : Accounts {E = E} new_correlator []
  unfolding times
  fresh-Accounts = record { positive = omega arith; once = λ id. ground arith }

  -- Whatever happens to a new correlator, requests, acks, nacks, timeouts and dropped connections in any
  -- order: each id that was given to a request is either pending or has settled its promise, once, and
  -- nothing else is pending or settled. The id 0 is never given.
  pub occur_all-Accounts :
      (deps : Deps E) (es : List (Event E))
      → Accounts (occur_all deps es new_correlator).0 (occur_all deps es new_correlator).1
  occur_all-Accounts deps es = occur_all-from deps es new_correlator [] fresh-Accounts

  -- When the connection drops after any events, the promise of each id that was given has been settled
  -- exactly once: by those events or by the drop.
  pub occur_all-drops :
      (deps : Deps E) (es : List (Event E)) (error : E) (id : ℕ)
      → let (c, settled) = occur_all deps es new_correlator in
        times id (settled ++ (reject_all error c).1) ≡ assigned id c.next_id
  occur_all-drops deps es error id =
      let (c, settled) = occur_all deps es new_correlator in
      omega (
        arith,
        times-++ id settled (reject_all error c).1,
        reject_all-empties error id c,
        (occur_all-Accounts deps es).once id,
      )
