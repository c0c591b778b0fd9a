-- ===== src/RequestCorrelator.antt =====
-- packages/server/src/pty/request-correlator.ts: the ids of requests and what settles their promises.
-- A promise is named by its request's id; `E` stands for the errors.
mod Times
pub mod Accounts
mod Tests
use parasor.Base.Classes.{nat_eq, ◌==◌}
use parasor.Base.Map.{lookup, insert, erase}
use parasor.Base.Bytes.{Bytes}
use parasor.Base.{ℕ, ◌+◌, Bool, true, false, Option, none, some, List, [], ◌∷◌, ◌++◌, if◌then◌else◌}
use parasor.HostProtocol.Frame.{Frame, to_nat}

-- An entry of the map: the delay that its timer was armed with.
pub record PendingRequest : Type 0 where
  pub timer : ℕ

-- `deps`, without what has no result.
pub record Deps (E : Type 0) : Type 0 where
  pub timeout_ms : ℕ
  pub build_timeout_error : ℕ → ℕ → E

pub record Correlator : Type 0 where
  pub next_id : ℕ
  pub pending : List (ℕ × PendingRequest)

abbrev pub new_correlator : Correlator
new_correlator = record { next_id = 1; pending = [] }

pub data Settlement (E : Type 0) : Type 0 where
  resolved : Frame → Settlement E
  rejected : E → Settlement E

-- What `send` is called with.
pub record Sent : Type 0 where
  pub type : ℕ
  pub request_id : ℕ
  pub payload : Bytes

-- The settlements of a call, with the ids of the promises.
abbrev pub Settled : Type 0 → Type 0
Settled E = List (ℕ × Settlement E)

abbrev pub without : ℕ → Correlator → Correlator
without id c = record c { pending = erase id c.pending }

module _ {E : Type 0} where
  unfoldable pub request : Deps E → ℕ → Bytes → Correlator → Correlator × Sent
  request deps type payload c = (
    record {
      next_id = c.next_id + 1;
      pending = insert c.next_id (record { timer = deps.timeout_ms }) c.pending;
    },
    record { type = type; request_id = c.next_id; payload = payload },
  )

  -- The entry is taken out of the map and its promise is settled, if there is one.
  abbrev pub settle_entry :
      ℕ → Settlement E → Correlator → Option PendingRequest → Correlator × (Bool × Settled E)
  settle_entry id with c none = (c, (false, []))
  settle_entry id with c (some entry) = (without id c, (true, (id, with) ∷ []))

  -- A frame of the parser has a request id that is not negative.
  unfoldable pub ack : Frame → Correlator → Correlator × (Bool × Settled E)
  ack frame c =
      let id = to_nat frame.request_id in settle_entry id (resolved frame) c (lookup id c.pending)

  unfoldable pub nack : ℕ → E → Correlator → Correlator × (Bool × Settled E)
  nack id error c =
      if id == 0 then (c, (false, [])) else settle_entry id (rejected error) c (lookup id c.pending)

  -- The callback of a request's timer.
  unfoldable pub timed_out : Deps E → ℕ → Correlator → Correlator × (Bool × Settled E)
  timed_out deps id c =
      settle_entry id (rejected (deps.build_timeout_error id deps.timeout_ms)) c
        (lookup id c.pending)

  -- The loop of `rejectAll` over the entries.
  unfoldable pub reject_each : E → List (ℕ × PendingRequest) → Correlator → Correlator × Settled E
  reject_each error [] c = (c, [])
  reject_each error ((id, entry) ∷ rest) c =
      let (c', settled) = reject_each error rest (without id c) in
      (c', (id, rejected error) ∷ settled)

  unfoldable pub reject_all : E → Correlator → Correlator × Settled E
  reject_all error c = reject_each error c.pending c
