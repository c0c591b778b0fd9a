-- ===== src/InProcessHost/Ending.antt =====
-- The operations from the creation of a session to its end keep the host's invariant.
use parasor.Base.Classes.{string_eq, ◌==◌}
use parasor.Base.Int.{ℤ}
use parasor.Base.Keyed.{find_by, remove_by, find_by-remove_by, find_by_key}
use parasor.Base.Map.{lookup, erase, lookup-erase}
use parasor.Base.{
  ℕ, ◌≡◌, refl, ◌⊎◌, inl, inr, true, false, Bool, Option, none, some, List, [], ◌∷◌, String,
  Bool-cases, Option-cases, ◌==◌ as nat_equals,
}
use parasor.InProcessHost.Consistent.{
  restarted-IsConsistent, exited_session-IsConsistent, shut_down-IsConsistent, loaded-IsConsistent,
}
use parasor.InProcessHost.Invariant.{
  IsHosted, IsValid, IsKeyed, Tracks, Frames, IsHosted-counters, IsValid-counters, put-IsValid,
  save-Frames,
}
use parasor.InProcessHost.Lifecycle.{
  restart, restarted, on_exit, exited_session, dispose, shutdown_session, shutdown_each,
  shutdown_all, shut_down, loaded, load_persisted_session, log_bump,
}
use parasor.InProcessHost.Saved.{save-IsValid, persisted_session}
use parasor.InProcessHost.{
  Session, SessionRecord, DaemonContext, ManagedSession, Host, Surroundings, is_ended,
  ScrollbackLog, session_key, record_key, persist_session, save,
}
use parasor.SessionPolicy.{SessionEndReason}

module _ (env : Surroundings) where
  pub restart-IsValid : (id : String) (h : Host) → IsValid h → IsValid (restart env id h).0
  unfolding restart restarted
  restart-IsValid id h v = elim (Option-cases (lookup id h.sessions)) [
    | inl e ↦ rw (e, restart) v
    | inr (m, e) ↦ elim (Bool-cases (is_ended m.info.state)) [
      | inr k ↦ rw (e, restart, k) v
      | inl k ↦ rw (e, restart, k) (again m (v.each id m e))
    ]
  ]
    where
      again :
          (m : ManagedSession)
          → IsHosted h id m
          → IsValid (
              save id
                (restarted env h.daemon_context m)
                (log_bump id (restarted env h.daemon_context m).current_generation h))
      again m o =
          (save-IsValid id _ (restarted env h.daemon_context m) m _
            (IsValid-counters h _ h.next_attach_token v)
            (IsHosted-counters h _ h.next_attach_token id m o) refl refl (λ r. refl)
            (λ r e. (refl, refl)) (restarted-IsConsistent env h.daemon_context m o.consistent)).0

  pub on_exit-IsValid :
      (id : String) (generation : ℕ) (code : ℤ) (signal : Option ℤ) (h : Host)
      → IsValid h
      → IsValid (on_exit env id generation code signal h).0
  unfolding on_exit exited_session
  on_exit-IsValid id generation code signal h v = elim (Option-cases (lookup id h.sessions)) [
    | inl e ↦ rw (e, on_exit) v
    | inr (m, e) ↦ elim (Bool-cases (nat_equals m.current_generation generation)) [
      | inr k ↦ rw (e, on_exit, k) v
      | inl k ↦ elim (Bool-cases (is_ended m.info.state)) [
        | inl n ↦ rw (e, on_exit, k, n) v
        | inr n ↦
            rw (e, on_exit, k, n)
              (save-IsValid id h (exited_session env h.daemon_context code signal m) m _ v
                (v.each id m e) refl refl (λ r. refl) (λ r f. absurd cc)
                (exited_session-IsConsistent env h.daemon_context code signal m
                  (v.each id m e).consistent)).0
      ]
    ]
  ]

  pub shutdown_session-IsValid :
      (reason : SessionEndReason) (id : String) (h : Host)
      → IsValid h
      → IsValid (shutdown_session env reason id h).0
  unfolding shutdown_session shut_down
  shutdown_session-IsValid reason id h v = elim (Option-cases (lookup id h.sessions)) [
    | inl e ↦ rw (e, shutdown_session) v
    | inr (m, e) ↦ elim (Bool-cases (is_ended m.info.state)) [
      | inl n ↦ rw (e, shutdown_session, n) v
      | inr n ↦
          rw (e, shutdown_session, n)
            (save-IsValid id h (shut_down env h.daemon_context reason m) m _ v (v.each id m e) refl
              refl (λ r. refl) (λ r f. absurd cc)
              (shut_down-IsConsistent env h.daemon_context reason m (v.each id m e).consistent)).0
    ]
  ]

  shutdown_each-IsValid :
      (reason : SessionEndReason) (entries : List (String × ManagedSession)) (h : Host)
      → IsValid h
      → IsValid (shutdown_each env reason entries h).0
  unfolding shutdown_each
  shutdown_each-IsValid reason [] h v = v
  shutdown_each-IsValid reason ((id, m) ∷ rest) h v =
      shutdown_each-IsValid reason rest _ (shutdown_session-IsValid reason id h v)

  pub shutdown_all-IsValid :
      (reason : SessionEndReason) (h : Host) → IsValid h → IsValid (shutdown_all env reason h).0
  unfolding shutdown_all
  shutdown_all-IsValid reason h v =
      IsValid-counters (shutdown_each env reason h.sessions h).0 _ _
        (shutdown_each-IsValid reason h.sessions h v)

-- Without one session, and with nothing saved of it.
without-IsValid :
    (id : String) (h : Host) (d : List (String × ManagedSession)) (l : Option ScrollbackLog)
    → IsValid h
    → IsValid (record h {
      sessions = erase id h.sessions;
      disposed = d;
      scrollback_log = l;
      stored_sessions = remove_by session_key id h.stored_sessions;
      stored_records = remove_by record_key id h.stored_records;
    })
without-IsValid id h d l v = record { each = λ j k f. others j k f (Bool-cases (id == j)) }
  where
    others :
        (j : String) (k : ManagedSession)
        → lookup j (erase id h.sessions) ≡ some k
        → ((id == j) ≡ true) ⊎ ((id == j) ≡ false)
        → IsHosted
            (record h {
              sessions = erase id h.sessions;
              disposed = d;
              scrollback_log = l;
              stored_sessions = remove_by session_key id h.stored_sessions;
              stored_records = remove_by record_key id h.stored_records;
            })
            j
            k
    others j k f (inl q) =
        let gone : none ≡ some k = rw (lookup-erase id j h.sessions, q) at f in absurd cc
    others j k f (inr q) =
        let o = v.each j k (rw (lookup-erase id j h.sessions, q) at f) in
        record {
          consistent = o.consistent;
          keyed = o.keyed;
          record_keyed = o.record_keyed;
          tracked = o.tracked;
          stored = rw (find_by-remove_by session_key j id h.stored_sessions, q) o.stored;
          stored_record =
              rw (find_by-remove_by record_key j id h.stored_records, q) o.stored_record;
        }

pub dispose-IsValid :
    (env : Surroundings) (id : String) (h : Host) → IsValid h → IsValid (dispose env id h).0
unfolding dispose
dispose-IsValid env id h v = elim (Option-cases (lookup id h.sessions)) [
  | inl e ↦ rw (e, dispose) v
  | inr (m, e) ↦ rw (e, dispose) (without-IsValid id h _ _ v)
]

-- `find` in the saved records is what the session is loaded with.
IsKeyed-find_by :
    (id : String) (records : List SessionRecord) (r : Option SessionRecord)
    → find_by record_key id records ≡ r
    → IsKeyed id r
IsKeyed-find_by id records none e = tt
IsKeyed-find_by id records (some r) e = find_by_key record_key id records e

Tracks-ended :
    (daemon : Option DaemonContext) (r : Option SessionRecord) (info : Session)
    → is_ended info.state ≡ true
    → Tracks daemon r info
Tracks-ended none r info e = tt
Tracks-ended (some d) none info e = tt
Tracks-ended (some d) (some r) info e = λ f. absurd cc

pub load_persisted_session-IsValid :
    (session : Session) (graceful : Bool) (h : Host)
    → IsValid h
    → IsValid (load_persisted_session session graceful h)
unfolding load_persisted_session loaded persist_session
load_persisted_session-IsValid session graceful h v =
    put-IsValid session.id h (load_persisted_session session graceful h) m v refl frames hosted
  where
    m : ManagedSession
    m = loaded h.daemon_context graceful (find_by record_key session.id h.stored_records) session

    keyed : IsKeyed session.id m.session_record
    keyed = IsKeyed-find_by session.id h.stored_records _ refl

    frames : Frames session.id h (load_persisted_session session graceful h)
    frames = save-Frames none none session.id m h refl tt

    hosted : IsHosted (load_persisted_session session graceful h) session.id m
    hosted = record {
      consistent = loaded-IsConsistent h.daemon_context graceful _ session;
      keyed = refl;
      record_keyed = keyed;
      tracked = Tracks-ended h.daemon_context m.session_record m.info refl;
      stored = persisted_session session.id m h refl;
      stored_record = refl;
    }
