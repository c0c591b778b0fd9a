-- ===== src/InProcessHost/Invariant.antt =====
-- What holds of a session, and of a host, between two steps.
use parasor.Base.Classes.{string_eq, ◌==◌}
use parasor.Base.Keyed.{find_by, find_by-upsert}
use parasor.Base.Map.{lookup, insert, lookup-insert}
use parasor.Base.{
  ℕ, ◌≡◌, refl, sym, ap, ◌∙◌, ◌⊎◌, inl, inr, true, false, Option, none, some, [], String,
  Bool-cases,
}
use parasor.InProcessHost.{
  Session, is_spawning, is_running, is_ended, SessionRecord, PtyProcess, ManagedSession,
  DaemonContext, Host, ScrollbackLog, update_record, is_some, should_pause_output, session_key,
  record_key, persist_session, persist_record, put, persist_tracked,
}

abbrev pub pid_of : Option PtyProcess → Option ℕ
pid_of none = none
pid_of (some proc) = some proc.pid

-- With a daemon, the record of a session that is not over names the process.
abbrev pub Tracks : Option DaemonContext → Option SessionRecord → Session → Type 0
Tracks none r info = Unit
Tracks (some daemon) none info = Unit
Tracks (some daemon) (some r) info =
    is_ended info.state ≡ false → (r.pid ≡ info.pid) × (r.pgid ≡ info.pid)

abbrev pub IsKeyed : String → Option SessionRecord → Type 0
IsKeyed id none = Unit
IsKeyed id (some r) = r.id ≡ id

-- A PTY is there exactly while the state is "running"; its process id is told; the generation that clients are told
-- is the current one; a reason is told exactly if the session is over; no client is attached before the PTY
-- is spawned; while it runs, its size is known and its output is paused exactly if the rule says so.
pub record IsConsistent (m : ManagedSession) : Type 0 where
  pub lives : is_some m.process ≡ is_running m.info.state
  pub named : pid_of m.process ≡ m.info.pid
  pub generation : m.info.generation ≡ m.current_generation
  pub explained : is_some m.info.end_reason ≡ is_ended m.info.state
  pub sized : is_running m.info.state ≡ true → is_some m.pty_size ≡ true
  pub unattached : is_spawning m.info.state ≡ true → m.attached_clients ≡ []
  pub flows : is_running m.info.state ≡ true → m.output_paused ≡ should_pause_output m

-- A session and what is saved of it.
pub record IsHosted (h : Host) (id : String) (m : ManagedSession) : Type 0 where
  pub consistent : IsConsistent m
  pub keyed : m.info.id ≡ id
  pub record_keyed : IsKeyed id m.session_record
  pub tracked : Tracks h.daemon_context m.session_record m.info
  pub stored : find_by session_key id h.stored_sessions ≡ some m.info
  pub stored_record : find_by record_key id h.stored_records ≡ m.session_record

pub record IsValid (h : Host) : Type 0 where
  pub each : (id : String) (m : ManagedSession) → lookup id h.sessions ≡ some m → IsHosted h id m

-- A step that concerns one session leaves what is saved of the others.
pub record Frames (id : String) (h h' : Host) : Type 0 where
  pub same_daemon : h'.daemon_context ≡ h.daemon_context
  pub same_session :
      (j : String)
      → (id == j) ≡ false
      → find_by session_key j h'.stored_sessions ≡ find_by session_key j h.stored_sessions
  pub same_record :
      (j : String)
      → (id == j) ≡ false
      → find_by record_key j h'.stored_records ≡ find_by record_key j h.stored_records

IsHosted-Frames :
    (id j : String) (h h' : Host) (m : ManagedSession)
    → Frames id h h'
    → (id == j) ≡ false
    → IsHosted h j m
    → IsHosted h' j m
IsHosted-Frames id j h h' m f e v = record {
  consistent = v.consistent;
  keyed = v.keyed;
  record_keyed = v.record_keyed;
  tracked = rw f.same_daemon v.tracked;
  stored = rw (f.same_session j e) v.stored;
  stored_record = rw (f.same_record j e) v.stored_record;
}

-- A step that puts one session back, with what is saved of it, keeps the invariant.
pub put-IsValid :
    (id : String) (h h' : Host) (m : ManagedSession)
    → IsValid h
    → h'.sessions ≡ insert id m h.sessions
    → Frames id h h'
    → IsHosted h' id m
    → IsValid h'
put-IsValid id h h' m v s f o = record { each = λ j k e. go j k (rw s at e) (Bool-cases (id == j)) }
  where
    go :
        (j : String) (k : ManagedSession)
        → lookup j (insert id m h.sessions) ≡ some k
        → ((id == j) ≡ true) ⊎ ((id == j) ≡ false)
        → IsHosted h' j k
    go j k e (inl q) =
        let found : some m ≡ some k = rw (lookup-insert id j m h.sessions, q) at e in
        let p : m ≡ k = cc in let p' : id ≡ j = (string_eq.equals_iff id j).0 q in rw (← p, ← p') o
    go j k e (inr q) =
        IsHosted-Frames id j h h' k f q (v.each j k (rw (lookup-insert id j m h.sessions, q) at e))

-- The logs and the counter of the tokens are no part of the invariant.
pub IsHosted-counters :
    (h : Host) (l : Option ScrollbackLog) (n : ℕ) (id : String) (m : ManagedSession)
    → IsHosted h id m
    → IsHosted (record h { scrollback_log = l; next_attach_token = n }) id m
IsHosted-counters h l n id m o = record {
  consistent = o.consistent;
  keyed = o.keyed;
  record_keyed = o.record_keyed;
  tracked = o.tracked;
  stored = o.stored;
  stored_record = o.stored_record;
}

pub IsValid-counters :
    (h : Host) (l : Option ScrollbackLog) (n : ℕ)
    → IsValid h
    → IsValid (record h { scrollback_log = l; next_attach_token = n })
IsValid-counters h l n v = record { each = λ id m e. IsHosted-counters h l n id m (v.each id m e) }

-- A session's object may change in what is not saved.
pub put-IsHosted :
    (id : String) (h : Host) (m m' : ManagedSession)
    → IsValid h
    → IsHosted h id m
    → m'.info ≡ m.info
    → m'.session_record ≡ m.session_record
    → IsConsistent m'
    → IsValid (put id m' h)
put-IsHosted id h m m' v o i r c = put-IsValid id h (put id m' h) m' v refl frames hosted
  where
    frames : Frames id h (put id m' h)
    frames = record { same_daemon = refl; same_session = λ j e. refl; same_record = λ j e. refl }

    hosted : IsHosted (put id m' h) id m'
    hosted = record {
      consistent = c;
      keyed = ap (λ (s : Session). s.id) i ∙ o.keyed;
      record_keyed = rw r o.record_keyed;
      tracked = rw (r, i) o.tracked;
      stored = o.stored ∙ ap some (sym i);
      stored_record = o.stored_record ∙ sym r;
    }

pub update_record-IsKeyed :
    (id : String) (daemon : Option DaemonContext) (change : SessionRecord → SessionRecord)
    (r : Option SessionRecord)
    → ((s : SessionRecord) → (change s).id ≡ s.id)
    → IsKeyed id r
    → IsKeyed id (update_record daemon change r)
update_record-IsKeyed id none change r e k = k
update_record-IsKeyed id (some d) change none e k = k
update_record-IsKeyed id (some d) change (some s) e k = e s ∙ k

pub update_record-Tracks :
    (daemon : Option DaemonContext) (change : SessionRecord → SessionRecord)
    (r : Option SessionRecord) (info : Session)
    → ((s : SessionRecord)
        → is_ended info.state ≡ false
        → ((change s).pid ≡ info.pid) × ((change s).pgid ≡ info.pid))
    → Tracks daemon (update_record daemon change r) info
update_record-Tracks none change r info t = tt
update_record-Tracks (some d) change none info t = tt
update_record-Tracks (some d) change (some s) info t = t s

pub persist_tracked-find_by :
    (daemon : Option DaemonContext) (change : SessionRecord → SessionRecord)
    (r : Option SessionRecord) (id : String) (h : Host)
    → ((s : SessionRecord) → (change s).id ≡ s.id)
    → IsKeyed id r
    → find_by record_key id h.stored_records ≡ r
    → find_by record_key id
        (persist_tracked daemon (update_record daemon change r) h).stored_records
      ≡ update_record daemon change r
unfolding persist_record
persist_tracked-find_by none change none id h e k f = f
persist_tracked-find_by none change (some s) id h e k f = f
persist_tracked-find_by (some d) change none id h e k f = f
persist_tracked-find_by (some d) change (some s) id h e k f =
    let q : ((change s).id == id) ≡ true = (string_eq.equals_iff _ _).1 (e s ∙ k) in
    rw (find_by-upsert record_key id (change s) h.stored_records, q)

-- Saving writes at most the one record.
pub save-Frames :
    (daemon : Option DaemonContext) (r : Option SessionRecord) (id : String) (m : ManagedSession)
    (h : Host)
    → m.info.id ≡ id
    → IsKeyed id r
    → Frames id h (persist_tracked daemon r (persist_session m.info (put id m h)))
unfolding persist_session persist_record
save-Frames none r id m h k o = record {
  same_daemon = refl;
  same_session = λ j e. rw (find_by-upsert session_key j m.info h.stored_sessions, k, e);
  same_record = λ j e. refl;
}
save-Frames (some d) none id m h k o = record {
  same_daemon = refl;
  same_session = λ j e. rw (find_by-upsert session_key j m.info h.stored_sessions, k, e);
  same_record = λ j e. refl;
}
save-Frames (some d) (some r) id m h k o = record {
  same_daemon = refl;
  same_session = λ j e. rw (find_by-upsert session_key j m.info h.stored_sessions, k, e);
  same_record = λ j e. rw (find_by-upsert record_key j r h.stored_records, o, e);
}
