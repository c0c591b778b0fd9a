-- ===== src/InProcessHost/Renaming.antt =====
-- The size, the title and the pin of a session, its output and its first input keep the host's invariant.
use parasor.Base.Bytes.{Bytes}
use parasor.Base.Classes.{string_eq, ◌==◌}
use parasor.Base.Map.{lookup}
use parasor.Base.{
  ℕ, ◌≡◌, refl, inl, inr, Bool, Option, none, some, String, arith, Bool-cases, Option-cases, ◌&&◌,
  ◌||◌, not, ◌==◌ as nat_equals,
}
use parasor.InProcessHost.Bootstrap.{send, send_to, is_missing, is_process}
use parasor.InProcessHost.Input.{resize, resize_process, set_title, set_pinned, has_size}
use parasor.InProcessHost.Invariant.{
  IsConsistent, IsHosted, IsValid, Tracks, Frames, IsValid-counters, put-IsValid, put-IsHosted,
  save-Frames,
}
use parasor.InProcessHost.Output.{flush}
use parasor.InProcessHost.Saved.{persisted_session}
use parasor.InProcessHost.{
  SessionRecord, DaemonContext, PtyProcess, PtySize, ManagedSession, Host, Surroundings, same,
  is_running, persist_session, put, should_pause_output,
}

-- A change of what a session is called.
rename-IsValid :
    (id : String) (h : Host) (m : ManagedSession) (title : String) (manual pinned : Bool)
    → IsValid h
    → IsHosted h id m
    → IsValid (
        persist_session
          (record m.info { title = title; title_manual = manual; pinned = pinned })
          (put id
            (record m {
              info = record m.info { title = title; title_manual = manual; pinned = pinned };
            })
            h))
unfolding persist_session should_pause_output
rename-IsValid id h m title manual pinned v o =
    put-IsValid id h (persist_session m'.info (put id m' h)) m' v refl frames hosted
  where
    m' : ManagedSession
    m' = record m { info = record m.info { title = title; title_manual = manual; pinned = pinned } }

    frames : Frames id h (persist_session m'.info (put id m' h))
    frames = save-Frames none none id m' h o.keyed tt

    c : IsConsistent m
    c = o.consistent

    same_tracks :
        (d : Option DaemonContext) (r : Option SessionRecord)
        → Tracks d r m.info
        → Tracks d r m'.info
    same_tracks none r t = tt
    same_tracks (some d) none t = tt
    same_tracks (some d) (some r) t = t

    hosted : IsHosted (persist_session m'.info (put id m' h)) id m'
    hosted = record {
      consistent = record {
        lives = c.lives;
        named = c.named;
        generation = c.generation;
        explained = c.explained;
        sized = c.sized;
        unattached = c.unattached;
        flows = c.flows;
      };
      keyed = o.keyed;
      record_keyed = o.record_keyed;
      tracked = same_tracks h.daemon_context m.session_record o.tracked;
      stored = persisted_session id m' h o.keyed;
      stored_record = o.stored_record;
    }

pub set_title-IsValid :
    (id title : String) (manual : Bool) (h : Host)
    → IsValid h
    → IsValid (set_title id title manual h).0
unfolding set_title
set_title-IsValid id title manual h v = elim (Option-cases (lookup id h.sessions)) [
  | inl e ↦ rw (e, set_title) v
  | inr (m, e) ↦ elim (Bool-cases (m.info.title == title && same m.info.title_manual manual)) [
    | inl k ↦ rw (e, set_title, k) v
    | inr k ↦
        rw (e, set_title, k) (rename-IsValid id h m title manual m.info.pinned v (v.each id m e))
  ]
]

pub set_pinned-IsValid :
    (id : String) (pinned : Bool) (h : Host) → IsValid h → IsValid (set_pinned id pinned h).0
unfolding set_pinned
set_pinned-IsValid id pinned h v = elim (Option-cases (lookup id h.sessions)) [
  | inl e ↦ rw (e, set_pinned) v
  | inr (m, e) ↦ elim (Bool-cases (same m.info.pinned pinned)) [
    | inl k ↦ rw (e, set_pinned, k) v
    | inr k ↦
        rw (e, set_pinned, k)
          (rename-IsValid id h m m.info.title m.info.title_manual pinned v (v.each id m e))
  ]
]

resized-IsConsistent :
    (m : ManagedSession) (size : PtySize)
    → IsConsistent m
    → IsConsistent (record m { pty_size = some size })
unfolding should_pause_output
resized-IsConsistent m size c = ground arith

resize_process-IsValid :
    (accepts : Bool) (id : String) (size : PtySize) (m : ManagedSession) (p : Option PtyProcess)
    (h : Host)
    → IsValid h
    → IsHosted h id m
    → IsValid (resize_process accepts id size m p h).0
resize_process-IsValid accepts id size m none h v o = v
resize_process-IsValid accepts id size m (some proc) h v o =
    elim (Bool-cases (has_size m.pty_size size)) [
      | inl e ↦ rw e v
      | inr e ↦ elim (Bool-cases accepts) [
        | inl a ↦
            rw (e, a)
              (put-IsHosted id h m _ v o refl refl (resized-IsConsistent m size o.consistent))
        | inr a ↦ rw (e, a) v
      ]
    ]

pub resize-IsValid :
    (accepts : Bool) (id : String) (size : PtySize) (h : Host)
    → IsValid h
    → IsValid (resize accepts id size h).0
unfolding resize
resize-IsValid accepts id size h v = elim (Option-cases (lookup id h.sessions)) [
  | inl e ↦ rw (e, resize) v
  | inr (m, e) ↦
      rw (e, resize) (resize_process-IsValid accepts id size m m.process h v (v.each id m e))
]

typed-IsConsistent :
    (m : ManagedSession) → IsConsistent m → IsConsistent (record m { bootstrap_input = none })
unfolding should_pause_output
typed-IsConsistent m c = ground arith

send_to-IsValid :
    (id : String) (proc : PtyProcess) (generation : ℕ) (input : Option Bytes) (m : ManagedSession)
    (h : Host)
    → IsValid h
    → IsHosted h id m
    → IsValid (send_to id proc generation input m h).0
send_to-IsValid id proc generation none m h v o = v
send_to-IsValid id proc generation (some input) m h v o =
    elim (Bool-cases (is_missing (some input))) [
      | inl e ↦ rw e v
      | inr e ↦
          elim (Bool-cases (
            not (is_process m.process proc)
            || not (nat_equals m.current_generation generation)
            || not (is_running m.info.state))) [
              | inl k ↦ rw (e, k) v
              | inr k ↦
                  rw (e, k)
                    (put-IsHosted id h m _ v o refl refl (typed-IsConsistent m o.consistent))
            ]
    ]

pub send-IsValid :
    (id : String) (proc : PtyProcess) (generation : ℕ) (h : Host)
    → IsValid h
    → IsValid (send id proc generation h).0
unfolding send
send-IsValid id proc generation h v = elim (Option-cases (lookup id h.sessions)) [
  | inl e ↦ rw (e, send) v
  | inr (m, e) ↦
      rw (e, send) (send_to-IsValid id proc generation m.bootstrap_input m h v (v.each id m e))
]

-- Of the host, a flush changes the logs alone.
flush_lem :
    (env : Surroundings) (id : String) (generation : ℕ) (batch : Bytes) (h : Host)
    → (flush env id generation batch h).0
      ≡ record h { scrollback_log = (flush env id generation batch h).0.scrollback_log }
unfolding flush
flush_lem env id generation batch h = ground arith

pub flush-IsValid :
    (env : Surroundings) (id : String) (generation : ℕ) (batch : Bytes) (h : Host)
    → IsValid h
    → IsValid (flush env id generation batch h).0
flush-IsValid env id generation batch h v =
    rw (flush_lem env id generation batch h) (IsValid-counters h _ h.next_attach_token v)
