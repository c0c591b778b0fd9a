-- ===== src/InProcessHost/Preserved.antt =====
-- Every operation of the host keeps its invariant.
use parasor.Base.Classes.{string_eq}
use parasor.Base.{◌≡◌, refl, inl, inr, true, Option, none, some, String, arith, Bool-cases}
use parasor.InProcessHost.Consistent.{spawned-IsConsistent, resumed-IsConsistent}
use parasor.InProcessHost.Invariant.{IsHosted, IsValid, IsHosted-counters, IsValid-counters}
use parasor.InProcessHost.Lifecycle.{
  resumed, spawned, ready_session, Readiness, ready, refused, spawn_failed, log_bump, log_append,
  spawn_process, auto_resume_if_safe,
}
use parasor.InProcessHost.Saved.{save-IsValid}
use parasor.InProcessHost.{
  PtyProcess, PtySize, ManagedSession, Host, Surroundings, is_running, is_spawning, is_ended, save,
}
use parasor.SessionPolicy.{is_auto_resumable}

-- What `ready_session` hands on: a session that runs.
abbrev pub IsReady : Host → String → Readiness → Type 0
IsReady h id (ready m) = IsHosted h id m × (is_running m.info.state ≡ true)
IsReady h id refused = Unit
IsReady h id spawn_failed = Unit

module _ (env : Surroundings) where
  spawn-IsValid :
      (id : String) (h : Host) (m : ManagedSession) (proc : PtyProcess) (size : PtySize)
      → IsValid h
      → IsHosted h id m
      → is_spawning m.info.state ≡ true
      → IsValid (save id (spawned env h.daemon_context proc size m) h)
        × IsHosted
            (save id (spawned env h.daemon_context proc size m) h)
            id
            (spawned env h.daemon_context proc size m)
  unfolding spawned
  spawn-IsValid id h m proc size v o s =
      save-IsValid id h (spawned env h.daemon_context proc size m) m _ v o refl refl (λ r. refl)
        (λ r e. (refl, refl)) (spawned-IsConsistent env h.daemon_context proc size m o.consistent s)

  resume-IsValid :
      (id : String) (h : Host) (m : ManagedSession)
      → IsValid h
      → IsHosted h id m
      → is_ended m.info.state ≡ true
      → IsValid (save id (resumed env h.daemon_context m) h)
        × IsHosted (save id (resumed env h.daemon_context m) h) id (resumed env h.daemon_context m)
  unfolding resumed
  resume-IsValid id h m v o s =
      save-IsValid id h (resumed env h.daemon_context m) m _ v o refl refl (λ r. refl)
        (λ r e. (refl, refl)) (resumed-IsConsistent env h.daemon_context m o.consistent s)

  spawn_process-IsValid :
      (id : String) (h : Host) (m : ManagedSession) (spawn : Option PtyProcess) (size : PtySize)
      → IsValid h
      → IsHosted h id m
      → is_spawning m.info.state ≡ true
      → IsValid (spawn_process env spawn size id m h).0
        × IsReady (spawn_process env spawn size id m h).0 id (spawn_process env spawn size id m h).1
  unfolding spawned
  spawn_process-IsValid id h m none size v o s = (v, tt)
  spawn_process-IsValid id h m (some proc) size v o s =
      let kept = spawn-IsValid id h m proc size v o s in (kept.0, (kept.1, refl))

  auto_resume_if_safe-IsValid :
      (id : String) (h : Host) (m : ManagedSession) (spawn : Option PtyProcess) (size : PtySize)
      → IsValid h
      → IsHosted h id m
      → is_ended m.info.state ≡ true
      → IsValid (auto_resume_if_safe env spawn size id m h).0
        × IsReady
            (auto_resume_if_safe env spawn size id m h).0
            id
            (auto_resume_if_safe env spawn size id m h).1
  auto_resume_if_safe-IsValid id h m spawn size v o s =
      elim (Bool-cases (is_auto_resumable m.info.command m.info.end_reason)) [
        | inl e ↦ rw e (
            spawn_process-IsValid id _ (resumed env h.daemon_context m) spawn size kept.0 kept.1
              again)
        | inr e ↦ rw e (v, tt)
      ]
    where
      h1 : Host
      h1 =
          log_bump id (resumed env h.daemon_context m).current_generation
            (log_append env id env.restart_separator h)

      kept :
          IsValid (save id (resumed env h.daemon_context m) h1)
          × IsHosted
              (save id (resumed env h.daemon_context m) h1)
              id
              (resumed env h.daemon_context m)
      kept =
          resume-IsValid id h1 m (IsValid-counters h h1.scrollback_log h.next_attach_token v)
            (IsHosted-counters h h1.scrollback_log h.next_attach_token id m o) s

      again : is_spawning (resumed env h.daemon_context m).info.state ≡ true
      again = unfold resumed in refl

  pub ready_session-IsValid :
      (id : String) (h : Host) (m : ManagedSession) (spawn : Option PtyProcess) (size : PtySize)
      → IsValid h
      → IsHosted h id m
      → IsValid (ready_session env spawn size id m h).0
        × IsReady (ready_session env spawn size id m h).0 id (ready_session env spawn size id m h).1
  unfolding ready_session
  ready_session-IsValid id h m spawn size v o = elim (Bool-cases (is_ended m.info.state)) [
    | inl e ↦ rw e (auto_resume_if_safe-IsValid id h m spawn size v o e)
    | inr e ↦ elim (Bool-cases (is_spawning m.info.state)) [
      | inl s ↦ rw (e, s) (spawn_process-IsValid id h m spawn size v o s)
      | inr s ↦ rw (e, s) (v, (o, ground arith))
    ]
  ]
