-- ===== src/InProcessHost/Course.antt =====
-- Any course of events between two hosts, and the tokens over it.
use parasor.Base.Bytes.{Bytes}
use parasor.Base.Classes.{string_eq}
use parasor.Base.Int.{ℤ}
use parasor.Base.Map.{lookup}
use parasor.Base.{
  ℕ, ◌≤◌, ◌<◌, ◌≡◌, refl, ◌∙◌, inl, inr, true, false, Bool, Option, some, List, [], ◌∷◌, String,
  arith, Option-cases, ◌==◌ as nat_equals,
}
use parasor.InProcessHost.Bootstrap.{send}
use parasor.InProcessHost.Clients.{
  Capabilities, AttachResponse, AttachResult, attached_with, detach_client, pause_output,
  resume_output, attach_client,
}
use parasor.InProcessHost.Fencing.{
  next, save-next, detach_client-next, set_flow-next, init_client-next, Holds, attach_client-Holds,
}
use parasor.InProcessHost.Input.{resize, set_title, set_pinned}
use parasor.InProcessHost.Lifecycle.{
  create, restart, restarted, on_exit, exited_session, dispose, shutdown_each, shutdown_session,
  shut_down, shutdown_all, load_persisted_session, log_bump,
}
use parasor.InProcessHost.Output.{flush}
use parasor.InProcessHost.Steps.{
  Event, creates, restarts, loads, inits, attaches, detaches, pauses, resumes, resizes, titles,
  pins, bootstraps, flushes, exits, disposes, shuts_down, step,
}
use parasor.InProcessHost.{
  AttachedClient, PtyProcess, PtySize, ManagedSession, Host, Surroundings, Effect, persist_session,
}
use parasor.SessionPolicy.{SessionEndReason}

set_title-next :
    (id title : String) (manual : Bool) (h : Host) → next (set_title id title manual h).0 ≡ next h
unfolding set_title persist_session
set_title-next id title manual h = ground arith

set_pinned-next :
    (id : String) (pinned : Bool) (h : Host) → next (set_pinned id pinned h).0 ≡ next h
unfolding set_pinned persist_session
set_pinned-next id pinned h = ground arith

resize-next :
    (accepts : Bool) (id : String) (size : PtySize) (h : Host)
    → next (resize accepts id size h).0 ≡ next h
unfolding resize
resize-next accepts id size h = ground arith

send-next :
    (id : String) (proc : PtyProcess) (generation : ℕ) (h : Host)
    → next (send id proc generation h).0 ≡ next h
unfolding send
send-next id proc generation h = ground arith

dispose-next : (env : Surroundings) (id : String) (h : Host) → next (dispose env id h).0 ≡ next h
unfolding dispose
dispose-next env id h = ground arith

flush-next :
    (env : Surroundings) (id : String) (generation : ℕ) (batch : Bytes) (h : Host)
    → next (flush env id generation batch h).0 ≡ next h
unfolding flush
flush-next env id generation batch h = ground arith

module _ (env : Surroundings) where
  restart-next : (id : String) (h : Host) → next (restart env id h).0 ≡ next h
  unfolding restart
  restart-next id h = elim (Option-cases (lookup id h.sessions)) [
    | inl e ↦ rw (e, restart) refl
    | inr (m, e) ↦
        rw (e, restart)
          (ground (
            arith,
            save-next id (restarted env h.daemon_context m)
                (log_bump id (restarted env h.daemon_context m).current_generation h),
          ))
  ]

  on_exit-next :
      (id : String) (generation : ℕ) (code : ℤ) (signal : Option ℤ) (h : Host)
      → next (on_exit env id generation code signal h).0 ≡ next h
  unfolding on_exit
  on_exit-next id generation code signal h = elim (Option-cases (lookup id h.sessions)) [
    | inl e ↦ rw (e, on_exit) refl
    | inr (m, e) ↦
        rw (e, on_exit)
          (ground (arith, save-next id (exited_session env h.daemon_context code signal m) h))
  ]

  shutdown_session-next :
      (reason : SessionEndReason) (id : String) (h : Host)
      → next (shutdown_session env reason id h).0 ≡ next h
  unfolding shutdown_session
  shutdown_session-next reason id h = elim (Option-cases (lookup id h.sessions)) [
    | inl e ↦ rw (e, shutdown_session) refl
    | inr (m, e) ↦
        rw (e, shutdown_session)
          (ground (arith, save-next id (shut_down env h.daemon_context reason m) h))
  ]

  shutdown_each-next :
      (reason : SessionEndReason) (entries : List (String × ManagedSession)) (h : Host)
      → next (shutdown_each env reason entries h).0 ≡ next h
  unfolding shutdown_each
  shutdown_each-next reason [] h = refl
  shutdown_each-next reason ((id, m) ∷ rest) h =
      shutdown_each-next reason rest (shutdown_session env reason id h).0
      ∙ shutdown_session-next reason id h

  attach-next :
      (id client_id : String) (n : ℕ) (h' : Host) (r : AttachResult)
      → Holds env id client_id n h' r
      → n ≤ next h'
  attach-next id client_id n h' (attached_with r) v = omega (arith, v.1)
  attach-next id client_id n h' AttachResult.not_attached v = omega arith
  attach-next id client_id n h' AttachResult.spawn_threw v = omega arith

  -- The counter of the tokens never falls.
  step-next : (event : Event) (h : Host) → next h ≤ next (step env event h)
  unfolding step pause_output resume_output create load_persisted_session persist_session
      shutdown_all
  step-next (creates id input spec) h = omega arith
  step-next (restarts id) h = omega (arith, restart-next id h)
  step-next (loads session graceful) h = omega arith
  step-next (inits spawn strip listens id client size token) h =
      init_client-next env spawn strip listens id client size token h
  step-next (attaches spawn build has_on_exit id client size capabilities) h =
      attach-next id client (next h)
        (attach_client env spawn build has_on_exit id client size capabilities h).0
        (attach_client env spawn build has_on_exit id client size capabilities h).1
        (attach_client-Holds env spawn build has_on_exit id client size capabilities h)
  step-next (detaches id client token) h = omega (arith, detach_client-next id client token h)
  step-next (pauses id client) h = omega (arith, set_flow-next true id client h)
  step-next (resumes id client) h = omega (arith, set_flow-next false id client h)
  step-next (resizes accepts id size) h = omega (arith, resize-next accepts id size h)
  step-next (titles id title manual) h = omega (arith, set_title-next id title manual h)
  step-next (pins id pinned) h = omega (arith, set_pinned-next id pinned h)
  step-next (bootstraps id proc generation) h = omega (arith, send-next id proc generation h)
  step-next (flushes id generation batch) h = omega (arith, flush-next env id generation batch h)
  step-next (exits id generation code signal) h =
      omega (arith, on_exit-next id generation code signal h)
  step-next (disposes id) h = omega (arith, dispose-next env id h)
  step-next (shuts_down reason) h = omega (arith, shutdown_each-next reason h.sessions h)

-- Any course of events from one host to another.
pub data Course (h : Host) : Host → Type 0 where
  still : Course h h
  goes :
      {h' : Host}
      → Course h h'
      → (env : Surroundings) (event : Event) → Course h (step env event h')

Course-next : {h h' : Host} → Course h h' → next h ≤ next h'
Course-next still = omega arith
Course-next (goes {h'} c env event) = omega (arith, Course-next c, step-next env event h')

-- A detach with the token of another attach than the one in place.
stale-detach_client :
    (id client_id : String) (token : ℕ) (h : Host) (m : ManagedSession) (client : AttachedClient)
    → lookup id h.sessions ≡ some m
    → lookup client_id m.attached_clients ≡ some client
    → token < client.attach_token
    → detach_client id client_id (some token) h ≡ (h, [])
unfolding detach_client
stale-detach_client id client_id token h m client e f l =
    let q : nat_equals client.attach_token token ≡ false = ground arith in
    rw (e, detach_client, f, q)

-- A client that attaches twice, whatever happens to the host in between: the cleanup of its first connection, which
-- detaches with the first token, leaves the host as it is and calls nothing.
pub detach_client-attach_client :
    (env env' : Surroundings) (spawn spawn' : Option PtyProcess) (build build' : Bytes → Bytes)
    (has_on_exit has_on_exit' : Bool) (id client_id : String) (size size' : PtySize)
    (capabilities capabilities' : Capabilities) (h h1 h2 h3 : Host) (r r' : AttachResponse)
    (calls calls' : List Effect)
    → attach_client env spawn build has_on_exit id client_id size capabilities h
      ≡ (h1, attached_with r, calls)
    → Course h1 h2
    → attach_client env' spawn' build' has_on_exit' id client_id size' capabilities' h2
      ≡ (h3, attached_with r', calls')
    → detach_client id client_id (some r.attach_token) h3 ≡ (h3, [])
detach_client-attach_client env env' spawn spawn' build build' has_on_exit has_on_exit' id client_id
      size size' capabilities capabilities' h h1 h2 h3 r r' calls calls' e c e' =
    let first : Holds env id client_id (next h) h1 (attached_with r) =
      rw e at (attach_client-Holds env spawn build has_on_exit id client_id size capabilities h) in
    let second : Holds env' id client_id (next h2) h3 (attached_with r') =
      rw e' at
        (attach_client-Holds env' spawn' build' has_on_exit' id client_id size' capabilities' h2) in
    let (m, client, held, entry, token) = second.2 in
    stale-detach_client id client_id r.attach_token h3 m client held entry
      (omega (arith, Course-next c, first.0, first.1, token))
