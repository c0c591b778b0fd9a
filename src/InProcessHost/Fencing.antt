-- ===== src/InProcessHost/Fencing.antt =====
-- The tokens of the attaches: the counter never falls, and each attach of a chunk client takes its value.
use parasor.Base.Bytes.{Bytes}
use parasor.Base.Classes.{string_eq}
use parasor.Base.Map.{lookup, insert, lookup-insert_self}
use parasor.Base.{
  ℕ, ◌+◌, ◌≤◌, ◌≡◌, refl, ap, subst, ◌∙◌, inl, inr, false, Bool, Option, none, some, String, arith,
  Option-cases,
}
use parasor.InProcessHost.Clients.{
  Capabilities, AttachResult, attached_with, TerminalCapabilities, detach_client, set_flow,
  init_client, attach_client, init_ready, attach_ready, attach_text_client, attach_chunk_client,
  add_client, read_disk_tail, decide_replay, negotiate,
}
use parasor.InProcessHost.Consistent.{apply_output_pause_state_lem}
use parasor.InProcessHost.Lifecycle.{
  Readiness, ready, refused, spawn_failed, ready_session, spawn_process, auto_resume_if_safe,
  resumed, log_bump, log_append,
}
use parasor.InProcessHost.{
  AttachedClient, SessionRecord, DaemonContext, PtyProcess, PtySize, ManagedSession, Host,
  Surroundings, chunk_client, text_client, persist_session, persist_record, put, persist_tracked,
  save,
}
use parasor.Scrollback.{Cursor}

abbrev pub next : Host → ℕ
next h = h.next_attach_token

persist_tracked-next :
    (daemon : Option DaemonContext) (r : Option SessionRecord) (h : Host)
    → next (persist_tracked daemon r h) ≡ next h
unfolding persist_record
persist_tracked-next none r h = refl
persist_tracked-next (some d) none h = refl
persist_tracked-next (some d) (some r) h = refl

pub save-next : (id : String) (m : ManagedSession) (h : Host) → next (save id m h) ≡ next h
unfolding save persist_session
save-next id m h = persist_tracked-next h.daemon_context m.session_record _

pub detach_client-next :
    (id client_id : String) (token : Option ℕ) (h : Host)
    → next (detach_client id client_id token h).0 ≡ next h
unfolding detach_client
detach_client-next id client_id token h = ground arith

pub set_flow-next :
    (paused : Bool) (id client_id : String) (h : Host)
    → next (set_flow paused id client_id h).0 ≡ next h
set_flow-next paused id client_id h = ground arith

module _ (env : Surroundings) where
  spawn_process-next :
      (spawn : Option PtyProcess) (size : PtySize) (id : String) (m : ManagedSession) (h : Host)
      → next (spawn_process env spawn size id m h).0 ≡ next h
  spawn_process-next none size id m h = refl
  spawn_process-next (some proc) size id m h = save-next id _ h

  auto_resume_if_safe-next :
      (spawn : Option PtyProcess) (size : PtySize) (id : String) (m : ManagedSession) (h : Host)
      → next (auto_resume_if_safe env spawn size id m h).0 ≡ next h
  auto_resume_if_safe-next spawn size id m h = ground (
    arith,
    spawn_process-next spawn size id (resumed env h.daemon_context m) (
        save id (resumed env h.daemon_context m) (
          log_bump id (resumed env h.daemon_context m).current_generation
            (log_append env id env.restart_separator h))),
    save-next id (resumed env h.daemon_context m) (
        log_bump id (resumed env h.daemon_context m).current_generation
          (log_append env id env.restart_separator h)),
  )

  ready_session-next :
      (spawn : Option PtyProcess) (size : PtySize) (id : String) (m : ManagedSession) (h : Host)
      → next (ready_session env spawn size id m h).0 ≡ next h
  unfolding ready_session
  ready_session-next spawn size id m h =
      ground
        (arith, spawn_process-next spawn size id m h, auto_resume_if_safe-next spawn size id m h)

  decide_replay-next :
      (build : Bytes → Bytes) (negotiated : TerminalCapabilities) (last_seen : Option Cursor)
      (id : String) (h : Host)
      → next (decide_replay env build negotiated last_seen id h).0 ≡ next h
  unfolding decide_replay
  decide_replay-next build negotiated last_seen id h = ground arith

  read_disk_tail-next : (id : String) (h : Host) → next (read_disk_tail env id h).0 ≡ next h
  read_disk_tail-next id h = ground arith

  -- An attach that succeeds takes the counter's value for its token, moves the counter on, and leaves the client's
  -- entry in the session under that token.
  abbrev pub Holds : String → String → ℕ → Host → AttachResult → Type 0
  Holds id client_id n h' (attached_with r) =
      (r.attach_token ≡ n)
      × (next h' ≡ n + 1)
      × ((m : ManagedSession) × (client : AttachedClient) × (lookup id h'.sessions ≡ some m)
          × (lookup client_id m.attached_clients ≡ some client)
          × (client.attach_token ≡ n))
  Holds id client_id n h' _ = next h' ≡ n

  attach_chunk_client-Holds :
      (build : Bytes → Bytes) (has_on_exit : Bool) (id client_id : String)
      (capabilities : Capabilities) (m : ManagedSession) (h : Host)
      → Holds id client_id
          (next h)
          (attach_chunk_client env build has_on_exit id client_id capabilities m h).0
          (attach_chunk_client env build has_on_exit id client_id capabilities m h).1
  unfolding attach_chunk_client add_client
  attach_chunk_client-Holds build has_on_exit id client_id capabilities m h = (
    counted,
    ap (λ n. n + 1) counted,
    (
      m',
      client,
      lookup-insert_self id m'
          (decide_replay env build (negotiate capabilities) capabilities.last_seen id h).0.sessions,
      ap (λ (n : ManagedSession). lookup client_id n.attached_clients)
            (apply_output_pause_state_lem
              (record m { attached_clients = insert client_id client m.attached_clients }))
          ∙ lookup-insert_self client_id client m.attached_clients,
      counted,
    ),
  )
    where
      counted :
          next (decide_replay env build (negotiate capabilities) capabilities.last_seen id h).0
          ≡ next h
      counted = decide_replay-next build (negotiate capabilities) capabilities.last_seen id h

      client : AttachedClient
      client = record {
        attach_token =
            next (decide_replay env build (negotiate capabilities) capabilities.last_seen id h).0;
        flow_paused = false;
        kind = chunk_client has_on_exit;
      }

      m' : ManagedSession
      m' = (add_client client_id client.attach_token client.kind m).0

  attach_ready-Holds :
      (build : Bytes → Bytes) (has_on_exit : Bool) (id client_id : String)
      (capabilities : Capabilities) (h : Host) (found : Readiness)
      → Holds id client_id
          (next h)
          (attach_ready env build has_on_exit id client_id capabilities (h, found)).0
          (attach_ready env build has_on_exit id client_id capabilities (h, found)).1
  attach_ready-Holds build has_on_exit id client_id capabilities h refused = refl
  attach_ready-Holds build has_on_exit id client_id capabilities h spawn_failed = refl
  attach_ready-Holds build has_on_exit id client_id capabilities h (ready m) =
      attach_chunk_client-Holds build has_on_exit id client_id capabilities m h

  pub attach_client-Holds :
      (spawn : Option PtyProcess) (build : Bytes → Bytes) (has_on_exit : Bool)
      (id client_id : String) (size : PtySize) (capabilities : Capabilities) (h : Host)
      → Holds id client_id
          (next h)
          (attach_client env spawn build has_on_exit id client_id size capabilities h).0
          (attach_client env spawn build has_on_exit id client_id size capabilities h).1
  unfolding attach_client
  attach_client-Holds spawn build has_on_exit id client_id size capabilities h =
      elim (Option-cases (lookup id h.sessions)) [
        | inl e ↦ rw (e, attach_client) refl
        | inr (m, e) ↦
            rw (e, attach_client)
              (attach_ready_at (ready_session env spawn size id m h)
                (ready_session-next spawn size id m h))
      ]
    where
      attach_ready_at :
          (found : Host × Readiness)
          → next found.0 ≡ next h
          → Holds id client_id
              (next h)
              (attach_ready env build has_on_exit id client_id capabilities found).0
              (attach_ready env build has_on_exit id client_id capabilities found).1
      attach_ready_at (h', found) e =
          subst
            (λ n.
              Holds id client_id n
                (attach_ready env build has_on_exit id client_id capabilities (h', found)).0
                (attach_ready env build has_on_exit id client_id capabilities (h', found)).1)
            e (attach_ready-Holds build has_on_exit id client_id capabilities h' found)

  attach_text_client-next :
      (strip : Bytes → Bytes) (listens : Bool) (id client_id : String) (caller : Option ℕ)
      (m : ManagedSession) (h : Host)
      → next h ≤ next (attach_text_client env strip listens id client_id caller m h).0
  unfolding attach_text_client
  attach_text_client-next strip listens id client_id none m h = ground (
    arith,
    detach_client-next id client_id (some (next h))
        (read_disk_tail env id (
          put id (add_client client_id (next h) text_client m).0
            (record h { next_attach_token = next h + 1 }))).0,
  )
  attach_text_client-next strip listens id client_id (some t) m h = ground (
    arith,
    detach_client-next id client_id (some t)
        (read_disk_tail env id (put id (add_client client_id t text_client m).0 h)).0,
  )

  init_ready-next :
      (strip : Bytes → Bytes) (listens : Bool) (id client_id : String) (caller : Option ℕ)
      (found : Host × Readiness)
      → next found.0 ≤ next (init_ready env strip listens id client_id caller found).0
  init_ready-next strip listens id client_id caller (h, refused) = omega arith
  init_ready-next strip listens id client_id caller (h, spawn_failed) = omega arith
  init_ready-next strip listens id client_id caller (h, ready m) =
      attach_text_client-next strip listens id client_id caller m h

  -- A text client's attach never moves the counter back.
  pub init_client-next :
      (spawn : Option PtyProcess) (strip : Bytes → Bytes) (listens : Bool) (id client_id : String)
      (size : PtySize) (caller : Option ℕ) (h : Host)
      → next h ≤ next (init_client env spawn strip listens id client_id size caller h).0
  unfolding init_client
  init_client-next spawn strip listens id client_id size caller h =
      elim (Option-cases (lookup id h.sessions)) [
        | inl e ↦ rw (e, init_client) (omega arith)
        | inr (m, e) ↦
            rw (e, init_client)
              (omega (
                arith,
                ready_session-next spawn size id m h,
                init_ready-next strip listens id client_id caller
                    (ready_session env spawn size id m h),
              ))
      ]
