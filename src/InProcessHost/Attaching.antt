-- ===== src/InProcessHost/Attaching.antt =====
-- The operations of the clients keep the host's invariant.
use parasor.Base.Bytes.{Bytes}
use parasor.Base.Classes.{string_eq}
use parasor.Base.Map.{lookup, insert, erase}
use parasor.Base.{
  ℕ, ◌≡◌, refl, inl, inr, true, Bool, Option, none, some, List, [], String, arith, Bool-cases,
  Option-cases, ap,
}
use parasor.InProcessHost.Clients.{
  add_client, remove_client, detach_client, is_held_by, set_flow, mint_attach_token, read_disk_tail,
  attach_text_client, init_client, Capabilities, TerminalCapabilities, decide_replay,
  attach_chunk_client, attach_client, negotiate, is_empty, init_ready, attach_ready,
}
use parasor.InProcessHost.Consistent.{
  apply_output_pause_state_lem, apply_output_pause_state-IsConsistent,
}
use parasor.InProcessHost.Invariant.{
  IsHosted, IsValid, IsHosted-counters, IsValid-counters, put-IsHosted,
}
use parasor.InProcessHost.Lifecycle.{Readiness, ready, refused, spawn_failed}
use parasor.InProcessHost.Preserved.{IsReady, ready_session-IsValid}
use parasor.InProcessHost.{
  AttachedClient, ClientKind, PtyProcess, PtySize, ManagedSession, Host, Surroundings, is_running,
  is_spawning, is_some, apply_output_pause_state, put, ScrollbackLog, text_client, chunk_client,
}
use parasor.Scrollback.{Cursor}

-- A session whose clients change, with the pause that follows.
reclient-IsValid :
    (id : String) (h : Host) (m : ManagedSession) (clients : List (String × AttachedClient))
    → IsValid h
    → IsHosted h id m
    → (is_spawning m.info.state ≡ true → clients ≡ [])
    → IsValid (put id (apply_output_pause_state (record m { attached_clients = clients })).0 h)
reclient-IsValid id h m clients v o u =
    put-IsHosted id h m _ v o
      (ap (λ (n : ManagedSession). n.info)
        (apply_output_pause_state_lem (record m { attached_clients = clients })))
      (ap (λ (n : ManagedSession). n.session_record)
        (apply_output_pause_state_lem (record m { attached_clients = clients })))
      (apply_output_pause_state-IsConsistent m clients o.consistent u)

pub detach_client-IsValid :
    (id client_id : String) (token : Option ℕ) (h : Host)
    → IsValid h
    → IsValid (detach_client id client_id token h).0
unfolding detach_client remove_client
detach_client-IsValid id client_id token h v = elim (Option-cases (lookup id h.sessions)) [
  | inl e ↦ rw (e, detach_client) v
  | inr (m, e) ↦ elim (Bool-cases (is_held_by token (lookup client_id m.attached_clients))) [
    | inr k ↦ rw (e, detach_client, k) v
    | inl k ↦
        rw (e, detach_client, k)
          (reclient-IsValid id h m (erase client_id m.attached_clients) v (v.each id m e)
            (none_left m (v.each id m e)))
  ]
]
  where
    none_left :
        (m : ManagedSession)
        → IsHosted h id m
        → is_spawning m.info.state ≡ true
        → erase client_id m.attached_clients ≡ []
    none_left m o s = rw (o.consistent.unattached s) (unfold erase in refl)

pub set_flow-IsValid :
    (paused : Bool) (id client_id : String) (h : Host)
    → IsValid h
    → IsValid (set_flow paused id client_id h).0
set_flow-IsValid paused id client_id h v = elim (Option-cases (lookup id h.sessions)) [
  | inl e ↦ rw (e, set_flow) v
  | inr (m, e) ↦ elim (Bool-cases (is_some m.process)) [
    | inr k ↦ rw (e, set_flow, k) v
    | inl k ↦ elim (Option-cases (lookup client_id m.attached_clients)) [
      | inl c ↦ rw (e, set_flow, k, c) v
      | inr (client, c) ↦
          rw (e, set_flow, k, c)
            (reclient-IsValid id h m
              (insert client_id (record client { flow_paused = paused }) m.attached_clients) v
              (v.each id m e) (λ s. absurd (alive m (v.each id m e) k s)))
    ]
  ]
]
  where
    alive :
        (m : ManagedSession)
        → IsHosted h id m
        → is_some m.process ≡ true
        → is_spawning m.info.state ≡ true
        → ⊥
    alive m o k s = let l = o.consistent.lives in ground arith

module _ (env : Surroundings) where
  read_disk_tail_lem :
      (id : String) (h : Host)
      → (read_disk_tail env id h).0
        ≡ record h { scrollback_log = (read_disk_tail env id h).0.scrollback_log }
  read_disk_tail_lem id h = ground arith

  read_disk_tail-IsValid :
      (id : String) (h : Host) → IsValid h → IsValid (read_disk_tail env id h).0
  read_disk_tail-IsValid id h v =
      rw (read_disk_tail_lem id h)
        (IsValid-counters h (read_disk_tail env id h).0.scrollback_log h.next_attach_token v)

  pub decide_replay_lem :
      (build : Bytes → Bytes) (negotiated : TerminalCapabilities) (last_seen : Option Cursor)
      (id : String) (h : Host)
      → (decide_replay env build negotiated last_seen id h).0 ≡ record h {
        scrollback_log = (decide_replay env build negotiated last_seen id h).0.scrollback_log;
      }
  unfolding decide_replay
  decide_replay_lem build negotiated last_seen id h = ground arith

  -- What both kinds of attach do to the session.
  attach-IsValid :
      (id client_id : String) (l : Option ScrollbackLog) (n token : ℕ) (kind : ClientKind)
      (h : Host) (m : ManagedSession)
      → IsValid h
      → IsHosted h id m
      → is_running m.info.state ≡ true
      → IsValid (
          put id
            (add_client client_id token kind m).0
            (record h { scrollback_log = l; next_attach_token = n }))
  unfolding add_client
  attach-IsValid id client_id l n token kind h m v o r =
      reclient-IsValid id (record h { scrollback_log = l; next_attach_token = n }) m _
        (IsValid-counters h l n v) (IsHosted-counters h l n id m o) (λ s. absurd (ground arith))

  mint_attach_token_lem :
      (caller : Option ℕ) (h : Host)
      → (mint_attach_token caller h).0
        ≡ record h { next_attach_token = (mint_attach_token caller h).0.next_attach_token }
  mint_attach_token_lem none h = refl
  mint_attach_token_lem (some token) h = refl

  attach_text_client-IsValid :
      (strip : Bytes → Bytes) (listens : Bool) (id client_id : String) (caller : Option ℕ)
      (m : ManagedSession) (h : Host)
      → IsValid h
      → IsHosted h id m
      → is_running m.info.state ≡ true
      → IsValid (attach_text_client env strip listens id client_id caller m h).0
  unfolding attach_text_client
  attach_text_client-IsValid strip listens id client_id caller m h v o r =
      elim (Bool-cases (is_empty (read_disk_tail env id h1).1)) [
        | inl e ↦ rw e valid
        | inr e ↦ elim (Bool-cases listens) [
          | inl k ↦ rw (e, k) valid
          | inr k ↦ rw (e, k) (detach_client-IsValid id client_id (some token) _ valid)
        ]
      ]
    where
      token : ℕ
      token = (mint_attach_token caller h).1

      h1 : Host
      h1 = put id (add_client client_id token text_client m).0 (mint_attach_token caller h).0

      valid : IsValid (read_disk_tail env id h1).0
      valid = read_disk_tail-IsValid id h1 (
          rw (mint_attach_token_lem caller h) (
            attach-IsValid id client_id h.scrollback_log
              (mint_attach_token caller h).0.next_attach_token token text_client h m v o r))

  attach_chunk_client-IsValid :
      (build : Bytes → Bytes) (has_on_exit : Bool) (id client_id : String)
      (capabilities : Capabilities) (m : ManagedSession) (h : Host)
      → IsValid h
      → IsHosted h id m
      → is_running m.info.state ≡ true
      → IsValid (attach_chunk_client env build has_on_exit id client_id capabilities m h).0
  unfolding attach_chunk_client
  attach_chunk_client-IsValid build has_on_exit id client_id capabilities m h v o r =
      rw (decide_replay_lem build (negotiate capabilities) capabilities.last_seen id h)
        (attach-IsValid id client_id _ _ h.next_attach_token (chunk_client has_on_exit) h m v o r)

  init_ready-IsValid :
      (strip : Bytes → Bytes) (listens : Bool) (id client_id : String) (caller : Option ℕ)
      (h : Host) (found : Readiness)
      → IsValid h
      → IsReady h id found
      → IsValid (init_ready env strip listens id client_id caller (h, found)).0
  init_ready-IsValid strip listens id client_id caller h refused v o = v
  init_ready-IsValid strip listens id client_id caller h spawn_failed v o = v
  init_ready-IsValid strip listens id client_id caller h (ready m) v o =
      attach_text_client-IsValid strip listens id client_id caller m h v o.0 o.1

  attach_ready-IsValid :
      (build : Bytes → Bytes) (has_on_exit : Bool) (id client_id : String)
      (capabilities : Capabilities) (h : Host) (found : Readiness)
      → IsValid h
      → IsReady h id found
      → IsValid (attach_ready env build has_on_exit id client_id capabilities (h, found)).0
  attach_ready-IsValid build has_on_exit id client_id capabilities h refused v o = v
  attach_ready-IsValid build has_on_exit id client_id capabilities h spawn_failed v o = v
  attach_ready-IsValid build has_on_exit id client_id capabilities h (ready m) v o =
      attach_chunk_client-IsValid build has_on_exit id client_id capabilities m h v o.0 o.1

  pub init_client-IsValid :
      (spawn : Option PtyProcess) (strip : Bytes → Bytes) (listens : Bool) (id client_id : String)
      (size : PtySize) (caller : Option ℕ) (h : Host)
      → IsValid h
      → IsValid (init_client env spawn strip listens id client_id size caller h).0
  unfolding init_client
  init_client-IsValid spawn strip listens id client_id size caller h v =
      elim (Option-cases (lookup id h.sessions)) [
        | inl e ↦ rw (e, init_client) v
        | inr (m, e) ↦
            let kept = ready_session-IsValid env id h m spawn size v (v.each id m e) in
            rw (e, init_client)
              (init_ready-IsValid strip listens id client_id caller _ _ kept.0 kept.1)
      ]

  pub attach_client-IsValid :
      (spawn : Option PtyProcess) (build : Bytes → Bytes) (has_on_exit : Bool)
      (id client_id : String) (size : PtySize) (capabilities : Capabilities) (h : Host)
      → IsValid h
      → IsValid (attach_client env spawn build has_on_exit id client_id size capabilities h).0
  unfolding attach_client
  attach_client-IsValid spawn build has_on_exit id client_id size capabilities h v =
      elim (Option-cases (lookup id h.sessions)) [
        | inl e ↦ rw (e, attach_client) v
        | inr (m, e) ↦
            let kept = ready_session-IsValid env id h m spawn size v (v.each id m e) in
            rw (e, attach_client)
              (attach_ready-IsValid build has_on_exit id client_id capabilities _ _ kept.0 kept.1)
      ]
