-- ===== src/TerminalAttach/Abandoned.antt =====
-- What is left of an attach whose socket closed before the host's answer came.
use parasor.Base.Bytes.{Bytes}
use parasor.Base.Classes.{string_eq, equals_self}
use parasor.Base.Map.{lookup, erase, lookup-erase, lookup-insert_self}
use parasor.Base.{
  ℕ, ◌≡◌, refl, ap, ◌∙◌, sym, Bool, true, false, Option, none, some, List, [], ◌∷◌, String, arith,
  ◌==◌,
}
use parasor.InProcessHost.Clients.{
  Capabilities, AttachResponse, attached_with, attach_client, detach_client, remove_client,
}
use parasor.InProcessHost.Consistent.{apply_output_pause_state_lem}
use parasor.InProcessHost.Fencing.{next, Holds, attach_client-Holds}
use parasor.InProcessHost.{
  AttachedClient, PtyProcess, PtySize, ManagedSession, Host, Surroundings, Effect, put,
}
use parasor.TerminalAttach.{release, attach_binary_client}
use parasor.TerminalRelay.Messages.{Relay}

-- A detach with the token of the entry in place.
detach_client-held :
    (id client_id : String) (token : ℕ) (h : Host) (m : ManagedSession) (client : AttachedClient)
    → lookup id h.sessions ≡ some m
    → lookup client_id m.attached_clients ≡ some client
    → client.attach_token ≡ token
    → (detach_client id client_id (some token) h).0 ≡ put id (remove_client client_id m).0 h
unfolding detach_client
detach_client-held id client_id token h m client e f t =
    let q : (client.attach_token == token) ≡ true = ground arith in rw (e, detach_client, f, q) refl

removed :
    (client_id : String) (m : ManagedSession)
    → lookup client_id (remove_client client_id m).0.attached_clients ≡ none
unfolding remove_client
removed client_id m =
    ap (λ (n : ManagedSession). lookup client_id n.attached_clients)
      (apply_output_pause_state_lem
        (record m { attached_clients = erase client_id m.attached_clients }))
    ∙ lookup-erase client_id client_id m.attached_clients
    ∙ rw (equals_self client_id)

-- When the socket has closed by the time that the host's attach succeeds, nothing is sent on it, the token is kept for the cleanup, and the one
-- call, the detach with that token, leaves the session at the host without an entry of the client.
pub attach_binary_client-abandoned :
    (env : Surroundings) (spawn : Option PtyProcess) (build : Bytes → Bytes) (has_on_exit : Bool)
    (id client_id : String) (size : PtySize) (capabilities : Capabilities) (h h' : Host)
    (r : AttachResponse) (calls : List Effect) (s : Relay)
    → attach_client env spawn build has_on_exit id client_id size capabilities h
      ≡ (h', attached_with r, calls)
    → (attach_binary_client false (attached_with r) s
        ≡ (record s { attach_token = some r.attach_token }, release r.attach_token ∷ []))
      × ((m : ManagedSession) × (lookup id
              (detach_client id client_id (some r.attach_token) h').0.sessions
            ≡ some m)
          × (lookup client_id m.attached_clients ≡ none))
unfolding attach_binary_client
attach_binary_client-abandoned env spawn build has_on_exit id client_id size capabilities h h' r
      calls s e =
    let held : Holds env id client_id (next h) h' (attached_with r) =
      rw e at (attach_client-Holds env spawn build has_on_exit id client_id size capabilities h) in
    let (m, client, here, entry, token) = held.2 in
    (
      refl,
      (
        (remove_client client_id m).0,
        ap (λ (g : Host). lookup id g.sessions)
              (detach_client-held id client_id r.attach_token h' m client here entry
                (token ∙ sym held.0))
            ∙ lookup-insert_self id (remove_client client_id m).0 h'.sessions,
        removed client_id m,
      ),
    )
