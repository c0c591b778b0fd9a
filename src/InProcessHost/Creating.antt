-- ===== src/InProcessHost/Creating.antt =====
-- `create` keeps the host's invariant.
use parasor.Base.Classes.{string_eq, ◌==◌}
use parasor.Base.Keyed.{find_by, find_by-push, find_by-push_other}
use parasor.Base.{◌≡◌, refl, true, false, Option, none, some, List, String}
use parasor.InProcessHost.Consistent.{created-IsConsistent}
use parasor.InProcessHost.Invariant.{IsHosted, IsValid, IsKeyed, Tracks, Frames, put-IsValid}
use parasor.InProcessHost.Lifecycle.{CreateSessionInput, SpawnSpec, create, created, push_option}
use parasor.InProcessHost.{
  SessionRecord, DaemonContext, ManagedSession, Host, Surroundings, session_key, record_key,
}

-- An identifier of which nothing is saved yet, such as a new `randomUUID()`.
abbrev pub IsFresh : String → Host → Type 0
IsFresh id h =
    (find_by session_key id h.stored_sessions ≡ none)
    × (find_by record_key id h.stored_records ≡ none)

module _ (env : Surroundings) (id : String) (input : CreateSessionInput) (spec : SpawnSpec) where
  push_option-find_by :
      (r : Option SessionRecord) (records : List SessionRecord)
      → IsKeyed id r
      → find_by record_key id records ≡ none
      → find_by record_key id (push_option r records) ≡ r
  push_option-find_by none records k e = e
  push_option-find_by (some r) records k e =
      let q : (r.id == id) ≡ true = (string_eq.equals_iff _ _).1 k in
      rw (find_by-push record_key id r records e, q)

  push_option-find_by_other :
      (r : Option SessionRecord) (records : List SessionRecord) (j : String)
      → IsKeyed id r
      → (id == j) ≡ false
      → find_by record_key j (push_option r records) ≡ find_by record_key j records
  push_option-find_by_other none records j k e = refl
  push_option-find_by_other (some r) records j k e =
      find_by-push_other record_key j r records (rw k e)

  created_record-IsKeyed :
      (daemon : Option DaemonContext) → IsKeyed id (created env daemon id input spec).session_record
  created_record-IsKeyed none = tt
  created_record-IsKeyed (some d) = refl

  created_record-Tracks :
      (daemon : Option DaemonContext)
      → Tracks daemon
          (created env daemon id input spec).session_record
          (created env daemon id input spec).info
  created_record-Tracks none = tt
  created_record-Tracks (some d) = λ e. (refl, refl)

  pub create-IsValid :
      (h : Host) → IsValid h → IsFresh id h → IsValid (create env id input spec h).0
  unfolding create
  create-IsValid h v fresh = put-IsValid id h (create env id input spec h).0 m v refl frames hosted
    where
      m : ManagedSession
      m = created env h.daemon_context id input spec

      frames : Frames id h (create env id input spec h).0
      frames = record {
        same_daemon = refl;
        same_session = λ j e. find_by-push_other session_key j m.info h.stored_sessions e;
        same_record = λ j e.
            push_option-find_by_other m.session_record h.stored_records j
              (created_record-IsKeyed h.daemon_context) e;
      }

      hosted : IsHosted (create env id input spec h).0 id m
      hosted = record {
        consistent = created-IsConsistent env h.daemon_context id input spec;
        keyed = refl;
        record_keyed = created_record-IsKeyed h.daemon_context;
        tracked = created_record-Tracks h.daemon_context;
        stored =
            let q : (id == id) ≡ true = (string_eq.equals_iff id id).1 refl in
            rw (find_by-push session_key id m.info h.stored_sessions fresh.0, q);
        stored_record =
            push_option-find_by m.session_record h.stored_records
              (created_record-IsKeyed h.daemon_context) fresh.1;
      }
