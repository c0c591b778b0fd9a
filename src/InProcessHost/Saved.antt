-- ===== src/InProcessHost/Saved.antt =====
-- Every change of a session that the host saves, and every change of what it does not save, keeps the
-- invariant.
use parasor.Base.Classes.{string_eq, ◌==◌}
use parasor.Base.Keyed.{find_by, find_by-upsert}
use parasor.Base.Map.{insert}
use parasor.Base.{◌≡◌, refl, ◌∙◌, true, false, Option, none, some, String}
use parasor.InProcessHost.Invariant.{
  IsConsistent, IsKeyed, IsHosted, IsValid, Frames, put-IsValid, update_record-IsKeyed,
  update_record-Tracks, persist_tracked-find_by, save-Frames,
}
use parasor.InProcessHost.{
  is_ended, SessionRecord, ManagedSession, DaemonContext, Host, session_key, record_key,
  persist_session, persist_record, put, update_record, persist_tracked, save,
}

pub persist_tracked-parts :
    (daemon : Option DaemonContext) (r : Option SessionRecord) (h : Host)
    → ((persist_tracked daemon r h).sessions ≡ h.sessions)
      × ((persist_tracked daemon r h).daemon_context ≡ h.daemon_context)
      × ((persist_tracked daemon r h).stored_sessions ≡ h.stored_sessions)
unfolding persist_record
persist_tracked-parts none r h = (refl, refl, refl)
persist_tracked-parts (some d) none h = (refl, refl, refl)
persist_tracked-parts (some d) (some r) h = (refl, refl, refl)

pub persisted_session :
    (id : String) (m : ManagedSession) (h : Host)
    → m.info.id ≡ id
    → find_by session_key id (persist_session m.info (put id m h)).stored_sessions ≡ some m.info
unfolding persist_session
persisted_session id m h k =
    let q : (m.info.id == id) ≡ true = (string_eq.equals_iff _ _).1 k in
    rw (find_by-upsert session_key id m.info h.stored_sessions, q)

persisted_record :
    (daemon : Option DaemonContext) (change : SessionRecord → SessionRecord)
    (r r' : Option SessionRecord) (id : String) (h : Host)
    → r' ≡ update_record daemon change r
    → ((s : SessionRecord) → (change s).id ≡ s.id)
    → IsKeyed id r
    → find_by record_key id h.stored_records ≡ r
    → find_by record_key id (persist_tracked daemon r' h).stored_records ≡ r'
persisted_record daemon change r r' id h e keeps k f =
    rw e (persist_tracked-find_by daemon change r id h keeps k f)

pub save-IsValid :
    (id : String) (h : Host) (m old : ManagedSession) (change : SessionRecord → SessionRecord)
    → IsValid h
    → IsHosted h id old
    → m.info.id ≡ old.info.id
    → m.session_record ≡ update_record h.daemon_context change old.session_record
    → ((s : SessionRecord) → (change s).id ≡ s.id)
    → ((s : SessionRecord)
        → is_ended m.info.state ≡ false
        → ((change s).pid ≡ m.info.pid) × ((change s).pgid ≡ m.info.pid))
    → IsConsistent m
    → IsValid (save id m h) × IsHosted (save id m h) id m
unfolding save persist_session
save-IsValid id h m old change v o k r keeps tracks c =
    (put-IsValid id h _ m v parts.0 frames hosted, hosted)
  where
    keyed : m.info.id ≡ id
    keyed = k ∙ o.keyed

    record_keyed : IsKeyed id m.session_record
    record_keyed =
        rw r
          (update_record-IsKeyed id h.daemon_context change old.session_record keeps o.record_keyed)

    h' : Host
    h' = persist_tracked h.daemon_context m.session_record (persist_session m.info (put id m h))

    parts :
        (h'.sessions ≡ insert id m h.sessions)
        × (h'.daemon_context ≡ h.daemon_context)
        × (h'.stored_sessions ≡ (persist_session m.info (put id m h)).stored_sessions)
    parts =
        persist_tracked-parts h.daemon_context m.session_record
          (persist_session m.info (put id m h))

    frames : Frames id h h'
    frames = save-Frames h.daemon_context m.session_record id m h keyed record_keyed

    hosted : IsHosted h' id m
    hosted = record {
      consistent = c;
      keyed = keyed;
      record_keyed = record_keyed;
      tracked =
          rw (parts.1, r)
            (update_record-Tracks h.daemon_context change old.session_record m.info tracks);
      stored = rw parts.2 (persisted_session id m h keyed);
      stored_record =
          persisted_record h.daemon_context change old.session_record m.session_record id
            (persist_session m.info (put id m h)) r keeps o.record_keyed o.stored_record;
    }
