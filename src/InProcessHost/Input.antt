-- ===== src/InProcessHost/Input.antt =====
-- packages/server/src/pty/in-process-host.ts: the other operations on a session: input, size, title and pin,
-- and the reads.
use parasor.Base.Bytes.{Bytes}
use parasor.Base.Classes.{string_eq, ◌==◌ as equals}
use parasor.Base.Map.{lookup}
use parasor.Base.{
  ℕ, ◌+◌, ◌&&◌, Bool, true, false, Option, none, some, List, [], ◌∷◌, String, if◌then◌else◌, ◌==◌,
}
use parasor.InProcessHost.{
  Session, PtyProcess, PtySize, ManagedSession, Host, Effect, write_pty, resize_pty, tap_input,
  same, persist_session, put,
}
use parasor.TerminalRelay.Generation.{should_drop_stale_input}

unfoldable pub write : String → Bytes → Option ℕ → Host → List Effect
write id bytes generation h = elim (lookup id h.sessions) [
  | none ↦ []
  | some m ↦ elim m.process [
    | none ↦ []
    | some proc ↦
        if should_drop_stale_input generation m.current_generation
        then []
        else tap_input id bytes ∷ write_pty proc bytes ∷ []
  ]
]

abbrev pub has_size : Option PtySize → PtySize → Bool
has_size none size = false
has_size (some old) size = old.cols == size.cols && old.rows == size.rows

-- `resize`, once the session is found. `accepts` is whether node-pty takes the size, or throws.
abbrev pub resize_process :
    Bool → String → PtySize → ManagedSession → Option PtyProcess → Host → Host × List Effect
resize_process accepts id size m none h = (h, [])
resize_process accepts id size m (some proc) h =
    if has_size m.pty_size size
    then (h, [])
    else if accepts
    then (put id (record m { pty_size = some size }) h, resize_pty proc size ∷ [])
    else (h, [])

unfoldable pub resize : Bool → String → PtySize → Host → Host × List Effect
resize accepts id size h = elim (lookup id h.sessions) [
  | none ↦ (h, [])
  | some m ↦ resize_process accepts id size m m.process h
]

-- `current` is what the PTY reports as its size, 80 by 24 where it reports none.
unfoldable pub refresh : Option PtySize → String → Host → List Effect
refresh current id h = elim (lookup id h.sessions) [
  | none ↦ []
  | some m ↦ elim m.process [
    | none ↦ []
    | some proc ↦
        let size : PtySize = elim current [ none ↦ record { cols = 80; rows = 24 } | some s ↦ s ] in
        resize_pty proc (record size { rows = size.rows + 1 }) ∷ resize_pty proc size ∷ []
  ]
]

unfoldable pub set_title : String → String → Bool → Host → Host × Bool
set_title id title title_manual h = elim (lookup id h.sessions) [
  | none ↦ (h, false)
  | some m ↦
      if equals m.info.title title && same m.info.title_manual title_manual
      then (h, false)
      else let info' : Session = record m.info { title = title; title_manual = title_manual } in
        (persist_session info' (put id (record m { info = info' }) h), true)
]

unfoldable pub set_pinned : String → Bool → Host → Host × Bool
set_pinned id pinned h = elim (lookup id h.sessions) [
  | none ↦ (h, false)
  | some m ↦
      if same m.info.pinned pinned
      then (h, false)
      else let info' : Session = record m.info { pinned = pinned } in
        (persist_session info' (put id (record m { info = info' }) h), true)
]

unfoldable pub get : String → Host → Option Session
get id h = elim (lookup id h.sessions) [ none ↦ none | some m ↦ some m.info ]

abbrev infos : List (String × ManagedSession) → List Session
infos [] = []
infos ((id, m) ∷ rest) = m.info ∷ infos rest

abbrev pub list : Host → List Session
list h = infos h.sessions

pub of_project : String → List Session → List Session
of_project project_id [] = []
of_project project_id (s ∷ rest) =
    let others = of_project project_id rest in
    if equals s.project_id project_id then s ∷ others else others

unfoldable pub list_by_project : String → Host → List Session
unfolding of_project
list_by_project project_id h = of_project project_id (list h)
