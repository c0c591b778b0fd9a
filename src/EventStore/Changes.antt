-- ===== src/EventStore/Changes.antt =====
-- packages/web/src/hooks/event-reducers.ts: the changes that the reducers make to lists and maps.
use parasor.Base.Classes.{string_eq, ◌==◌}
use parasor.Base.Keyed.{find_by}
use parasor.Base.Map.{lookup, insert, erase}
use parasor.Base.{
  ℕ, Bool, false, Option, none, some, List, [], ◌∷◌, ◌++◌, String, ltb, if◌then◌else◌,
}
use parasor.EventStore.{Project, ProjectState, AgentState, Worktree}
use parasor.InProcessHost.{Session, ended}
use parasor.SessionPolicy.{SessionEndReason}

module _ {A : Type 0} (key : A → String) where
  -- `map` that changes the items with the key.
  unfoldable pub change_by : String → (A → A) → List A → List A
  change_by k change [] = []
  change_by k change (x ∷ xs) = (if key x == k then change x else x) ∷ change_by k change xs

abbrev pub value_or {ℓ} : {A : Type ℓ} → A → Option A → A
value_or default none = default
value_or default (some value) = value

unfoldable pub reverse : List String → List String
reverse [] = []
reverse (x ∷ xs) = reverse xs ++ x ∷ []

abbrev pub ends : ℕ → SessionEndReason → Session → Session
ends now reason s = record s {
  state = ended;
  pid = none;
  ended_at = some now;
  end_reason = some reason;
}

-- `msg.generation < existing.generation`
abbrev pub is_stale : Option Session → ℕ → Bool
is_stale none generation = false
is_stale (some existing) generation = ltb generation existing.generation

abbrev pub new_project_state : Project → ProjectState
new_project_state p = record {
  project_id = p.id;
  layout = none;
  worktrees = [];
  open_files = [];
  last_focused_pane_id = none;
  focused_pane_id = none;
  sidebar = "{\"paneOrder\":{},\"worktreeOpen\":{}}";
  last_accessed_at = p.created_at;
}

abbrev pub created_projects : Project → List Project → List Project
created_projects p projects = elim (find_by (λ q. q.id) p.id projects) [
  | none ↦ projects ++ p ∷ []
  | some _ ↦ change_by (λ q. q.id) p.id (λ _. p) projects
]

abbrev pub created_states : Project → List (String × ProjectState) → List (String × ProjectState)
created_states p states = elim (lookup p.id states) [
  | none ↦ insert p.id (new_project_state p) states
  | some _ ↦ states
]

unfoldable pub without_project : String → List Session → List Session
without_project p [] = []
without_project p (s ∷ ss) =
    let rest = without_project p ss in if s.project_id == p then rest else s ∷ rest

-- `for (const sid of deletedSessions) delete agentStates[sid];`
unfoldable pub erase_sessions :
    String → List Session → List (String × AgentState) → List (String × AgentState)
erase_sessions p [] states = states
erase_sessions p (s ∷ ss) states =
    let rest = erase_sessions p ss states in if s.project_id == p then erase s.id rest else rest

abbrev pub or_kept {ℓ} : {A : Type ℓ} → Option A → Option A → Option A
or_kept none old = old
or_kept (some new) old = some new

-- `{ ...w, ...msg.worktree }`
abbrev pub merged : Worktree → Worktree → Worktree
merged w new = record {
  path = new.path;
  head = new.head;
  branch = new.branch;
  ahead = or_kept new.ahead w.ahead;
  behind = or_kept new.behind w.behind;
  dirty_count = or_kept new.dirty_count w.dirty_count;
  origin = or_kept new.origin w.origin;
  lineage = or_kept new.lineage w.lineage;
  orphan = or_kept new.orphan w.orphan;
}

-- The first worktree with the path is merged, or the new one goes behind the others.
unfoldable pub upsert_worktree : Worktree → List Worktree → List Worktree
upsert_worktree new [] = new ∷ []
upsert_worktree new (w ∷ ws) =
    let rest = upsert_worktree new ws in if w.path == new.path then merged w new ∷ ws else w ∷ rest

-- The git states after a worktree is removed: its own is taken out, where there is one.
abbrev pub without_worktree :
    String
    → String
    → List (String × List (String × Option String))
    → List (String × List (String × Option String))
without_worktree p path git_states = elim (lookup p git_states) [
  | none ↦ git_states
  | some states ↦ elim (lookup path states) [
    | none ↦ git_states
    | some _ ↦ insert p (erase path states) git_states
  ]
]
