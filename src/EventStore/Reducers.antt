-- ===== src/EventStore/Reducers.antt =====
-- The reducers of packages/web/src/hooks/event-reducers.ts: `applyEvent` and `applySnapshot`.
use parasor.Base.Classes.{string_eq}
use parasor.Base.Keyed.{find_by, remove_by}
use parasor.Base.Map.{lookup, insert, erase}
use parasor.Base.{ℕ, ◌+◌, true, none, some, [], ◌∷◌, ◌++◌, take, if◌then◌else◌}
use parasor.EventStore.Changes.{
  change_by, value_or, reverse, ends, is_stale, created_projects, created_states, without_project,
  erase_sessions, upsert_worktree, without_worktree,
}
use parasor.EventStore.{
  notification_retention_limit, activity_history_limit, AppStore, HydrationPayload, Message,
  session_created, session_closed, session_restarted, session_ended, terminal_presence_changed,
  mobile_session_snapshot, agent_state, notification, project_created, project_updated,
  project_deleted, layout_updated, ports_updated, services_updated, git_state, session_cwd_changed,
  session_title_changed, session_pin_changed, file_change, activity_recorded, browser_url_changed,
  service_config_changed, sidebar_state_changed, pane_commands_changed, ide_commands_changed,
  worktree_created, worktree_renamed, worktree_removed, unhandled,
}

-- `applyEvent`; `now` is the time of the call.
unfoldable pub apply_event : ℕ → AppStore → Message → AppStore
apply_event now s (session_created session) = record s { sessions = s.sessions ++ session ∷ [] }
apply_event now s (session_closed id) = record s {
  sessions = remove_by (λ t. t.id) id s.sessions;
  agent_states = erase id s.agent_states;
  terminal_presences = erase id s.terminal_presences;
}
apply_event now s (session_restarted session generation) =
    if is_stale (find_by (λ t. t.id) session.id s.sessions) generation
    then s
    else record s { sessions = change_by (λ t. t.id) session.id (λ _. session) s.sessions }
apply_event now s (session_ended id generation reason) =
    if is_stale (find_by (λ t. t.id) id s.sessions) generation then s else record s {
      terminal_presences = erase id s.terminal_presences;
      sessions = change_by (λ t. t.id) id (ends now reason) s.sessions;
    }
apply_event now s (terminal_presence_changed id presence) = record s {
  terminal_presences = insert id presence s.terminal_presences;
}
apply_event now s (mobile_session_snapshot p path snapshot) =
    let current = value_or [] (lookup p s.mobile_session_snapshots) in
    record s {
      mobile_session_snapshots =
          insert p (remove_by (λ m. m.worktree_path) path current ++ snapshot ∷ [])
            s.mobile_session_snapshots;
    }
apply_event now s (agent_state state) = record s {
  agent_states = insert state.session_id state s.agent_states;
}
apply_event now s (notification n) = record s {
  notifications = take notification_retention_limit (n ∷ s.notifications);
}
apply_event now s (project_created p) = record s {
  projects = created_projects p s.projects;
  project_states = created_states p s.project_states;
}
apply_event now s (project_updated p) = record s {
  projects = change_by (λ q. q.id) p.id (λ _. p) s.projects;
}
apply_event now s (project_deleted p) = record s {
  projects = remove_by (λ q. q.id) p s.projects;
  sessions = without_project p s.sessions;
  project_states = erase p s.project_states;
  agent_states = erase_sessions p s.sessions s.agent_states;
  ports = erase p s.ports;
  services = erase p s.services;
  mobile_session_snapshots = erase p s.mobile_session_snapshots;
  git_states = erase p s.git_states;
  worktrees = erase p s.worktrees;
}
apply_event now s (layout_updated p layout) = elim (lookup p s.project_states) [
  | none ↦ s
  | some existing ↦ record s {
    project_states = insert p (record existing { layout = layout }) s.project_states;
  }
]
apply_event now s (ports_updated p ports) = record s { ports = insert p ports s.ports }
apply_event now s (services_updated p services) = record s {
  services = insert p services s.services;
}
apply_event now s (git_state p path state) =
    let existing = value_or [] (lookup p s.git_states) in
    record s { git_states = insert p (insert path state existing) s.git_states }
apply_event now s (session_cwd_changed id cwd) = record s {
  sessions = change_by (λ t. t.id) id (λ t. record t { cwd = cwd }) s.sessions;
}
apply_event now s (session_title_changed id title manual) = record s {
  sessions =
      change_by (λ t. t.id) id (λ t. record t { title = title; title_manual = manual }) s.sessions;
}
apply_event now s (session_pin_changed id pinned) = record s {
  sessions = change_by (λ t. t.id) id (λ t. record t { pinned = pinned }) s.sessions;
}
apply_event now s file_change = record s { file_change_seq = s.file_change_seq + 1 }
apply_event now s (activity_recorded r) = record s {
  session_activity_history = take activity_history_limit (r ∷ s.session_activity_history);
}
apply_event now s (browser_url_changed url) = record s { pending_open_url = some url }
apply_event now s (service_config_changed config) = record s { service_config = config }
apply_event now s (sidebar_state_changed p sidebar) = elim (lookup p s.project_states) [
  | none ↦ s
  | some existing ↦ record s {
    project_states = insert p (record existing { sidebar = sidebar }) s.project_states;
  }
]
apply_event now s (pane_commands_changed commands) = record s { pane_commands = commands }
apply_event now s (ide_commands_changed commands) = record s { ide_commands = commands }
apply_event now s (worktree_created p worktree) = elim (find_by (λ q. q.id) p s.projects) [
  | none ↦ s
  | some _ ↦ record s {
    worktrees =
        insert p (upsert_worktree worktree (value_or [] (lookup p s.worktrees))) s.worktrees;
  }
]
apply_event now s (worktree_renamed p path branch) = elim (lookup p s.worktrees) [
  | none ↦ s
  | some existing ↦ record s {
    worktrees =
        insert p (change_by (λ w. w.path) path (λ w. record w { branch = branch }) existing)
          s.worktrees;
  }
]
apply_event now s (worktree_removed p path) = elim (lookup p s.worktrees) [
  | none ↦ s
  | some existing ↦ record s {
    worktrees = insert p (remove_by (λ w. w.path) path existing) s.worktrees;
    git_states = without_worktree p path s.git_states;
  }
]
apply_event now s unhandled = s

unfoldable pub apply_snapshot : HydrationPayload → AppStore
apply_snapshot payload = record {
  projects = payload.projects;
  project_states = payload.project_states;
  sessions = payload.sessions;
  agent_states = payload.agent_states;
  notifications = reverse payload.notifications;
  ports = payload.ports;
  services = value_or [] payload.services;
  git_states = payload.git_states;
  session_activity_history =
      take activity_history_limit (reverse (value_or [] payload.activity_history));
  terminal_presences = value_or [] payload.terminal_presences;
  mobile_session_snapshots = value_or [] payload.mobile_session_snapshots;
  service_config = payload.service_config;
  pane_commands = value_or "[]" payload.pane_commands;
  ide_commands = value_or "[]" payload.ide_commands;
  host_platform = some payload.host_platform;
  file_change_seq = 0;
  worktrees = value_or [] payload.worktrees;
  pending_open_url = none;
  connected = true;
  hydrated = true;
  snapshot_applied = true;
}
