-- ===== src/EventStore.antt =====
-- packages/web/src/hooks/event-reducers.ts: the store that a page builds from the server's state and its messages. A value that
-- no reducer looks into is its JSON text, and the object of a `Record` type is a map.
pub mod Changes
pub mod Reducers
pub mod Retention
pub mod Generations
pub mod Isolation
pub mod Socket
pub mod Stream
pub mod Delivery
mod Tests
use parasor.Base.{ℕ, Bool, true, false, Option, none, some, List, [], ◌∷◌, ◌++◌, String}
use parasor.InProcessHost.{Session}
use parasor.SessionPolicy.{SessionEndReason}

abbrev pub notification_retention_limit : ℕ
notification_retention_limit = 200

abbrev pub activity_history_limit : ℕ
activity_history_limit = 100

pub record Project : Type 0 where
  pub id : String
  pub created_at : ℕ
  pub details : String

pub record ProjectState : Type 0 where
  pub project_id : String
  pub layout : Option String
  pub worktrees : List String
  pub open_files : List String
  pub last_focused_pane_id : Option String
  pub focused_pane_id : Option String
  pub sidebar : String
  pub last_accessed_at : ℕ

pub record AgentState : Type 0 where
  pub session_id : String
  pub details : String

pub record MobileSnapshot : Type 0 where
  pub worktree_path : String
  pub details : String

pub record Worktree : Type 0 where
  pub path : String
  pub head : String
  pub branch : String
  pub ahead : Option ℕ
  pub behind : Option ℕ
  pub dirty_count : Option ℕ
  pub origin : Option String
  pub lineage : Option String
  pub orphan : Option Bool

pub record AppStore : Type 0 where
  pub projects : List Project
  pub project_states : List (String × ProjectState)
  pub sessions : List Session
  pub agent_states : List (String × AgentState)
  pub notifications : List String
  pub session_activity_history : List String
  pub terminal_presences : List (String × String)
  pub mobile_session_snapshots : List (String × List MobileSnapshot)
  pub ports : List (String × String)
  pub services : List (String × String)
  pub git_states : List (String × List (String × Option String))
  pub service_config : String
  pub pane_commands : String
  pub ide_commands : String
  pub host_platform : Option String
  pub file_change_seq : ℕ
  pub worktrees : List (String × List Worktree)
  pub pending_open_url : Option String
  pub connected : Bool
  pub hydrated : Bool
  pub snapshot_applied : Bool

-- `HydrationPayload`, with what its optional parts stand for where they are missing.
pub record HydrationPayload : Type 0 where
  pub seq : ℕ
  pub projects : List Project
  pub project_states : List (String × ProjectState)
  pub sessions : List Session
  pub service_config : String
  pub pane_commands : Option String
  pub ide_commands : Option String
  pub agent_states : List (String × AgentState)
  pub notifications : List String
  pub ports : List (String × String)
  pub services : Option (List (String × String))
  pub git_states : List (String × List (String × Option String))
  pub worktrees : Option (List (String × List Worktree))
  pub activity_history : Option (List String)
  pub terminal_presences : Option (List (String × String))
  pub mobile_session_snapshots : Option (List (String × List MobileSnapshot))
  pub host_platform : String

-- `WsEventMessage`, as far as a reducer handles it. `file_change` stands for the three messages about files.
pub data Message : Type 0 where
  session_created : Session → Message
  session_closed : String → Message
  session_restarted : Session → ℕ → Message
  session_ended : String → ℕ → SessionEndReason → Message
  terminal_presence_changed : String → String → Message
  mobile_session_snapshot : String → String → MobileSnapshot → Message
  agent_state : AgentState → Message
  notification : String → Message
  project_created project_updated : Project → Message
  project_deleted : String → Message
  layout_updated : String → Option String → Message
  ports_updated services_updated : String → String → Message
  git_state : String → String → Option String → Message
  session_cwd_changed : String → String → Message
  session_title_changed : String → String → Bool → Message
  session_pin_changed : String → Bool → Message
  file_change : Message
  activity_recorded : String → Message
  browser_url_changed : String → Message
  service_config_changed : String → Message
  sidebar_state_changed : String → String → Message
  pane_commands_changed ide_commands_changed : String → Message
  worktree_created : String → Worktree → Message
  worktree_renamed : String → String → String → Message
  worktree_removed : String → String → Message
  unhandled : Message
