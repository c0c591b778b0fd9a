-- ===== src/Presence/Types.antt =====
-- packages/server/src/pty/terminal-presence-manager.ts and packages/shared/src/terminal-presence.ts:
-- the data of the presence manager.
use parasor.Base.{ℕ, Bool, Option, List, String}

pub record Viewport : Type 0 where
  pub cols : ℕ
  pub rows : ℕ

pub data ClientKind : Type 0 where
  desktop_client mobile_client : ClientKind

pub data Mode : Type 0 where
  auto desktop_mode : Mode

-- `TerminalPresenceDriver`
pub data Driver : Type 0 where
  idle desktop : Driver
  mobile : String → Driver

-- `TerminalLayoutTarget`
pub data Layout : Type 0 where
  desktop_layout : Viewport → Layout
  mobile_layout : String → Viewport → Layout

-- `TerminalPresenceSubscriber`
pub record Subscriber : Type 0 where
  pub client_id : String
  pub kind : ClientKind
  pub viewport : Option Viewport
  pub subscribed_at : ℕ
  pub last_acted_at : ℕ

pub record SubscriberRecord : Type 0 where
  pub subscriber : Subscriber
  pub open subscriber use *
  pub leaving : Bool

-- A soft-leave timer in the map: whether it has yet to fire. `setTimeout` arms it; the map keeps the
-- entry of a timer that has fired and found its client no longer leaving.
pub record Timer : Type 0 where
  pub armed : Bool

pub record SessionState : Type 0 where
  pub driver : Driver
  pub layout : Option Layout
  pub desktop_baseline : Option Viewport
  pub subscribers : List (String × SubscriberRecord)
  pub soft_leave_timers : List (String × Timer)

pub record Snapshot : Type 0 where
  pub session_id : String
  pub driver : Driver
  pub layout : Option Layout
  pub subscribers : List Subscriber

pub data Effect : Type 0 where
  resize : String → ℕ → ℕ → Effect
  presence_changed : Snapshot → Effect

-- `TerminalPresenceUpdate`, whose effects are also what `onEffects` is called with.
pub record Update : Type 0 where
  pub snapshot : Snapshot
  pub effects : List Effect
