-- ===== src/SessionPolicy.antt =====
-- packages/server/src/pty/session-policy.ts and packages/shared/src/state.ts: why a session ended, and whether it may be started again
-- without asking.
pub mod Resume
pub mod Exit
use parasor.Base.Int.{ℤ, pos, negsuc}
use parasor.Base.{
  ℕ, ◌≡◌, refl, ◌&&◌, ◌||◌, Bool, true, false, not, Option, none, some, List, String, if◌then◌else◌,
  ◌==◌, arith,
}

-- `SessionCommand`
pub data SessionCommand : Type 0 where
  shell claude : SessionCommand
  custom : String → List String → SessionCommand

-- `SessionEndReason`
pub data SessionEndReason : Type 0 where
  exit : ℤ → SessionEndReason
  signal : ℤ → SessionEndReason
  server_graceful daemon_graceful server_crash daemon_crash : SessionEndReason

abbrev pub is_safe_command : SessionCommand → Bool
is_safe_command shell = true
is_safe_command claude = true
is_safe_command (custom command args) = false

abbrev pub is_safe_end : SessionEndReason → Bool
is_safe_end server_crash = false
is_safe_end daemon_crash = false
is_safe_end _ = true

unfoldable pub is_auto_resumable : SessionCommand → Option SessionEndReason → Bool
is_auto_resumable command none = false
is_auto_resumable command (some reason) =
    if not (is_safe_command command) then false else is_safe_end reason

-- `signal !== undefined && signal !== 0`
abbrev pub is_killed : Option ℤ → Bool
is_killed none = false
is_killed (some (negsuc n)) = true
is_killed (some (pos n)) = not (n == 0)

abbrev ended_by : Option ℤ → ℤ → SessionEndReason
ended_by none exit_code = exit exit_code
ended_by (some number) exit_code = signal number

unfoldable pub derive_end_reason : Option ℤ → ℤ → SessionEndReason
derive_end_reason number exit_code =
    if is_killed number then ended_by number exit_code else exit exit_code

unfoldable pub derive_load_fallback_end_reason : Bool → Bool → SessionEndReason
derive_load_fallback_end_reason is_daemon was_graceful_shutdown =
    if is_daemon
    then if was_graceful_shutdown then daemon_graceful else daemon_crash
    else if was_graceful_shutdown
    then server_graceful
    else server_crash
