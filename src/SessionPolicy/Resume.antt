-- ===== src/SessionPolicy/Resume.antt =====
-- Which ends let a session be started again.
use parasor.Base.Int.{ℤ}
use parasor.Base.{◌≡◌, ◌&&◌, Bool, Option, some, arith}
use parasor.SessionPolicy.{
  SessionCommand, is_safe_command, is_auto_resumable, derive_end_reason,
  derive_load_fallback_end_reason,
}

-- A session whose process exited or was killed may be resumed if its command is a shell or claude; one that
-- was found in the saved state without a reason, only if also the shutdown before was graceful, be it
-- the server's or the daemon's.
pub is_auto_resumable-derived :
    (command : SessionCommand) (number : Option ℤ) (exit_code : ℤ) (is_daemon graceful : Bool)
    → (is_auto_resumable command (some (derive_end_reason number exit_code))
        ≡ is_safe_command command)
      × (is_auto_resumable command (some (derive_load_fallback_end_reason is_daemon graceful))
          ≡ (is_safe_command command && graceful))
unfolding is_auto_resumable derive_end_reason derive_load_fallback_end_reason
is_auto_resumable-derived command number exit_code is_daemon graceful = (ground arith, ground arith)
