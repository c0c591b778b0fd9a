-- ===== src/SessionPolicy/Exit.antt =====
-- packages/server/src/pty/session-policy.ts: what the record of a session keeps of its exit. A name
-- `SIG<n>` is given by its number.
use parasor.Base.Int.{ℤ, pos, negsuc}
use parasor.Base.{ℕ, Option, none, some, List, [], ◌∷◌, String, if◌then◌else◌, ◌==◌}

pub data SignalName : Type 0 where
  posix : String → SignalName
  numbered : ℕ → SignalName

abbrev posix_signal_names : List (ℕ × String)
posix_signal_names =
    (1, "SIGHUP")
    ∷ (2, "SIGINT")
    ∷ (3, "SIGQUIT")
    ∷ (6, "SIGABRT")
    ∷ (9, "SIGKILL")
    ∷ (13, "SIGPIPE")
    ∷ (14, "SIGALRM")
    ∷ (15, "SIGTERM")
    ∷ []

pub named : List (ℕ × String) → ℕ → SignalName
named [] n = numbered n
named ((number, name) ∷ rest) n = if number == n then posix name else named rest n

unfoldable pub signal_name : ℕ → SignalName
unfolding named
signal_name n = named posix_signal_names n

pub record RecordExit : Type 0 where
  pub exit_code : Option ℤ
  pub exit_signal : Option SignalName

-- `typeof signal === "number" && signal > 0`
abbrev named_if_killed : Option ℤ → Option SignalName
named_if_killed none = none
named_if_killed (some (negsuc n)) = none
named_if_killed (some (pos n)) = if n == 0 then none else some (signal_name n)

-- The exit code of a PTY is absent or finite.
unfoldable pub derive_record_exit : Option ℤ → Option ℤ → RecordExit
derive_record_exit exit_code signal = record {
  exit_code = exit_code;
  exit_signal = named_if_killed signal;
}
