-- ===== src/InProcessHost/Bootstrap.antt =====
-- packages/server/src/pty/in-process-host.ts: `scheduleBootstrapInput`, which types a session's first input when its
-- shell has come up.
use parasor.Base.Bytes.{Bytes}
use parasor.Base.Classes.{string_eq}
use parasor.Base.Map.{lookup}
use parasor.Base.{
  ℕ, ◌&&◌, ◌||◌, Bool, true, false, not, Option, none, some, List, [], ◌∷◌, String, if◌then◌else◌,
  ◌==◌,
}
use parasor.InProcessHost.Input.{write}
use parasor.InProcessHost.{PtyProcess, ManagedSession, Host, Effect, is_running, put}

abbrev readline_ready_delay_ms : ℕ
readline_ready_delay_ms = 25

abbrev after_output_quiet_ms : ℕ
after_output_quiet_ms = 500

abbrev fallback_delay_ms : ℕ
fallback_delay_ms = 2500

-- `"\x1b[?2004h"`
abbrev readline_ready_sequence : Bytes
readline_ready_sequence = 0x1b ∷ b'[' ∷ b'?' ∷ b'2' ∷ b'0' ∷ b'0' ∷ b'4' ∷ b'h' ∷ []

starts_with : Bytes → Bytes → Bool
starts_with [] text = true
starts_with (b ∷ bs) [] = false
starts_with (b ∷ bs) (c ∷ text) = b == c && starts_with bs text

pub includes : Bytes → Bytes → Bool
unfolding starts_with
includes part [] = starts_with part []
includes part (c ∷ text) = starts_with part (c ∷ text) || includes part text

-- The variables of one call: the delay of the armed timer, and whether it listens to the output.
pub record Schedule : Type 0 where
  pub timer : Option ℕ
  pub listening : Bool

abbrev pub is_missing : Option Bytes → Bool
is_missing none = true
is_missing (some []) = true
is_missing (some (b ∷ bs)) = false

unfoldable pub schedule_bootstrap_input : ManagedSession → Schedule
schedule_bootstrap_input m =
    if is_missing m.bootstrap_input
    then record { timer = none; listening = false }
    else record { timer = some fallback_delay_ms; listening = true }

-- The subscription to the output, which starts the timer anew.
unfoldable pub on_output : Bytes → Schedule → Schedule
unfolding includes
on_output text s =
    if s.listening
    then record s {
      timer = some (
          if includes readline_ready_sequence text
          then readline_ready_delay_ms
          else after_output_quiet_ms);
    }
    else s

abbrev pub is_process : Option PtyProcess → PtyProcess → Bool
is_process none proc = false
is_process (some current) proc = current.handle == proc.handle

abbrev pub type_in : String → PtyProcess → ℕ → Bytes → ManagedSession → Host → Host × List Effect
type_in id proc generation input m h =
    if not (is_process m.process proc)
      || not (m.current_generation == generation)
      || not (is_running m.info.state)
    then (h, [])
    else let h' = put id (record m { bootstrap_input = none }) h in
      (h', write id input (some generation) h')

-- `cleanup`, with which `send` begins.
abbrev pub cleanup : Schedule → Schedule
cleanup s = record s { timer = none; listening = false }

abbrev pub send_to :
    String → PtyProcess → ℕ → Option Bytes → ManagedSession → Host → Host × List Effect
send_to id proc generation none m h = (h, [])
send_to id proc generation (some input) m h =
    if is_missing (some input) then (h, []) else type_in id proc generation input m h

-- `send`, on the session. The object of a session that was disposed has no process.
unfoldable pub send : String → PtyProcess → ℕ → Host → Host × List Effect
send id proc generation h = elim (lookup id h.sessions) [
  | none ↦ (h, [])
  | some m ↦ send_to id proc generation m.bootstrap_input m h
]
