-- ===== src/TerminalRelay/Strikes.antt =====
-- How often a client may send malformed frames, and how often the console tells of them.
use parasor.Base.{
  ℕ, ◌+◌, ◌-◌, ◌*◌, ◌≤◌, ◌≡◌, List, [], ◌∷◌, ◌++◌, if◌then◌else◌, leb, arith, length,
}
use parasor.TerminalRelay.Messages.{Relay, Call, warn, close, note_malformed_frame}

-- One malformed frame at each time.
unfoldable pub note_all : List ℕ → Relay → Relay × List Call
note_all [] s = (s, [])
note_all (now ∷ later) s =
    let (s1, calls) = note_malformed_frame now s in
    let (s2, more) = note_all later s1 in (s2, calls ++ more)

abbrev is_close : Call → ℕ
is_close (close code) = 1
is_close _ = 0

abbrev is_warn : Call → ℕ
is_warn (warn count) = 1
is_warn _ = 0

pub closes : List Call → ℕ
closes [] = 0
closes (c ∷ cs) = is_close c + closes cs

pub warns : List Call → ℕ
warns [] = 0
warns (c ∷ cs) = is_warn c + warns cs

closes-append : (xs ys : List Call) → closes (xs ++ ys) ≡ closes xs + closes ys
unfolding closes
closes-append [] ys = omega arith
closes-append (x ∷ xs) ys = omega (arith, closes-append xs ys)

warns-append : (xs ys : List Call) → warns (xs ++ ys) ≡ warns xs + warns ys
unfolding warns
warns-append [] ys = omega arith
warns-append (x ∷ xs) ys = omega (arith, warns-append xs ys)

-- What `note_malformed_frame` calls, counted.
note_lem :
    (now : ℕ) (s : Relay)
    → ((note_malformed_frame now s).0.malformed_frame_count ≡ s.malformed_frame_count + 1)
      × (closes (note_malformed_frame now s).1 ≡ (if leb 31 s.malformed_frame_count then 1 else 0))
      × (s.last_malformed_warn_at + 5000 * warns (note_malformed_frame now s).1
          ≤ (note_malformed_frame now s).0.last_malformed_warn_at)
unfolding note_malformed_frame closes warns
note_lem now s = ground arith

-- A relay counts each malformed frame; it closes the socket at the 32nd and at each further one, and at none before; and
-- it warns at most once in 5000 milliseconds: the time of the last warning has moved on by 5000 for each.
note_all-Limits :
    (times : List ℕ) (s : Relay)
    → ((note_all times s).0.malformed_frame_count ≡ s.malformed_frame_count + length times)
      × (closes (note_all times s).1
          ≡ s.malformed_frame_count + length times - 31 - (s.malformed_frame_count - 31))
      × (s.last_malformed_warn_at + 5000 * warns (note_all times s).1
          ≤ (note_all times s).0.last_malformed_warn_at)
unfolding note_all closes warns
note_all-Limits [] s = (omega arith, omega arith, omega arith)
note_all-Limits (now ∷ later) s =
    let (s1, calls) = note_malformed_frame now s in
    let more = (note_all later s1).1 in
    let step = note_lem now s in
    let rest = note_all-Limits later s1 in
    (
      omega (arith, step.0, rest.0),
      ground (arith, closes-append calls more, step.1, rest.1, step.0),
      omega (arith, warns-append calls more, step.2, rest.2),
    )
