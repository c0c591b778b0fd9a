-- ===== src/Osc7Parser.antt =====
-- packages/server/src/pty/osc7-parser.ts: class `Osc7Parser`, which finds the working directories that a shell reports in its
-- output. A text is the list of its code units. `decode` is what `decodeURIComponent` and `resolve` make of a
-- path, or nothing where the first of them throws.
pub mod Loop
pub mod Streams
pub mod Splits
mod Tests
use parasor.Base.Bytes.{Bytes}
use parasor.Base.{
  ℕ, zero, suc, ◌+◌, Bool, true, false, ◌&&◌, not, Option, none, some, List, [], ◌∷◌, ◌++◌, String,
  if◌then◌else◌, leb, ltb, ◌==◌, length, drop,
}

abbrev pub esc : ℕ
esc = 0x1b

abbrev pub bel : ℕ
bel = 0x07

abbrev pub osc7_prefix : Bytes
osc7_prefix = esc ∷ b']' ∷ b'7' ∷ b';' ∷ []

abbrev pub max_partial : ℕ
max_partial = 4096

unfoldable pub starts_with : Bytes → Bytes → Bool
starts_with [] text = true
starts_with (b ∷ bs) [] = false
starts_with (b ∷ bs) (c ∷ text) = b == c && starts_with bs text

-- `input.indexOf(OSC7_PREFIX, pos)`: the input from the prefix on.
unfoldable pub find_osc : Bytes → Option Bytes
find_osc [] = none
find_osc (c ∷ text) =
    let later = find_osc text in
    if starts_with osc7_prefix (c ∷ text) then some (c ∷ text) else later

abbrev pub is_backslash : Bytes → Bool
is_backslash [] = false
is_backslash (c ∷ text) = c == b'\\'

abbrev pub push_uri : ℕ → Option (Bytes × Bytes) → Option (Bytes × Bytes)
push_uri c none = none
push_uri c (some (uri, rest)) = some (c ∷ uri, rest)

-- The search for the terminator: the text before it, and behind it.
unfoldable pub split_terminator : Bytes → Option (Bytes × Bytes)
split_terminator [] = none
split_terminator (c ∷ text) =
    let later = push_uri c (split_terminator text) in
    if c == bel
    then some ([], text)
    else if c == esc && is_backslash text
    then some ([], drop 1 text)
    else later

-- `rest.indexOf("/")`: the text before the slash, and from it on.
unfoldable pub split_slash : Bytes → Option (Bytes × Bytes)
split_slash [] = none
split_slash (c ∷ text) =
    let later = push_uri c (split_slash text) in if c == b'/' then some ([], c ∷ text) else later

abbrev file_scheme : Bytes
file_scheme = b'f' ∷ b'i' ∷ b'l' ∷ b'e' ∷ b':' ∷ b'/' ∷ b'/' ∷ []

abbrev localhost : Bytes
localhost = b'l' ∷ b'o' ∷ b'c' ∷ b'a' ∷ b'l' ∷ b'h' ∷ b'o' ∷ b's' ∷ b't' ∷ []

abbrev is_local : Bytes → Bool
is_local [] = true
is_local (c ∷ name) = starts_with localhost (c ∷ name) && length (c ∷ name) == length localhost

unfoldable pub parse_file_uri : (Bytes → Option String) → Bytes → Option String
parse_file_uri decode uri =
    if not (starts_with file_scheme uri) then none else elim (split_slash (drop 7 uri)) [
      | none ↦ none
      | some (hostname, encoded) ↦ if is_local hostname then decode encoded else none
    ]

-- `if (cwd) result = cwd;`, where no path that `resolve` gives is empty.
abbrev pub or_else : Option String → Option String → Option String
or_else none result = result
or_else (some cwd) result = some cwd

module _ (parse : Bytes → Option String) where
  -- The `while` loop on what is left of the input: the new `partial`, and the result.
  unfoldable pub scan : ℕ → Bytes → Option String → Bytes × Option String
  scan zero input result = ([], result)
  scan (suc fuel) input result = elim (find_osc input) [
    | none ↦ ([], result)
    | some found ↦ elim (split_terminator (drop 4 found)) [
      | none ↦ (if leb (length found) max_partial then found else [], result)
      | some (uri, rest) ↦
          scan fuel rest
            (if ltb max_partial (length uri) then result else or_else (parse uri) result)
    ]
  ]

  -- `feed`: from the `partial` before, the new one and the result. Each round takes a prefix out of the input.
  unfoldable pub feed : Bytes → Bytes → Bytes × Option String
  feed held text = scan (suc (length (held ++ text))) (held ++ text) none

-- `reset`, on the partial.
abbrev reset : Bytes → Bytes
reset held = []
