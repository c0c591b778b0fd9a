-- ===== src/TerminalRelay/Generation.antt =====
-- packages/server/src/ws/terminal.ts: `coerceWireGeneration`, and packages/server/src/pty/session-policy.ts:
-- `shouldDropStaleInput`, which the host asks with its result.
use parasor.Base.Int.{ℤ, pos, negsuc}
use parasor.Base.{
  ℕ, ◌≡◌, ◌≤◌, ◌<◌, refl, ◌||◌, ◌&&◌, Bool, true, false, not, Option, none, some, ltb,
  if◌then◌else◌, arith, ◌==◌,
}

-- A number of JavaScript that came as JSON: a whole one, or another.
pub data WireNumber : Type 0 where
  whole : ℤ → WireNumber
  other : WireNumber

-- `WireGenerationResult`: the rejection, `undefined`, or a generation.
pub data WireGeneration : Type 0 where
  reject no_gate : WireGeneration
  generation : ℕ → WireGeneration

-- The generation that the host knows, 0 if it does not know the session.
abbrev pub known_or_none : ℕ → WireGeneration
known_or_none known = if ltb 0 known then generation known else no_gate

-- `Number.isSafeInteger` holds of each whole number that passes the test of the range.
unfoldable pub coerce_wire_generation : Option WireNumber → ℕ → WireGeneration
coerce_wire_generation none known = known_or_none known
coerce_wire_generation (some other) known = reject
coerce_wire_generation (some (whole (negsuc n))) known = reject
coerce_wire_generation (some (whole (pos wire))) known =
    if ltb 0xffff_ffff wire
    then reject
    else if ltb 0 wire
    then generation wire
    else known_or_none known

-- `shouldDropStaleInput`, on `undefined` or a generation.
unfoldable pub should_drop_stale_input : Option ℕ → ℕ → Bool
should_drop_stale_input none current = false
should_drop_stale_input (some g) current = not (g == 0) && not (g == current)

-- What becomes of input on its way to the PTY: the relay drops what it rejects, the host what is stale.
abbrev pub input_passes : WireGeneration → ℕ → Bool
input_passes reject current = false
input_passes no_gate current = not (should_drop_stale_input none current)
input_passes (generation g) current = not (should_drop_stale_input (some g) current)

-- The tags that are about the current PTY: none, 0, and its generation.
abbrev pub tagged_current : Option WireNumber → ℕ → Bool
tagged_current none current = true
tagged_current (some other) current = false
tagged_current (some (whole (negsuc n))) current = false
tagged_current (some (whole (pos wire))) current = wire == 0 || wire == current

-- Where the host knows the session's generation, a 32-bit number that is not 0, input passes exactly if it has no
-- tag, the tag 0 or that generation for a tag: any other number, a negative one, one that is not whole or
-- one that is too large included, is dropped.
input_passes-coerce_wire_generation :
    (wire : Option WireNumber) (current : ℕ)
    → 0 < current
    → current ≤ 0xffff_ffff
    → input_passes (coerce_wire_generation wire current) current ≡ tagged_current wire current
unfolding coerce_wire_generation should_drop_stale_input
input_passes-coerce_wire_generation none current l u = ground arith
input_passes-coerce_wire_generation (some other) current l u = refl
input_passes-coerce_wire_generation (some (whole (negsuc n))) current l u = refl
input_passes-coerce_wire_generation (some (whole (pos wire))) current l u = ground arith
