-- ===== src/ReplayCache.antt =====
-- packages/web/src/lib/terminal-replay-cache.ts: the screens that a page keeps for the terminals it comes back to. Text is
-- the list of its code units, and the time is an argument.
mod Entries
pub mod Budget
pub mod Recency
mod Tests
use parasor.Base.Bytes.{Bytes}
use parasor.Base.Classes.{string_eq}
use parasor.Base.Int.{pos, negsuc}
use parasor.Base.Map.{lookup, insert, erase}
use parasor.Base.{
  ℕ, zero, suc, ◌+◌, ◌-◌, ◌*◌, Bool, true, false, not, ◌||◌, ◌&&◌, Option, none, some, List, [],
  ◌∷◌, String, ltb, leb, if◌then◌else◌, length,
}
use parasor.TerminalRelay.Generation.{WireNumber, whole, other}

abbrev pub max_entry_chars : ℕ
max_entry_chars = 4 * 1024 * 1024

abbrev pub max_total_chars : ℕ
max_total_chars = 12 * 1024 * 1024

-- `lastSeen` is the generation and the number of the last chunk.
pub record Entry : Type 0 where
  pub text : Bytes
  pub last_seen : ℕ × String
  pub cols : WireNumber
  pub rows : WireNumber
  pub stored_at : ℕ

pub record ReplayCache : Type 0 where
  pub entries : List (String × Entry)
  pub total_chars : ℕ

-- `evictOldest`: the first key of the map.
unfoldable pub evict_oldest : ReplayCache → ReplayCache
evict_oldest c = elim c.entries [
  | [] ↦ c
  | (oldest, entry) ∷ rest ↦ record c {
    entries = rest;
    total_chars = c.total_chars - length entry.text;
  }
]

unfoldable pub get : String → ReplayCache → ReplayCache × Option Entry
get session_id c = elim (lookup session_id c.entries) [
  | none ↦ (c, none)
  | some entry ↦
      (record c { entries = insert session_id entry (erase session_id c.entries) }, some entry)
]

-- `clearTerminalReplayCache` on a session, and on none.
unfoldable pub clear_session : String → ReplayCache → ReplayCache
clear_session session_id c = elim (lookup session_id c.entries) [
  | none ↦ record c { entries = erase session_id c.entries }
  | some existing ↦ record c {
    entries = erase session_id c.entries;
    total_chars = c.total_chars - length existing.text;
  }
]

abbrev pub clear_all : ReplayCache → ReplayCache
clear_all c = record { entries = []; total_chars = 0 }

-- A safe integer above 0.
abbrev pub is_size : WireNumber → Bool
is_size other = false
is_size (whole (negsuc n)) = false
is_size (whole (pos n)) = ltb 0 n && leb n 0x1f_ffff_ffff_ffff

abbrev pub is_kept : Entry → Bool
is_kept entry =
    ltb 0 (length entry.text)
    && leb (length entry.text) max_entry_chars
    && is_size entry.cols
    && is_size entry.rows

-- `while (totalChars > MAX_TOTAL_CHARS) evictOldest();`
unfoldable pub evict_while : ℕ → ReplayCache → ReplayCache
evict_while zero c = c
evict_while (suc fuel) c =
    let later = evict_while fuel (evict_oldest c) in
    if ltb max_total_chars c.total_chars then later else c

abbrev pub add_entry : String → Entry → ReplayCache → ReplayCache
add_entry session_id entry c = record {
  entries = insert session_id entry c.entries;
  total_chars = c.total_chars + length entry.text;
}

-- `setTerminalReplayCache`. Each round of the loop takes an entry out.
unfoldable pub set : String → Entry → ReplayCache → ReplayCache
set session_id entry c =
    let cleared = clear_session session_id c in
    let added = add_entry session_id entry cleared in
    let trimmed = evict_while (length added.entries) added in
    if is_kept entry then trimmed else cleared

pub data Call : Type 0 where
  gets : String → Call
  sets : String → Entry → Call
  clears : String → Call
  clears_all : Call

unfoldable pub run_call : Call → ReplayCache → ReplayCache
run_call (gets id) c = (get id c).0
run_call (sets id entry) c = set id entry c
run_call (clears id) c = clear_session id c
run_call clears_all c = clear_all c

unfoldable pub run : List Call → ReplayCache → ReplayCache
run [] c = c
run (call ∷ calls) c = run calls (run_call call c)
