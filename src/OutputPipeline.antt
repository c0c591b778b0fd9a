-- ===== src/OutputPipeline.antt =====
-- packages/web/src/features/panes/terminal/terminal-output-pipeline.ts: from the socket to the terminal of a page, with the batches
-- of a frame and the flow control. Text is the list of its code units; `is_visible` is what the regular expressions of
-- `hasVisibleTerminalContent` decide, and `traced` whether traces are on. The terminal calls back for its writes in
-- their order, and the socket's `send` is there.
pub mod Flow
pub mod Resumption
pub mod Screen
pub mod Replays
mod Tests
use parasor.Base.Bytes.{Bytes}
use parasor.Base.{
  ℕ, ◌+◌, ◌-◌, Bool, true, false, not, ◌&&◌, ◌||◌, List, [], ◌∷◌, ◌++◌, leb, ltb, if◌then◌else◌,
  length, flatten,
}

abbrev pub output_flow_callback_byte_limit : ℕ
output_flow_callback_byte_limit = 100000

abbrev pub output_flow_high_water : ℕ
output_flow_high_water = 5

abbrev pub output_flow_low_water : ℕ
output_flow_low_water = 2

-- What a write does when the terminal has taken it, besides the count of the callbacks.
pub data Completion : Type 0 where
  plain flushed cached expanded : Completion
  replay : Bytes → Completion

pub data Effect : Type 0 where
  flow_pause flow_resume refresh : Effect
  writes : Bytes → Effect
  resets refreshes_rows restores_scroll tells_flushed : Effect
  replayed : Bytes → Effect

-- The references of the hook. `in_flight` are the writes whose callbacks the terminal has still to make.
pub record Pipeline : Type 0 where
  pub chunks : List Bytes
  pub timer : Bool
  pub bytes_since_callback : ℕ
  pub pending_callbacks : ℕ
  pub paused : Bool
  pub replay_refresh_pending : Bool
  pub has_received_data : Bool
  pub first_data_timer : Bool
  pub in_flight : List Completion

abbrev pub maybe_resume : Pipeline → Pipeline × List Effect
maybe_resume s =
    if not s.paused || ltb output_flow_low_water s.pending_callbacks
    then (s, [])
    else (record s { paused = false }, flow_resume ∷ [])

abbrev pub is_plain : Completion → Bool
is_plain plain = true
is_plain _ = false

-- A write that calls back.
abbrev pub track : Bytes → Completion → Pipeline → Pipeline × List Effect
track text done s =
    let s' = record s {
      bytes_since_callback = 0;
      pending_callbacks = s.pending_callbacks + 1;
      in_flight = s.in_flight ++ done ∷ [];
    } in
    if not s.paused && ltb output_flow_high_water (s.pending_callbacks + 1)
    then (record s' { paused = true }, flow_pause ∷ writes text ∷ [])
    else (s', writes text ∷ [])

unfoldable pub write_terminal_output : Bool → Bytes → Completion → Pipeline → Pipeline × List Effect
write_terminal_output traced text done s =
    let bytes = s.bytes_since_callback + length text in
    if not (is_plain done) || leb output_flow_callback_byte_limit bytes || traced
    then track text done s
    else (record s { bytes_since_callback = bytes }, writes text ∷ [])

abbrev pub on_complete : Completion → List Effect
on_complete plain = []
on_complete flushed = tells_flushed ∷ []
on_complete cached = refreshes_rows ∷ []
on_complete expanded = refreshes_rows ∷ restores_scroll ∷ refresh ∷ []
on_complete (replay text) = refreshes_rows ∷ replayed text ∷ []

-- The callback of the first write in flight.
unfoldable pub write_complete : Pipeline → Pipeline × List Effect
write_complete s = elim s.in_flight [
  | [] ↦ (s, [])
  | done ∷ rest ↦
      let after =
        maybe_resume (record s { pending_callbacks = s.pending_callbacks - 1; in_flight = rest }) in
      (after.0, on_complete done ++ after.1)
]

abbrev pub clear_output_batch : Pipeline → Pipeline
clear_output_batch s = record s { chunks = []; timer = false }

abbrev pub is_empty : List Bytes → Bool
is_empty [] = true
is_empty (c ∷ cs) = false

unfoldable pub flush_output_batch : Bool → Bool → Completion → Pipeline → Pipeline × List Effect
flush_output_batch traced has_term done s =
    let s' = clear_output_batch s in
    if is_empty s.chunks || not has_term
    then (s', [])
    else write_terminal_output traced (flatten s.chunks) done s'

abbrev pub queue_terminal_output : Bytes → Pipeline → Pipeline
queue_terminal_output text s = record s { chunks = s.chunks ++ text ∷ []; timer = true }

unfoldable pub reset_output_pipeline : Bool → Pipeline → Pipeline × List Effect
reset_output_pipeline resume_if_paused s = (
  record (clear_output_batch s) {
    bytes_since_callback = 0;
    pending_callbacks = 0;
    paused = false;
    replay_refresh_pending = false;
    has_received_data = false;
    first_data_timer = false;
  },
  if resume_if_paused && s.paused then flow_resume ∷ [] else [],
)

module _ (is_visible : Bytes → Bool) (traced : Bool) where
  -- `onData` behind the flag of the first data and its timer.
  abbrev pub receive : Bytes → Pipeline → Pipeline × List Effect
  receive text s =
      let (written, effects) =
        write_terminal_output traced text (replay text)
          (record s { replay_refresh_pending = false }) in
      if s.replay_refresh_pending
      then (written, resets ∷ effects)
      else (queue_terminal_output text s, [])

  unfoldable pub on_data : Bool → Bytes → Pipeline → Pipeline × List Effect
  on_data has_term text s =
      let received = s.has_received_data || is_visible text in
      if has_term
      then receive text (record s {
        has_received_data = received;
        first_data_timer = s.first_data_timer && not received;
      })
      else (s, [])

  unfoldable pub on_full_replay : Pipeline → Pipeline × List Effect
  on_full_replay s =
      let after = reset_output_pipeline true s in
      (record (after.0) { replay_refresh_pending = true }, after.1)

  -- `restoreCachedReplay` and `restoreExpandedReplay`, by what their write does in the end.
  unfoldable pub restore_replay : Bytes → Completion → Pipeline → Pipeline × List Effect
  restore_replay text done s =
      let after = reset_output_pipeline true s in
      let written =
        write_terminal_output traced text done
          (record (after.0) { has_received_data = is_visible text }) in
      (written.0, resets ∷ after.1 ++ written.1)

  pub data Event : Type 0 where
    data_comes : Bool → Bytes → Event
    frame_comes : Bool → Event
    flush_asked : Bool → Event
    full_replay_comes : Event
    cached_restored expanded_restored : Bytes → Event
    reset_asked : Bool → Event
    write_done : Event

  unfoldable pub occur : Event → Pipeline → Pipeline × List Effect
  occur (data_comes has_term text) s = on_data has_term text s
  occur (frame_comes has_term) s = flush_output_batch traced has_term plain s
  occur (flush_asked has_term) s = flush_output_batch traced has_term flushed s
  occur full_replay_comes s = on_full_replay s
  occur (cached_restored text) s = restore_replay text cached s
  occur (expanded_restored text) s = restore_replay text expanded s
  occur (reset_asked resume) s = reset_output_pipeline resume s
  occur write_done s = write_complete s

  unfoldable pub occur_all : List Event → Pipeline → Pipeline × List Effect
  occur_all [] s = (s, [])
  occur_all (e ∷ es) s =
      let next = occur e s in let later = occur_all es next.0 in (later.0, next.1 ++ later.1)
