-- ===== src/OutputPipeline/Tests.antt =====
-- A page that gets two texts, a replay and one more.
use parasor.Base.Bytes.{Bytes}
use parasor.Base.{◌≡◌, refl, inl, Bool, true, false, List, [], ◌∷◌, ◌++◌, flatten, arith}
use parasor.OutputPipeline.Flow.{told, alternates}
use parasor.OutputPipeline.Resumption.{AllResume, occur_all-resumes}
use parasor.OutputPipeline.Screen.{handed}
use parasor.OutputPipeline.Replays.{wanted_all, AllHaveTerm, handed-occur_all}
use parasor.OutputPipeline.{
  Pipeline, Event, writes, resets, refreshes_rows, replayed, data_comes, frame_comes,
  full_replay_comes, write_done, occur_all, occur, on_data, on_full_replay, flush_output_batch,
  write_terminal_output, write_complete, reset_output_pipeline,
}

abbrev is_visible : Bytes → Bool
is_visible text = true

abbrev rest : Pipeline
rest = record {
  chunks = [];
  timer = false;
  bytes_since_callback = 0;
  pending_callbacks = 0;
  paused = false;
  replay_refresh_pending = false;
  has_received_data = false;
  first_data_timer = true;
  in_flight = [];
}

abbrev course : List (Event is_visible false)
course =
    data_comes true (1 ∷ [])
    ∷ data_comes true (2 ∷ [])
    ∷ frame_comes true
    ∷ full_replay_comes
    ∷ data_comes true (3 ∷ [])
    ∷ data_comes true (4 ∷ [])
    ∷ write_done
    ∷ []

effects :
    (occur_all is_visible false course rest).1
    ≡ writes (1 ∷ 2 ∷ []) ∷ resets ∷ writes (3 ∷ []) ∷ refreshes_rows ∷ replayed (3 ∷ []) ∷ []
unfolding occur_all occur on_data on_full_replay flush_output_batch write_terminal_output
    write_complete reset_output_pipeline
effects = refl

occur_all-resumes_example :
    (told false (occur_all is_visible false course rest).1 ≡ false)
    × (alternates false (occur_all is_visible false course rest).1 ≡ true)
unfolding AllResume occur_all occur on_data on_full_replay flush_output_batch write_terminal_output
    write_complete reset_output_pipeline
occur_all-resumes_example =
    occur_all-resumes is_visible false course rest (tt, (tt, (tt, (tt, (tt, (tt, (tt, tt)))))))
      (record { counted = omega arith; held = inl refl }) refl

handed-occur_all_example :
    handed (occur_all is_visible false course rest).1 (9 ∷ [])
      ++ flatten (occur_all is_visible false course rest).0.chunks
    ≡ (wanted_all is_visible false course (9 ∷ [], false)).0
unfolding AllHaveTerm wanted_all
handed-occur_all_example =
    handed-occur_all is_visible false course rest (9 ∷ [])
      (refl, (refl, (refl, (tt, (refl, (refl, (tt, tt))))))) refl refl refl
