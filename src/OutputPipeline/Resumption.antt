-- ===== src/OutputPipeline/Resumption.antt =====
-- Pauses and resumptions over a course of events.
use parasor.Base.Bytes.{Bytes}
use parasor.Base.{
  ◌≡◌, refl, sym, ap, subst, ◌∙◌, inl, inr, Bool, true, false, List, [], ◌∷◌, length, arith,
  Bool-cases,
}
use parasor.OutputPipeline.{
  Completion, plain, flushed, cached, expanded, replay, resets, Pipeline, write_terminal_output,
  reset_output_pipeline, receive, on_data, on_full_replay, restore_replay, Event, data_comes,
  frame_comes, flush_asked, full_replay_comes, cached_restored, expanded_restored, reset_asked,
  write_done, occur, occur_all,
}
use parasor.OutputPipeline.Flow.{
  told, alternates, IsSound, Steps, Steps-append, write-Steps, write_complete-Steps, silent, same,
  flush-Steps, reset-Steps,
}

module _ (is_visible : Bytes → Bool) (traced : Bool) where
  -- A reset that tells the server to resume, as each does but the one of a page that goes away.
  abbrev pub Resumes : Event is_visible traced → Type 0
  Resumes (reset_asked resume) = resume ≡ true
  Resumes _ = Unit

  unfoldable pub AllResume : List (Event is_visible traced) → Type 0
  AllResume [] = Unit
  AllResume (e ∷ es) = Resumes e × AllResume es

  receive-Steps :
      (text : Bytes) (s : Pipeline) → IsSound s → Steps s.paused (receive is_visible traced text s)
  unfolding told alternates
  receive-Steps text s k = elim (Bool-cases s.replay_refresh_pending) [
    | inl e ↦
        let s' = record s { replay_refresh_pending = false } in
        let w = write_terminal_output traced text (replay text) s' in
        rw e (
          Steps-append s.paused (resets ∷ []) w refl
            (write-Steps traced text (replay text) s' (same s s' refl refl refl k)))
    | inr e ↦ rw e (silent _ (same s _ refl refl refl k))
  ]

  on_data-Steps :
      (has_term : Bool) (text : Bytes) (s : Pipeline)
      → IsSound s
      → Steps s.paused (on_data is_visible traced has_term text s)
  unfolding on_data
  on_data-Steps true text s k = receive-Steps text _ (same s _ refl refl refl k)
  on_data-Steps false text s k = silent s k

  on_full_replay-Steps : (s : Pipeline) → Steps s.paused (on_full_replay is_visible traced s)
  unfolding on_full_replay
  on_full_replay-Steps s =
      let r = reset-Steps s in
      let after = (reset_output_pipeline true s).0 in
      record { sound = same after _ refl refl refl r.sound; tells = r.tells; fair = r.fair }

  restore-Steps :
      (text : Bytes) (done : Completion) (s : Pipeline)
      → Steps s.paused (restore_replay is_visible traced text done s)
  unfolding restore_replay told alternates
  restore-Steps text done s =
      let r = reset-Steps s in
      let after = reset_output_pipeline true s in
      let s' = record (after.0) { has_received_data = is_visible text } in
      let w = write_terminal_output traced text done s' in
      Steps-append s.paused (resets ∷ after.1) w r.fair (
        subst (λ b. Steps b w) (sym r.tells)
          (write-Steps traced text done s' (same (after.0) s' refl refl refl r.sound)))

  occur-Steps :
      (e : Event is_visible traced) (s : Pipeline)
      → Resumes e
      → IsSound s
      → Steps s.paused (occur is_visible traced e s)
  unfolding occur
  occur-Steps (data_comes has_term text) s r k = on_data-Steps has_term text s k
  occur-Steps (frame_comes has_term) s r k = flush-Steps traced has_term plain s k
  occur-Steps (flush_asked has_term) s r k = flush-Steps traced has_term flushed s k
  occur-Steps full_replay_comes s r k = on_full_replay-Steps s
  occur-Steps (cached_restored text) s r k = restore-Steps text cached s
  occur-Steps (expanded_restored text) s r k = restore-Steps text expanded s
  occur-Steps (reset_asked resume) s r k = rw r (reset-Steps s)
  occur-Steps write_done s r k = write_complete-Steps s k

  occur_all-Steps :
      (es : List (Event is_visible traced)) (s : Pipeline)
      → AllResume es
      → IsSound s
      → Steps s.paused (occur_all is_visible traced es s)
  unfolding occur_all AllResume
  occur_all-Steps [] s r k = silent s k
  occur_all-Steps (e ∷ es) s (r, rs) k =
      let step = occur-Steps e s r k in
      let next = occur is_visible traced e s in
      Steps-append s.paused (next.1) (occur_all is_visible traced es (next.0)) step.fair (
        subst (λ b. Steps b (occur_all is_visible traced es (next.0))) (sym step.tells)
          (occur_all-Steps es (next.0) rs step.sound))

  -- Whatever comes, pauses and resumptions alternate in what the page tells the server, and once the terminal has made
  -- the callbacks of all writes the server was told to resume last, or never to pause: it does not stay paused.
  pub occur_all-resumes :
      (es : List (Event is_visible traced)) (s : Pipeline)
      → AllResume es
      → IsSound s
      → (occur_all is_visible traced es s).0.in_flight ≡ []
      → (told s.paused (occur_all is_visible traced es s).1 ≡ false)
        × (alternates s.paused (occur_all is_visible traced es s).1 ≡ true)
  occur_all-resumes es s r k e =
      let steps = occur_all-Steps es s r k in
      (
        steps.tells ∙ elim (steps.sound.held) [
          | inl free ↦ free
          | inr many ↦ absurd (omega (arith, many, steps.sound.counted, ap length e))
        ],
        steps.fair,
      )
