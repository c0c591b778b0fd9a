-- ===== src/OutputPipeline/Replays.antt =====
-- What the terminal is handed over a course of events, with the replays in it.
use mathlib.Core.List.{append_assoc, append-nil}
use parasor.Base.Bytes.{Bytes}
use parasor.Base.{
  ◌≡◌, refl, sym, ap, subst, ◌∙◌, inl, inr, Bool, true, false, not, ◌&&◌, ◌||◌, List, [], ◌∷◌, ◌++◌,
  if◌then◌else◌, flatten, flatten-concat, arith, Bool-cases,
}
use parasor.OutputPipeline.{
  Completion, plain, flushed, cached, expanded, replay, Pipeline, write_terminal_output,
  write_complete, is_empty, flush_output_batch, reset_output_pipeline, on_data, on_full_replay,
  restore_replay, clear_output_batch, Event, data_comes, frame_comes, flush_asked,
  full_replay_comes, cached_restored, expanded_restored, reset_asked, write_done, occur, occur_all,
}
use parasor.OutputPipeline.Screen.{
  handed, handed_append, write-Writes, write_complete-Keeps, handed-reset, flatten-is_empty, Agrees,
  written-Agrees,
}

module _ (is_visible : Bytes → Bool) (traced : Bool) where
  -- What the server has sent the page: the text since the last replay, and whether the next data begins one.
  abbrev pub wanted : Event is_visible traced → Bytes × Bool → Bytes × Bool
  wanted (data_comes has_term text) w = (if w.1 then text else w.0 ++ text, false)
  wanted full_replay_comes w = (w.0, true)
  wanted (cached_restored text) w = (text, false)
  wanted (expanded_restored text) w = (text, false)
  wanted e w = w

  unfoldable pub wanted_all : List (Event is_visible traced) → Bytes × Bool → Bytes × Bool
  wanted_all [] w = w
  wanted_all (e ∷ es) w = wanted_all es (wanted e w)

  -- The terminal is there, and the pipeline is not reset from outside.
  abbrev pub HasTerm : Event is_visible traced → Type 0
  HasTerm (data_comes has_term text) = has_term ≡ true
  HasTerm (frame_comes has_term) = has_term ≡ true
  HasTerm (flush_asked has_term) = has_term ≡ true
  HasTerm (reset_asked resume) = ⊥
  HasTerm _ = Unit

  unfoldable pub AllHaveTerm : List (Event is_visible traced) → Type 0
  AllHaveTerm [] = Unit
  AllHaveTerm (e ∷ es) = HasTerm e × AllHaveTerm es

  flush-Agrees :
      (done : Completion) (s : Pipeline) (t : Bytes) (w : Bytes × Bool)
      → Agrees s t w
      → Agrees
          (flush_output_batch traced true done s).0
          (handed (flush_output_batch traced true done s).1 t)
          w
  unfolding flush_output_batch handed
  flush-Agrees done s t w a =
      let s' = clear_output_batch s in
      elim (Bool-cases (is_empty s.chunks || not true)) [
        | inl e ↦
            let none_left : is_empty s.chunks ≡ true = ground arith in
            rw (flush_output_batch, e)
              (record {
                flag = a.flag;
                text = elim a.text [
                  | inl (begins, empty) ↦ inl (begins, refl)
                  | inr (runs, all) ↦
                      inr (runs, sym (ap (λ f. t ++ f) (flatten-is_empty s.chunks none_left)) ∙ all)
                ];
              })
        | inr e ↦
            rw (flush_output_batch, e)
              (written-Agrees s' (flatten s.chunks) t w
                (write_terminal_output traced (flatten s.chunks) done s')
                (write-Writes traced (flatten s.chunks) done s') refl a.flag
                (elim a.text [ inl (begins, empty) ↦ inl begins | inr all ↦ inr all ]))
      ]

  on_data-Agrees :
      (text : Bytes) (s : Pipeline) (t : Bytes) (w : Bytes × Bool)
      → Agrees s t w
      → Agrees
          (on_data is_visible traced true text s).0
          (handed (on_data is_visible traced true text s).1 t)
          (if w.1 then text else w.0 ++ text, false)
  unfolding on_data handed
  on_data-Agrees text s t w a = elim (Bool-cases s.replay_refresh_pending) [
    | inl e ↦
        let begins : w.1 ≡ true = sym a.flag ∙ e in
        let empty : s.chunks ≡ [] = elim a.text [
          | inl (again, none_left) ↦ none_left
          | inr (runs, all) ↦ absurd cc
        ] in
        let s' = record s {
          has_received_data = s.has_received_data || is_visible text;
          first_data_timer = s.first_data_timer && not (s.has_received_data || is_visible text);
          replay_refresh_pending = false;
        } in
        rw (e, begins)
          (written-Agrees s' text [] (text, false)
            (write_terminal_output traced text (replay text) s')
            (write-Writes traced text (replay text) s') empty refl (inr (refl, refl)))
    | inr e ↦
        let runs : w.1 ≡ false = sym a.flag ∙ e in
        let all : t ++ flatten s.chunks ≡ w.0 = elim a.text [
          | inl (begins, none_left) ↦ absurd cc
          | inr (again, all) ↦ all
        ] in
        rw (e, runs)
          (record {
            flag = refl;
            text = inr (
              refl,
              ap (λ x. t ++ x) (flatten-concat s.chunks text)
                  ∙ sym (append_assoc t (flatten s.chunks) text)
                  ∙ ap (λ x. x ++ text) all,
            );
          })
  ]

  restore-Agrees :
      (text : Bytes) (done : Completion) (s : Pipeline) (t : Bytes)
      → Agrees
          (restore_replay is_visible traced text done s).0
          (handed (restore_replay is_visible traced text done s).1 t)
          (text, false)
  unfolding restore_replay reset_output_pipeline handed
  restore-Agrees text done s t =
      let after = reset_output_pipeline true s in
      let s' = record (after.0) { has_received_data = is_visible text } in
      let r = write_terminal_output traced text done s' in
      let first : handed (after.1 ++ r.1) [] ≡ handed r.1 [] =
        handed_append (after.1) r.1 [] ∙ ap (handed r.1) (handed-reset s []) in
      subst (λ x. Agrees r.0 x (text, false)) (sym first)
        (written-Agrees s' text [] (text, false) r (write-Writes traced text done s') refl refl
          (inr (refl, refl)))

  full_replay-Agrees :
      (s : Pipeline) (t : Bytes) (w : Bytes × Bool)
      → Agrees
          (on_full_replay is_visible traced s).0
          (handed (on_full_replay is_visible traced s).1 t)
          (w.0, true)
  unfolding on_full_replay reset_output_pipeline
  full_replay-Agrees s t w = record { flag = refl; text = inl (refl, refl) }

  occur-Agrees :
      (e : Event is_visible traced) (s : Pipeline) (t : Bytes) (w : Bytes × Bool)
      → HasTerm e
      → Agrees s t w
      → Agrees
          (occur is_visible traced e s).0
          (handed (occur is_visible traced e s).1 t)
          (wanted e w)
  unfolding occur
  occur-Agrees (data_comes has_term text) s t w h a = rw h (on_data-Agrees text s t w a)
  occur-Agrees (frame_comes has_term) s t w h a = rw h (flush-Agrees plain s t w a)
  occur-Agrees (flush_asked has_term) s t w h a = rw h (flush-Agrees flushed s t w a)
  occur-Agrees full_replay_comes s t w h a = full_replay-Agrees s t w
  occur-Agrees (cached_restored text) s t w h a = restore-Agrees text cached s t
  occur-Agrees (expanded_restored text) s t w h a = restore-Agrees text expanded s t
  occur-Agrees (reset_asked resume) s t w h a = absurd h
  occur-Agrees write_done s t w h a =
      let k = write_complete-Keeps s in
      record {
        flag = k.flag ∙ a.flag;
        text = elim a.text [
          | inl (begins, empty) ↦ inl (begins, k.batch ∙ empty)
          | inr (runs, all) ↦ inr (
            runs,
            ap (λ x. x ++ flatten (write_complete s).0.chunks) (k.quiet t)
                ∙ ap (λ cs. t ++ flatten cs) k.batch
                ∙ all,
          )
        ];
      }

  occur_all-Agrees :
      (es : List (Event is_visible traced)) (s : Pipeline) (t : Bytes) (w : Bytes × Bool)
      → AllHaveTerm es
      → Agrees s t w
      → Agrees
          (occur_all is_visible traced es s).0
          (handed (occur_all is_visible traced es s).1 t)
          (wanted_all es w)
  unfolding occur_all wanted_all AllHaveTerm handed
  occur_all-Agrees [] s t w h a = a
  occur_all-Agrees (e ∷ es) s t w (h, hs) a =
      let next = occur is_visible traced e s in
      let later = occur_all is_visible traced es (next.0) in
      subst (λ x. Agrees later.0 x (wanted_all es (wanted e w)))
        (sym (handed_append (next.1) later.1 t))
        (occur_all-Agrees es (next.0) (handed (next.1) t) (wanted e w) hs
          (occur-Agrees e s t w h a))

  -- For a course of events in which the terminal is there for every text, frame and flush and the pipeline is not reset
  -- from outside, from a pipeline with an empty batch that expects no replay: unless a replay is to begin at the end, the texts
  -- of the `write` calls made since the last `reset` call, then what waits in the batch, are in their order what came before the
  -- course, or since its last replay or restored text, whatever frames, flushes and callbacks came between.
  pub handed-occur_all :
      (es : List (Event is_visible traced)) (s : Pipeline) (t : Bytes)
      → AllHaveTerm es
      → s.replay_refresh_pending ≡ false
      → s.chunks ≡ []
      → (wanted_all es (t, false)).1 ≡ false
      → handed (occur_all is_visible traced es s).1 t
          ++ flatten (occur_all is_visible traced es s).0.chunks
        ≡ (wanted_all es (t, false)).0
  handed-occur_all es s t h f e ended =
      let start : Agrees s t (t, false) = record {
        flag = f;
        text = inr (refl, ap (λ cs. t ++ flatten cs) e ∙ append-nil t);
      } in
      elim (occur_all-Agrees es s t (t, false) h start).text [
        | inl (begins, none_left) ↦ absurd cc
        | inr (runs, all) ↦ all
      ]
