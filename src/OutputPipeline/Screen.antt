-- ===== src/OutputPipeline/Screen.antt =====
-- The texts that a page hands to its terminal by `write`, since its last call of `reset`. When xterm parses and shows
-- them is not said: its writes are asynchronous.
use mathlib.Core.List.{append-nil}
use parasor.Base.Bytes.{Bytes}
use parasor.Base.{
  ◌+◌, ◌-◌, ◌≡◌, ◌⊎◌, refl, ap, ◌∙◌, inl, inr, Bool, true, false, not, ◌&&◌, ◌||◌, List, [], ◌∷◌,
  ◌++◌, leb, ltb, length, flatten, Bool-cases,
}
use parasor.OutputPipeline.Flow.{in_flight-cases}
use parasor.OutputPipeline.{
  Completion, plain, flushed, cached, expanded, replay, Effect, flow_pause, flow_resume, refresh,
  writes, resets, refreshes_rows, restores_scroll, tells_flushed, replayed, Pipeline, maybe_resume,
  is_plain, write_terminal_output, on_complete, write_complete, is_empty, reset_output_pipeline,
  output_flow_callback_byte_limit, output_flow_high_water, output_flow_low_water,
}

-- The texts of the calls of `write` behind the last call of `reset`, with those handed over before.
unfoldable pub handed : List Effect → Bytes → Bytes
handed [] t = t
handed (resets ∷ es) t = handed es []
handed (writes text ∷ es) t = handed es (t ++ text)
handed (e ∷ es) t = handed es t

pub handed_append :
    (xs ys : List Effect) (t : Bytes) → handed (xs ++ ys) t ≡ handed ys (handed xs t)
unfolding handed
handed_append [] ys t = refl
handed_append (resets ∷ xs) ys t = handed_append xs ys []
handed_append (writes text ∷ xs) ys t = handed_append xs ys (t ++ text)
handed_append (flow_pause ∷ xs) ys t = handed_append xs ys t
handed_append (flow_resume ∷ xs) ys t = handed_append xs ys t
handed_append (refresh ∷ xs) ys t = handed_append xs ys t
handed_append (refreshes_rows ∷ xs) ys t = handed_append xs ys t
handed_append (restores_scroll ∷ xs) ys t = handed_append xs ys t
handed_append (tells_flushed ∷ xs) ys t = handed_append xs ys t
handed_append (replayed text ∷ xs) ys t = handed_append xs ys t

-- A text goes to the terminal, and the batch and the flag stay.
pub record Writes (s : Pipeline) (text : Bytes) (r : Pipeline × List Effect) : Type 0 where
  pub shows : (t : Bytes) → handed r.1 t ≡ t ++ text
  pub batch : r.0.chunks ≡ s.chunks
  pub flag : r.0.replay_refresh_pending ≡ s.replay_refresh_pending

pub write-Writes :
    (traced : Bool) (text : Bytes) (done : Completion) (s : Pipeline)
    → Writes s text (write_terminal_output traced text done s)
unfolding write_terminal_output handed
write-Writes traced text done s =
    let bytes = s.bytes_since_callback + length text in
    elim (Bool-cases (not (is_plain done) || leb output_flow_callback_byte_limit bytes || traced)) [
      | inl e ↦
          elim (Bool-cases (not s.paused && ltb output_flow_high_water (s.pending_callbacks + 1))) [
            | inl high ↦
                rw (write_terminal_output, e, high)
                  (record { shows = λ t. refl; batch = refl; flag = refl })
            | inr low ↦
                rw (write_terminal_output, e, low)
                  (record { shows = λ t. refl; batch = refl; flag = refl })
          ]
      | inr e ↦
          rw (write_terminal_output, e) (record { shows = λ t. refl; batch = refl; flag = refl })
    ]

-- Nothing is handed, and the batch and the flag stay.
pub record Keeps (s : Pipeline) (r : Pipeline × List Effect) : Type 0 where
  pub quiet : (t : Bytes) → handed r.1 t ≡ t
  pub batch : r.0.chunks ≡ s.chunks
  pub flag : r.0.replay_refresh_pending ≡ s.replay_refresh_pending

handed-on_complete :
    (done : Completion) (es : List Effect) (t : Bytes)
    → handed (on_complete done ++ es) t ≡ handed es t
unfolding handed
handed-on_complete plain es t = refl
handed-on_complete flushed es t = refl
handed-on_complete cached es t = refl
handed-on_complete expanded es t = refl
handed-on_complete (replay text) es t = refl

maybe_resume-Keeps : (s : Pipeline) → Keeps s (maybe_resume s)
unfolding handed
maybe_resume-Keeps s =
    elim (Bool-cases (not s.paused || ltb output_flow_low_water s.pending_callbacks)) [
      | inl e ↦ rw e (record { quiet = λ t. refl; batch = refl; flag = refl })
      | inr e ↦ rw e (record { quiet = λ t. refl; batch = refl; flag = refl })
    ]

pub write_complete-Keeps : (s : Pipeline) → Keeps s (write_complete s)
unfolding write_complete handed
write_complete-Keeps s = elim (in_flight-cases s.in_flight) [
  | inl e ↦ rw (write_complete, e) (record { quiet = λ t. refl; batch = refl; flag = refl })
  | inr (done, rest, e) ↦
      let s' = record s { pending_callbacks = s.pending_callbacks - 1; in_flight = rest } in
      let k = maybe_resume-Keeps s' in
      rw (write_complete, e)
        (record {
          quiet = λ t. handed-on_complete done (maybe_resume s').1 t ∙ k.quiet t;
          batch = k.batch;
          flag = k.flag;
        })
]

pub handed-reset : (s : Pipeline) (t : Bytes) → handed (reset_output_pipeline true s).1 t ≡ t
unfolding reset_output_pipeline handed
handed-reset s t = elim (Bool-cases s.paused) [ inl p ↦ rw p refl | inr p ↦ rw p refl ]

pub flatten-is_empty : (cs : List Bytes) → is_empty cs ≡ true → flatten cs ≡ []
flatten-is_empty [] e = refl
flatten-is_empty (c ∷ cs) e = absurd cc

-- What was handed over and the batch are what is wanted, or a replay is to begin and the batch is empty.
pub record Agrees (s : Pipeline) (t : Bytes) (w : Bytes × Bool) : Type 0 where
  pub flag : s.replay_refresh_pending ≡ w.1
  pub text : ((w.1 ≡ true) × (s.chunks ≡ [])) ⊎ ((w.1 ≡ false) × (t ++ flatten s.chunks ≡ w.0))

-- Behind a write of all that is wanted, with an empty batch.
pub written-Agrees :
    (s : Pipeline) (text t : Bytes) (w : Bytes × Bool) (r : Pipeline × List Effect)
    → Writes s text r
    → s.chunks ≡ []
    → s.replay_refresh_pending ≡ w.1
    → (w.1 ≡ true) ⊎ ((w.1 ≡ false) × (t ++ text ≡ w.0))
    → Agrees r.0 (handed r.1 t) w
written-Agrees s text t w r k e f is = record {
  flag = k.flag ∙ f;
  text = elim is [
    | inl begins ↦ inl (begins, k.batch ∙ e)
    | inr (runs, all) ↦ inr (
      runs,
      ap (λ cs. handed r.1 t ++ flatten cs) (k.batch ∙ e)
          ∙ append-nil (handed r.1 t)
          ∙ k.shows t
          ∙ all,
    )
  ];
}
