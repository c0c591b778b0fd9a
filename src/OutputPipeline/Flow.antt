-- ===== src/OutputPipeline/Flow.antt =====
-- The flow messages of a page, one operation at a time.
use parasor.Base.Bytes.{Bytes}
use parasor.Base.{
  ◌+◌, ◌-◌, ◌≡◌, ◌≤◌, ◌<◌, ◌⊎◌, refl, sym, ap, subst, ◌∙◌, inl, inr, Bool, true, false, not, ◌&&◌,
  ◌||◌, List, [], ◌∷◌, ◌++◌, leb, ltb, length, length-append, flatten, arith, Bool-cases,
}
use parasor.OutputPipeline.{
  Completion, plain, flushed, cached, expanded, replay, Effect, flow_pause, flow_resume, refresh,
  writes, resets, refreshes_rows, restores_scroll, tells_flushed, replayed, Pipeline, maybe_resume,
  is_plain, track, write_terminal_output, on_complete, write_complete, is_empty, flush_output_batch,
  reset_output_pipeline, output_flow_callback_byte_limit, output_flow_high_water,
  output_flow_low_water, clear_output_batch,
}

-- Whether the server was told to pause last, from what it was told before.
unfoldable pub told : Bool → List Effect → Bool
told before [] = before
told before (flow_pause ∷ es) = told true es
told before (flow_resume ∷ es) = told false es
told before (e ∷ es) = told before es

-- A pause is told only where the server is not paused, and a resumption only where it is.
unfoldable pub alternates : Bool → List Effect → Bool
alternates before [] = true
alternates before (flow_pause ∷ es) = not before && alternates true es
alternates before (flow_resume ∷ es) = before && alternates false es
alternates before (e ∷ es) = alternates before es

pub record IsSound (s : Pipeline) : Type 0 where
  pub counted : s.pending_callbacks ≤ length s.in_flight
  pub held : (s.paused ≡ false) ⊎ (output_flow_low_water < s.pending_callbacks)

pub record Steps (before : Bool) (r : Pipeline × List Effect) : Type 0 where
  pub sound : IsSound r.0
  pub tells : told before r.1 ≡ r.0.paused
  pub fair : alternates before r.1 ≡ true

told_append :
    (before : Bool) (xs ys : List Effect) → told before (xs ++ ys) ≡ told (told before xs) ys
unfolding told
told_append before [] ys = refl
told_append before (flow_pause ∷ xs) ys = told_append true xs ys
told_append before (flow_resume ∷ xs) ys = told_append false xs ys
told_append before (refresh ∷ xs) ys = told_append before xs ys
told_append before (writes t ∷ xs) ys = told_append before xs ys
told_append before (resets ∷ xs) ys = told_append before xs ys
told_append before (refreshes_rows ∷ xs) ys = told_append before xs ys
told_append before (restores_scroll ∷ xs) ys = told_append before xs ys
told_append before (tells_flushed ∷ xs) ys = told_append before xs ys
told_append before (replayed t ∷ xs) ys = told_append before xs ys

alternates_append :
    (before : Bool) (xs ys : List Effect)
    → alternates before (xs ++ ys) ≡ (alternates before xs && alternates (told before xs) ys)
unfolding told alternates
alternates_append before [] ys = refl
alternates_append true (flow_pause ∷ xs) ys = refl
alternates_append false (flow_pause ∷ xs) ys = alternates_append true xs ys
alternates_append true (flow_resume ∷ xs) ys = alternates_append false xs ys
alternates_append false (flow_resume ∷ xs) ys = refl
alternates_append before (refresh ∷ xs) ys = alternates_append before xs ys
alternates_append before (writes t ∷ xs) ys = alternates_append before xs ys
alternates_append before (resets ∷ xs) ys = alternates_append before xs ys
alternates_append before (refreshes_rows ∷ xs) ys = alternates_append before xs ys
alternates_append before (restores_scroll ∷ xs) ys = alternates_append before xs ys
alternates_append before (tells_flushed ∷ xs) ys = alternates_append before xs ys
alternates_append before (replayed t ∷ xs) ys = alternates_append before xs ys

-- What is done first tells nothing wrong either.
pub Steps-append :
    (before : Bool) (xs : List Effect) (r : Pipeline × List Effect)
    → alternates before xs ≡ true
    → Steps (told before xs) r
    → Steps before (r.0, xs ++ r.1)
Steps-append before xs r f k = record {
  sound = k.sound;
  tells = told_append before xs r.1 ∙ k.tells;
  fair = alternates_append before xs r.1 ∙ rw f k.fair;
}

track-Steps :
    (text : Bytes) (done : Completion) (s : Pipeline)
    → IsSound s
    → Steps s.paused (track text done s)
unfolding told alternates
track-Steps text done s k =
    let count : s.pending_callbacks + 1 ≤ length (s.in_flight ++ done ∷ []) =
      omega (arith, k.counted, length-append s.in_flight (done ∷ [])) in
    elim (Bool-cases s.paused) [
      | inl p ↦
          let more : output_flow_low_water < s.pending_callbacks + 1 = elim k.held [
            | inl free ↦ absurd cc
            | inr many ↦ omega (arith, many)
          ] in
          rw p (record {
            sound = record { counted = count; held = inr more };
            tells = refl;
            fair = refl;
          })
      | inr p ↦ elim (Bool-cases (ltb output_flow_high_water (s.pending_callbacks + 1))) [
        | inl high ↦
            rw (p, high)
              (record {
                sound = record { counted = count; held = inr (ground arith) };
                tells = refl;
                fair = refl;
              })
        | inr low ↦
            rw (p, low)
              (record {
                sound = record { counted = count; held = inl refl };
                tells = refl;
                fair = refl;
              })
      ]
    ]

pub write-Steps :
    (traced : Bool) (text : Bytes) (done : Completion) (s : Pipeline)
    → IsSound s
    → Steps s.paused (write_terminal_output traced text done s)
unfolding told alternates write_terminal_output
write-Steps traced text done s k =
    let bytes = s.bytes_since_callback + length text in
    elim (Bool-cases (not (is_plain done) || leb output_flow_callback_byte_limit bytes || traced)) [
      | inl e ↦ rw (write_terminal_output, e) (track-Steps text done s k)
      | inr e ↦
          rw (write_terminal_output, e)
            (record {
              sound = record { counted = k.counted; held = k.held };
              tells = refl;
              fair = refl;
            })
    ]

maybe_resume-Steps :
    (s : Pipeline) → s.pending_callbacks ≤ length s.in_flight → Steps s.paused (maybe_resume s)
unfolding told alternates
maybe_resume-Steps s l =
    elim (Bool-cases (not s.paused || ltb output_flow_low_water s.pending_callbacks)) [
      | inl e ↦
          let held : (s.paused ≡ false) ⊎ (output_flow_low_water < s.pending_callbacks) =
            elim (Bool-cases s.paused) [ inl p ↦ inr (ground arith) | inr p ↦ inl p ] in
          rw e (record { sound = record { counted = l; held = held }; tells = refl; fair = refl })
      | inr e ↦
          let p : s.paused ≡ true = ground arith in
          rw e (record {
            sound = record { counted = l; held = inl refl };
            tells = refl;
            fair = rw p refl;
          })
    ]

told-on_complete : (before : Bool) (done : Completion) → told before (on_complete done) ≡ before
unfolding told
told-on_complete before plain = refl
told-on_complete before flushed = refl
told-on_complete before cached = refl
told-on_complete before expanded = refl
told-on_complete before (replay text) = refl

alternates-on_complete :
    (before : Bool) (done : Completion) → alternates before (on_complete done) ≡ true
unfolding alternates
alternates-on_complete before plain = refl
alternates-on_complete before flushed = refl
alternates-on_complete before cached = refl
alternates-on_complete before expanded = refl
alternates-on_complete before (replay text) = refl

pub in_flight-cases :
    (xs : List Completion)
    → (xs ≡ []) ⊎ ((done : Completion) × (rest : List Completion) × (xs ≡ done ∷ rest))
in_flight-cases [] = inl refl
in_flight-cases (done ∷ rest) = inr (done, rest, refl)

pub write_complete-Steps : (s : Pipeline) → IsSound s → Steps s.paused (write_complete s)
unfolding told alternates write_complete
write_complete-Steps s k = elim (in_flight-cases s.in_flight) [
  | inl e ↦ rw (write_complete, e) (record { sound = k; tells = refl; fair = refl })
  | inr (done, rest, e) ↦
      let s' = record s { pending_callbacks = s.pending_callbacks - 1; in_flight = rest } in
      let fewer : s.pending_callbacks - 1 ≤ length rest = omega (arith, k.counted, ap length e) in
      rw (write_complete, e)
        (Steps-append s.paused (on_complete done) (maybe_resume s')
          (alternates-on_complete s.paused done)
          (subst (λ b. Steps b (maybe_resume s')) (sym (told-on_complete s.paused done))
            (maybe_resume-Steps s' fewer)))
]

pub silent : (s : Pipeline) → IsSound s → Steps s.paused (s, [])
unfolding told alternates
silent s k = record { sound = k; tells = refl; fair = refl }

pub same :
    (s s' : Pipeline)
    → s'.pending_callbacks ≡ s.pending_callbacks
    → s'.in_flight ≡ s.in_flight
    → s'.paused ≡ s.paused
    → IsSound s
    → IsSound s'
same s s' p f q k = record {
  counted = omega (arith, k.counted, p, ap length f);
  held = elim k.held [ inl free ↦ inl (q ∙ free) | inr many ↦ inr (omega (arith, p, many)) ];
}

pub flush-Steps :
    (traced has_term : Bool) (done : Completion) (s : Pipeline)
    → IsSound s
    → Steps s.paused (flush_output_batch traced has_term done s)
unfolding flush_output_batch
flush-Steps traced has_term done s k =
    let s' = clear_output_batch s in
    let k' = same s s' refl refl refl k in
    elim (Bool-cases (is_empty s.chunks || not has_term)) [
      | inl e ↦ rw (flush_output_batch, e) (silent s' k')
      | inr e ↦ rw (flush_output_batch, e) (write-Steps traced (flatten s.chunks) done s' k')
    ]

pub reset-Steps : (s : Pipeline) → Steps s.paused (reset_output_pipeline true s)
unfolding reset_output_pipeline told alternates
reset-Steps s = elim (Bool-cases s.paused) [
  | inl p ↦ rw p (record {
    sound = record { counted = omega arith; held = inl refl };
    tells = refl;
    fair = refl;
  })
  | inr p ↦ rw p (record {
    sound = record { counted = omega arith; held = inl refl };
    tells = refl;
    fair = refl;
  })
]
