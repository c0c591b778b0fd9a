-- ===== src/EventStore/Stream.antt =====
-- The server's numbered messages at the page's socket, in whatever order they come.
use parasor.Base.{
  ℕ, suc, ◌+◌, ◌≡◌, ◌⊎◌, refl, sym, ap, subst, ◌∙◌, inl, inr, true, false, List, [], ◌∷◌, leb, ltb,
  if◌then◌else◌, length, arith, Bool-cases,
}
use parasor.EventStore.Reducers.{apply_event}
use parasor.EventStore.Socket.{
  Envelope, live, EventSocket, Frame, pong, app_state_snapshot, enveloped, disconnected,
  schedule_reconnect, receive, dispatch, handle_message, handle_all,
}
use parasor.EventStore.{AppStore, Message}

pub heard :
    (now : ℕ) (frame : Frame) (e : EventSocket)
    → e.is_current ≡ true
    → handle_message now frame e ≡ dispatch now frame e
unfolding handle_message
heard now frame e c = ap (λ b. if b then dispatch now frame e else e) c

unheard :
    (now : ℕ) (frame : Frame) (e : EventSocket)
    → e.is_current ≡ false
    → handle_message now frame e ≡ e
unfolding handle_message
unheard now frame e c = ap (λ b. if b then dispatch now frame e else e) c

-- A message at a live socket: an old one, one behind a gap, or the next.
receive_cases :
    (now : ℕ) (x : Envelope) (n : ℕ) (e : EventSocket)
    → (receive now x (live n) e ≡ e)
      ⊎ (receive now x (live n) e ≡ schedule_reconnect false e)
      ⊎ ((x.seq ≡ n + 1)
          × (receive now x (live n) e
              ≡ record e { phase = live (n + 1); store = apply_event now e.store x.message }))
receive_cases now x n e = elim (Bool-cases (leb x.seq n)) [
  | inl old ↦ inl (rw old)
  | inr new ↦ elim (Bool-cases (ltb (n + 1) x.seq)) [
    | inl gap ↦ inr (inl (rw (new, gap)))
    | inr next ↦
        let q : x.seq ≡ n + 1 = ground arith in
        inr (
          inr (
            q,
            rw (new, next)
                (ap (λ k. record e { phase = live k; store = apply_event now e.store x.message })
                  q),
          ))
  ]
]

module _ (message_at : ℕ → Message) where
  -- The messages that follow the number, one for each time.
  unfoldable pub apply_from : ℕ → List ℕ → AppStore → AppStore
  apply_from n [] s = s
  apply_from n (t ∷ ts) s = apply_from (n + 1) ts (apply_event t s (message_at (n + 1)))

  -- A frame is a heartbeat's answer, or a message that has the number that the server gave it.
  abbrev pub IsNumbered : Frame → Type 0
  IsNumbered pong = Unit
  IsNumbered (app_state_snapshot payload) = ⊥
  IsNumbered (enveloped x) = x.message ≡ message_at x.seq

  unfoldable pub AllNumbered : List (ℕ × Frame) → Type 0
  AllNumbered [] = Unit
  AllNumbered ((now, frame) ∷ frames) = IsNumbered frame × AllNumbered frames

  -- The page has applied some messages from the number on, and waits for the next one or has given the socket up.
  pub record Follows (n : ℕ) (s : AppStore) (e : EventSocket) : Type 0 where
    pub times : List ℕ
    pub state :
        ((e.is_current ≡ true)
          × (e.phase ≡ live (n + length times))
          × (e.store ≡ apply_from n times s))
        ⊎ ((e.is_current ≡ false) × (e.store ≡ disconnected (apply_from n times s)))

  later :
      (n now : ℕ) (s : AppStore) (e : EventSocket)
      → Follows (n + 1) (apply_event now s (message_at (n + 1))) e
      → Follows n s e
  unfolding apply_from
  later n now s e f = record {
    times = now ∷ f.times;
    state = elim f.state [
      | inl (c, p, q) ↦
          let e' : n + 1 + length f.times ≡ n + suc (length f.times) = omega arith in
          inl (c, p ∙ ap live e', q)
      | inr (c, q) ↦ inr (c, q)
    ];
  }

  replaced :
      (frames : List (ℕ × Frame)) (e : EventSocket) → e.is_current ≡ false → handle_all frames e ≡ e
  unfolding handle_all handle_message
  replaced [] e h = refl
  replaced ((now, frame) ∷ frames) e h =
      ap (handle_all frames) (unheard now frame e h) ∙ replaced frames e h

  -- Whatever envelopes of the server come at a live page, repeated, reordered or with some lost: it has applied the
  -- messages that follow its state, each once and in order, or has dropped the connection behind such a state.
  pub handle_all-Follows :
      (frames : List (ℕ × Frame)) (n : ℕ) (e : EventSocket)
      → AllNumbered frames
      → e.is_current ≡ true
      → e.phase ≡ live n
      → Follows n e.store (handle_all frames e)
  unfolding handle_all handle_message AllNumbered apply_from
  handle_all-Follows [] n e a c p = record {
    times = [];
    state = let z : n ≡ n + 0 = omega arith in inl (c, p ∙ ap live z, refl);
  }
  handle_all-Follows ((now, pong) ∷ frames) n e (x, a) c p =
      subst (λ x. Follows n e.store (handle_all frames x)) (sym (heard now pong e c))
        (handle_all-Follows frames n e a c p)
  handle_all-Follows ((now, app_state_snapshot payload) ∷ frames) n e (x, a) c p = absurd x
  handle_all-Follows ((now, enveloped x) ∷ frames) n e (m, a) c p =
      let first = heard now (enveloped x) e c ∙ ap (λ q. receive now x q e) p in
      elim (receive_cases now x n e) [
        | inl old ↦
            subst (λ z. Follows n e.store (handle_all frames z)) (sym (first ∙ old))
              (handle_all-Follows frames n e a c p)
        | inr (inl gap) ↦
            let gone = schedule_reconnect false e in
            subst (λ z. Follows n e.store (handle_all frames z)) (sym (first ∙ gap))
              (subst (Follows n e.store) (sym (replaced frames gone refl))
                (record { times = []; state = inr (refl, refl) }))
        | inr (inr (q, next)) ↦
            let e' = record e { phase = live (n + 1); store = apply_event now e.store x.message } in
            let told : x.message ≡ message_at (n + 1) = m ∙ ap message_at q in
            subst (λ z. Follows n e.store (handle_all frames z)) (sym (first ∙ next))
              (later n now e.store (handle_all frames e') (
                subst (λ y. Follows (n + 1) (apply_event now e.store y) (handle_all frames e')) told
                  (handle_all-Follows frames (n + 1) e' a c refl)))
      ]
