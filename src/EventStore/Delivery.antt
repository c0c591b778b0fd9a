-- ===== src/EventStore/Delivery.antt =====
-- The event bus of the server joined to the socket of a page.
use parasor.Base.{
  ℕ, suc, ◌+◌, ◌≡◌, refl, sym, ap, subst, ◌∙◌, true, false, List, [], ◌∷◌, String, leb, ltb, length,
  map, arith,
}
use parasor.EventBus.Delivery.{received, numbered, messages, AllStayOpen, occur_all-in_order}
use parasor.EventBus.{Bus, Data, snapshot, envelope, Event, adds, has, occur_all}
use parasor.EventStore.Reducers.{apply_event, apply_snapshot}
use parasor.EventStore.Socket.{
  Envelope, live, EventSocket, Frame, app_state_snapshot, enveloped, receive, dispatch,
  handle_message, handle_all, connect, apply_buffered,
}
use parasor.EventStore.Retention.{apply_all}
use parasor.EventStore.{AppStore, HydrationPayload, Message}
use parasor.EventStore.Stream.{heard}

-- The texts and the times at which they come, from the k-th on.
unfoldable pub stamped {ℓ} : {A : Type ℓ} → (ℕ → ℕ) → ℕ → List A → List (ℕ × A)
stamped clock k [] = []
stamped clock k (x ∷ xs) = (clock k, x) ∷ stamped clock (k + 1) xs

-- `decode_payload` and `decode_message` are what `JSON.parse` makes of the texts; the number of a snapshot is in its payload.
module _ (decode_payload : String → HydrationPayload) (decode_message : String → Message)
    (clock : ℕ → ℕ) where
  abbrev pub decode : Data → Frame
  decode (snapshot n text) = app_state_snapshot (record (decode_payload text) { seq = n })
  decode (envelope n text) = enveloped (record { seq = n; message = decode_message text })

  -- The socket waits for the message behind the number, and has the store.
  pub record IsLive (n : ℕ) (s : AppStore) (e : EventSocket) : Type 0 where
    pub current : e.is_current ≡ true
    pub phase : e.phase ≡ live n
    pub store : e.store ≡ s

  handle_all-numbered :
      (ms : List String) (k n : ℕ) (e : EventSocket)
      → e.is_current ≡ true
      → e.phase ≡ live n
      → IsLive
          (n + length ms)
          (apply_all (stamped clock k (map decode_message ms)) e.store)
          (handle_all (stamped clock k (map decode (numbered n ms))) e)
  unfolding handle_all stamped numbered apply_all
  handle_all-numbered [] k n e c p =
      let z : n ≡ n + 0 = omega arith in record { current = c; phase = p ∙ ap live z; store = refl }
  handle_all-numbered (m ∷ ms) k n e c p =
      let x : Envelope = record { seq = n + 1; message = decode_message m } in
      let e' = record e {
        phase = live (n + 1);
        store = apply_event (clock k) e.store (decode_message m);
      } in
      let new : leb (n + 1) n ≡ false = ground arith in
      let next : ltb (n + 1) (n + 1) ≡ false = ground arith in
      let step : handle_message (clock k) (enveloped x) e ≡ e' =
        heard (clock k) (enveloped x) e c ∙ ap (λ q. receive (clock k) x q e) p ∙ rw (new, next) in
      let l : n + 1 + length ms ≡ n + suc (length ms) = omega arith in
      let after = apply_all (stamped clock (k + 1) (map decode_message ms)) e'.store in
      let heard_next : EventSocket → EventSocket =
        λ z. handle_all (stamped clock (k + 1) (map decode (numbered (n + 1) ms))) z in
      subst (λ z. IsLive (n + suc (length ms)) after (heard_next z)) (sym step)
        (subst (λ j. IsLive j after (heard_next e')) l
          (handle_all-numbered ms (k + 1) (n + 1) e' c refl))

  -- A page connects at a bus of which it is no client. If its socket stays open and takes what it is sent, then whatever
  -- else happens at the bus the page never connects anew, and its store is the hydration payload with every
  -- message that the server broadcast since, applied once and in order.
  pub handle_all-received :
      (c : ℕ) (payload : String) (es : List Event) (b : Bus) (page : EventSocket)
      → has c b.clients ≡ false
      → AllStayOpen c es
      → IsLive
          (b.seq + length (messages es))
          (apply_all
            (stamped clock 1 (map decode_message (messages es)))
            (apply_snapshot (decode_payload payload)))
          (handle_all
            (stamped clock 0 (map decode (received c (occur_all (adds c payload ∷ es) b).1)))
            (connect page))
  unfolding handle_all handle_message stamped apply_buffered apply_snapshot
  handle_all-received c payload es b page h s =
      let first : HydrationPayload = record (decode_payload payload) { seq = b.seq } in
      let live_page = dispatch (clock 0) (app_state_snapshot first) (connect page) in
      subst
        (λ sent.
          IsLive (b.seq + length (messages es))
            (apply_all (stamped clock 1 (map decode_message (messages es)))
              (apply_snapshot (decode_payload payload)))
            (handle_all (stamped clock 0 (map decode sent)) (connect page)))
        (sym (occur_all-in_order c payload es b h s))
        (handle_all-numbered (messages es) 1 b.seq live_page refl refl)
