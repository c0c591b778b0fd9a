-- ===== src/EventBus/Delivery.antt =====
-- What one client gets of the messages.
use parasor.Base.{
  ℕ, zero, suc, ◌+◌, ◌≡◌, refl, sym, ap, ◌∙◌, inl, inr, Bool, true, false, List, [], ◌∷◌, ◌++◌, map,
  String, if◌then◌else◌, ◌==◌, ltb, length, arith, Bool-cases, ==_iff,
}
use parasor.EventBus.{
  Bus, Data, snapshot, envelope, Effect, sends, counts, Outcome, not_open, delivered, thrown, has,
  without, emit_client_count, send_to, keep, deliver, kept, broadcast, add_client, remove_client,
  Event, adds, fails_to_add, in_set, removes, broadcasts, notifies, occur, occur_all,
  add_notification,
}

unfoldable pub received : ℕ → List Effect → List Data
received c [] = []
received c (sends d sent ∷ es) = let rest = received c es in if c == d then sent ∷ rest else rest
received c (counts listener n ∷ es) = received c es

unfoldable pub numbered : ℕ → List String → List Data
numbered seq [] = []
numbered seq (m ∷ ms) = envelope (seq + 1) m ∷ numbered (seq + 1) ms

unfoldable pub messages : List Event → List String
messages [] = []
messages (broadcasts m outcome ∷ es) = m ∷ messages es
messages (adds d payload ∷ es) = messages es
messages (fails_to_add d payload ∷ es) = messages es
messages (removes d ∷ es) = messages es
messages (notifies n ∷ es) = messages es

-- The client is not added again or removed, and its socket takes what it is sent.
unfoldable pub StaysOpen : ℕ → Event → Type 0
StaysOpen c (adds d payload) = (c == d) ≡ false
StaysOpen c (fails_to_add d payload) = (c == d) ≡ false
StaysOpen c (removes d) = (c == d) ≡ false
StaysOpen c (broadcasts m outcome) = outcome c ≡ delivered
StaysOpen c (notifies n) = Unit

unfoldable pub AllStayOpen : ℕ → List Event → Type 0
AllStayOpen c [] = Unit
AllStayOpen c (e ∷ es) = StaysOpen c e × AllStayOpen c es

-- How often a client is in the set.
unfoldable times : ℕ → List ℕ → ℕ
times c [] = 0
times c (d ∷ ds) = let rest = times c ds in if c == d then suc rest else rest

unfoldable copies : ℕ → Data → List Data
copies zero sent = []
copies (suc n) sent = sent ∷ copies n sent

received_append :
    (c : ℕ) (xs bs : List Effect) → received c (xs ++ bs) ≡ received c xs ++ received c bs
unfolding received
received_append c [] bs = refl
received_append c (sends d sent ∷ xs) bs = elim (Bool-cases (c == d)) [
  | inl e ↦ rw (e, received_append c xs bs)
  | inr e ↦ rw (e, received_append c xs bs)
]
received_append c (counts listener n ∷ xs) bs = received_append c xs bs

received-counts :
    (c n : ℕ) (listeners : List ℕ) → received c (map (λ listener. counts listener n) listeners) ≡ []
unfolding received
received-counts c n [] = refl
received-counts c n (l ∷ ls) = received-counts c n ls

has-times : (c : ℕ) (cs : List ℕ) → has c cs ≡ false → times c cs ≡ 0
unfolding has times
has-times c [] e = refl
has-times c (d ∷ ds) e = elim (Bool-cases (c == d)) [
  | inl s ↦ let q : true ≡ false = rw s at e in absurd cc
  | inr s ↦ let q : has c ds ≡ false = rw s at e in rw s (has-times c ds q)
]

times_append : (c d : ℕ) (cs : List ℕ) → times c (cs ++ d ∷ []) ≡ times c cs + times c (d ∷ [])
unfolding times
times_append c d [] = omega arith
times_append c d (a ∷ cs) = elim (Bool-cases (c == a)) [
  | inl e ↦ rw e (omega (arith, times_append c d cs))
  | inr e ↦ rw e (times_append c d cs)
]

times-without : (c d : ℕ) (cs : List ℕ) → (c == d) ≡ false → times c (without d cs) ≡ times c cs
unfolding times without
times-without c d [] n = refl
times-without c d (a ∷ cs) n = elim (Bool-cases (d == a)) [
  | inl e ↦ let f : (c == a) ≡ false = ground arith in rw (e, f) (times-without c d cs n)
  | inr e ↦ elim (Bool-cases (c == a)) [
    | inl f ↦ rw (e, f, times-without c d cs n)
    | inr f ↦ rw (e, f, times-without c d cs n)
  ]
]

received-send_to :
    (c d : ℕ) (o : Outcome) (sent : Data) (rest : List Effect)
    → (c == d) ≡ false
    → received c (send_to o d sent rest) ≡ received c rest
unfolding received
received-send_to c d not_open sent rest n = refl
received-send_to c d delivered sent rest n = rw n
received-send_to c d thrown sent rest n = refl

times-keep :
    (c d : ℕ) (o : Outcome) (cs : List ℕ) → (c == d) ≡ false → times c (keep o d cs) ≡ times c cs
unfolding times
times-keep c d not_open cs n = rw n
times-keep c d delivered cs n = rw n
times-keep c d thrown cs n = refl

received-deliver :
    (c : ℕ) (outcome : ℕ → Outcome) (sent : Data) (cs : List ℕ)
    → outcome c ≡ delivered
    → received c (deliver outcome sent cs) ≡ copies (times c cs) sent
unfolding received deliver times copies
received-deliver c outcome sent [] o = refl
received-deliver c outcome sent (d ∷ ds) o = elim (Bool-cases (c == d)) [
  | inl e ↦
      let same : c ≡ d = (==_iff c d).0 e in
      let takes : outcome d ≡ delivered = ap outcome (sym same) ∙ o in
      rw (takes, e, received-deliver c outcome sent ds o)
  | inr e ↦
      received-send_to c d (outcome d) sent (deliver outcome sent ds) e
      ∙ rw e (received-deliver c outcome sent ds o)
]

times-kept :
    (c : ℕ) (outcome : ℕ → Outcome) (cs : List ℕ)
    → outcome c ≡ delivered
    → times c (kept outcome cs) ≡ times c cs
unfolding kept times
times-kept c outcome [] o = refl
times-kept c outcome (d ∷ ds) o = elim (Bool-cases (c == d)) [
  | inl e ↦
      let same : c ≡ d = (==_iff c d).0 e in
      let takes : outcome d ≡ delivered = ap outcome (sym same) ∙ o in
      rw (takes, e, times-kept c outcome ds o)
  | inr e ↦ times-keep c d (outcome d) (kept outcome ds) e ∙ rw e (times-kept c outcome ds o)
]

-- Effects that are not for the client change nothing of what it gets.
received-before :
    (c : ℕ) (before later : List Effect)
    → received c before ≡ []
    → received c (before ++ later) ≡ received c later
received-before c before later e =
    received_append c before later ∙ ap (λ r. r ++ received c later) e

received-counted :
    (c : ℕ) (b : Bus) (told : Bool) → received c (if told then emit_client_count b else []) ≡ []
unfolding received
received-counted c b true = received-counts c (length b.clients) b.client_count_listeners
received-counted c b false = refl

received-broadcast :
    (c : ℕ) (m : String) (outcome : ℕ → Outcome) (b : Bus)
    → outcome c ≡ delivered
    → times c b.clients ≡ 1
    → received c (broadcast m outcome b).1 ≡ envelope (b.seq + 1) m ∷ []
unfolding copies
received-broadcast c m outcome b o t =
    let sent = deliver outcome (envelope (b.seq + 1) m) b.clients in
    let after = record b { seq = b.seq + 1; clients = kept outcome b.clients } in
    let got : received c sent ≡ envelope (b.seq + 1) m ∷ [] =
      received-deliver c outcome (envelope (b.seq + 1) m) b.clients o
      ∙ ap (λ n. copies n (envelope (b.seq + 1) m)) t in
    elim (Bool-cases (ltb (length after.clients) (length b.clients))) [
      | inl e ↦ rw e (
          received_append c sent (emit_client_count after)
          ∙ ap (λ r. r ++ received c (emit_client_count after)) got
          ∙ ap (λ r. envelope (b.seq + 1) m ∷ r)
              (received-counts c (length after.clients) b.client_count_listeners))
      | inr e ↦ rw e got
    ]

times-add_client :
    (c d : ℕ) (cs : List ℕ)
    → (c == d) ≡ false
    → times c (if has d cs then cs else cs ++ d ∷ []) ≡ times c cs
unfolding times
times-add_client c d cs n = elim (Bool-cases (has d cs)) [
  | inl e ↦ rw e
  | inr e ↦
      let none_more : times c (d ∷ []) ≡ 0 = rw n in
      rw e (omega (arith, times_append c d cs, none_more))
]

received-occur_all :
    (c : ℕ) (es : List Event) (b : Bus)
    → AllStayOpen c es
    → times c b.clients ≡ 1
    → received c (occur_all es b).1 ≡ numbered b.seq (messages es)
unfolding occur_all occur add_client received messages numbered StaysOpen AllStayOpen
    add_notification
received-occur_all c [] b s t = refl
received-occur_all c (adds d payload ∷ es) b (n, s) t =
    let after = in_set d b in
    rw n (
      received-before c (emit_client_count after) (occur_all es after).1
        (received-counts c (length after.clients) b.client_count_listeners)
      ∙ received-occur_all c es after s (times-add_client c d b.clients n ∙ t))
received-occur_all c (fails_to_add d payload ∷ es) b (n, s) t =
    received-occur_all c es (in_set d b) s (times-add_client c d b.clients n ∙ t)
received-occur_all c (removes d ∷ es) b (n, s) t =
    let after = (remove_client d b).0 in
    received-before c (remove_client d b).1 (occur_all es after).1
      (received-counted c after (has d b.clients))
    ∙ received-occur_all c es after s (times-without c d b.clients n ∙ t)
received-occur_all c (broadcasts m outcome ∷ es) b (o, s) t =
    let after = (broadcast m outcome b).0 in
    received_append c (broadcast m outcome b).1 (occur_all es after).1
    ∙ ap (λ r. r ++ received c (occur_all es after).1) (received-broadcast c m outcome b o t)
    ∙ ap (λ r. envelope (b.seq + 1) m ∷ r)
        (received-occur_all c es after s (times-kept c outcome b.clients o ∙ t))
received-occur_all c (notifies n ∷ es) b (u, s) t =
    received-occur_all c es (add_notification n b) s t

-- A client that connects, stays and takes what it is sent gets the state at the number of the last message, and
-- then every later message once, in order, with the numbers that follow, whatever other clients do.
pub occur_all-in_order :
    (c : ℕ) (payload : String) (es : List Event) (b : Bus)
    → has c b.clients ≡ false
    → AllStayOpen c es
    → received c (occur_all (adds c payload ∷ es) b).1
      ≡ snapshot b.seq payload ∷ numbered b.seq (messages es)
unfolding occur_all occur add_client received times
occur_all-in_order c payload es b h s =
    let after = in_set c b in
    let same : (c == c) ≡ true = (==_iff c c).1 refl in
    let one : times c (c ∷ []) ≡ 1 = rw same in
    let once : times c after.clients ≡ 1 =
      rw h (omega (arith, times_append c c b.clients, has-times c b.clients h, one)) in
    rw same (
      ap (λ r. snapshot b.seq payload ∷ r)
        (received-before c (emit_client_count after) (occur_all es after).1
            (received-counts c (length after.clients) b.client_count_listeners)
          ∙ received-occur_all c es after s once))
