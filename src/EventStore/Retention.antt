-- ===== src/EventStore/Retention.antt =====
-- The notifications of a page that stays connected, and of one that connects later.
use mathlib.Core.List.{append_assoc, append-nil}
use parasor.Base.{
  ℕ, zero, suc, ◌-◌, ◌≡◌, ◌≤◌, refl, sym, ap, ◌∙◌, Option, none, some, List, [], ◌∷◌, ◌++◌, String,
  take, drop, length, take_append, length-append, length-take, arith, leb, Bool-cases, inl, inr,
  Option-cases,
}
use parasor.EventBus.Retention.{add_all, add_all-last_ones, last_ones}
use parasor.EventBus.{Bus}
use parasor.EventStore.Reducers.{apply_event, apply_snapshot}
use parasor.EventStore.Changes.{reverse}
use parasor.EventStore.{
  AppStore, HydrationPayload, Message, notification, notification_retention_limit,
  session_restarted, session_ended, layout_updated, sidebar_state_changed, worktree_created,
  worktree_renamed, worktree_removed,
}

-- Messages with the times at which they are applied.
unfoldable pub apply_all : List (ℕ × Message) → AppStore → AppStore
apply_all [] s = s
apply_all ((now, m) ∷ ms) s = apply_all ms (apply_event now s m)

abbrev pub note_of : Message → Option String
note_of (notification n) = some n
note_of _ = none

abbrev note_before : Option String → List String → List String
note_before none ns = ns
note_before (some n) ns = n ∷ ns

unfoldable pub notes : List (ℕ × Message) → List String
notes [] = []
notes ((now, m) ∷ ms) = note_before (note_of m) (notes ms)

reverse_append : (xs ys : List String) → reverse (xs ++ ys) ≡ reverse ys ++ reverse xs
unfolding reverse
reverse_append [] ys = sym (append-nil (reverse ys))
reverse_append (x ∷ xs) ys =
    ap (λ r. r ++ x ∷ []) (reverse_append xs ys) ∙ append_assoc (reverse ys) (reverse xs) (x ∷ [])

length-reverse : (xs : List String) → length (reverse xs) ≡ length xs
unfolding reverse
length-reverse [] = refl
length-reverse (x ∷ xs) = omega (arith, length-append (reverse xs) (x ∷ []), length-reverse xs)

take_whole : (n : ℕ) (xs : List String) → length xs ≤ n → take n xs ≡ xs
take_whole zero [] l = refl
take_whole (suc n) [] l = refl
take_whole zero (x ∷ xs) l = absurd (omega (arith, l))
take_whole (suc n) (x ∷ xs) l = ap (◌∷◌ x) (take_whole n xs (omega (arith, l)))

take-append-take :
    (m n : ℕ) (xs ys : List String) → m ≤ n → take m (xs ++ take n ys) ≡ take m (xs ++ ys)
take-append-take zero n xs ys l = refl
take-append-take (suc m) zero xs ys l = absurd (omega (arith, l))
take-append-take (suc m) (suc n) [] [] l = refl
take-append-take (suc m) (suc n) [] (y ∷ ys) l =
    ap (◌∷◌ y) (take-append-take m n [] ys (omega (arith, l)))
take-append-take (suc m) (suc n) (x ∷ xs) ys l =
    ap (◌∷◌ x) (take-append-take m (suc n) xs ys (omega (arith, l)))

abbrev no_notes : List String
no_notes = []

reverse-drop : (k : ℕ) (xs : List String) → reverse (drop k xs) ≡ take (length xs - k) (reverse xs)
unfolding reverse
reverse-drop zero xs =
    let all : length xs - 0 ≡ length xs = omega arith in
    rw all (sym (take_whole (length xs) (reverse xs) (omega (arith, length-reverse xs))))
reverse-drop (suc k) [] = sym (take_whole (length no_notes - suc k) [] (omega arith))
reverse-drop (suc k) (x ∷ xs) =
    let fewer : length (x ∷ xs) - suc k ≡ length xs - k = omega arith in
    rw fewer (
      reverse-drop k xs
      ∙ sym (take_append (length xs - k) (reverse xs) (x ∷ []) (omega (arith, length-reverse xs))))

reverse-last_ones :
    (xs : List String) → reverse (last_ones xs) ≡ take notification_retention_limit (reverse xs)
reverse-last_ones xs =
    reverse-drop (length xs - notification_retention_limit) xs
    ∙ elim (Bool-cases (leb (length xs) notification_retention_limit)) [
      | inl few ↦
          let l : length xs ≤ notification_retention_limit = ground arith in
          take_whole _ (reverse xs) (omega (arith, l, length-reverse xs))
          ∙ sym (
              take_whole notification_retention_limit (reverse xs)
                (omega (arith, l, length-reverse xs)))
      | inr many ↦
          let e : length xs - (length xs - notification_retention_limit)
              ≡ notification_retention_limit =
            ground arith in
          ap (λ n. take n (reverse xs)) e
    ]

-- Only a notification changes the notifications.
notifications-apply_event :
    (now : ℕ) (s : AppStore) (m : Message)
    → note_of m ≡ none
    → (apply_event now s m).notifications ≡ s.notifications
unfolding apply_event
notifications-apply_event now s (session_restarted t g) e = ground arith
notifications-apply_event now s (session_ended t g r) e = ground arith
notifications-apply_event now s (layout_updated p l) e = ground arith
notifications-apply_event now s (sidebar_state_changed p l) e = ground arith
notifications-apply_event now s (worktree_created p w) e = ground arith
notifications-apply_event now s (worktree_renamed p path b) e = ground arith
notifications-apply_event now s (worktree_removed p path) e = ground arith
notifications-apply_event now s (notification n) e = absurd cc
notifications-apply_event now s m e = refl

notifications-told :
    (now : ℕ) (s : AppStore) (m : Message) (n : String)
    → note_of m ≡ some n
    → (apply_event now s m).notifications ≡ take notification_retention_limit (n ∷ s.notifications)
unfolding apply_event
notifications-told now s (notification n') n e =
    let q : n' ≡ n = cc in ap (λ x. take notification_retention_limit (x ∷ s.notifications)) q
notifications-told now s m n e = absurd cc

notifications-apply_all :
    (ms : List (ℕ × Message)) (s : AppStore)
    → length s.notifications ≤ notification_retention_limit
    → (apply_all ms s).notifications
      ≡ take notification_retention_limit (reverse (notes ms) ++ s.notifications)
unfolding apply_all notes reverse
notifications-apply_all [] s l = sym (take_whole notification_retention_limit s.notifications l)
notifications-apply_all ((now, m) ∷ ms) s l = elim (Option-cases (note_of m)) [
  | inl silent ↦
      let same = notifications-apply_event now s m silent in
      rw silent (
        notifications-apply_all ms (apply_event now s m) (omega (arith, l, ap length same))
        ∙ ap (λ old. take notification_retention_limit (reverse (notes ms) ++ old)) same)
  | inr (n, told) ↦
      let now_first = notifications-told now s m n told in
      let old = s.notifications in
      rw told (
        notifications-apply_all ms (apply_event now s m)
          (omega (arith, ap length now_first, length-take notification_retention_limit (n ∷ old)))
        ∙ ap (λ new. take notification_retention_limit (reverse (notes ms) ++ new)) now_first
        ∙ take-append-take notification_retention_limit notification_retention_limit
            (reverse (notes ms)) (n ∷ old) (omega arith)
        ∙ ap (take notification_retention_limit)
            (sym (append_assoc (reverse (notes ms)) (n ∷ []) old)))
]

-- A page that took its state from the server when it had the notifications of `b`, and has applied since whatever
-- messages came, with the notifications among them, has the notifications that a page is given which connects now:
-- the same ones, in the same order.
pub notifications-apply_snapshot :
    (ms : List (ℕ × Message)) (b : Bus) (earlier later : HydrationPayload)
    → length b.notifications ≤ notification_retention_limit
    → earlier.notifications ≡ b.notifications
    → later.notifications ≡ (add_all (notes ms) b).notifications
    → (apply_all ms (apply_snapshot earlier)).notifications ≡ (apply_snapshot later).notifications
unfolding apply_snapshot
notifications-apply_snapshot ms b earlier later l e k =
    let first : length (reverse earlier.notifications) ≤ notification_retention_limit =
      omega (arith, l, length-reverse earlier.notifications, ap length e) in
    let kept = add_all-last_ones (notes ms) b l in
    notifications-apply_all ms (apply_snapshot earlier) first
    ∙ ap (λ old. take notification_retention_limit (reverse (notes ms) ++ reverse old)) e
    ∙ sym (ap (take notification_retention_limit) (reverse_append b.notifications (notes ms)))
    ∙ sym (reverse-last_ones (b.notifications ++ notes ms))
    ∙ sym (ap reverse (k ∙ kept.0))
