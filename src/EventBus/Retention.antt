-- ===== src/EventBus/Retention.antt =====
-- The notifications that are kept for the next client.
use mathlib.Core.List.{append-nil, append_assoc}
use parasor.Base.{
  ℕ, zero, suc, ◌+◌, ◌-◌, ◌≡◌, ◌≤◌, refl, sym, ap, ◌∙◌, List, [], ◌∷◌, ◌++◌, String, length, drop,
  length-append, length-drop, drop_append, arith,
}
use parasor.EventBus.{Bus, add_notification, notification_retention_limit}

unfoldable pub add_all : List String → Bus → Bus
add_all [] b = b
add_all (n ∷ ns) b = add_all ns (add_notification n b)

abbrev no_notifications : List String
no_notifications = []

drop-nil : (n : ℕ) → drop n no_notifications ≡ no_notifications
drop-nil zero = refl
drop-nil (suc n) = refl

drop-drop : (i j : ℕ) (xs : List String) → drop i (drop j xs) ≡ drop (j + i) xs
drop-drop i zero xs = let e : i ≡ 0 + i = omega arith in ap (λ n. drop n xs) e
drop-drop i (suc j) [] = drop-nil i ∙ sym (drop-nil (suc j + i))
drop-drop i (suc j) (x ∷ xs) =
    let e : suc (j + i) ≡ suc j + i = omega arith in drop-drop i j xs ∙ ap (λ n. drop n (x ∷ xs)) e

-- The last ones of a list, at most as many as are kept.
abbrev pub last_ones : List String → List String
last_ones xs = drop (length xs - notification_retention_limit) xs

last_ones_append : (xs ys : List String) → last_ones (last_ones xs ++ ys) ≡ last_ones (xs ++ ys)
last_ones_append xs ys =
    let k = length xs - notification_retention_limit in
    let cut : drop k xs ++ ys ≡ drop k (xs ++ ys) = sym (drop_append k xs ys (omega arith)) in
    let a = length (drop k (xs ++ ys)) - notification_retention_limit in
    let e : k + a ≡ length (xs ++ ys) - notification_retention_limit =
      omega (arith, length-drop k (xs ++ ys), length-append xs ys) in
    ap last_ones cut ∙ drop-drop a k (xs ++ ys) ∙ ap (λ n. drop n (xs ++ ys)) e

-- However many notifications come, those kept are the last ones, at most two hundred, in the order they came in.
pub add_all-last_ones :
    (ns : List String) (b : Bus)
    → length b.notifications ≤ notification_retention_limit
    → ((add_all ns b).notifications ≡ last_ones (b.notifications ++ ns))
      × (length (add_all ns b).notifications ≤ notification_retention_limit)
unfolding add_all add_notification
add_all-last_ones [] b l =
    let none_cut : length b.notifications - notification_retention_limit ≡ 0 = omega (arith, l) in
    (sym (ap last_ones (append-nil b.notifications) ∙ ap (λ k. drop k b.notifications) none_cut), l)
add_all-last_ones (n ∷ ns) b l =
    let after = add_notification n b in
    let short : length after.notifications ≤ notification_retention_limit = omega (
      arith,
      length-drop (length (b.notifications ++ n ∷ []) - notification_retention_limit)
          (b.notifications ++ n ∷ []),
    ) in
    let (kept, few) = add_all-last_ones ns after short in
    (
      kept
          ∙ last_ones_append (b.notifications ++ n ∷ []) ns
          ∙ ap last_ones (append_assoc b.notifications (n ∷ []) ns),
      few,
    )
