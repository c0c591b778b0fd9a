-- ===== src/Presence/SoftLeave.antt =====
-- A phone that leaves: the soft-leave window, and what becomes of the floor.
use parasor.Base.Classes.{string_eq, equals_self}
use parasor.Base.Map.{lookup, insert, erase, lookup-insert, lookup-erase}
use parasor.Base.{
  ◌≡◌, refl, sym, ap, ◌∙◌, subst, true, false, none, some, List, [], ◌∷◌, String, arith,
}
use parasor.Presence.Session.{
  soft_leave, unsubscribe_mobile, soft_leave_elapsed, can_write, settle, leave, stays,
}
use parasor.Presence.Types.{
  SessionState, SubscriberRecord, Driver, idle, desktop, mobile, desktop_client, mobile_client,
}
use parasor.Presence.{cancel_soft_leave, active_mobile_subscribers, others}

-- Each subscriber stands under its own id.
abbrev pub Keyed : List (String × SubscriberRecord) → Type 0
Keyed [] = Unit
Keyed ((c, r) ∷ m) = (r.client_id ≡ c) × Keyed m

pub others-active :
    (c : String) (m : List (String × SubscriberRecord))
    → Keyed m
    → others c (active_mobile_subscribers m) ≡ active_mobile_subscribers (erase c m)
unfolding others active_mobile_subscribers erase
others-active c [] k = refl
others-active c ((d, r) ∷ m) (e, k) = ground (arith, others-active c m k)

erase-insert {ℓ} :
    {V : Type ℓ} (c : String) (v : V) (m : List (String × V)) → erase c (insert c v m) ≡ erase c m
unfolding erase insert
erase-insert c v [] = rw (equals_self c)
erase-insert c v ((d, w) ∷ m) =
    ground (arith, string_eq.equals_iff d c, string_eq.equals_iff c c, erase-insert c v m)

pub lookup_self {ℓ} :
    {V : Type ℓ} (c : String) (v : V) (m : List (String × V)) → lookup c (insert c v m) ≡ some v
lookup_self c v m = rw (lookup-insert c c v m, equals_self c)

pub erased {ℓ} : {V : Type ℓ} (c : String) (m : List (String × V)) → lookup c (erase c m) ≡ none
erased c m = rw (lookup-erase c c m, equals_self c)

-- The state after the last phone has left, with its window open.
abbrev window : String → SubscriberRecord → SessionState → SessionState
window c r s = record s {
  subscribers = insert c (leave r) s.subscribers;
  soft_leave_timers = insert c (record { armed = true }) s.soft_leave_timers;
}

unsubscribe-window :
    (id c : String) (s : SessionState) (r : SubscriberRecord)
    → lookup c s.subscribers ≡ some r
    → lookup c s.soft_leave_timers ≡ none
    → others c (active_mobile_subscribers s.subscribers) ≡ []
    → (unsubscribe_mobile id c s).0 ≡ window c r s
unfolding unsubscribe_mobile soft_leave cancel_soft_leave
unsubscribe-window id c s r here no_timer alone = ground arith

-- The state without a client and its timer.
abbrev without : String → SessionState → SessionState
without c s = record s {
  subscribers = erase c s.subscribers;
  soft_leave_timers = erase c s.soft_leave_timers;
}

-- When the window closes on the last phone, nothing of it stays.
elapsed-window :
    (id c : String) (s : SessionState) (r : SubscriberRecord)
    → Keyed s.subscribers
    → others c (active_mobile_subscribers s.subscribers) ≡ []
    → (soft_leave_elapsed id c (window c r s)).0 ≡ settle (without c s) []
unfolding soft_leave_elapsed
elapsed-window id c s r keyed alone = rw (
  lookup_self c (leave r) s.subscribers,
  erase-insert c (leave r) s.subscribers,
  erase-insert c (record { armed = true }) s.soft_leave_timers,
  ← others-active c s.subscribers keyed,
  alone,
)

settled-free : (d : String) (s : SessionState) → can_write desktop_client d (settle s []) ≡ true
unfolding can_write
settled-free d s = go s.driver refl
  where
    go : (x : Driver) → s.driver ≡ x → can_write desktop_client d (settle s []) ≡ true
    go idle e = rw e
    go desktop e = rw e
    go (mobile b) e = rw e

settled-subscribers : (s : SessionState) → (settle s []).subscribers ≡ s.subscribers
settled-subscribers s = ground arith

settled-timers : (s : SessionState) → (settle s []).soft_leave_timers ≡ s.soft_leave_timers
settled-timers s = ground arith

-- What is left when a phone is gone for good: no subscription, no timer, no right to write, and a
-- desktop that may write.
pub record IsGone (c d : String) (s : SessionState) : Type 0 where
  pub no_subscriber : lookup c s.subscribers ≡ none
  pub no_timer : lookup c s.soft_leave_timers ≡ none
  pub mute : can_write mobile_client c s ≡ false
  pub free : can_write desktop_client d s ≡ true

settled-IsGone : (c d : String) (s : SessionState) → IsGone c d (settle (without c s) [])
unfolding can_write
settled-IsGone c d s = record {
  no_subscriber = absent;
  no_timer = ap (lookup c) (settled-timers (without c s)) ∙ erased c s.soft_leave_timers;
  mute = ap stays absent;
  free = settled-free d (without c s);
}
  where
    absent : lookup c (settle (without c s) []).subscribers ≡ none
    absent = ap (lookup c) (settled-subscribers (without c s)) ∙ erased c s.subscribers

-- The only phone that is not leaving, with no soft-leave timer, unsubscribes and stays away until its
-- timer fires: then it is not subscribed, has no timer, may not write, and a desktop may write.
unsubscribe_elapsed :
    (id c d : String) (s : SessionState) (r : SubscriberRecord)
    → Keyed s.subscribers
    → lookup c s.subscribers ≡ some r
    → lookup c s.soft_leave_timers ≡ none
    → others c (active_mobile_subscribers s.subscribers) ≡ []
    → IsGone c d (soft_leave_elapsed id c (unsubscribe_mobile id c s).0).0
unsubscribe_elapsed id c d s r keyed here no_timer alone =
    subst (IsGone c d)
      (sym (
        ap (λ x. (soft_leave_elapsed id c x).0) (unsubscribe-window id c s r here no_timer alone)
        ∙ elapsed-window id c s r keyed alone))
      (settled-IsGone c d s)
