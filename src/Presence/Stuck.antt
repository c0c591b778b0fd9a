-- ===== src/Presence/Stuck.antt =====
-- Two ways in which a soft leave does not end as it should.
use parasor.Base.Classes.{string_eq}
use parasor.Base.Map.{lookup, insert, erase}
use parasor.Base.{
  ◌≡◌, refl, sym, ap, ◌∙◌, subst, true, false, not, none, some, List, [], ◌∷◌, String, arith,
}
use parasor.Presence.Session.{
  soft_leave, unsubscribe_mobile, soft_leave_elapsed, can_write, leave, is_driven_mobile, stays,
  fired,
}
use parasor.Presence.SoftLeave.{lookup_self, erased, Keyed, others-active}
use parasor.Presence.Types.{
  SessionState, SubscriberRecord, Timer, mobile, desktop_client, mobile_client,
}
use parasor.Presence.{adjust, cancel_soft_leave, active_mobile_subscribers, others, stay}

-- The state after a second unsubscription inside the window.
abbrev rearmed : String → SubscriberRecord → SessionState → SessionState
rearmed c r s = record s {
  subscribers = insert c (stay (leave r)) (insert c (leave r) s.subscribers);
  soft_leave_timers = insert c (record { armed = true }) (erase c s.soft_leave_timers);
}

unsubscribe-rearmed :
    (id c : String) (s : SessionState) (r : SubscriberRecord) (t : Timer)
    → lookup c s.subscribers ≡ some r
    → lookup c s.soft_leave_timers ≡ some t
    → others c (active_mobile_subscribers s.subscribers) ≡ []
    → (unsubscribe_mobile id c s).0 ≡ rearmed c r s
unfolding unsubscribe_mobile soft_leave cancel_soft_leave adjust
unsubscribe-rearmed id c s r t here timer alone =
    ground (arith, lookup_self c (leave r) s.subscribers)

elapsed-rearmed :
    (id c : String) (s : SessionState) (r : SubscriberRecord)
    → (soft_leave_elapsed id c (rearmed c r s)).0 ≡ fired c (rearmed c r s)
unfolding soft_leave_elapsed
elapsed-rearmed id c s r = rw (lookup_self c (stay (leave r)) (insert c (leave r) s.subscribers))

-- What a client that was not removed keeps.
pub record IsKept (c : String) (s s' : SessionState) : Type 0 where
  pub writes : can_write mobile_client c s' ≡ true
  pub same_driver : s'.driver ≡ s.driver

rearmed-IsKept :
    (c : String) (s : SessionState) (r : SubscriberRecord) → IsKept c s (fired c (rearmed c r s))
unfolding can_write
rearmed-IsKept c s r = record {
  writes = ap stays (lookup_self c (stay (leave r)) (insert c (leave r) s.subscribers));
  same_driver = refl;
}

-- A phone that unsubscribes when no other phone is active and it already has a soft-leave timer is not removed
-- when the new timer fires: it may still write, and the driver is what it was.
pub unsubscribe_twice :
    (id c : String) (s : SessionState) (r : SubscriberRecord) (t : Timer)
    → lookup c s.subscribers ≡ some r
    → lookup c s.soft_leave_timers ≡ some t
    → others c (active_mobile_subscribers s.subscribers) ≡ []
    → IsKept c s (soft_leave_elapsed id c (unsubscribe_mobile id c s).0).0
unsubscribe_twice id c s r t here timer alone =
    subst (IsKept c s)
      (sym (
        ap (λ x. (soft_leave_elapsed id c x).0) (unsubscribe-rearmed id c s r t here timer alone)
        ∙ elapsed-rearmed id c s r))
      (rearmed-IsKept c s r)

-- The driver is a phone that has no subscription.
pub record IsStuck (c d : String) (s : SessionState) : Type 0 where
  pub driver : s.driver ≡ mobile c
  pub no_subscriber : lookup c s.subscribers ≡ none
  pub no_timer : lookup c s.soft_leave_timers ≡ none
  pub barred : can_write desktop_client d s ≡ false

abbrev gone : String → SessionState → SessionState
gone c s = record s {
  subscribers = erase c s.subscribers;
  soft_leave_timers = erase c s.soft_leave_timers;
}

gone-IsStuck : (c d : String) (s : SessionState) → s.driver ≡ mobile c → IsStuck c d (gone c s)
unfolding can_write
gone-IsStuck c d s e = record {
  driver = e;
  no_subscriber = erased c s.subscribers;
  no_timer = erased c s.soft_leave_timers;
  barred = ap (λ x. not (is_driven_mobile x)) e;
}

elapsed-gone :
    (id c : String) (s : SessionState) (r other : SubscriberRecord) (rest : List SubscriberRecord)
    → Keyed s.subscribers
    → lookup c s.subscribers ≡ some r
    → r.leaving ≡ true
    → others c (active_mobile_subscribers s.subscribers) ≡ other ∷ rest
    → (soft_leave_elapsed id c s).0 ≡ gone c s
unfolding soft_leave_elapsed
elapsed-gone id c s r other rest keyed here leaves active =
    rw (here, leaves, ← others-active c s.subscribers keyed, active)

-- When the phone that drives is leaving while another phone is subscribed and active, its timer removes it
-- but leaves it the driver, so that no desktop may write.
pub elapsed-IsStuck :
    (id c d : String) (s : SessionState) (r other : SubscriberRecord) (rest : List SubscriberRecord)
    → Keyed s.subscribers
    → lookup c s.subscribers ≡ some r
    → r.leaving ≡ true
    → others c (active_mobile_subscribers s.subscribers) ≡ other ∷ rest
    → s.driver ≡ mobile c
    → IsStuck c d (soft_leave_elapsed id c s).0
elapsed-IsStuck id c d s r other rest keyed here leaves active drives =
    subst (IsStuck c d) (sym (elapsed-gone id c s r other rest keyed here leaves active))
      (gone-IsStuck c d s drives)
