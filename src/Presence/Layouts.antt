-- ===== src/Presence/Layouts.antt =====
-- The PTY's size and the layout target, which belongs to the client that drives.
use parasor.Base.Classes.{string_eq}
use parasor.Base.Map.{lookup, insert, erase}
use parasor.Base.{
  ℕ, ◌≡◌, refl, sym, ap, inl, inr, Bool, true, false, Option, none, some, List, [], ◌∷◌, String,
  if◌then◌else◌, Bool-cases, Option-cases,
}
use parasor.Presence.Calls.{
  Call, subscribes, resizes, acts, unsubscribes, elapses, desktop_resizes, reclaims, run_call, Owns,
  IsConsistent, Reaches, Leaves, emitted,
}
use parasor.Presence.Session.{
  subscribed, subscribe_mobile, update_mobile_viewport, mark_mobile_acted, soft_leave, hand_over,
  unsubscribe_mobile, soft_leave_elapsed, record_desktop_geometry, reclaim_for_desktop,
  is_driven_mobile, finish, driven_by, takes_floor, expire, settle, act, with_viewport, acted,
  leave, is_leaving, reclaim_layout,
}
use parasor.Presence.Types.{
  Viewport, Mode, SessionState, SubscriberRecord, desktop_layout, mobile_layout, Driver, idle,
  desktop, mobile,
}
use parasor.Presence.{
  cancel_soft_leave, apply_layout, take_mobile_floor, select_latest_actor, viewport_of,
  active_mobile_subscribers, others,
}
use parasor.Presence.Sizes.{
  SameTarget, SameTarget-IsConsistent, cancel_soft_leave-SameTarget, apply_layout-Reaches,
  take_mobile_floor-Reaches, finish-Reaches,
}

subscribed-SameTarget :
    (c : String) (w : Viewport) (mode : Mode) (at : ℕ) (s : SessionState)
    → SameTarget s (subscribed c w mode at s)
unfolding subscribed
subscribed-SameTarget c w mode at s =
    let e = cancel_soft_leave-SameTarget c s in
    record { same_driver = e.same_driver; same_layout' = e.same_layout' }

subscribe-Reaches :
    (id c : String) (w : Viewport) (mode : Mode) (at : ℕ) (pty : Viewport) (s : SessionState)
    → IsConsistent pty s
    → Reaches pty (emitted (subscribe_mobile id c w mode at s))
unfolding subscribe_mobile
subscribe-Reaches id c w mode at pty s v =
    finish-Reaches id pty
      (if takes_floor mode s'.driver then take_mobile_floor id c s' else (s', []))
      (go (takes_floor mode s'.driver))
  where
    s' : SessionState
    s' = subscribed c w mode at s

    v' : IsConsistent pty s'
    v' = SameTarget-IsConsistent (subscribed-SameTarget c w mode at s) v

    go : (b : Bool) → Reaches pty (if b then take_mobile_floor id c s' else (s', []))
    go true = take_mobile_floor-Reaches id c pty s' v'
    go false = v'

driven-Owns :
    (c : String) (w : Viewport) (d : Driver)
    → driven_by c d ≡ true
    → Owns d (some (mobile_layout c w))
driven-Owns c w (mobile d) e =
    (w, ap (λ x. some (mobile_layout x w)) (sym ((string_eq.equals_iff d c).0 e)))
driven-Owns c w idle e = tt
driven-Owns c w desktop e = tt

resize-Reaches :
    (id c : String) (w : Viewport) (pty : Viewport) (s : SessionState)
    → IsConsistent pty s
    → Reaches pty (emitted (update_mobile_viewport id c w s))
unfolding update_mobile_viewport
resize-Reaches id c w pty s v = go (lookup c s.subscribers) refl
  where
    move :
        (s' : SessionState)
        → SameTarget s s'
        → (b : Bool) → driven_by c s.driver ≡ b
        → Reaches pty (if b then apply_layout id (mobile_layout c w) w s' else (s', []))
    move s' t true e =
        apply_layout-Reaches id (mobile_layout c w) pty s' (SameTarget-IsConsistent t v).tracks
          (rw t.same_driver (driven-Owns c w s.driver e))
    move s' t false e = SameTarget-IsConsistent t v

    go :
        (r : Option SubscriberRecord)
        → lookup c s.subscribers ≡ r
        → Reaches pty (emitted (update_mobile_viewport id c w s))
    go none e = rw (e, update_mobile_viewport) (finish-Reaches id pty (s, []) v)
    go (some r) e =
        let s' : SessionState = record s {
          subscribers = insert c (with_viewport w r) s.subscribers;
        } in
        rw (e, update_mobile_viewport)
          (finish-Reaches id pty
            (if driven_by c s.driver then apply_layout id (mobile_layout c w) w s' else (s', []))
            (move s' (record { same_driver = refl; same_layout' = refl }) (driven_by c s.driver)
              refl))

act-Reaches :
    (id c : String) (at : ℕ) (pty : Viewport) (s : SessionState)
    → IsConsistent pty s
    → Reaches pty (emitted (mark_mobile_acted id c at s))
unfolding mark_mobile_acted
act-Reaches id c at pty s v =
    finish-Reaches id pty
      (act id c at s' (lookup c s'.subscribers) (viewport_of (lookup c s'.subscribers)))
      (go (lookup c s'.subscribers))
  where
    s' : SessionState
    s' = cancel_soft_leave c s

    v' : IsConsistent pty s'
    v' = SameTarget-IsConsistent (cancel_soft_leave-SameTarget c s) v

    with_size :
        (r : SubscriberRecord) (w : Option Viewport) → Reaches pty (act id c at s' (some r) w)
    with_size r none = v'
    with_size r (some w) =
        take_mobile_floor-Reaches id c pty
          (record s' { subscribers = insert c (acted at r) s'.subscribers })
          (record { owns = v'.owns; tracks = v'.tracks })

    go : (r : Option SubscriberRecord) → Reaches pty (act id c at s' r (viewport_of r))
    go none = v'
    go (some r) = with_size r r.viewport

soft_leave-SameTarget :
    (c : String) (r : SubscriberRecord) (s : SessionState) → SameTarget s (soft_leave c r s)
unfolding soft_leave
soft_leave-SameTarget c r s =
    let e =
      cancel_soft_leave-SameTarget c
        (record s { subscribers = insert c (leave r) s.subscribers }) in
    record { same_driver = e.same_driver; same_layout' = e.same_layout' }

hand_over-Reaches :
    (id c : String) (first : SubscriberRecord) (rest : List SubscriberRecord) (pty : Viewport)
    (s : SessionState)
    → IsConsistent pty s
    → Reaches pty (hand_over id c first rest s)
unfolding hand_over
hand_over-Reaches id c first rest pty s v = go (driven_by c s.driver)
  where
    s' : SessionState
    s' = cancel_soft_leave c (record s { subscribers = erase c s.subscribers })

    v' : IsConsistent pty s'
    v' =
        SameTarget-IsConsistent
          (cancel_soft_leave-SameTarget c (record s { subscribers = erase c s.subscribers }))
          (record { owns = v.owns; tracks = v.tracks })

    next : String
    next = (select_latest_actor first rest).client_id

    go : (b : Bool) → Reaches pty (if b then take_mobile_floor id next s' else (s', []))
    go true = take_mobile_floor-Reaches id next pty s' v'
    go false = v'

unsubscribe-Reaches :
    (id c : String) (pty : Viewport) (s : SessionState)
    → IsConsistent pty s
    → Reaches pty (emitted (unsubscribe_mobile id c s))
unfolding unsubscribe_mobile
unsubscribe-Reaches id c pty s v = elim (Option-cases (lookup c s.subscribers)) [
  | inl e ↦ rw (e, unsubscribe_mobile) v
  | inr (r, e) ↦
      rw (e, unsubscribe_mobile) (among r (others c (active_mobile_subscribers s.subscribers)))
]
  where
    among :
        (r : SubscriberRecord) (rs : List SubscriberRecord)
        → Reaches pty (
            emitted (elim rs [
              | first ∷ rest ↦ finish id (hand_over id c first rest s)
              | [] ↦ finish id (soft_leave c r s, [])
            ]))
    among r [] =
        finish-Reaches id pty (soft_leave c r s, [])
          (SameTarget-IsConsistent (soft_leave-SameTarget c r s) v)
    among r (first ∷ rest) =
        finish-Reaches id pty (hand_over id c first rest s)
          (hand_over-Reaches id c first rest pty s v)

settle-IsConsistent :
    (pty : Viewport) (s : SessionState) (rs : List SubscriberRecord)
    → IsConsistent pty s
    → IsConsistent pty (settle s rs)
settle-IsConsistent pty s (r ∷ rs) v = v
settle-IsConsistent pty s [] v = elim (Bool-cases (is_driven_mobile s.driver)) [
  | inl e ↦ rw e (record { owns = tt; tracks = tt })
  | inr e ↦ rw e v
]

elapse-Reaches :
    (id c : String) (pty : Viewport) (s : SessionState)
    → IsConsistent pty s
    → Reaches pty (soft_leave_elapsed id c s)
unfolding soft_leave_elapsed
elapse-Reaches id c pty s v = go (is_leaving (lookup c s.subscribers))
  where
    go : (b : Bool) → Reaches pty (expire id c s b)
    go false = record { owns = v.owns; tracks = v.tracks }
    go true = settle-IsConsistent pty _ _ (record { owns = v.owns; tracks = v.tracks })

desktop-Leaves :
    (id : String) (w pty : Viewport) (s : SessionState)
    → IsConsistent pty s
    → Leaves (desktop_resizes w) pty s (emitted (record_desktop_geometry id w s))
unfolding record_desktop_geometry
desktop-Leaves id w pty s v = elim (Bool-cases (is_driven_mobile s.driver)) [
  | inl e ↦ rw e (refl, refl, refl, v.owns)
  | inr e ↦ rw e (refl, refl, refl, free s.driver e)
]
  where
    free : (d : Driver) → is_driven_mobile d ≡ false → Owns d (some (desktop_layout w))
    free idle e = tt
    free desktop e = tt
    free (mobile c) e = cc

reclaim-Reaches :
    (id : String) (pty : Viewport) (s : SessionState)
    → IsConsistent pty s
    → Reaches pty (emitted (reclaim_for_desktop id s))
unfolding reclaim_for_desktop
reclaim-Reaches id pty s v =
    finish-Reaches id pty (reclaim_layout id s.desktop_baseline (record s { driver = desktop }))
      (go s.desktop_baseline)
  where
    go : (w : Option Viewport) → Reaches pty (reclaim_layout id w (record s { driver = desktop }))
    go none = record { owns = tt; tracks = v.tracks }
    go (some w) =
        apply_layout-Reaches id (desktop_layout w) pty (record s { driver = desktop }) v.tracks tt

pub run_call-Leaves :
    (id : String) (call : Call) (pty : Viewport) (s : SessionState)
    → IsConsistent pty s
    → Leaves call pty s (run_call id call s)
run_call-Leaves id (subscribes c w mode at) pty s v = subscribe-Reaches id c w mode at pty s v
run_call-Leaves id (resizes c w) pty s v = resize-Reaches id c w pty s v
run_call-Leaves id (acts c at) pty s v = act-Reaches id c at pty s v
run_call-Leaves id (unsubscribes c) pty s v = unsubscribe-Reaches id c pty s v
run_call-Leaves id (elapses c) pty s v = elapse-Reaches id c pty s v
run_call-Leaves id (desktop_resizes w) pty s v = desktop-Leaves id w pty s v
run_call-Leaves id reclaims pty s v = reclaim-Reaches id pty s v
