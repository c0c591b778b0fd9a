-- ===== src/Presence/Floor.antt =====
-- Who drives: the phone that acted last.
use parasor.Base.Classes.{string_eq}
use parasor.Base.Map.{lookup, insert}
use parasor.Base.{
  ℕ, ◌≡◌, refl, ◌∙◌, ◌⊎◌, inl, inr, Bool, true, false, none, some, List, [], ◌∷◌, String,
  if◌then◌else◌, arith, Option-cases,
}
use parasor.Presence.Session.{
  subscribed, subscribe_mobile, mark_mobile_acted, can_write, finish, takes_floor, acted,
  is_desktop, subscription,
}
use parasor.Presence.SoftLeave.{lookup_self, erased}
use parasor.Presence.Types.{
  Viewport, auto, SessionState, SubscriberRecord, mobile, desktop_client, mobile_client,
  mobile_layout,
}
use parasor.Presence.{
  adjust, cancel_soft_leave, stay, acted_later, select_latest_actor, take_mobile_floor,
  apply_layout,
}

abbrev pub Among : SubscriberRecord → List SubscriberRecord → Type 0
Among x [] = ⊥
Among x (r ∷ rs) = (x ≡ r) ⊎ Among x rs

abbrev pub NoneLater : SubscriberRecord → List SubscriberRecord → Type 0
NoneLater x [] = Unit
NoneLater x (r ∷ rs) = (acted_later r x ≡ false) × NoneLater x rs

-- One of the records, such that none acted later.
pub record IsLatest (x : SubscriberRecord) (rs : List SubscriberRecord) : Type 0 where
  pub among : Among x rs
  pub none_later : NoneLater x rs

later_trans :
    (a b c : SubscriberRecord)
    → acted_later a b ≡ false
    → acted_later b c ≡ false
    → acted_later a c ≡ false
later_trans a b c h k = grind arith

later_irrefl : (a : SubscriberRecord) → acted_later a a ≡ false
later_irrefl a = grind arith

later_asym : (a b : SubscriberRecord) → acted_later a b ≡ true → acted_later b a ≡ false
later_asym a b h = grind arith

NoneLater-trans :
    (x y : SubscriberRecord) (rs : List SubscriberRecord)
    → acted_later y x ≡ false
    → NoneLater y rs
    → NoneLater x rs
NoneLater-trans x y [] h n = tt
NoneLater-trans x y (r ∷ rs) h (m, n) = (later_trans r y x m h, NoneLater-trans x y rs h n)

Among-∷ :
    (x r : SubscriberRecord) (b : Bool) (best : SubscriberRecord) (rs : List SubscriberRecord)
    → Among x ((if b then r else best) ∷ rs)
    → Among x (best ∷ r ∷ rs)
Among-∷ x r true best rs (inl e) = inr (inl e)
Among-∷ x r true best rs (inr m) = inr (inr m)
Among-∷ x r false best rs (inl e) = inl e
Among-∷ x r false best rs (inr m) = inr (inr m)

NoneLater-∷ :
    (x r : SubscriberRecord) (b : Bool) (best : SubscriberRecord) (rs : List SubscriberRecord)
    → acted_later r best ≡ b
    → NoneLater x ((if b then r else best) ∷ rs)
    → NoneLater x (best ∷ r ∷ rs)
NoneLater-∷ x r true best rs e (h, n) = (later_trans best r x (later_asym r best e) h, (h, n))
NoneLater-∷ x r false best rs e (h, n) = (h, (later_trans r best x e h, n))

-- The client that gets the floor is one of the remaining ones, and none of them acted after it, with
-- the time of its subscription as the tie-break.
pub select_latest_actor-IsLatest :
    (best : SubscriberRecord) (rs : List SubscriberRecord)
    → IsLatest (select_latest_actor best rs) (best ∷ rs)
unfolding select_latest_actor
select_latest_actor-IsLatest best [] = record {
  among = inl refl;
  none_later = (later_irrefl best, tt);
}
select_latest_actor-IsLatest best (r ∷ rs) =
    let b = acted_later r best in
    let x = select_latest_actor (if b then r else best) rs in
    let ih = select_latest_actor-IsLatest (if b then r else best) rs in
    record {
      among = Among-∷ x r b best rs ih.among;
      none_later = NoneLater-∷ x r b best rs refl ih.none_later;
    }

-- A phone that holds the floor: it drives, the layout is its own, it may write and no desktop may.
pub record Holds (c d : String) (v : Viewport) (s : SessionState) : Type 0 where
  pub drives : s.driver ≡ mobile c
  pub owns : s.layout ≡ some (mobile_layout c v)
  pub writes : can_write mobile_client c s ≡ true
  pub barred : can_write desktop_client d s ≡ false

take_mobile_floor-Holds :
    (id c d : String) (v : Viewport) (s : SessionState) (r : SubscriberRecord)
    → lookup c s.subscribers ≡ some r
    → r.viewport ≡ some v
    → r.leaving ≡ false
    → Holds c d v (take_mobile_floor id c s).0
unfolding take_mobile_floor apply_layout can_write
take_mobile_floor-Holds id c d v s r here sized stays_here = record {
  drives = rw (here, sized);
  owns = rw (here, sized);
  writes = rw (here, sized, here, stays_here);
  barred = rw (here, sized);
}

cancel-timer :
    (c : String) (s : SessionState) → lookup c (cancel_soft_leave c s).soft_leave_timers ≡ none
unfolding cancel_soft_leave adjust
cancel-timer c s = ground (arith, erased c s.soft_leave_timers)

cancel-driver : (c : String) (s : SessionState) → (cancel_soft_leave c s).driver ≡ s.driver
unfolding cancel_soft_leave adjust
cancel-driver c s = ground arith

cancel-viewport :
    (c : String) (s : SessionState) (r : SubscriberRecord)
    → lookup c s.subscribers ≡ some r
    → (q : SubscriberRecord) × (lookup c (cancel_soft_leave c s).subscribers ≡ some q)
      × (q.viewport ≡ r.viewport)
unfolding cancel_soft_leave adjust
cancel-viewport c s r here = elim (Option-cases (lookup c s.soft_leave_timers)) [
  | inl e ↦ (r, ground (arith, here), refl)
  | inr (timer, e) ↦ (stay r, ground (arith, lookup_self c (stay r) s.subscribers), refl)
]

-- A subscribed phone that acts, its viewport known, holds the floor from then on.
mark_mobile_acted-Holds :
    (id c d : String) (at : ℕ) (v : Viewport) (s : SessionState) (r : SubscriberRecord)
    → lookup c s.subscribers ≡ some r
    → r.viewport ≡ some v
    → Holds c d v (mark_mobile_acted id c at s).0
unfolding mark_mobile_acted
mark_mobile_acted-Holds id c d at v s r here sized =
    let (q, there, same) = cancel-viewport c s r here in
    let s' = cancel_soft_leave c s in
    let t : SessionState = record s' { subscribers = insert c (acted at q) s'.subscribers } in
    rw (there, same ∙ sized)
      (take_mobile_floor-Holds id c d v t (acted at q) (lookup_self c (acted at q) s'.subscribers)
        (same ∙ sized) refl)

-- A phone that subscribes in the mode "auto" while no desktop has claimed the session holds the floor.
subscribe_mobile-Holds :
    (id c d : String) (v : Viewport) (at : ℕ) (s : SessionState)
    → is_desktop s.driver ≡ false
    → Holds c d v (subscribe_mobile id c v auto at s).0
unfolding subscribe_mobile subscribed
subscribe_mobile-Holds id c d v at s free = go (takes_floor auto s'.driver) floor
  where
    s' : SessionState
    s' = subscribed c v auto at s

    before : SessionState
    before = cancel_soft_leave c s

    r : SubscriberRecord
    r = subscription c v (takes_floor auto before.driver) (lookup c before.subscribers) at

    floor : takes_floor auto s'.driver ≡ true
    floor = rw (cancel-driver c s, free)

    go :
        (b : Bool)
        → b ≡ true
        → Holds c d v (finish id (if b then take_mobile_floor id c s' else (s', []))).0
    go true e = take_mobile_floor-Holds id c d v s' r (lookup_self c r before.subscribers) refl refl
    go false e = cc
