-- ===== src/Presence/Sizes.antt =====
-- The parts of the methods that set the layout target, and the resizes that they emit.
use parasor.Base.Classes.{string_eq}
use parasor.Base.Map.{lookup}
use parasor.Base.{
  ◌≡◌, refl, sym, inl, inr, true, Option, none, some, List, [], ◌∷◌, ◌++◌, String, arith,
  Bool-cases,
}
use parasor.Presence.Calls.{resized, size_of, Tracks, Owns, IsConsistent, Reaches, emitted}
use parasor.Presence.Session.{finish}
use parasor.Presence.Types.{
  Viewport, SessionState, Effect, resize, presence_changed, Layout, desktop_layout, mobile_layout,
  mobile,
}
use parasor.Presence.{
  cancel_soft_leave, apply_layout, take_mobile_floor, floor_with, same_layout, changed, viewport_of,
}

-- Two states with one driver and one layout.
pub record SameTarget (s s' : SessionState) : Type 0 where
  pub same_driver : s'.driver ≡ s.driver
  pub same_layout' : s'.layout ≡ s.layout

pub SameTarget-IsConsistent :
    {pty : Viewport} {s s' : SessionState}
    → SameTarget s s'
    → IsConsistent pty s
    → IsConsistent pty s'
SameTarget-IsConsistent {pty} e v = record {
  owns = rw (e.same_driver, e.same_layout') v.owns;
  tracks = rw e.same_layout' v.tracks;
}

pub cancel_soft_leave-SameTarget :
    (c : String) (s : SessionState) → SameTarget s (cancel_soft_leave c s)
unfolding cancel_soft_leave
cancel_soft_leave-SameTarget c s = record {
  same_driver = ground arith;
  same_layout' = ground arith;
}

-- Resizes before the snapshot of a method.
resized-changed :
    (pty : Viewport) (es : List Effect) (id : String) (s : SessionState)
    → resized pty (es ++ changed id s) ≡ resized pty es
resized-changed pty [] id s = refl
resized-changed pty (resize i c r ∷ es) id s = resized-changed _ es id s
resized-changed pty (presence_changed x ∷ es) id s = resized-changed pty es id s

same_layout-size :
    (l : Option Layout) (next : Layout) {pty : Viewport}
    → Tracks l pty
    → same_layout l next ≡ true
    → pty ≡ size_of next
unfolding same_layout
same_layout-size none next t e = cc
same_layout-size (some (desktop_layout v)) (desktop_layout w) t e = ground arith
same_layout-size (some (mobile_layout c v)) (mobile_layout d w) t e = ground arith
same_layout-size (some (desktop_layout v)) (mobile_layout d w) t e = cc
same_layout-size (some (mobile_layout c v)) (desktop_layout w) t e = cc

-- A resize goes out unless the PTY has the size already.
pub apply_layout-Reaches :
    (id : String) (next : Layout) (pty : Viewport) (s : SessionState)
    → Tracks s.layout pty
    → Owns s.driver (some next)
    → Reaches pty (apply_layout id next (size_of next) s)
unfolding apply_layout
apply_layout-Reaches id next pty s t o = elim (Bool-cases (same_layout s.layout next)) [
  | inl e ↦ rw e (record { owns = o; tracks = sym (same_layout-size s.layout next t e) })
  | inr e ↦ rw e (record { owns = o; tracks = refl })
]

pub take_mobile_floor-Reaches :
    (id c : String) (pty : Viewport) (s : SessionState)
    → IsConsistent pty s
    → Reaches pty (take_mobile_floor id c s)
unfolding take_mobile_floor
take_mobile_floor-Reaches id c pty s v = go (viewport_of (lookup c s.subscribers))
  where
    go : (w : Option Viewport) → Reaches pty (floor_with id c w s)
    go none = v
    go (some w) =
        apply_layout-Reaches id (mobile_layout c w) pty (record s { driver = mobile c }) v.tracks
          (w, refl)

pub finish-Reaches :
    (id : String) (pty : Viewport) (x : SessionState × List Effect)
    → Reaches pty x
    → Reaches pty (emitted (finish id x))
finish-Reaches id pty (s, es) v = rw (resized-changed pty es id s) v
