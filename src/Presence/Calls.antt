-- ===== src/Presence/Calls.antt =====
-- The methods as calls, and what the PTY's size is after each.
use parasor.Base.{ℕ, ◌≡◌, List, [], ◌∷◌, String, Option, none, some, if◌then◌else◌}
use parasor.Presence.Session.{
  subscribe_mobile, update_mobile_viewport, mark_mobile_acted, unsubscribe_mobile,
  soft_leave_elapsed, record_desktop_geometry, reclaim_for_desktop, is_driven_mobile,
}
use parasor.Presence.Types.{
  Viewport, Mode, SessionState, Effect, resize, presence_changed, Update, Layout, desktop_layout,
  mobile_layout, Driver, mobile,
}

pub data Call : Type 0 where
  subscribes : String → Viewport → Mode → ℕ → Call
  resizes : String → Viewport → Call
  acts : String → ℕ → Call
  unsubscribes : String → Call
  elapses : String → Call
  desktop_resizes : Viewport → Call
  reclaims : Call

abbrev pub emitted : SessionState × Update → SessionState × List Effect
emitted (s, u) = (s, u.effects)

abbrev pub run_call : String → Call → SessionState → SessionState × List Effect
run_call id (subscribes c v mode at) s = emitted (subscribe_mobile id c v mode at s)
run_call id (resizes c v) s = emitted (update_mobile_viewport id c v s)
run_call id (acts c at) s = emitted (mark_mobile_acted id c at s)
run_call id (unsubscribes c) s = emitted (unsubscribe_mobile id c s)
run_call id (elapses c) s = soft_leave_elapsed id c s
run_call id (desktop_resizes v) s = emitted (record_desktop_geometry id v s)
run_call id reclaims s = emitted (reclaim_for_desktop id s)

-- The PTY's size after the resizes among some effects.
abbrev pub resized : Viewport → List Effect → Viewport
resized pty [] = pty
resized pty (resize id cols rows ∷ es) = resized (record { cols = cols; rows = rows }) es
resized pty (presence_changed x ∷ es) = resized pty es

abbrev pub size_of : Layout → Viewport
size_of (desktop_layout v) = v
size_of (mobile_layout c v) = v

abbrev pub Tracks : Option Layout → Viewport → Type 0
Tracks none pty = Unit
Tracks (some l) pty = size_of l ≡ pty

-- A phone that drives owns the layout.
abbrev pub Owns : Driver → Option Layout → Type 0
Owns (mobile c) l = (v : Viewport) × (l ≡ some (mobile_layout c v))
Owns _ l = Unit

-- The layout target is the PTY's size, and the driving phone's.
pub record IsConsistent (pty : Viewport) (s : SessionState) : Type 0 where
  pub owns : Owns s.driver s.layout
  pub tracks : Tracks s.layout pty

-- The same of a state with the effects that led to it.
abbrev pub Reaches : Viewport → SessionState × List Effect → Type 0
Reaches pty (s, es) = IsConsistent (resized pty es) s

-- What a call leaves of a PTY of this size, by the resizes that it emits. The report of a desktop's size is the one call
-- that sets the layout target and does not touch the PTY: the target is then the reported size, unless a phone drives.
abbrev pub Leaves : Call → Viewport → SessionState → SessionState × List Effect → Type 0
Leaves (desktop_resizes v) pty s (s', es) =
    (resized pty es ≡ pty)
    × (s'.driver ≡ s.driver)
    × (s'.layout ≡ (if is_driven_mobile s.driver then s.layout else some (desktop_layout v)))
    × Owns s'.driver s'.layout
Leaves _ pty s x = Reaches pty x
