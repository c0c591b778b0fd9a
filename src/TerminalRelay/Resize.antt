-- ===== src/TerminalRelay/Resize.antt =====
-- A resize message leaves the PTY at the size of the layout target.
use mathlib.Core.List.{append-nil}
use parasor.Base.Classes.{string_eq, equals_self}
use parasor.Base.{
  ◌≡◌, refl, sym, ap, ◌∙◌, subst, Bool, true, false, not, List, [], ◌∷◌, ◌++◌, String,
  if◌then◌else◌, arith, inl, inr, Bool-cases,
}
use parasor.Presence.Calls.{
  Call, resizes, desktop_resizes, reclaims, resized, IsConsistent, Reaches, Leaves, run_call,
}
use parasor.Presence.Isolation.{run-IsStep, view, created, given}
use parasor.Presence.Layouts.{run_call-Leaves}
use parasor.Presence.Manager.{PresenceManager, run, calls, may_write}
use parasor.Presence.Session.{can_write, is_driven_mobile, record_desktop_geometry}
use parasor.Presence.Types.{
  Viewport, ClientKind, desktop_client, mobile_client, Effect, resize, presence_changed,
  SessionState,
}
use parasor.TerminalRelay.Presence.{Gated, reclaim_unless, apply_presence_resize, resize_message}

-- A call on the manager is a call on the session's state.
called :
    (id : String) (call : Call) (m : PresenceManager)
    → view (run id (calls call) m).0 id ≡ (run_call id call (view m id)).0
called id call m = (run-IsStep id (calls call) m).states id ∙ rw (equals_self id) refl

run-Reaches :
    (id : String) (call : Call) (pty : Viewport) (m : PresenceManager)
    → Reaches pty (run_call id call (view m id))
    → IsConsistent (resized pty (run id (calls call) m).1) (view (run id (calls call) m).0 id)
run-Reaches id call pty m v = rw (called id call m, (run-IsStep id (calls call) m).result) v

resized-++ : (pty : Viewport) (a b : List Effect) → resized pty (a ++ b) ≡ resized (resized pty a) b
resized-++ pty [] b = refl
resized-++ pty (resize id cols rows ∷ a) b = resized-++ (record { cols = cols; rows = rows }) a b
resized-++ pty (presence_changed x ∷ a) b = resized-++ pty a b

recorded-driver :
    (id : String) (v : Viewport) (s : SessionState)
    → (run_call id (desktop_resizes v) s).0.driver ≡ s.driver
unfolding record_desktop_geometry
recorded-driver id v s = ground arith

recorded-effects :
    (id : String) (v pty : Viewport) (s : SessionState)
    → resized pty (run_call id (desktop_resizes v) s).1 ≡ pty
unfolding record_desktop_geometry
recorded-effects id v pty s = refl

asked-view :
    (kind : ClientKind) (c id : String) (m : PresenceManager)
    → view (may_write kind c id m).0 id ≡ view m id
unfolding may_write
asked-view kind c id m = created id id m

asked-answer :
    (kind : ClientKind) (c id : String) (m : PresenceManager)
    → (may_write kind c id m).1 ≡ can_write kind c (view m id)
unfolding may_write
asked-answer kind c id m = ap (can_write kind c) (given id m)

-- The manager after the geometry was recorded and the right to resize asked for.
recorded : String → String → Viewport → PresenceManager → PresenceManager
recorded c id v m = (may_write desktop_client c id (run id (calls (desktop_resizes v)) m).0).0

recorded-view :
    (c id : String) (v : Viewport) (m : PresenceManager)
    → view (recorded c id v m) id ≡ (run_call id (desktop_resizes v) (view m id)).0
unfolding recorded
recorded-view c id v m =
    asked-view desktop_client c id (run id (calls (desktop_resizes v)) m).0
    ∙ called id (desktop_resizes v) m

silent :
    (id : String) (v pty : Viewport) (m : PresenceManager)
    → resized pty (run id (calls (desktop_resizes v)) m).1 ≡ pty
silent id v pty m =
    ap (resized pty) (run-IsStep id (calls (desktop_resizes v)) m).result
    ∙ recorded-effects id v pty (view m id)

-- The PTY as it is when the desktop's own resize goes through, unless a phone drives.
abbrev passed : Viewport → SessionState → Viewport → Viewport
passed v s pty = if is_driven_mobile s.driver then pty else v

passed-IsConsistent :
    (v pty : Viewport) (s : SessionState) (x : SessionState × List Effect)
    → IsConsistent pty s
    → Leaves (desktop_resizes v) pty s x
    → IsConsistent (passed v s pty) (x.0)
passed-IsConsistent v pty s (s', es) k (quiet, d, l, owns) = record {
  owns = owns;
  tracks = elim (Bool-cases (is_driven_mobile s.driver)) [
    | inl e ↦ rw (l, e) k.tracks
    | inr e ↦ rw (l, e) refl
  ];
}

recorded-Reaches :
    (c id : String) (v pty : Viewport) (m : PresenceManager)
    → IsConsistent pty (view m id)
    → IsConsistent (passed v (view m id) pty) (view (recorded c id v m) id)
recorded-Reaches c id v pty m k = rw (recorded-view c id v m) (
    passed-IsConsistent v pty (view m id) (run_call id (desktop_resizes v) (view m id)) k
      (run_call-Leaves id (desktop_resizes v) pty (view m id) k))

-- What the answer says of the driver.
answer :
    (c id : String) (v : Viewport) (m : PresenceManager)
    → (may_write desktop_client c id (run id (calls (desktop_resizes v)) m).0).1
      ≡ not (is_driven_mobile (view m id).driver)
unfolding can_write
answer c id v m =
    asked-answer desktop_client c id (run id (calls (desktop_resizes v)) m).0
    ∙ ap (λ s. not (is_driven_mobile s.driver)) (called id (desktop_resizes v) m)
    ∙ ap (λ d. not (is_driven_mobile d)) (recorded-driver id v (view m id))

-- The outcome of a message: the manager, and the effects in front of the PTY's own resize.
abbrev outcome : String → Viewport → Gated → PresenceManager × List Effect
outcome id v g = (g.manager, g.effects ++ (if g.allowed then resize id v.cols v.rows ∷ [] else []))

abbrev Keeps : String → Viewport → PresenceManager × List Effect → Type 0
Keeps id pty (m, es) = IsConsistent (resized pty es) (view m id)

-- The desktop's own resize goes through unless a phone drives.
goes_through :
    (v pty : Viewport) (s : SessionState)
    → not (is_driven_mobile s.driver) ≡ true
    → passed v s pty ≡ v
goes_through v pty s e = ground (arith, e)

held_back :
    (v pty : Viewport) (s : SessionState)
    → not (is_driven_mobile s.driver) ≡ false
    → passed v s pty ≡ pty
held_back v pty s e = ground (arith, e)

reclaim_unless-Keeps :
    (c id : String) (v pty : Viewport) (m : PresenceManager) (b : Bool)
    → not (is_driven_mobile (view m id).driver) ≡ b
    → IsConsistent pty (view m id)
    → Keeps id pty (
        outcome id v
          (reclaim_unless b id (recorded c id v m) (run id (calls (desktop_resizes v)) m).1))
reclaim_unless-Keeps c id v pty m true e k =
    rw (resized-++ pty (run id (calls (desktop_resizes v)) m).1 (resize id v.cols v.rows ∷ [])) (
      subst (λ x. IsConsistent x (view (recorded c id v m) id)) (goes_through v pty (view m id) e)
        (recorded-Reaches c id v pty m k))
reclaim_unless-Keeps c id v pty m false e k =
    rw
      (
        append-nil (
            (run id (calls (desktop_resizes v)) m).1
            ++ (run id (calls reclaims) (recorded c id v m)).1),
        resized-++ pty (run id (calls (desktop_resizes v)) m).1
            (run id (calls reclaims) (recorded c id v m)).1,
        silent id v pty m,
      )
      (run-Reaches id reclaims pty (recorded c id v m) (
        run_call-Leaves id reclaims pty (view (recorded c id v m) id) (
          subst (λ x. IsConsistent x (view (recorded c id v m) id)) (held_back v pty (view m id) e)
            (recorded-Reaches c id v pty m k))))

-- A resize message, of a phone or of a desktop, leaves the PTY at the size of the session's layout target and
-- the layout target with the phone that drives, if they were so before.
resize_message-IsConsistent :
    (kind : ClientKind) (c id : String) (v pty : Viewport) (m : PresenceManager)
    → IsConsistent pty (view m id)
    → IsConsistent
        (resized pty (resize_message kind c id v m).1)
        (view (resize_message kind c id v m).0 id)
unfolding resize_message apply_presence_resize recorded
resize_message-IsConsistent mobile_client c id v pty m k =
    rw (append-nil (run id (calls (resizes c v)) m).1)
      (run-Reaches id (resizes c v) pty m (run_call-Leaves id (resizes c v) pty (view m id) k))
resize_message-IsConsistent desktop_client c id v pty m k =
    reclaim_unless-Keeps c id v pty m
      (may_write desktop_client c id (run id (calls (desktop_resizes v)) m).0).1
      (sym (answer c id v m)) k
