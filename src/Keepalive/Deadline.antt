-- ===== src/Keepalive/Deadline.antt =====
-- The deadline runs exactly while a ping has no answer.
use parasor.Base.{
  ℕ, ◌≡◌, ◌<◌, refl, ◌&&◌, Bool, true, false, not, List, [], ◌∷◌, if◌then◌else◌, arith,
}
use parasor.Keepalive.{
  Keepalive, attach_keepalive, Action, ping, on_timeout, terminate, on_pong, ping_tick,
  deadline_passed, dispose,
}

-- A ping may find the socket open or not, and be sent or not.
pub data Event : Type 0 where
  ticks : Bool → Bool → Event
  pongs passes disposes : Event

-- Whether the last ping was neither answered nor timed out.
pub record World : Type 0 where
  pub keepalive : Keepalive
  pub unanswered : Bool

-- The view of the other side: a ping waits for its answer, and a terminated socket for nothing.
abbrev pub watch : Bool → List Action → Bool
watch u [] = u
watch u (ping ∷ es) = watch true es
watch u (on_timeout ∷ es) = watch u es
watch u (terminate ∷ es) = watch false es

abbrev seen : World → Keepalive × List Action → World
seen w (k, es) = record { keepalive = k; unanswered = watch w.unanswered es }

-- The deadline passes only while it is armed; `dispose` takes the listener for pongs off.
unfoldable pub occur : ℕ → Event → World → World
occur ms (ticks is_open sends) w = seen w (ping_tick ms is_open sends w.keepalive)
occur ms pongs w =
    if w.keepalive.disposed
    then w
    else record { keepalive = on_pong w.keepalive; unanswered = false }
occur ms passes w = if w.keepalive.pong_deadline then seen w (deadline_passed w.keepalive) else w
occur ms disposes w = record w { keepalive = dispose w.keepalive }

unfoldable pub occur_all : ℕ → List Event → World → World
occur_all ms [] w = w
occur_all ms (e ∷ es) w = occur_all ms es (occur ms e w)

abbrev pub attached : World
attached = record { keepalive = attach_keepalive; unanswered = false }

-- The deadline is armed exactly while a ping waits, until the keepalive is disposed of.
abbrev pub IsAwaiting : World → Type 0
IsAwaiting w = w.keepalive.pong_deadline ≡ (w.unanswered && not w.keepalive.disposed)

occur-IsAwaiting :
    (ms : ℕ) (e : Event) (w : World) → 0 < ms → IsAwaiting w → IsAwaiting (occur ms e w)
unfolding occur ping_tick on_pong deadline_passed dispose
occur-IsAwaiting ms (ticks is_open sends) w l v = grind (arith, l, v)
occur-IsAwaiting ms pongs w l v = grind (arith, v)
occur-IsAwaiting ms passes w l v = grind (arith, v)
occur-IsAwaiting ms disposes w l v = grind (arith, v)

occur_all-from :
    (ms : ℕ) (es : List Event) (w : World) → 0 < ms → IsAwaiting w → IsAwaiting (occur_all ms es w)
unfolding occur_all
occur_all-from ms [] w l v = v
occur_all-from ms (e ∷ es) w l v =
    occur_all-from ms es (occur ms e w) l (occur-IsAwaiting ms e w l v)

-- With a positive pong timeout, after any ticks, pongs, deadlines that passed and disposals: the deadline is
-- armed exactly while a ping is unanswered and the keepalive is not disposed of.
pub occur_all-IsAwaiting :
    (ms : ℕ) (es : List Event) → 0 < ms → IsAwaiting (occur_all ms es attached)
occur_all-IsAwaiting ms es l = occur_all-from ms es attached l refl
