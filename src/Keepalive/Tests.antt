-- ===== src/Keepalive/Tests.antt =====
-- A ping that is not answered.
use parasor.Base.{◌≡◌, refl, List, [], ◌∷◌, true, arith}
use parasor.Keepalive.Deadline.{
  Event, ticks, pongs, occur, occur_all, attached, IsAwaiting, occur_all-IsAwaiting,
}
use parasor.Keepalive.{ping_tick, on_pong}

abbrev answered_once : List Event
answered_once = ticks true true ∷ pongs ∷ ticks true true ∷ []

waits_again : (occur_all 10 answered_once attached).keepalive.pong_deadline ≡ true
unfolding occur_all occur ping_tick on_pong
waits_again = refl

occur_all-IsAwaiting_example : IsAwaiting (occur_all 10 answered_once attached)
occur_all-IsAwaiting_example = occur_all-IsAwaiting 10 answered_once (omega arith)
