-- ===== src/Presence/Isolation.antt =====
-- The map of sessions against its specification: a function from ids to states, a new state for an
-- id that it does not have.
use parasor.Base.Classes.{string_eq, ◌==◌}
use parasor.Base.Map.{lookup, insert, erase, lookup-insert, lookup-erase}
use parasor.Base.{
  ◌≡◌, refl, ap, ◌∙◌, inl, inr, Bool, true, false, Option, none, some, List, String, if◌then◌else◌,
  arith, Option-cases,
}
use parasor.Presence.Calls.{
  subscribes, resizes, acts, unsubscribes, elapses, desktop_resizes, reclaims, run_call,
}
use parasor.Presence.Manager.{
  PresenceManager, get_or_create, on_session, timer_callback, reset_session, Request, calls, resets,
  run,
}
use parasor.Presence.Session.{soft_leave_elapsed}
use parasor.Presence.Types.{SessionState, Effect}
use parasor.Presence.{new_session, changed}

abbrev pub state_or_new : Option SessionState → SessionState
state_or_new none = new_session
state_or_new (some s) = s

abbrev pub view : PresenceManager → String → SessionState
view m id = state_or_new (lookup id m.sessions)

-- What a request does to the state of its own session.
abbrev pub serve : String → Request → SessionState → SessionState × List Effect
serve id (calls call) s = run_call id call s
serve id resets s = (new_session, changed id new_session)

-- The state with one session changed.
abbrev pub at : String → SessionState → (String → SessionState) → String → SessionState
at id s f b = if id == b then s else f b

-- A step of the manager on one session, the others as they were.
pub record IsStep {A : Type 0} (id : String) (old : PresenceManager) (step : SessionState × A)
    (new : PresenceManager × A) : Type 0 where
  pub states : (b : String) → view new.0 b ≡ at id step.0 (view old) b
  pub result : new.1 ≡ step.1

pick :
    (b : Bool) (s : SessionState) (o : Option SessionState)
    → state_or_new (if b then some s else o) ≡ (if b then s else state_or_new o)
pick true s o = refl
pick false s o = refl

dropped :
    (b : Bool) (o : Option SessionState)
    → state_or_new (if b then none else o) ≡ (if b then new_session else state_or_new o)
dropped true o = refl
dropped false o = refl

view-insert :
    (id b : String) (s : SessionState) (l : List (String × SessionState))
    → state_or_new (lookup b (insert id s l)) ≡ (if id == b then s else state_or_new (lookup b l))
view-insert id b s l = ap state_or_new (lookup-insert id b s l) ∙ pick (id == b) s (lookup b l)

view-erase :
    (id b : String) (l : List (String × SessionState))
    → state_or_new (lookup b (erase id l))
      ≡ (if id == b then new_session else state_or_new (lookup b l))
view-erase id b l = ap state_or_new (lookup-erase id b l) ∙ dropped (id == b) (lookup b l)

absent :
    (id b : String) (l : List (String × SessionState))
    → lookup id l ≡ none
    → (if id == b then new_session else state_or_new (lookup b l)) ≡ state_or_new (lookup b l)
absent id b l e = grind (arith, string_eq.equals_iff id b)

-- An entry that is created counts for nothing.
pub created : (id b : String) (m : PresenceManager) → view (get_or_create id m).0 b ≡ view m b
unfolding get_or_create
created id b m = elim (Option-cases (lookup id m.sessions)) [
  | inl e ↦ rw (e, view-insert id b new_session m.sessions, absent id b m.sessions e) refl
  | inr (s, e) ↦ rw e refl
]

pub given : (id : String) (m : PresenceManager) → (get_or_create id m).1 ≡ view m id
unfolding get_or_create
given id m = ground arith

on_session-IsStep :
    {A : Type 0} (f : SessionState → SessionState × A) (id : String) (m : PresenceManager)
    → IsStep id m (f (view m id)) (on_session f id m)
unfolding on_session
on_session-IsStep f id m = record {
  states = λ b.
      view-insert id b (f (get_or_create id m).1).0 (get_or_create id m).0.sessions
      ∙ ap (λ s. at id (f s).0 (view (get_or_create id m).0) b) (given id m)
      ∙ ap (λ s. if id == b then (f (view m id)).0 else s) (created id b m);
  result = ap (λ s. (f s).1) (given id m);
}

reset-IsStep :
    (id : String) (m : PresenceManager)
    → IsStep id m (new_session, changed id new_session) (reset_session id m)
unfolding reset_session
reset-IsStep id m = record { states = λ b. view-erase id b m.sessions; result = refl }

unchanged : (id b : String) (m : PresenceManager) → view m b ≡ at id (view m id) (view m) b
unchanged id b m = grind (arith, string_eq.equals_iff id b)

timer_callback-IsStep :
    (id c : String) (m : PresenceManager) (o : Option SessionState)
    → lookup id m.sessions ≡ o
    → IsStep id m (soft_leave_elapsed id c (state_or_new o)) (timer_callback id c m o)
unfolding soft_leave_elapsed lookup
timer_callback-IsStep id c m none e = record {
  states = λ b. unchanged id b m ∙ ap (λ s. at id s (view m) b) (ap state_or_new e);
  result = refl;
}
timer_callback-IsStep id c m (some s) e = record {
  states = λ b. view-insert id b (soft_leave_elapsed id c s).0 m.sessions;
  result = refl;
}

-- A request, `resetSession` and the firing of a timer included, changes the state of the session that it names
-- as its handler says, an absent session standing for a new one, leaves every other session as it was,
-- and has the effects of the handler.
pub run-IsStep :
    (id : String) (q : Request) (m : PresenceManager)
    → IsStep id m (serve id q (view m id)) (run id q m)
unfolding run
run-IsStep id (calls (elapses c)) m = timer_callback-IsStep id c m (lookup id m.sessions) refl
run-IsStep id (calls (subscribes c v mode t)) m =
    on_session-IsStep (run_call id (subscribes c v mode t)) id m
run-IsStep id (calls (resizes c v)) m = on_session-IsStep (run_call id (resizes c v)) id m
run-IsStep id (calls (acts c t)) m = on_session-IsStep (run_call id (acts c t)) id m
run-IsStep id (calls (unsubscribes c)) m = on_session-IsStep (run_call id (unsubscribes c)) id m
run-IsStep id (calls (desktop_resizes v)) m =
    on_session-IsStep (run_call id (desktop_resizes v)) id m
run-IsStep id (calls reclaims) m = on_session-IsStep (run_call id reclaims) id m
run-IsStep id resets m = reset-IsStep id m
