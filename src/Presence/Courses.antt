-- ===== src/Presence/Courses.antt =====
-- packages/server/src/pty/terminal-presence-manager.ts: courses of requests for several sessions, and what one session
-- sees of them.
use parasor.Base.Classes.{string_eq, ◌==◌, equals_self}
use parasor.Base.Map.{lookup, lookup-insert, lookup-erase}
use parasor.Base.{
  ◌≡◌, refl, sym, ap, subst, ◌∙◌, inl, inr, false, Option, none, some, List, [], ◌∷◌, String,
  if◌then◌else◌, arith, Option-cases, Bool-cases,
}
use parasor.Presence.Calls.{
  subscribes, resizes, acts, unsubscribes, elapses, desktop_resizes, reclaims, run_call,
}
use parasor.Presence.Isolation.{state_or_new, view, given}
use parasor.Presence.Manager.{
  PresenceManager, get_or_create, on_session, timer_callback, reset_session, Request, calls, resets,
  run,
}
use parasor.Presence.Session.{soft_leave_elapsed}
use parasor.Presence.Types.{SessionState, Effect}
use parasor.Presence.{new_session, changed}

-- The requests of a course, each with the effects that it had.
unfoldable pub run_all :
    List (String × Request) → PresenceManager → PresenceManager × List (String × List Effect)
run_all [] m = (m, [])
run_all ((id, q) ∷ qs) m =
    let (m', effects) = run id q m in
    let (last, rest) = run_all qs m' in (last, (id, effects) ∷ rest)

-- What is about one session, in its order.
unfoldable pub own {ℓ} : {A : Type ℓ} → String → List (String × A) → List A
own b [] = []
own b ((id, a) ∷ xs) = let rest = own b xs in if id == b then a ∷ rest else rest

abbrev entered : SessionState × List Effect → Option SessionState × List Effect
entered (s, effects) = (some s, effects)

-- A request on a store for one session only: the timer of a session that is absent does nothing and creates nothing,
-- and every other call but the reset creates what is absent.
abbrev pub serve_alone : String → Request → Option SessionState → Option SessionState × List Effect
serve_alone id (calls (elapses c)) none = (none, [])
serve_alone id (calls (elapses c)) (some s) = entered (soft_leave_elapsed id c s)
serve_alone id resets o = (none, changed id new_session)
serve_alone id (calls call) o = entered (run_call id call (state_or_new o))

unfoldable pub serve_all :
    String → List Request → Option SessionState → Option SessionState × List (List Effect)
serve_all id [] o = (o, [])
serve_all id (q ∷ qs) o =
    let (o', effects) = serve_alone id q o in
    let (last, rest) = serve_all id qs o' in (last, effects ∷ rest)

-- A request changes the entry of its session alone.
record Serves (id : String) (old : PresenceManager) (step : Option SessionState × List Effect)
    (new : PresenceManager × List Effect) : Type 0 where
  entries :
      (b : String) → lookup b new.0.sessions ≡ (if id == b then step.0 else lookup b old.sessions)
  effects : new.1 ≡ step.1

created_aside :
    (id b : String) (m : PresenceManager)
    → id == b ≡ false
    → lookup b (get_or_create id m).0.sessions ≡ lookup b m.sessions
unfolding get_or_create
created_aside id b m e = elim (Option-cases (lookup id m.sessions)) [
  | inl k ↦ rw (k, lookup-insert id b new_session m.sessions, e) refl
  | inr (s, k) ↦ rw k refl
]

on_session-Serves :
    (f : SessionState → SessionState × List Effect) (id : String) (m : PresenceManager)
    → Serves id m (entered (f (view m id))) (on_session f id m)
unfolding on_session
on_session-Serves f id m = record {
  entries = λ b.
      lookup-insert id b (f (get_or_create id m).1).0 (get_or_create id m).0.sessions
      ∙ elim (Bool-cases (id == b)) [
        | inl e ↦ rw e (ap (λ s. some (f s).0) (given id m))
        | inr e ↦ rw e (created_aside id b m e)
      ];
  effects = ap (λ s. (f s).1) (given id m);
}

reset-Serves :
    (id : String) (m : PresenceManager)
    → Serves id m (none, changed id new_session) (reset_session id m)
unfolding reset_session
reset-Serves id m = record { entries = λ b. lookup-erase id b m.sessions; effects = refl }

timer_callback-Serves :
    (id c : String) (m : PresenceManager) (o : Option SessionState)
    → lookup id m.sessions ≡ o
    → Serves id m (serve_alone id (calls (elapses c)) o) (timer_callback id c m o)
timer_callback-Serves id c m none e = record {
  entries = λ b. grind (arith, string_eq.equals_iff id b);
  effects = refl;
}
timer_callback-Serves id c m (some s) e = record {
  entries = λ b. lookup-insert id b (soft_leave_elapsed id c s).0 m.sessions;
  effects = refl;
}

run-Serves :
    (id : String) (q : Request) (m : PresenceManager)
    → Serves id m (serve_alone id q (lookup id m.sessions)) (run id q m)
unfolding run
run-Serves id (calls (elapses c)) m = timer_callback-Serves id c m (lookup id m.sessions) refl
run-Serves id (calls (subscribes c v mode t)) m =
    on_session-Serves (run_call id (subscribes c v mode t)) id m
run-Serves id (calls (resizes c v)) m = on_session-Serves (run_call id (resizes c v)) id m
run-Serves id (calls (acts c t)) m = on_session-Serves (run_call id (acts c t)) id m
run-Serves id (calls (unsubscribes c)) m = on_session-Serves (run_call id (unsubscribes c)) id m
run-Serves id (calls (desktop_resizes v)) m =
    on_session-Serves (run_call id (desktop_resizes v)) id m
run-Serves id (calls reclaims) m = on_session-Serves (run_call id reclaims) id m
run-Serves id resets m = reset-Serves id m

-- The entry and the effects of one session's requests, after a course and on a store of its own.
abbrev Alone : String → List (String × Request) → PresenceManager → Option SessionState → Type 0
Alone b qs m o =
    (lookup b (run_all qs m).0.sessions ≡ (serve_all b (own b qs) o).0)
    × (own b (run_all qs m).1 ≡ (serve_all b (own b qs) o).1)

other_request :
    (b id : String) (q : Request) (qs : List (String × Request)) (m : PresenceManager)
    → id == b ≡ false
    → Alone b qs (run id q m).0 (lookup b (run id q m).0.sessions)
    → Alone b ((id, q) ∷ qs) m (lookup b m.sessions)
unfolding run_all own
other_request b id q qs m e k =
    let same : lookup b (run id q m).0.sessions ≡ lookup b m.sessions =
      (run-Serves id q m).entries b ∙ rw e refl in
    rw e (subst (Alone b qs (run id q m).0) same k)

own_request :
    (b : String) (q : Request) (qs : List (String × Request)) (m : PresenceManager)
    → Alone b qs (run b q m).0 (lookup b (run b q m).0.sessions)
    → Alone b ((b, q) ∷ qs) m (lookup b m.sessions)
unfolding run_all own serve_all
own_request b q qs m k =
    let one = run-Serves b q m in
    let same : lookup b (run b q m).0.sessions ≡ (serve_alone b q (lookup b m.sessions)).0 =
      one.entries b ∙ rw (equals_self b) refl in
    let (entry, effects) = subst (Alone b qs (run b q m).0) same k in
    rw (equals_self b) (entry, rw (one.effects, effects) refl)

pub run_all-own :
    (b : String) (qs : List (String × Request)) (m : PresenceManager)
    → (lookup b (run_all qs m).0.sessions ≡ (serve_all b (own b qs) (lookup b m.sessions)).0)
      × (own b (run_all qs m).1 ≡ (serve_all b (own b qs) (lookup b m.sessions)).1)
unfolding run_all own serve_all
run_all-own b [] m = (refl, refl)
run_all-own b ((id, q) ∷ qs) m = elim (Bool-cases (id == b)) [
  | inl e ↦
      subst (λ x. Alone b ((x, q) ∷ qs) m (lookup b m.sessions))
        (sym ((string_eq.equals_iff id b).0 e))
        (own_request b q qs m (run_all-own b qs (run b q m).0))
  | inr e ↦ other_request b id q qs m e (run_all-own b qs (run id q m).0)
]
