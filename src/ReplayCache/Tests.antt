-- ===== src/ReplayCache/Tests.antt =====
-- A cache with two screens.
use parasor.Base.Classes.{string_eq}
use parasor.Base.Int.{pos}
use parasor.Base.Map.{lookup, insert, erase}
use parasor.Base.{◌≡◌, refl, some, [], ◌∷◌, ◌++◌, arith}
use parasor.ReplayCache.{
  Entry, ReplayCache, get, set, clear_session, evict_while, sets, gets, clears, run_call, run,
}
use parasor.ReplayCache.Entries.{size, Distinct}
use parasor.ReplayCache.Budget.{IsValid, Keeps, run-IsValid}
use parasor.ReplayCache.Recency.{set-Keeps}
use parasor.TerminalRelay.Generation.{whole}

abbrev screen : Entry
screen = record {
  text = 104 ∷ 105 ∷ [];
  last_seen = (1, "5");
  cols = whole (pos 80);
  rows = whole (pos 24);
  stored_at = 0;
}

abbrev one_screen : ReplayCache
one_screen = record { entries = ("a", screen) ∷ ("b", screen) ∷ []; total_chars = 4 }

one_screen-IsValid : IsValid one_screen
unfolding Distinct size lookup
one_screen-IsValid = record {
  counts = record { distinct = (refl, (refl, tt)); counted = refl };
  within = omega arith;
}

run-set :
    (run (gets "a" ∷ sets "c" screen ∷ clears "b" ∷ []) one_screen).entries
    ≡ ("a", screen) ∷ ("c", screen) ∷ []
unfolding run run_call get set clear_session evict_while lookup insert erase
run-set = refl

run-IsValid_example : IsValid (run (gets "a" ∷ sets "c" screen ∷ clears "b" ∷ []) one_screen)
run-IsValid_example =
    run-IsValid (gets "a" ∷ sets "c" screen ∷ clears "b" ∷ []) one_screen one_screen-IsValid

set-Keeps_example :
    Keeps (erase "a" one_screen.entries ++ ("a", screen) ∷ []) (set "a" screen one_screen).entries
    × (lookup "a" (set "a" screen one_screen).entries ≡ some screen)
set-Keeps_example = set-Keeps "a" screen one_screen one_screen-IsValid.counts refl
