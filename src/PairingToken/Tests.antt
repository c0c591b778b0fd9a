-- ===== src/PairingToken/Tests.antt =====
-- Pairing tokens with their own text for a hash.
use parasor.Base.Map.{lookup, insert}
use parasor.Base.{◌≡◌, ◌≢◌, refl, List, [], ◌∷◌, some, none, String}
use parasor.PairingToken.SingleUse.{Event, issues, consumes, occur_all, consume_once}
use parasor.PairingToken.{PairingTokenStore, new_store, issue, consume, accepted, expired, cleanup}

abbrev hash : String → String
hash token = token

abbrev store : PairingTokenStore
store = (issue hash "a" none 0 0 (new_store (some 100))).0

accepted_in_time : (consume hash (some "a") 99 store).1 ≡ accepted 100
unfolding issue consume cleanup lookup insert
accepted_in_time = refl

expired_later : (consume hash (some "a") 100 store).1 ≡ expired
unfolding issue consume cleanup lookup insert
expired_later = refl

abbrev before : List Event
before = issues "a" none 0 0 ∷ []

abbrev after : List Event
after = issues "b" (some 7) 20 20 ∷ consumes (some "b") 21 ∷ []

consume_once_example :
    (consume hash (some "a") 30 (
      occur_all hash after
        (consume hash (some "a") 10 (occur_all hash before (new_store (some 100)))).0)).1
    ≢ accepted 100
unfolding occur_all issue consume cleanup lookup insert
consume_once_example = consume_once hash (some 100) before after "a" 10 30 100 100 (refl, tt) refl
