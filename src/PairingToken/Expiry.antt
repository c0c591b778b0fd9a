-- ===== src/PairingToken/Expiry.antt =====
-- A pairing token is accepted until it expires.
use parasor.Base.Classes.{string_eq, ◌==◌, equals_self}
use parasor.Base.Map.{lookup, insert, erase, lookup-insert, lookup-erase}
use parasor.Base.{
  ℕ, ◌+◌, ◌≡◌, ◌<◌, refl, ◌∙◌, true, false, Option, none, some, List, [], ◌∷◌, String, leb,
  if◌then◌else◌, arith,
}
use parasor.PairingToken.SingleUse.{Event, issues, consumes, occur, occur_all}
use parasor.PairingToken.{
  accepted, expired, PairingEntry, PairingTokenStore, cleanup, ttl_or, issue, consume_entry,
  consume,
}

lookup-cleanup :
    (now : ℕ) (key : String) (m : List (String × PairingEntry)) (e : PairingEntry)
    → now < e.expires_at
    → lookup key m ≡ some e
    → lookup key (cleanup now m) ≡ some e
unfolding lookup cleanup
lookup-cleanup now key [] e l h = cc
lookup-cleanup now key ((j, entry) ∷ m) e l h = grind (arith, lookup-cleanup now key m e l)

lookup-insert_other :
    (k key : String) (v : PairingEntry) (m : List (String × PairingEntry))
    → k == key ≡ false
    → lookup key (insert k v m) ≡ lookup key m
lookup-insert_other k key v m n = rw (lookup-insert k key v m, n)

lookup-erase_other :
    (k key : String) (m : List (String × PairingEntry))
    → k == key ≡ false
    → lookup key (erase k m) ≡ lookup key m
lookup-erase_other k key m n = rw (lookup-erase k key m, n)

module _ (hash_token : String → String) where
  -- The events are about tokens with other hashes, and the sweeps come before the time `end`.
  abbrev pub Apart : String → ℕ → List Event → Type 0
  Apart key end [] = Unit
  Apart key end (issues token ttl_ms swept now ∷ es) =
      (hash_token token == key ≡ false) × ((swept < end) × Apart key end es)
  Apart key end (consumes none now ∷ es) = Apart key end es
  Apart key end (consumes (some token) now ∷ es) =
      (hash_token token == key ≡ false) × Apart key end es

  lookup-consume_entry :
      (k key : String) (now : ℕ) (s : PairingTokenStore) (o : Option PairingEntry)
      → k == key ≡ false
      → lookup key (consume_entry hash_token k now s o).0.entries ≡ lookup key s.entries
  lookup-consume_entry k key now s none n = refl
  lookup-consume_entry k key now s (some entry) n = ground (
    arith,
    lookup-erase_other k key s.entries n,
    lookup-insert_other k key (record entry { used = true }) s.entries n,
  )

  lookup-occur_all :
      (key : String) (e : PairingEntry) (es : List Event) (s : PairingTokenStore)
      → Apart key e.expires_at es
      → lookup key s.entries ≡ some e
      → lookup key (occur_all hash_token es s).entries ≡ some e
  unfolding occur_all issue consume
  lookup-occur_all key e [] s a h = h
  lookup-occur_all key e (issues token ttl_ms swept now ∷ es) s (n, (l, a)) h =
      lookup-occur_all key e es (occur hash_token (issues token ttl_ms swept now) s) a (
        lookup-insert_other (hash_token token) key
          (record { expires_at = now + ttl_or ttl_ms s.default_ttl_ms; used = false })
          (cleanup swept s.entries) n
        ∙ lookup-cleanup swept key s.entries e l h)
  lookup-occur_all key e (consumes none now ∷ es) s a h = lookup-occur_all key e es s a h
  lookup-occur_all key e (consumes (some token) now ∷ es) s (n, a) h =
      lookup-occur_all key e es (occur hash_token (consumes (some token) now) s) a (
        ground (
          arith,
          lookup-consume_entry (hash_token token) key now s (lookup (hash_token token) s.entries) n,
          h,
        ))

  consume-found :
      (token : String) (now : ℕ) (s : PairingTokenStore) (e : PairingEntry)
      → token == "" ≡ false
      → e.used ≡ false
      → lookup (hash_token token) s.entries ≡ some e
      → (consume hash_token (some token) now s).1
        ≡ (if leb e.expires_at now then expired else accepted e.expires_at)
  unfolding consume
  consume-found token now s e n u h = rw (n, h) (ground (arith, u))

  -- A token that is not empty, issued into any store, is accepted with its expiry when it is consumed before that,
  -- and reported as expired from then on; also after other tokens have been issued and consumed, if
  -- their hashes are different and no sweep came at or after the expiry.
  consume-issue :
      (token : String) (ttl_ms : Option ℕ) (swept now now' : ℕ) (s : PairingTokenStore)
      (es : List Event)
      → token == "" ≡ false
      → Apart (hash_token token) (now + ttl_or ttl_ms s.default_ttl_ms) es
      → (consume hash_token
          (some token)
          now'
          (occur_all hash_token es (issue hash_token token ttl_ms swept now s).0)).1
        ≡ (if leb (now + ttl_or ttl_ms s.default_ttl_ms) now'
            then expired
            else accepted (now + ttl_or ttl_ms s.default_ttl_ms))
  unfolding issue
  consume-issue token ttl_ms swept now now' s es n a =
      let key = hash_token token in
      let e : PairingEntry = record {
        expires_at = now + ttl_or ttl_ms s.default_ttl_ms;
        used = false;
      } in
      let s' = (issue hash_token token ttl_ms swept now s).0 in
      consume-found token now' (occur_all hash_token es s') e n refl (
        lookup-occur_all key e es s' a
          (lookup-insert key key e (cleanup swept s.entries) ∙ rw (equals_self key) refl))
