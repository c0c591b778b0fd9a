-- ===== src/PairingToken/SingleUse.antt =====
-- A pairing token is accepted once, and only before it expires.
use parasor.Base.Classes.{string_eq, ◌==◌}
use parasor.Base.Map.{lookup}
use parasor.Base.{
  ℕ, ◌+◌, ◌≡◌, refl, true, false, Option, none, some, List, [], ◌∷◌, String, arith, ◌≢◌,
}
use parasor.PairingToken.Entries.{
  distinct, spent, spent-cleanup, spent-erase, spent-insert, used-spent, lookup-spent,
  distinct-cleanup, distinct-erase, distinct-insert,
}
use parasor.PairingToken.{
  accepted, PairingEntry, PairingTokenStore, cleanup, new_store, ttl_or, issue, consume_entry,
  consume,
}

pub data Event : Type 0 where
  issues : String → Option ℕ → ℕ → ℕ → Event
  consumes : Option String → ℕ → Event

none_twice : distinct [] ≡ true
unfolding distinct
none_twice = refl

module _ (hash_token : String → String) where
  abbrev pub occur : Event → PairingTokenStore → PairingTokenStore
  occur (issues token ttl_ms swept now) s = (issue hash_token token ttl_ms swept now s).0
  occur (consumes token now) s = (consume hash_token token now s).0

  unfoldable pub occur_all : List Event → PairingTokenStore → PairingTokenStore
  occur_all [] s = s
  occur_all (e ∷ es) s = occur_all es (occur e s)

  -- No event issues a token with the hash `key`.
  abbrev pub NotIssued : String → List Event → Type 0
  NotIssued key [] = Unit
  NotIssued key (issues token ttl_ms swept now ∷ es) =
      (hash_token token == key ≡ false) × NotIssued key es
  NotIssued key (consumes token now ∷ es) = NotIssued key es

  consume_entry-distinct :
      (key : String) (now : ℕ) (s : PairingTokenStore) (o : Option PairingEntry)
      → distinct s.entries ≡ true
      → distinct (consume_entry hash_token key now s o).0.entries ≡ true
  consume_entry-distinct key now s none d = d
  consume_entry-distinct key now s (some entry) d = ground (
    arith,
    distinct-erase key s.entries d,
    distinct-insert key (record entry { used = true }) s.entries d,
  )

  occur-distinct :
      (e : Event) (s : PairingTokenStore)
      → distinct s.entries ≡ true
      → distinct (occur e s).entries ≡ true
  unfolding issue consume
  occur-distinct (issues token ttl_ms swept now) s d =
      distinct-insert (hash_token token)
        (record { expires_at = now + ttl_or ttl_ms s.default_ttl_ms; used = false })
        (cleanup swept s.entries) (distinct-cleanup swept s.entries d)
  occur-distinct (consumes none now) s d = d
  occur-distinct (consumes (some token) now) s d = ground (
    arith,
    consume_entry-distinct (hash_token token) now s (lookup (hash_token token) s.entries) d,
  )

  occur_all-distinct :
      (es : List Event) (s : PairingTokenStore)
      → distinct s.entries ≡ true
      → distinct (occur_all es s).entries ≡ true
  unfolding occur_all
  occur_all-distinct [] s d = d
  occur_all-distinct (e ∷ es) s d = occur_all-distinct es (occur e s) (occur-distinct e s d)

  consume_entry-spent :
      (key k : String) (now : ℕ) (s : PairingTokenStore) (o : Option PairingEntry)
      → spent key s.entries ≡ true
      → spent key (consume_entry hash_token k now s o).0.entries ≡ true
  consume_entry-spent key k now s none d = d
  consume_entry-spent key k now s (some entry) d = ground (
    arith,
    spent-erase key k s.entries d,
    spent-insert key k (record entry { used = true }) s.entries,
  )

  occur-spent :
      (key : String) (e : Event) (es : List Event) (s : PairingTokenStore)
      → NotIssued key (e ∷ es)
      → spent key s.entries ≡ true
      → spent key (occur e s).entries ≡ true
  unfolding issue consume
  occur-spent key (issues token ttl_ms swept now) es s (other, n) d =
      spent-insert key (hash_token token)
        (record { expires_at = now + ttl_or ttl_ms s.default_ttl_ms; used = false })
        (cleanup swept s.entries) (ground (arith, other)) (spent-cleanup key swept s.entries d)
  occur-spent key (consumes none now) es s n d = d
  occur-spent key (consumes (some token) now) es s n d = ground (
    arith,
    consume_entry-spent key (hash_token token) now s (lookup (hash_token token) s.entries) d,
  )

  later : (key : String) (e : Event) (es : List Event) → NotIssued key (e ∷ es) → NotIssued key es
  later key (issues token ttl_ms swept now) es (other, n) = n
  later key (consumes token now) es n = n

  occur_all-spent :
      (key : String) (es : List Event) (s : PairingTokenStore)
      → NotIssued key es
      → spent key s.entries ≡ true
      → spent key (occur_all es s).entries ≡ true
  unfolding occur_all
  occur_all-spent key [] s n d = d
  occur_all-spent key (e ∷ es) s n d =
      occur_all-spent key es (occur e s) (later key e es n) (occur-spent key e es s n d)

  accepted-spent :
      (key : String) (now x : ℕ) (s : PairingTokenStore) (o : Option PairingEntry)
      → distinct s.entries ≡ true
      → (consume_entry hash_token key now s o).1 ≡ accepted x
      → spent key (consume_entry hash_token key now s o).0.entries ≡ true
  accepted-spent key now x s none d h = cc
  accepted-spent key now x s (some entry) d h =
      ground (arith, used-spent key (record entry { used = true }) s.entries d refl)

  spent-refused :
      (key : String) (now x : ℕ) (s : PairingTokenStore) (o : Option PairingEntry)
      → lookup key s.entries ≡ o
      → spent key s.entries ≡ true
      → (consume_entry hash_token key now s o).1 ≢ accepted x
  spent-refused key now x s none e d h = cc
  spent-refused key now x s (some entry) e d h =
      ground (arith, lookup-spent key s.entries entry d e)

  consume-spent :
      (token : String) (now x : ℕ) (s : PairingTokenStore)
      → distinct s.entries ≡ true
      → (consume hash_token (some token) now s).1 ≡ accepted x
      → spent (hash_token token) (consume hash_token (some token) now s).0.entries ≡ true
  unfolding consume
  consume-spent token now x s d h =
      let key = hash_token token in
      ground (arith, accepted-spent key now x s (lookup key s.entries) d)

  consume-refused :
      (token : String) (now y : ℕ) (s : PairingTokenStore)
      → spent (hash_token token) s.entries ≡ true
      → (consume hash_token (some token) now s).1 ≢ accepted y
  unfolding consume
  consume-refused token now y s d h =
      let key = hash_token token in
      ground (arith, spent-refused key now y s (lookup key s.entries) refl d, h)

  -- A token that was accepted is not accepted again, whatever was issued and consumed before and since
  -- and at whatever times, unless a token with the same hash has been issued since.
  pub consume_once :
      (ttl_ms : Option ℕ) (before after : List Event) (token : String) (now now' x y : ℕ)
      → NotIssued (hash_token token) after
      → (consume hash_token (some token) now (occur_all before (new_store ttl_ms))).1 ≡ accepted x
      → (consume hash_token (some token) now' (
          occur_all after
            (consume hash_token (some token) now (occur_all before (new_store ttl_ms))).0)).1
        ≢ accepted y
  consume_once ttl_ms before after token now now' x y n h =
      let s = occur_all before (new_store ttl_ms) in
      let s' = (consume hash_token (some token) now s).0 in
      consume-refused token now' y (occur_all after s') (
        occur_all-spent (hash_token token) after s' n
          (consume-spent token now x s (occur_all-distinct before (new_store ttl_ms) none_twice) h))
