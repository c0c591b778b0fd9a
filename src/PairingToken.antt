-- ===== src/PairingToken.antt =====
-- packages/server/src/auth/pairing-token.ts: the store of pairing tokens. The random token, the time
-- and the hash of a token are arguments.
mod Entries
pub mod SingleUse
pub mod Expiry
mod Tests
use parasor.Base.Classes.{string_eq, ◌==◌}
use parasor.Base.Map.{lookup, insert, erase}
use parasor.Base.{
  ℕ, ◌+◌, ◌*◌, Bool, true, false, Option, none, some, List, [], ◌∷◌, String, leb, if◌then◌else◌,
}

-- `DEFAULT_PAIRING_TOKEN_TTL_MS`
abbrev pub default_pairing_token_ttl_ms : ℕ
default_pairing_token_ttl_ms = 5 * 60 * 1000

-- `PairingConsumeResult`, with the reasons of a refusal.
pub data ConsumeResult : Type 0 where
  accepted : ℕ → ConsumeResult
  missing expired used_before : ConsumeResult

pub record PairingEntry : Type 0 where
  pub expires_at : ℕ
  pub used : Bool

pub record PairingTokenStore : Type 0 where
  pub default_ttl_ms : ℕ
  pub entries : List (String × PairingEntry)

pub record Issued : Type 0 where
  pub token : String
  pub expires_at : ℕ

unfoldable pub cleanup : ℕ → List (String × PairingEntry) → List (String × PairingEntry)
cleanup now [] = []
cleanup now ((key, entry) ∷ rest) =
    let kept = cleanup now rest in if leb entry.expires_at now then kept else (key, entry) ∷ kept

abbrev pub cleanup_expired : ℕ → PairingTokenStore → PairingTokenStore
cleanup_expired now s = record s { entries = cleanup now s.entries }

abbrev pub ttl_or : Option ℕ → ℕ → ℕ
ttl_or none default = default
ttl_or (some ttl_ms) default = ttl_ms

module _ (hash_token : String → String) where
  -- `swept` is the time that `cleanupExpired` reads, `now` the one that the expiry counts from.
  unfoldable pub issue : String → Option ℕ → ℕ → ℕ → PairingTokenStore → PairingTokenStore × Issued
  issue token ttl_ms swept now s =
      let s' = cleanup_expired swept s in
      let expires_at = now + ttl_or ttl_ms s'.default_ttl_ms in
      let entry : PairingEntry = record { expires_at = expires_at; used = false } in
      (
        record s' { entries = insert (hash_token token) entry s'.entries },
        record { token = token; expires_at = expires_at },
      )

  -- `consume` behind the lookup.
  abbrev pub consume_entry :
      String → ℕ → PairingTokenStore → Option PairingEntry → PairingTokenStore × ConsumeResult
  consume_entry key now s none = (s, missing)
  consume_entry key now s (some entry) =
      if leb entry.expires_at now
      then (record s { entries = erase key s.entries }, expired)
      else if entry.used
      then (s, used_before)
      else (
        record s { entries = insert key (record entry { used = true }) s.entries },
        accepted entry.expires_at,
      )

  unfoldable pub consume : Option String → ℕ → PairingTokenStore → PairingTokenStore × ConsumeResult
  consume none now s = (s, missing)
  consume (some token) now s =
      let key = hash_token token in
      if token == "" then (s, missing) else consume_entry key now s (lookup key s.entries)

abbrev pub new_store : Option ℕ → PairingTokenStore
new_store ttl_ms = record {
  default_ttl_ms = ttl_or ttl_ms default_pairing_token_ttl_ms;
  entries = [];
}
