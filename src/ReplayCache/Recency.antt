-- ===== src/ReplayCache/Recency.antt =====
-- The order in which entries are evicted.
use parasor.Base.Classes.{string_eq}
use parasor.Base.Map.{lookup, erase}
use parasor.Base.{
  ℕ, zero, suc, ◌≡◌, ◌≤◌, ◌<◌, refl, ap, subst, ◌∙◌, inl, inr, true, none, some, List, [], ◌∷◌,
  ◌++◌, String, arith, length, drop, leb, drop_append, Bool-cases,
}
use parasor.ReplayCache.{
  Entry, ReplayCache, max_entry_chars, clear_session, is_kept, evict_while, add_entry, set,
}
use parasor.ReplayCache.Entries.{size, lookup-erase_self, insert_new}
use parasor.ReplayCache.Budget.{
  IsCounted, Keeps, evict_while-Keeps, pushed-IsCounted, clear_session-entries,
}

size-drop_last :
    (k : ℕ) (id : String) (entry : Entry) (m : List (String × Entry))
    → length m ≤ k
    → size (drop k (m ++ (id, entry) ∷ [])) ≤ length entry.text
unfolding size
size-drop_last zero id entry [] l = omega arith
size-drop_last (suc zero) id entry [] l = omega arith
size-drop_last (suc (suc k)) id entry [] l = omega arith
size-drop_last zero id entry (e ∷ m) l = absurd (omega (arith, l))
size-drop_last (suc k) id entry (e ∷ m) l = size-drop_last k id entry m (omega (arith, l))

lookup-drop :
    (k : ℕ) (id : String) (m : List (String × Entry))
    → lookup id m ≡ none
    → lookup id (drop k m) ≡ none
unfolding lookup
lookup-drop zero id m h = h
lookup-drop (suc k) id [] h = refl
lookup-drop (suc k) id ((j, e) ∷ m) h = lookup-drop k id m (ground arith)

lookup-push :
    (id : String) (entry : Entry) (m : List (String × Entry))
    → lookup id m ≡ none
    → lookup id (m ++ (id, entry) ∷ []) ≡ some entry
unfolding lookup
lookup-push id entry [] h = ground (arith, string_eq.equals_iff id id)
lookup-push id entry ((j, e) ∷ m) h = ground (arith, lookup-push id entry m)

-- An entry of at most 4 · 1024 · 1024 code units is never evicted to make room for itself.
lookup-Keeps :
    (id : String) (entry : Entry) (m after : List (String × Entry))
    → lookup id m ≡ none
    → length entry.text ≤ max_entry_chars
    → Keeps (m ++ (id, entry) ∷ []) after
    → lookup id after ≡ some entry
lookup-Keeps id entry m after h l kept =
    let stays : kept.evicted ≤ length m = elim kept.needed [
      | inl none_evicted ↦ omega (arith, none_evicted)
      | inr (k, is, more) ↦ elim (Bool-cases (leb (length m) k)) [
        | inl below ↦ absurd (omega (arith, l, more, size-drop_last k id entry m (ground arith)))
        | inr above ↦ let lt : k < length m = ground arith in omega (arith, is, lt)
      ]
    ] in
    ap (lookup id) (kept.newest ∙ drop_append kept.evicted m ((id, entry) ∷ []) stays)
    ∙ lookup-push id entry (drop kept.evicted m) (lookup-drop kept.evicted id m h)

-- An accepted screen is what the session gets from then on. It stands behind all others, and those that are left are
-- the ones used or set last: of the others and the new one, in this order, as many of the last as fit.
pub set-Keeps :
    (id : String) (entry : Entry) (c : ReplayCache)
    → IsCounted c
    → is_kept entry ≡ true
    → Keeps (erase id c.entries ++ (id, entry) ∷ []) (set id entry c).entries
      × (lookup id (set id entry c).entries ≡ some entry)
unfolding set
set-Keeps id entry c k fine =
    let cleared = clear_session id c in
    let added = add_entry id entry cleared in
    let (kept, counts) =
      evict_while-Keeps (length added.entries) added.entries added.total_chars
        (pushed-IsCounted id entry c k) (omega arith) in
    let left = clear_session-entries id c in
    let gone : lookup id cleared.entries ≡ none =
      ap (lookup id) left ∙ lookup-erase_self id c.entries in
    let push = insert_new id entry cleared.entries gone ∙ ap (λ m. m ++ (id, entry) ∷ []) left in
    let kept' : Keeps (erase id c.entries ++ (id, entry) ∷ [])
        (evict_while (length added.entries) added).entries =
      subst (λ m. Keeps m (evict_while (length added.entries) added).entries) push kept in
    let small : length entry.text ≤ max_entry_chars = ground arith in
    rw (set, fine)
      (
        kept',
        lookup-Keeps id entry (erase id c.entries)
            (evict_while (length added.entries) added).entries (lookup-erase_self id c.entries)
            small kept',
      )
