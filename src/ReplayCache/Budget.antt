-- ===== src/ReplayCache/Budget.antt =====
-- The budget of the cache: what its counter counts, and the loop of evictions.
use parasor.Base.Classes.{string_eq}
use parasor.Base.Map.{lookup, erase}
use parasor.Base.{
  ℕ, zero, suc, ◌-◌, ◌≡◌, ◌≤◌, ◌<◌, ◌⊎◌, refl, sym, ap, ◌∙◌, inl, inr, false, none, List, [], ◌∷◌,
  String, arith, length, drop, ltb, Bool-cases, Option-cases,
}
use parasor.ReplayCache.{
  Entry, ReplayCache, max_total_chars, evict_oldest, get, clear_session, is_kept, evict_while,
  add_entry, set, Call, gets, sets, clears, clears_all, run_call, run,
}
use parasor.ReplayCache.Entries.{
  size, Distinct, lookup-erase_self, insert_new, Distinct-erase, Distinct-push, erase_absent,
  size-erase, size-push,
}

-- Each session has one entry, and the counter is their size.
pub record IsCounted (c : ReplayCache) : Type 0 where
  pub distinct : Distinct c.entries
  pub counted : c.total_chars ≡ size c.entries

pub record IsValid (c : ReplayCache) : Type 0 where
  pub counts : IsCounted c
  pub within : c.total_chars ≤ max_total_chars

-- The entries after are the newest of those before that fit, as many as fit.
pub record Keeps (before after : List (String × Entry)) : Type 0 where
  pub evicted : ℕ
  pub newest : after ≡ drop evicted before
  pub fits : size after ≤ max_total_chars
  pub needed :
      (evicted ≡ 0) ⊎ ((k : ℕ) × (evicted ≡ suc k) × (max_total_chars < size (drop k before)))

abbrev cache : List (String × Entry) → ℕ → ReplayCache
cache entries n = record { entries = entries; total_chars = n }

evict_oldest-IsCounted :
    (m : List (String × Entry)) (n : ℕ)
    → IsCounted (cache m n)
    → IsCounted (evict_oldest (cache m n))
unfolding evict_oldest Distinct size
evict_oldest-IsCounted [] n k = k
evict_oldest-IsCounted ((key, entry) ∷ rest) n k = record {
  distinct = k.distinct.1;
  counted = omega (arith, k.counted);
}

one_more :
    (key : String) (entry : Entry) (rest after : List (String × Entry))
    → max_total_chars < size ((key, entry) ∷ rest)
    → Keeps rest after
    → Keeps ((key, entry) ∷ rest) after
one_more key entry rest after over kept = record {
  evicted = suc kept.evicted;
  newest = kept.newest;
  fits = kept.fits;
  needed = elim kept.needed [
    | inl none_below ↦ inr (0, ap suc none_below, over)
    | inr (k, below, more) ↦ inr (suc k, ap suc below, more)
  ];
}

pub evict_while-Keeps :
    (fuel : ℕ) (m : List (String × Entry)) (n : ℕ)
    → IsCounted (cache m n)
    → length m ≤ fuel
    → Keeps m (evict_while fuel (cache m n)).entries × IsCounted (evict_while fuel (cache m n))
unfolding evict_while evict_oldest size
evict_while-Keeps zero [] n k l =
    (record { evicted = 0; newest = refl; fits = omega arith; needed = inl refl }, k)
evict_while-Keeps zero (e ∷ rest) n k l = absurd (omega (arith, l))
evict_while-Keeps (suc fuel) [] n k l =
    let within : ltb max_total_chars n ≡ false = ground (arith, k.counted) in
    rw within (record { evicted = 0; newest = refl; fits = omega arith; needed = inl refl }, k)
evict_while-Keeps (suc fuel) ((key, entry) ∷ rest) n k l =
    elim (Bool-cases (ltb max_total_chars n)) [
      | inl over ↦
          let (kept, counts) =
            evict_while-Keeps fuel rest (n - length entry.text)
              (evict_oldest-IsCounted ((key, entry) ∷ rest) n k) (omega (arith, l)) in
          let more : max_total_chars < size ((key, entry) ∷ rest) = ground (arith, k.counted) in
          rw over (
            one_more key entry rest (evict_while fuel (cache rest (n - length entry.text))).entries
                more kept,
            counts,
          )
      | inr within ↦
          let few : size ((key, entry) ∷ rest) ≤ max_total_chars = ground (arith, k.counted) in
          rw within (record { evicted = 0; newest = refl; fits = few; needed = inl refl }, k)
    ]

clear_session-IsCounted :
    (id : String) (c : ReplayCache) → IsCounted c → IsCounted (clear_session id c)
unfolding clear_session
clear_session-IsCounted id c k = elim (Option-cases (lookup id c.entries)) [
  | inl absent ↦
      rw (clear_session, absent)
        (record {
          distinct = Distinct-erase id c.entries k.distinct;
          counted = k.counted ∙ sym (ap size (erase_absent id c.entries absent));
        })
  | inr (existing, there) ↦
      rw (clear_session, there)
        (record {
          distinct = Distinct-erase id c.entries k.distinct;
          counted = omega (arith, k.counted, size-erase id existing c.entries k.distinct there);
        })
]

-- What clearing leaves: every entry but the session's.
pub clear_session-entries :
    (id : String) (c : ReplayCache) → (clear_session id c).entries ≡ erase id c.entries
unfolding clear_session
clear_session-entries id c = elim (Option-cases (lookup id c.entries)) [
  | inl absent ↦ rw (clear_session, absent)
  | inr (existing, there) ↦ rw (clear_session, there)
]

pub pushed-IsCounted :
    (id : String) (entry : Entry) (c : ReplayCache)
    → IsCounted c
    → IsCounted (add_entry id entry (clear_session id c))
pushed-IsCounted id entry c k =
    let cleared = clear_session id c in
    let counts = clear_session-IsCounted id c k in
    let gone : lookup id cleared.entries ≡ none =
      ap (lookup id) (clear_session-entries id c) ∙ lookup-erase_self id c.entries in
    let push = insert_new id entry cleared.entries gone in
    record {
      distinct = rw push (Distinct-push id entry cleared.entries gone counts.distinct);
      counted = rw push (omega (arith, counts.counted, size-push id entry cleared.entries));
    }

get-IsCounted : (id : String) (c : ReplayCache) → IsCounted c → IsCounted (get id c).0
unfolding get
get-IsCounted id c k = elim (Option-cases (lookup id c.entries)) [
  | inl absent ↦ rw (get, absent) k
  | inr (entry, there) ↦
      let gone = lookup-erase_self id c.entries in
      let push = insert_new id entry (erase id c.entries) gone in
      rw (get, there)
        (record {
          distinct = rw push (
              Distinct-push id entry (erase id c.entries) gone
                (Distinct-erase id c.entries k.distinct));
          counted = rw push (
              omega (
                arith,
                k.counted,
                size-push id entry (erase id c.entries),
                size-erase id entry c.entries k.distinct there,
              ));
        })
]

total-get : (id : String) (c : ReplayCache) → (get id c).0.total_chars ≡ c.total_chars
unfolding get
total-get id c = elim (Option-cases (lookup id c.entries)) [
  | inl absent ↦ rw (get, absent)
  | inr (entry, there) ↦ rw (get, there)
]

total-clear_session :
    (id : String) (c : ReplayCache) → (clear_session id c).total_chars ≤ c.total_chars
unfolding clear_session
total-clear_session id c = elim (Option-cases (lookup id c.entries)) [
  | inl absent ↦ rw (clear_session, absent) (omega arith)
  | inr (existing, there) ↦ rw (clear_session, there) (omega arith)
]

set-IsValid : (id : String) (entry : Entry) (c : ReplayCache) → IsValid c → IsValid (set id entry c)
unfolding set
set-IsValid id entry c v = elim (Bool-cases (is_kept entry)) [
  | inl fine ↦
      let added = add_entry id entry (clear_session id c) in
      let (kept, counts) =
        evict_while-Keeps (length added.entries) added.entries added.total_chars
          (pushed-IsCounted id entry c v.counts) (omega arith) in
      rw (set, fine) (record { counts = counts; within = omega (arith, counts.counted, kept.fits) })
  | inr refused ↦
      rw (set, refused)
        (record {
          counts = clear_session-IsCounted id c v.counts;
          within = omega (arith, v.within, total-clear_session id c);
        })
]

run_call-IsValid : (call : Call) (c : ReplayCache) → IsValid c → IsValid (run_call call c)
unfolding run_call Distinct size
run_call-IsValid (gets id) c v = record {
  counts = get-IsCounted id c v.counts;
  within = omega (arith, v.within, total-get id c);
}
run_call-IsValid (sets id entry) c v = set-IsValid id entry c v
run_call-IsValid (clears id) c v = record {
  counts = clear_session-IsCounted id c v.counts;
  within = omega (arith, v.within, total-clear_session id c);
}
run_call-IsValid clears_all c v = record {
  counts = record { distinct = tt; counted = refl };
  within = omega arith;
}

-- Whatever calls come, each session has at most one entry, the counter is the number of code units that the entries
-- hold, and that is at most 12 · 1024 · 1024: the loop of evictions always ends within the budget.
pub run-IsValid : (calls : List Call) (c : ReplayCache) → IsValid c → IsValid (run calls c)
unfolding run
run-IsValid [] c v = v
run-IsValid (call ∷ calls) c v = run-IsValid calls (run_call call c) (run_call-IsValid call c v)
