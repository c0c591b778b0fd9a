-- ===== src/Scrollback/Evict.antt =====
-- A ring as a window on the history of its generation, and what eviction leaves of it.
use parasor.Base.Bytes.{Bytes}
use parasor.Base.{
  ℕ, zero, suc, ◌+◌, ◌-◌, ◌≤◌, ◌<◌, ◌≡◌, ap, ◌∙◌, ◌⊎◌, inl, inr, List, [], ◌∷◌, ◌++◌, arith, ltb,
  length, drop, Bool-cases,
}
use parasor.Scrollback.{ChunkRecord, ChunkRing, evict}

-- Chunks numbered from `n` on.
abbrev pub number : ℕ → List Bytes → List ChunkRecord
number n [] = []
number n (d ∷ ds) = record { seq = n; content = d } ∷ number (suc n) ds

abbrev pub bytes_of : List Bytes → ℕ
bytes_of [] = 0
bytes_of (d ∷ ds) = length d + bytes_of ds

pub number-append :
    (n : ℕ) (xs ys : List Bytes) → number n (xs ++ ys) ≡ number n xs ++ number (n + length xs) ys
number-append n [] ys = let e : n + 0 ≡ n = omega arith in rw e
number-append n (x ∷ xs) ys =
    let e : n + suc (length xs) ≡ suc n + length xs = omega arith in
    rw e (ap (◌∷◌ (record { seq = n; content = x })) (number-append (suc n) xs ys))

pub bytes_of-append : (xs ys : List Bytes) → bytes_of (xs ++ ys) ≡ bytes_of xs + bytes_of ys
bytes_of-append [] ys = omega arith
bytes_of-append (x ∷ xs) ys = omega (arith, bytes_of-append xs ys)

-- A ring after eviction holds the chunks `xs`, numbered from `s`, less some of the oldest: never the
-- newest, and each only where the bytes from it on are over the budget.
pub record Evicted (budget s : ℕ) (xs : List Bytes) (r r' : ChunkRing) : Type 0 where
  pub dropped : ℕ
  pub keeps_newest : dropped < length xs
  pub numbered : r'.chunks ≡ number (s + dropped) (drop dropped xs)
  pub summed : r'.total_bytes ≡ bytes_of (drop dropped xs)
  pub bounded : (r'.total_bytes ≤ budget) ⊎ (length xs ≤ dropped + 1)
  pub needed : (k : ℕ) → dropped ≡ suc k → budget < bytes_of (drop k xs)
  pub same_generation : r'.generation ≡ r.generation
  pub same_next : r'.next_seq ≡ r.next_seq

keep_all :
    (budget s : ℕ) (xs : List Bytes) (r r' : ChunkRing)
    → 0 < length xs
    → r' ≡ record r { chunks = number s xs; total_bytes = bytes_of xs }
    → (bytes_of xs ≤ budget) ⊎ (length xs ≤ 1)
    → Evicted budget s xs r r'
keep_all budget s xs r r' h e b = record {
  dropped = 0;
  keeps_newest = h;
  numbered = ap (λ x. x.chunks) e ∙ (let k : s + 0 ≡ s = omega arith in rw k);
  summed = ap (λ x. x.total_bytes) e;
  bounded = ground arith;
  needed = λ k z. absurd (omega arith);
  same_generation = ap (λ x. x.generation) e;
  same_next = ap (λ x. x.next_seq) e;
}

drop_one :
    {budget s : ℕ} {x : Bytes} {xs : List Bytes} {r r' : ChunkRing}
    → budget < bytes_of (x ∷ xs)
    → Evicted budget (suc s) xs r r'
    → Evicted budget s (x ∷ xs) r r'
drop_one {budget} {s} {x} {xs} {r'} over v = record {
  dropped = suc v.dropped;
  keeps_newest = omega (arith, v.keeps_newest);
  numbered = v.numbered ∙ (let k : suc s + v.dropped ≡ s + suc v.dropped = omega arith in rw k);
  summed = v.summed;
  bounded = ground (arith, v.bounded);
  needed = behind;
  same_generation = v.same_generation;
  same_next = v.same_next;
}
  where
    behind : (k : ℕ) → suc v.dropped ≡ suc k → budget < bytes_of (drop k (x ∷ xs))
    behind zero z = over
    behind (suc k) z = v.needed k (omega arith)

pub evict-Evicted :
    (budget s : ℕ) (xs : List Bytes) (r : ChunkRing) (total : ℕ)
    → 0 < length xs
    → total ≡ bytes_of xs
    → Evicted budget s xs r (evict budget r (number s xs) total)
unfolding evict
evict-Evicted budget s [] r total h e = absurd (omega arith)
evict-Evicted budget s (x ∷ []) r total h e =
    keep_all budget s (x ∷ []) r _ h (rw e) (inr (omega arith))
evict-Evicted budget s (x ∷ y ∷ xs) r total h e = elim (Bool-cases (ltb budget total)) [
  | inl over ↦ rw over (
      drop_one (ground arith)
        (evict-Evicted budget (suc s) (y ∷ xs) r (total - length x) (omega arith) (omega arith)))
  | inr within ↦ rw within (keep_all budget s (x ∷ y ∷ xs) r _ h (rw e) (inl (ground arith)))
]
