-- ===== src/Scrollback/Replay.antt =====
-- `readSince` gives a client that reconnects exactly the chunks that it has missed.
use parasor.Base.Bytes.{Bytes}
use parasor.Base.Classes.{string_eq}
use parasor.Base.Map.{lookup}
use parasor.Base.{
  ℕ, zero, suc, ◌+◌, ◌-◌, ◌≤◌, ◌<◌, ◌≡◌, refl, ap, ◌∙◌, inl, inr, List, [], ◌∷◌, String, Option,
  none, some, arith, true, false, ltb, leb, if◌then◌else◌, length, drop, length-drop, drop_add,
  Bool-cases, ◌==◌,
}
use parasor.Scrollback.{
  ChunkRing, ChunkLog, Cursor, ReadSinceResult, delta, full, nothing, find_after, read_ring,
  read_since,
}
use parasor.Scrollback.Evict.{number, bytes_of}
use parasor.Scrollback.Represents.{Implements, History, Histories, Represents}

-- What a client that has seen the chunks up to `seq` of a generation may be told, when its PTY has
-- sent `sent` in that generation: nothing, if it has seen all; a full replay, only if what it has missed
-- is over the budget; else all that it has missed, in order, under its sequence numbers.
abbrev pub Replays : ℕ → List Bytes → ℕ → ReadSinceResult → Type 0
Replays budget sent seq nothing = length sent ≤ seq + 1
Replays budget sent seq full = (seq + 1 < length sent) × (budget < bytes_of (drop (seq + 1) sent))
Replays budget sent seq (delta cs) =
    (seq + 1 < length sent) × (cs ≡ number (seq + 1) (drop (seq + 1) sent))

drop-number : (k n : ℕ) (xs : List Bytes) → drop k (number n xs) ≡ number (n + k) (drop k xs)
drop-number zero n xs = let e : n + 0 ≡ n = omega arith in rw e
drop-number (suc k) n [] = refl
drop-number (suc k) n (x ∷ xs) =
    let e : n + suc k ≡ suc n + k = omega arith in rw e (drop-number k (suc n) xs)

find_after-number :
    (seq n : ℕ) (xs : List Bytes)
    → seq + 1 < n + length xs
    → n ≤ seq + 1
    → find_after seq (number n xs) ≡ some (seq + 1 - n)
unfolding find_after
find_after-number seq n [] h k = absurd (omega arith)
find_after-number seq n (x ∷ xs) h k = ground (arith, find_after-number seq (suc n) xs)

bytes_of-drop-le : (k : ℕ) (xs : List Bytes) → bytes_of (drop k xs) ≤ bytes_of xs
bytes_of-drop-le zero xs = omega arith
bytes_of-drop-le (suc k) [] = omega arith
bytes_of-drop-le (suc k) (x ∷ xs) = omega (arith, bytes_of-drop-le k xs)

-- A tail of the history that has a chunk is a cons.
read_ring-Replays :
    (budget start seq : ℕ) (sent xs : List Bytes)
    → ((k : ℕ) → start ≡ suc k → budget < bytes_of (drop k sent))
    → drop start sent ≡ xs
    → start ≤ length sent
    → (0 < length sent → start < length sent)
    → Replays budget sent seq (read_ring (number start xs) (length sent) seq)
unfolding read_ring
read_ring-Replays budget start seq sent [] m t l n =
    ground (arith, ap length t, length-drop start sent)
read_ring-Replays budget start seq sent (x ∷ xs) m t l n =
    elim (Bool-cases (leb (length sent) (seq + 1))) [
      | inl seen ↦ rw seen (ground arith)
      | inr missed ↦ rw missed (elim (Bool-cases (ltb (seq + 1) start)) [
        | inl evicted ↦ rw evicted (ground arith, lost (start - 1) (ground arith) refl)
        | inr kept ↦
            rw (kept, found (ground arith) (ground arith)) (ground arith, chunks (ground arith))
      ])
    ]
  where
    size : start + length (x ∷ xs) ≡ length sent
    size = omega (arith, ap length t, length-drop start sent)

    lost : (k : ℕ) → seq + 1 < start → start - 1 ≡ k → budget < bytes_of (drop (seq + 1) sent)
    lost k h z =
        let e : k ≡ seq + 1 + (k - (seq + 1)) = omega arith in
        omega (
          arith,
          m k (omega arith),
          ap (λ x. bytes_of (drop x sent)) e,
          ap bytes_of (drop_add (seq + 1) (k - (seq + 1)) sent),
          bytes_of-drop-le (k - (seq + 1)) (drop (seq + 1) sent),
        )

    found :
        seq + 1 < length sent
        → start ≤ seq + 1
        → find_after seq (number start (x ∷ xs)) ≡ some (seq + 1 - start)
    found h k = find_after-number seq start (x ∷ xs) (omega (arith, size)) k

    chunks :
        start ≤ seq + 1
        → drop (seq + 1 - start) (number start (x ∷ xs)) ≡ number (seq + 1) (drop (seq + 1) sent)
    chunks k =
        let e : start + (seq + 1 - start) ≡ seq + 1 = omega (arith, k) in
        drop-number (seq + 1 - start) start (x ∷ xs)
        ∙ rw (← t, ← drop_add start (seq + 1 - start) sent, e)

-- What `readSince` may say to a client, by the session's history and the client's cursor.
abbrev pub Serves : ℕ → Option History → Option Cursor → ReadSinceResult → Type 0
Serves budget none none r = r ≡ nothing
Serves budget none (some cursor) r = r ≡ full
Serves budget (some h) none r = r ≡ nothing
Serves budget (some h) (some cursor) r =
    if cursor.generation == h.generation then Replays budget h.sent cursor.seq r else r ≡ full

serve :
    (log : ChunkLog) (id : String) (ring : Option ChunkRing) (h : Option History)
    (cursor : Option Cursor)
    → lookup id log.rings ≡ ring
    → Implements log.in_memory_budget ring h
    → Serves log.in_memory_budget h cursor (read_since log id cursor)
unfolding read_since
serve log id none none none e v = rw (e, read_since)
serve log id none none (some cursor) e v = rw (e, read_since)
serve log id none (some h) cursor e v = absurd v
serve log id (some r) none cursor e v = absurd v
serve log id (some r) (some h) none e v = rw (e, read_since)
serve log id (some r) (some h) (some cursor) e (g, v) =
    rw (e, read_since)
      (elim (Bool-cases (cursor.generation == h.generation)) [
        | inl k ↦
            let k' : (cursor.generation == r.generation) ≡ true =
              ap (λ x. cursor.generation == x) g ∙ k in
            rw (k, k', v.numbered, v.counted)
              (read_ring-Replays log.in_memory_budget v.start cursor.seq h.sent
                (drop v.start h.sent) v.needed refl v.start_le v.holds_newest)
        | inr k ↦
            let k' : (cursor.generation == r.generation) ≡ false =
              ap (λ x. cursor.generation == x) g ∙ k in
            rw (k, k')
      ])

-- A client that reconnects is served right: with no cursor it gets nothing to replay; with a cursor of
-- another generation, or for a session with no history, the whole tail of the log; else exactly the
-- chunks behind its cursor, or the tail, the latter only if those chunks are over the memory budget.
pub read_since-Serves :
    (log : ChunkLog) (hs : Histories) (id : String) (cursor : Option Cursor)
    → Represents log hs
    → Serves log.in_memory_budget (hs id) cursor (read_since log id cursor)
read_since-Serves log hs id cursor v =
    serve log id (lookup id log.rings) (hs id) cursor refl (v.each id)
