-- ===== src/Scrollback/Represents.antt =====
-- The rings implement one history of chunks for each session: all that its current generation of the
-- PTY has sent.
use parasor.Base.Bytes.{Bytes}
use parasor.Base.Classes.{string_eq, ◌==◌}
use parasor.Base.Map.{lookup, insert, lookup-insert, lookup-erase}
use parasor.Base.{
  ℕ, zero, suc, ◌+◌, ◌≤◌, ◌<◌, ◌≡◌, refl, sym, ap, ◌∙◌, ◌⊎◌, inl, inr, List, [], ◌∷◌, ◌++◌, String,
  Option, none, some, arith, true, false, not, if◌then◌else◌, length, drop, length-append,
  length-drop, drop_append, drop_add, Bool-cases, ==_iff, ◌==◌ as nat_beq,
}
use parasor.Scrollback.{
  ChunkRing, ChunkLog, empty_ring, append_to_ring, current_ring, append_chunk, bump_generation,
  remove_ring,
}
use parasor.Scrollback.Evict.{
  number, bytes_of, number-append, bytes_of-append, Evicted, evict-Evicted,
}

-- The ring holds a numbered tail of the history; the newest chunk is in it, and it is within its budget
-- or that one chunk alone; a chunk is missing only if the bytes from it on are over the budget.
pub record Holds (budget : ℕ) (sent : List Bytes) (r : ChunkRing) : Type 0 where
  pub start : ℕ
  pub start_le : start ≤ length sent
  pub holds_newest : 0 < length sent → start < length sent
  pub numbered : r.chunks ≡ number start (drop start sent)
  pub counted : r.next_seq ≡ length sent
  pub summed : r.total_bytes ≡ bytes_of (drop start sent)
  pub bounded : (r.total_bytes ≤ budget) ⊎ (length sent ≤ start + 1)
  pub needed : (k : ℕ) → start ≡ suc k → budget < bytes_of (drop k sent)

empty_ring-Holds : (budget generation : ℕ) → Holds budget [] (empty_ring generation)
empty_ring-Holds budget generation = record {
  start = 0;
  start_le = omega arith;
  holds_newest = λ h. h;
  numbered = refl;
  counted = refl;
  summed = refl;
  bounded = inr (omega arith);
  needed = λ k z. absurd (omega arith);
}

-- Eviction of the chunks from `start` on leaves a later tail of the same history.
Evicted-Holds :
    (budget start : ℕ) (sent : List Bytes) (r r' : ChunkRing)
    → r.next_seq ≡ length sent
    → ((k : ℕ) → start ≡ suc k → budget < bytes_of (drop k sent))
    → Evicted budget start (drop start sent) r r'
    → Holds budget sent r'
Evicted-Holds budget start sent r r' n m v = record {
  start = start + v.dropped;
  start_le = omega (arith, v.keeps_newest, length-drop start sent);
  holds_newest = λ h. omega (arith, v.keeps_newest, length-drop start sent);
  numbered = v.numbered ∙ ap (number (start + v.dropped)) (sym (drop_add start v.dropped sent));
  counted = v.same_next ∙ n;
  summed = v.summed ∙ ap bytes_of (sym (drop_add start v.dropped sent));
  bounded = ground (arith, v.bounded, length-drop start sent, v.keeps_newest);
  needed = λ k z. before k v.dropped refl z;
}
  where
    before : (k d : ℕ) → v.dropped ≡ d → start + d ≡ suc k → budget < bytes_of (drop k sent)
    before k zero e z = m k (omega arith)
    before k (suc d) e z =
        let k' : k ≡ start + d = omega arith in rw (k', drop_add start d sent) (v.needed d e)

append_to_ring-Holds :
    (budget : ℕ) (sent : List Bytes) (r : ChunkRing) (d : Bytes)
    → Holds budget sent r
    → Holds budget (sent ++ d ∷ []) (append_to_ring budget r d)
      × ((append_to_ring budget r d).generation ≡ r.generation)
unfolding append_to_ring
append_to_ring-Holds budget sent r d v = (
  Evicted-Holds budget v.start (sent ++ d ∷ []) r' (append_to_ring budget r d)
      (omega (arith, v.counted, length-append sent (d ∷ []))) more evicted,
  evicted.same_generation,
)
  where
    r' : ChunkRing
    r' = record r { next_seq = r.next_seq + 1 }

    tail : drop v.start (sent ++ d ∷ []) ≡ drop v.start sent ++ d ∷ []
    tail = drop_append v.start sent (d ∷ []) v.start_le

    chunks :
        r.chunks ++ record { seq = r.next_seq; content = d } ∷ []
        ≡ number v.start (drop v.start (sent ++ d ∷ []))
    chunks =
        let next : r.next_seq ≡ v.start + length (drop v.start sent) =
          omega (arith, v.counted, length-drop v.start sent, v.start_le) in
        rw (tail, number-append v.start (drop v.start sent) (d ∷ []), v.numbered, next)

    total : r.total_bytes + length d ≡ bytes_of (drop v.start (sent ++ d ∷ []))
    total = omega (arith, v.summed, ap bytes_of tail, bytes_of-append (drop v.start sent) (d ∷ []))

    more : (k : ℕ) → v.start ≡ suc k → budget < bytes_of (drop k (sent ++ d ∷ []))
    more k z = omega (
      arith,
      v.needed k z,
      ap bytes_of (drop_append k sent (d ∷ []) (omega (arith, z, v.start_le))),
      bytes_of-append (drop k sent) (d ∷ []),
    )

    some_left : 0 < length (drop v.start (sent ++ d ∷ []))
    some_left = omega (arith, ap length tail, length-append (drop v.start sent) (d ∷ []))

    evicted : Evicted budget v.start (drop v.start (sent ++ d ∷ [])) r' (append_to_ring budget r d)
    evicted = rw chunks (
        evict-Evicted budget v.start (drop v.start (sent ++ d ∷ [])) r' (r.total_bytes + length d)
          some_left total)

-- What a session's PTY has sent in its current generation.
pub record History : Type 0 where
  pub generation : ℕ
  pub sent : List Bytes

-- The abstract log: the history of each session that has one.
abbrev pub Histories : Type 0
Histories = String → Option History

abbrev pub write : Histories → String → Option History → Histories
write hs id h j = if id == j then h else hs j

-- A chunk continues the history of its generation, or starts a new one.
abbrev pub extended : Option History → ℕ → Bytes → History
extended none g d = record { generation = g; sent = d ∷ [] }
extended (some h) g d =
    if not (nat_beq h.generation g)
    then record { generation = g; sent = d ∷ [] }
    else record { generation = g; sent = h.sent ++ d ∷ [] }

abbrev pub Implements : ℕ → Option ChunkRing → Option History → Type 0
Implements budget none none = Unit
Implements budget (some r) (some h) = (r.generation ≡ h.generation) × Holds budget h.sent r
Implements budget _ _ = ⊥

pub record Represents (log : ChunkLog) (hs : Histories) : Type 0 where
  pub each : (id : String) → Implements log.in_memory_budget (lookup id log.rings) (hs id)

-- Writing one session's ring and history leaves the others.
write-Represents :
    (log : ChunkLog) (hs : Histories) (id : String) (r : ChunkRing) (h : History)
    → Represents log hs
    → Implements log.in_memory_budget (some r) (some h)
    → Represents (record log { rings = insert id r log.rings }) (write hs id (some h))
write-Represents log hs id r h v o = record {
  each = λ j. elim (Bool-cases (id == j)) [
    | inl e ↦ rw (lookup-insert id j r log.rings, e) o
    | inr e ↦ rw (lookup-insert id j r log.rings, e) (v.each j)
  ];
}

appended :
    (budget : ℕ) (ring : Option ChunkRing) (h : Option History) (g : ℕ) (d : Bytes)
    → Implements budget ring h
    → Implements budget
        (some (append_to_ring budget (current_ring ring g) d))
        (some (extended h g d))
unfolding current_ring
appended budget none none g d v =
    let (held, same) =
      append_to_ring-Holds budget [] (empty_ring g) d (empty_ring-Holds budget g) in
    (same, held)
appended budget none (some h) g d v = absurd v
appended budget (some r) none g d v = absurd v
appended budget (some r) (some h) g d (e, v) = elim (Bool-cases (nat_beq h.generation g)) [
  | inl k ↦
      let k' : nat_beq r.generation g ≡ true = ap (λ x. nat_beq x g) e ∙ k in
      let (held, same) = append_to_ring-Holds budget h.sent r d v in
      let h' : h.generation ≡ g = (==_iff h.generation g).0 k in rw (k, k') (same ∙ e ∙ h', held)
  | inr k ↦
      let k' : nat_beq r.generation g ≡ false = ap (λ x. nat_beq x g) e ∙ k in
      let (held, same) =
        append_to_ring-Holds budget [] (empty_ring g) d (empty_ring-Holds budget g) in
      rw (k, k') (same, held)
]

-- `appendChunk` continues the session's history by the chunk, or starts a new one where the PTY has a
-- new generation. Other sessions keep theirs.
pub append_chunk-Represents :
    (log : ChunkLog) (hs : Histories) (id : String) (g : ℕ) (d : Bytes)
    → Represents log hs
    → Represents (append_chunk log id g d).0 (write hs id (some (extended (hs id) g d)))
unfolding append_chunk
append_chunk-Represents log hs id g d v =
    write-Represents log hs id _ _ v
      (appended log.in_memory_budget (lookup id log.rings) (hs id) g d (v.each id))

-- `bumpGeneration` starts an empty history.
pub bump_generation-Represents :
    (log : ChunkLog) (hs : Histories) (id : String) (g : ℕ)
    → Represents log hs
    → Represents
        (bump_generation log id g)
        (write hs id (some (record { generation = g; sent = [] })))
unfolding bump_generation
bump_generation-Represents log hs id g v =
    write-Represents log hs id _ _ v (refl, empty_ring-Holds log.in_memory_budget g)

-- `remove` forgets the session.
pub remove_ring-Represents :
    (log : ChunkLog) (hs : Histories) (id : String)
    → Represents log hs
    → Represents (remove_ring log id) (write hs id none)
unfolding remove_ring
remove_ring-Represents log hs id v = record {
  each = λ j. elim (Bool-cases (id == j)) [
    | inl e ↦ rw (lookup-erase id j log.rings, e) tt
    | inr e ↦ rw (lookup-erase id j log.rings, e) (v.each j)
  ];
}

-- The rings implement one history of chunks for each session, all that its current generation of the PTY has sent:
-- `appendChunk` continues the session's history by the chunk, or starts a new one where the PTY has a new
-- generation; `bumpGeneration` starts an empty one; `remove` forgets it; and each leaves the histories of the other sessions.
pub ChunkLog-Represents :
    (log : ChunkLog) (hs : Histories) (id : String) (g : ℕ) (d : Bytes)
    → Represents log hs
    → Represents (append_chunk log id g d).0 (write hs id (some (extended (hs id) g d)))
      × Represents
          (bump_generation log id g)
          (write hs id (some (record { generation = g; sent = [] })))
      × Represents (remove_ring log id) (write hs id none)
ChunkLog-Represents log hs id g d v = (
  append_chunk-Represents log hs id g d v,
  bump_generation-Represents log hs id g v,
  remove_ring-Represents log hs id v,
)
