-- ===== src/Scrollback/Tests.antt =====
-- The chunk rings on a short history.
use parasor.Base.Map.{lookup, insert}
use parasor.Base.{◌≡◌, refl, [], ◌∷◌, some, none}
use parasor.Scrollback.Represents.{
  Represents, Histories, write, extended, append_chunk-Represents, ChunkLog-Represents,
}
use parasor.Scrollback.Replay.{Serves, read_since-Serves}
use parasor.Scrollback.{
  ChunkLog, delta, append_chunk, append_to_ring, current_ring, evict, bump_generation, remove_ring,
  read_since,
}

abbrev fresh : ChunkLog
fresh = record { in_memory_budget = 4; rings = [] }

abbrev no_histories : Histories
no_histories id = none

fresh-Represents : Represents fresh no_histories
unfolding lookup
fresh-Represents = record { each = λ id. tt }

-- Three chunks of two bytes, with a budget of four.
abbrev filled : ChunkLog
filled =
    let a = (append_chunk fresh "s" 1 (1 ∷ 2 ∷ [])).0 in
    let b = (append_chunk a "s" 1 (3 ∷ 4 ∷ [])).0 in (append_chunk b "s" 1 (5 ∷ 6 ∷ [])).0

delta_after_first :
    read_since filled "s" (some (record { generation = 1; seq = 0 }))
    ≡ delta
        (record { seq = 1; content = 3 ∷ 4 ∷ [] } ∷ record { seq = 2; content = 5 ∷ 6 ∷ [] } ∷ [])
unfolding read_since append_chunk append_to_ring current_ring evict lookup insert
delta_after_first = refl

first-Represents :
    Represents
      (append_chunk fresh "s" 1 (1 ∷ 2 ∷ [])).0
      (write no_histories "s" (some (record { generation = 1; sent = (1 ∷ 2 ∷ []) ∷ [] })))
first-Represents = append_chunk-Represents fresh no_histories "s" 1 (1 ∷ 2 ∷ []) fresh-Represents

ChunkLog-Represents_example :
    Represents
      (append_chunk fresh "s" 1 (1 ∷ 2 ∷ [])).0
      (write no_histories "s" (some (record { generation = 1; sent = (1 ∷ 2 ∷ []) ∷ [] })))
    × Represents
        (bump_generation fresh "s" 1)
        (write no_histories "s" (some (record { generation = 1; sent = [] })))
    × Represents (remove_ring fresh "s") (write no_histories "s" none)
ChunkLog-Represents_example =
    ChunkLog-Represents fresh no_histories "s" 1 (1 ∷ 2 ∷ []) fresh-Represents

abbrev one_sent : Histories
one_sent = write no_histories "s" (some (extended none 1 (1 ∷ 2 ∷ [])))

read_since-Serves_example : Serves 4 (one_sent "s") (some (record { generation = 1; seq = 0 })) (
    read_since
      (append_chunk fresh "s" 1 (1 ∷ 2 ∷ [])).0
      "s"
      (some (record { generation = 1; seq = 0 })))
unfolding append_chunk
read_since-Serves_example =
    read_since-Serves (append_chunk fresh "s" 1 (1 ∷ 2 ∷ [])).0 one_sent "s"
      (some (record { generation = 1; seq = 0 })) first-Represents
