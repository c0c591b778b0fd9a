-- ===== src/Scrollback/DiskTests.antt =====
-- A log whose file is cut in the middle of a character.
use parasor.Base.Map.{lookup, insert}
use parasor.Base.{◌≡◌, refl, [], ◌∷◌, arith, true}
use parasor.Scrollback.Disk.{PendingBuffer, DiskLog, read_tail, append}
use parasor.Scrollback.Tail.{IsPending, working, read_tail_cut}

abbrev pending : PendingBuffer
pending = record { chunks = (0xc3 ∷ 0xa9 ∷ 0x61 ∷ []) ∷ []; size = 3; timer = true }

-- A file of at most four bytes, cut to two.
abbrev log : DiskLog
log = record {
  max_bytes = 4;
  tail_bytes = 2;
  buffers = ("s", pending) ∷ [];
  files = ("s", 0x62 ∷ 0x63 ∷ []) ∷ [];
}

log-IsPending : IsPending "s" log pending
unfolding lookup
log-IsPending = record { here = refl; sized = refl; full = omega arith }

appended_chunk : append working "s" (0xc3 ∷ 0xa9 ∷ 0x61 ∷ []) (record log { buffers = [] }) ≡ log
unfolding append lookup insert
appended_chunk = refl

-- The second byte of `é` is shown alone.
read_tail_cut_example : (read_tail working "s" log).1 ≡ 0xa9 ∷ 0x61 ∷ []
unfolding lookup
read_tail_cut_example = read_tail_cut "s" log pending log-IsPending (omega arith) (omega arith)
