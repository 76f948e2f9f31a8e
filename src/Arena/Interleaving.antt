-- ===== src/Arena/Interleaving.antt =====
-- The bins of foreign blocks under any interleaving of threads: each atomic access, and each
-- locked region between two of them, is one step. A thread frees blocks (`enqueue_foreign_small`)
-- or drains bins (`drain_foreign_bin`, `drain_all_foreign`); which, and when, is left open.
pub mod Bytes
pub mod Counter
pub mod Quiet
use numa_pmr.Base.{ℕ, ◌+◌, ◌<◌, ◌^◌, ◌≡◌, Bool, true, false, ltb, ◌==◌, if◌then◌else◌}
use numa_pmr.Machine.Word.{wrap, sub_word}
use numa_pmr.Machine.Memory.{Memory, update}
use numa_pmr.BlockList.{BlockBin, empty_bin, push_header, link_header, Detaching}
use numa_pmr.SizeClassTable.{num_size_classes}
use numa_pmr.Arena.{foreign_high_watermark, foreign_low_watermark, detach_until_low}

-- Where a thread stands: outside; in the lock of bin `i`, before and after `fetch_add` of `size`;
-- with a batch of `bytes` bytes detached and the lock released, before `fetch_sub`.
pub data Pc : Type 0 where
  idle : Pc
  linked : (i size : ℕ) → Pc
  added : (i size : ℕ) → Pc
  detached : (bytes : ℕ) → Pc

pub record Shared : Type 0 where
  pub bins : ℕ → BlockBin
  pub memory : Memory
  pub foreign_bytes : ℕ

-- Whether a thread holds the lock of bin `i`.
unfoldable pub holds : (i : ℕ) → Pc → Bool
holds i idle = false
holds i (linked j size) = j == i
holds i (added j size) = j == i
holds i (detached bytes) = false

-- The rest of the locked region of `enqueue_foreign_small`, after `fetch_add`.
unfoldable pub overflow : (i size : ℕ) → Shared → Detaching
overflow i size s =
    if ltb (foreign_high_watermark size) (s.bins i).bytes
    then detach_until_low size (foreign_low_watermark size) (s.bins i) s.memory
    else record { bin = s.bins i; batch = empty_bin; memory = s.memory }

-- One step of a thread.
pub data Move (s : Shared) : Pc → Shared → Pc → Type 0 where
  -- the block is linked in, under the lock; `size` is its header's `uint32_t` class size
  link :
      (header i size : ℕ)
      → i < num_size_classes
      → size < 2 ^ 32
      → Move s idle
          (record s {
            bins = update s.bins i (push_header size header (s.bins i));
            memory = link_header header (s.bins i) s.memory;
          })
          (linked i size)
  -- `fetch_add`, under the lock
  add :
      {i size : ℕ}
      → Move s
          (linked i size)
          (record s { foreign_bytes = wrap (s.foreign_bytes + size) })
          (added i size)
  -- the end of the locked region
  unlock :
      {i size : ℕ}
      → i < num_size_classes
      → Move s
          (added i size)
          (record s {
            bins = update s.bins i (overflow i size s).bin;
            memory = (overflow i size s).memory;
          })
          (detached (overflow i size s).batch.bytes)
  -- `detach_all_foreign_locked`, under the lock
  take :
      (i : ℕ)
      → i < num_size_classes
      → Move s idle (record s { bins = update s.bins i empty_bin }) (detached (s.bins i).bytes)
  -- `fetch_sub`, or nothing for an empty batch; the batch is then freed, which touches neither
  -- bins nor counter
  subtract :
      {bytes : ℕ}
      → Move s
          (detached bytes)
          (record s {
            foreign_bytes = if bytes == 0 then s.foreign_bytes else sub_word s.foreign_bytes bytes;
          })
          idle

-- The bin that a step locks, which must be free.
unfoldable pub locks : {s s' : Shared} {p p' : Pc} → Move s p s' p' → ℕ → Bool
locks (link header i size lt small) j = i == j
locks (take i lt) j = i == j
locks add j = false
locks (unlock lt) j = false
locks subtract j = false

pub record System : Type 0 where
  pub shared : Shared
  pub pc : ℕ → Pc

-- A step of one of `n` threads.
pub data Step (n : ℕ) (s : System) : System → Type 0 where
  pick :
      (t : ℕ) {s' : Shared} {p : Pc}
      → t < n
      → (move : Move s.shared (s.pc t) s' p)
      → ((u i : ℕ) → locks move i ≡ true → holds i (s.pc u) ≡ false)
      → Step n s (record { shared = s'; pc = update s.pc t p })

-- The bins of a new arena.
abbrev pub init : Memory → System
init m = record {
  shared = record { bins = λ _. empty_bin; memory = m; foreign_bytes = 0 };
  pc = λ _. Pc.idle;
}

pub data Reach (n : ℕ) (m : Memory) : System → Type 0 where
  start : Reach n m (init m)
  later : {s s' : System} → Reach n m s → Step n s s' → Reach n m s'
