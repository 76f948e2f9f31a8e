-- ===== src/Machine/Platform.antt =====
-- What the code asks of the operating system and of libnuma. A run's system calls are recorded,
-- newest first, and the answer to a call is a function of the calls made before it: a `Platform`
-- is any such environment. Its laws are hypotheses of the theorems that need them.
use numa_pmr.Base.{
  ℕ, ◌+◌, ◌<◌, ◌%◌, ◌^◌, ◌≡◌, ◌≢◌, Bool, Option, some, List, [], ◌∷◌, ◌==◌, if◌then◌else◌, ◌&&◌,
}

-- The modes of `mbind` that the code uses.
pub data MbindMode : Type 0 where
  mpol_bind mpol_interleave : MbindMode

pub data Advice : Type 0 where
  madv_hugepage madv_nohugepage madv_dontneed : Advice

pub data Syscall : Type 0 where
  -- length and the address returned
  mmap : ℕ → ℕ → Syscall
  -- a failed `mmap` of this length
  mmap_failed : ℕ → Syscall
  -- address and length
  munmap : ℕ → ℕ → Syscall
  -- address, length, mode, the one-word node mask, maxnode
  mbind : ℕ → ℕ → MbindMode → ℕ → ℕ → Syscall
  madvise : ℕ → ℕ → Advice → Syscall

abbrev pub Trace : Type 0
Trace = List Syscall

pub record Platform : Type 0 where
  -- `sysconf(_SC_PAGESIZE)`
  pub page_size : ℕ
  -- `numa_available() >= 0`
  pub numa_available : Bool
  -- the address that `mmap` returns for a length, none for `MAP_FAILED`
  pub mmap_result : Trace → ℕ → Option ℕ
  -- whether `mbind` of a range returns 0
  pub mbind_result : Trace → ℕ → ℕ → MbindMode → ℕ → ℕ → Bool
  -- the capacity that the C++ library's `std::vector` takes when it grows from a size
  pub vector_growth : ℕ → ℕ
  -- `sizeof(NumaArena)` and `sizeof(ThreadLocalCache)`
  pub sizeof_arena : ℕ
  pub sizeof_cache : ℕ

-- Removes one mapping of exactly this range.
unfoldable pub unmap : ℕ → ℕ → List (ℕ × ℕ) → List (ℕ × ℕ)
unmap p n [] = []
unmap p n ((q, m) ∷ rest) = if (q == p) && (m == n) then rest else (q, m) ∷ unmap p n rest

-- The ranges that a trace leaves mapped, newest first, where each `munmap` takes a whole range.
unfoldable pub mapped : Trace → List (ℕ × ℕ)
unfolding unmap
mapped [] = []
mapped (mmap n p ∷ t) = (p, n) ∷ mapped t
mapped (munmap p n ∷ t) = unmap p n (mapped t)
mapped (mmap_failed n ∷ t) = mapped t
mapped (mbind p n mode mask max ∷ t) = mapped t
mapped (madvise p n advice ∷ t) = mapped t

-- What POSIX says of `mmap` without `MAP_FIXED`: whole pages, never at null, inside the address space.
pub record MmapLaws (os : Platform) : Type 0 where
  pub page_pos : 0 < os.page_size
  pub aligned : (t : Trace) (n p : ℕ) → os.mmap_result t n ≡ some p → p % os.page_size ≡ 0
  pub ne_null : (t : Trace) (n p : ℕ) → os.mmap_result t n ≡ some p → p ≢ 0
  pub in_space : (t : Trace) (n p : ℕ) → os.mmap_result t n ≡ some p → p + n < 2 ^ 64
