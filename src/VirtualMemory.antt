-- ===== src/VirtualMemory.antt =====
-- virtual_memory/virtual_memory.hpp and .cpp: page-granular memory from the OS, bound to a node.
-- `static` members that cache an answer of the OS read it from the platform.
pub mod Align
pub mod Mapping
use numa_pmr.Base.{
  ℕ, ◌+◌, ◌-◌, ◌*◌, ◌/◌, ◌%◌, ◌^◌, Bool, true, false, Option, none, some, List, ◌∷◌, ℤ, is_negative,
  to_ℕ, leb, ◌==◌, if◌then◌else◌, ◌||◌,
}
use numa_pmr.Machine.Word.{wrap, null}
use numa_pmr.Machine.Platform.{
  Platform, Syscall, mmap, mmap_failed, munmap, mbind, madvise, MbindMode, mpol_bind,
  mpol_interleave, Advice, madv_hugepage, madv_nohugepage, madv_dontneed,
}
use numa_pmr.Machine.Memory.{World}
use numa_pmr.Machine.Monad.{M, Exception, bad_alloc, ok, pure, raise, ◌>>=◌, ◌>>◌, modify}

-- `x + align - 1` is the only step that can wrap: `align` is not 0 there.
unfoldable pub align_up : ℕ → ℕ → ℕ
align_up x align = if align == 0 then x else wrap (x + align - 1) / align * align

pub data NumaPolicy : Type 0 where
  first_touch bind interleave : NumaPolicy

-- Appends a system call to the trace.
abbrev pub call : Syscall → M World (Unit {0})
call c = modify (λ w. record w { trace = c ∷ w.trace })

abbrev pub max_nodes : ℕ
max_nodes = 64

module _ (os : Platform) where
  -- The `mmap` of `reserve`, by the answer of the OS.
  unfoldable pub map_span : Option ℕ → ℕ → M World ℕ
  map_span none size = do call (mmap_failed size); raise bad_alloc
  map_span (some p) size = do call (mmap size p); pure p

  unfoldable pub reserve : ℕ → M World ℕ
  reserve size w =
      let bytes : ℕ = align_up (if size == 0 then os.page_size else size) os.page_size in
      map_span (os.mmap_result w.trace bytes) bytes w

  unfoldable pub release : ℕ → ℕ → M World (Unit {0})
  release ptr size =
      if ptr == null
      then pure tt
      else if size == 0
      then pure tt
      else call (munmap ptr (align_up size os.page_size))

  abbrev pub mode_of : NumaPolicy → MbindMode
  mode_of interleave = mpol_interleave
  mode_of _ = mpol_bind

  -- The call of `mbind` that ends `bind_to_node`.
  unfoldable pub bind_range : ℕ → ℕ → ℕ → MbindMode → M World Bool
  bind_range ptr size node mode w = (
    ok (os.mbind_result w.trace ptr size mode (2 ^ node) max_nodes),
    record w { trace = mbind ptr size mode (2 ^ node) max_nodes ∷ w.trace },
  )

  -- `bind_to_node` past its test for `FirstTouch`.
  unfoldable pub bind_policy : ℕ → ℕ → ℤ → MbindMode → M World Bool
  unfolding bind_range
  bind_policy ptr size node mode =
      if ptr == null
      then pure false
      else if os.numa_available
      then (if is_negative node || leb max_nodes (to_ℕ node)
          then pure false
          else bind_range ptr (align_up size os.page_size) (to_ℕ node) mode)
      else pure (if is_negative node then false else to_ℕ node == 0)

  unfoldable pub bind_to_node : ℕ → ℕ → ℤ → NumaPolicy → M World Bool
  unfolding bind_policy
  bind_to_node ptr size node first_touch = pure true
  bind_to_node ptr size node bind = bind_policy ptr size node (mode_of bind)
  bind_to_node ptr size node interleave = bind_policy ptr size node (mode_of interleave)

  -- With the default policy, `Bind`, which is the only one that the code passes.
  unfoldable pub alloc_on_node : ℕ → ℤ → M World ℕ
  alloc_on_node size node = do
    ptr ← reserve size
    bound ← bind_to_node ptr size node bind
    if bound then pure ptr else (do release ptr size; raise bad_alloc)

  advise : ℕ → ℕ → Advice → M World (Unit {0})
  unfolding align_up
  advise ptr size advice =
      if ptr == null then pure tt else call (madvise ptr (align_up size os.page_size) advice)

  pub advise_hugepage : ℕ → ℕ → M World (Unit {0})
  unfolding advise
  advise_hugepage ptr size = advise ptr size madv_hugepage

  pub advise_no_hugepage : ℕ → ℕ → M World (Unit {0})
  unfolding advise
  advise_no_hugepage ptr size = advise ptr size madv_nohugepage

  pub advise_release : ℕ → ℕ → M World (Unit {0})
  unfolding advise
  advise_release ptr size = advise ptr size madv_dontneed
