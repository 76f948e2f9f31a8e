-- ===== src/SimpleResource.antt =====
-- numa_simple_memory_resource.hpp: each allocation maps a span of its own.
pub mod Placement
pub mod RoundTrip
use numa_pmr.Base.{ℕ, ◌+◌, ◌-◌, ◌^◌, Bool, true, false, ◌||◌, ℤ, ltb, ◌==◌, if◌then◌else◌}
use numa_pmr.Machine.Word.{size_max, wrap, sub_word, sizeof_allocation_header, sizeof_pointer, null}
use numa_pmr.Machine.Platform.{Platform}
use numa_pmr.Machine.Memory.{World, AllocationHeader, write_allocation, with_memory}
use numa_pmr.Machine.Monad.{M, bad_alloc, raise, pure, get, modify, ◌>>=◌, ◌>>◌}
use numa_pmr.VirtualMemory.{align_up, alloc_on_node, release}
use numa_pmr.Topology.{Topology, current_node_from_cpu, normalize_node_id}

-- `exact_calculate_`: whether each allocation asks for the node of its CPU.
pub record SimpleResource : Type 0 where
  pub node_id : ℤ
  pub exact_calculate : Bool

-- The two public constructors and `current_node_per_allocation`, on CPU `cpu`.
unfoldable pub on_current_node : (cpu : ℤ) → Topology → SimpleResource
on_current_node cpu t = record { node_id = current_node_from_cpu cpu t; exact_calculate = false }

unfoldable pub on_node : (cpu node : ℤ) → Topology → SimpleResource
on_node cpu node t = record { node_id = normalize_node_id cpu node t; exact_calculate = false }

unfoldable pub current_node_per_allocation : (cpu : ℤ) → Topology → SimpleResource
current_node_per_allocation cpu t = record {
  node_id = current_node_from_cpu cpu t;
  exact_calculate = true;
}

-- The adjustments at the start of `do_allocate`.
unfoldable pub at_least_one_byte : ℕ → ℕ
at_least_one_byte bytes = if bytes == 0 then 1 else bytes

unfoldable pub at_least_pointer : ℕ → ℕ
at_least_pointer alignment = if ltb alignment sizeof_pointer then sizeof_pointer else alignment

-- The test that throws before anything is allocated.
unfoldable pub exceeds : (bytes alignment : ℕ) → Bool
exceeds bytes alignment =
    ltb (size_max - sizeof_allocation_header) alignment
    || ltb (size_max - alignment - sizeof_allocation_header) bytes

module _ (os : Platform) where
  -- `allocate_from_span` from the address where the payload starts.
  unfoldable pub place_in_span : (raw total bytes start : ℕ) → M World ℕ
  place_in_span raw total bytes start =
      if ltb (wrap (raw + total)) (wrap (start + bytes))
      then (do release os raw total; raise bad_alloc)
      else (do
        modify (
            with_memory (
              write_allocation (sub_word start sizeof_allocation_header)
                (record { raw_ptr = raw; total_size = total })))
        pure start)

  unfoldable pub allocate_from_span : (raw total bytes alignment : ℕ) → M World ℕ
  allocate_from_span raw total bytes alignment =
      place_in_span raw total bytes (align_up (wrap (raw + sizeof_allocation_header)) alignment)

  unfoldable pub total_size_for : (bytes alignment : ℕ) → ℕ
  total_size_for bytes alignment =
      align_up (bytes + alignment + sizeof_allocation_header) os.page_size

  -- `do_allocate` past the adjustments.
  unfoldable pub allocate_adjusted : (node : ℤ) (bytes alignment : ℕ) → M World ℕ
  allocate_adjusted node bytes alignment = if exceeds bytes alignment then raise bad_alloc else (do
    raw ← alloc_on_node os (total_size_for bytes alignment) node
    allocate_from_span raw (total_size_for bytes alignment) bytes alignment)

  -- On CPU `cpu`.
  unfoldable pub do_allocate :
      (cpu : ℤ) → Topology → (bytes alignment : ℕ) → SimpleResource → M World ℕ
  do_allocate cpu t bytes alignment r =
      allocate_adjusted (if r.exact_calculate then current_node_from_cpu cpu t else r.node_id)
        (at_least_one_byte bytes) (at_least_pointer alignment)

  unfoldable pub do_deallocate : ℕ → M World (Unit {0})
  do_deallocate p = if p == null then pure tt else (do
    header ← get (λ w. w.memory.allocation (sub_word p sizeof_allocation_header))
    release os header.raw_ptr header.total_size)
