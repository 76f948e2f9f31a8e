-- ===== src/Tests/Simple.antt =====
-- A simple resource on the second node of the test machine, and one that follows the CPU.
use numa_pmr.Base.{◌+◌, ◌*◌, ◌^◌, ◌≤◌, ◌≡◌, refl, arith, false, pos}
use numa_pmr.Machine.Word.{sizeof_allocation_header}
use numa_pmr.Machine.Platform.{mapped}
use numa_pmr.Machine.Monad.{Ensures, bad_alloc, ok, ◌>>=◌}
use numa_pmr.VirtualMemory.Mapping.{Unchanged}
use numa_pmr.Topology.{Topology, init_topology}
use numa_pmr.SimpleResource.{
  SimpleResource, at_least_one_byte, at_least_pointer, do_allocate, do_deallocate,
  current_node_per_allocation,
}
use numa_pmr.SimpleResource.Placement.{IsAllocation}
use numa_pmr.SimpleResource.RoundTrip.{do_allocate-IsAllocation, do_deallocate-do_allocate}
use numa_pmr.Tests.World.{machine, machine-MmapLaws, no_mbind, no_mbind-MmapLaws, start}
use numa_pmr.Tests.Nodes.{two_nodes}

abbrev topology : Topology
topology = init_topology two_nodes

abbrev second : SimpleResource
second = record { node_id = pos 1; exact_calculate = false }

-- 100 bytes at a multiple of 64 start 64 bytes into the span.
first_address : (do_allocate machine (pos 0) topology 100 64 second start).0 ≡ ok (2 ^ 20 + 64)
unfolding do_allocate numa_pmr.SimpleResource.allocate_adjusted numa_pmr.SimpleResource.exceeds
    numa_pmr.SimpleResource.allocate_from_span numa_pmr.SimpleResource.place_in_span
    numa_pmr.SimpleResource.total_size_for at_least_one_byte at_least_pointer
    numa_pmr.VirtualMemory.alloc_on_node numa_pmr.VirtualMemory.reserve
    numa_pmr.VirtualMemory.bind_to_node numa_pmr.VirtualMemory.align_up
    numa_pmr.VirtualMemory.map_span
first_address = refl

request_fits :
    at_least_one_byte 0 + at_least_pointer 64 + sizeof_allocation_header + 2 * 4096 ≤ 2 ^ 64
unfolding at_least_one_byte at_least_pointer
request_fits = omega arith

do_allocate-IsAllocation_example :
    Ensures
      (IsAllocation machine (at_least_one_byte 0) (at_least_pointer 64) start)
      (Unchanged start)
      (do_allocate machine
        (pos 3)
        topology
        0
        64
        (current_node_per_allocation (pos 0) topology)
        start)
do_allocate-IsAllocation_example =
    do_allocate-IsAllocation machine machine-MmapLaws (pos 3) topology 0 64
      (current_node_per_allocation (pos 0) topology) start request_fits

-- On a machine where the binding fails, so that the allocation is refused.
do_deallocate-do_allocate_example :
    Ensures
      (λ _ w'. mapped w'.trace ≡ mapped start.trace)
      (λ e w'. (mapped w'.trace ≡ mapped start.trace) × (e ≡ bad_alloc))
      ((do p ← do_allocate no_mbind (pos 0) topology 0 64 second; do_deallocate no_mbind p) start)
do_deallocate-do_allocate_example =
    do_deallocate-do_allocate no_mbind no_mbind-MmapLaws (pos 0) topology 0 64 second start
      request_fits
