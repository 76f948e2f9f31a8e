-- ===== src/Tests/Affinity.antt =====
-- A thread on CPUs 0 to 3 that is pinned to the second of two nodes, by a kernel that grants what
-- is asked.
use numa_pmr.Base.{ℕ, ◌≡◌, ◌≢◌, refl, arith, true, pos, some, ltb}
use numa_pmr.Machine.Monad.{Returns, ◌>>=◌}
use numa_pmr.Topology.{init_topology}
use numa_pmr.Affinity.{
  CpuSet, Scheduler, cpu_count_of, pin_current_thread_to_node, new_guard, destroy_guard,
}
use numa_pmr.Affinity.Guard.{Pinned, pin_current_thread_to_node-Pinned, destroy_guard-new_guard}
use numa_pmr.Tests.Nodes.{two_nodes}

abbrev granting : Scheduler
granting = record { reads = true; accepts = λ a. some a }

abbrev four_cpus : CpuSet
four_cpus cpu = ltb cpu 4

four : cpu_count_of four_cpus ≡ 4
unfolding cpu_count_of numa_pmr.Base.sum_below
four = refl

pin_current_thread_to_node-Pinned_example :
    Returns
      (Pinned granting (pos 1) (init_topology two_nodes) four_cpus)
      (pin_current_thread_to_node granting (pos 1) (init_topology two_nodes) four_cpus)
pin_current_thread_to_node-Pinned_example =
    pin_current_thread_to_node-Pinned granting (pos 1) (init_topology two_nodes) four_cpus

destroy_guard-new_guard_example :
    Returns
      (λ _ a'. a' ≡ four_cpus)
      ((do g ← new_guard granting (pos 1) (init_topology two_nodes); destroy_guard granting g)
        four_cpus)
destroy_guard-new_guard_example =
    destroy_guard-new_guard granting (pos 1) (init_topology two_nodes) four_cpus
      (omega (arith, four)) refl
