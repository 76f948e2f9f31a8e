-- ===== src/Affinity.antt =====
-- numa_topology/numa_topology.cpp: pinning the current thread to the CPUs of a node, and
-- numa_topology/numa_thread_pin_guard, which undoes it. The state is the thread's affinity, which
-- the kernel keeps.
pub mod Guard
use numa_pmr.Base.{
  ℕ, zero, suc, ◌+◌, Bool, true, false, not, Option, none, some, List, [], ◌∷◌, ℤ, to_ℕ, leb, ltb,
  ◌==◌, if◌then◌else◌, min, sum_below,
}
use numa_pmr.Machine.Memory.{update}
use numa_pmr.Machine.Monad.{M, ok, pure, ◌>>=◌, ◌>>◌}
use numa_pmr.Topology.{Topology, is_valid_node}

-- `cpu_set_t`, by CPU below `CPU_SETSIZE`.
abbrev pub CpuSet : Type 0
CpuSet = ℕ → Bool

abbrev pub cpu_setsize : ℕ
cpu_setsize = 1024

-- `CPU_ZERO`, and `CPU_COUNT`.
abbrev pub no_cpu : CpuSet
no_cpu cpu = false

unfoldable pub cpu_count_of : CpuSet → ℕ
cpu_count_of a = sum_below cpu_setsize (λ cpu. if a cpu then 1 else 0)

-- What the kernel answers: whether `sched_getaffinity` succeeds, and the affinity that
-- `sched_setaffinity` sets for a request, none where it fails.
pub record Scheduler : Type 0 where
  pub reads : Bool
  pub accepts : CpuSet → Option CpuSet

abbrev pub AffinityM : Type 0 → Type 0
AffinityM = M CpuSet

-- `sched_setaffinity(...) == 0`.
unfoldable pub sched_setaffinity : Option CpuSet → AffinityM Bool
sched_setaffinity none a = (ok false, a)
sched_setaffinity (some new) a = (ok true, new)

-- The loop of `apply_affinity_from_cpus`: the set, and `has_cpu`.
unfoldable pub set_from_cpus : List ℕ → CpuSet → Bool → CpuSet × Bool
set_from_cpus [] a has_cpu = (a, has_cpu)
set_from_cpus (cpu ∷ rest) a has_cpu =
    if ltb cpu cpu_setsize
    then set_from_cpus rest (update a cpu true) true
    else set_from_cpus rest a has_cpu

-- The loop of `apply_affinity_to_all_cpus`, from `cpu` on.
unfoldable pub set_all : (rounds cpu : ℕ) → CpuSet → CpuSet
set_all zero cpu a = a
set_all (suc n) cpu a = set_all n (cpu + 1) (update a cpu true)

module _ (kernel : Scheduler) where
  unfoldable pub apply_affinity_from_cpus : List ℕ → AffinityM Bool
  apply_affinity_from_cpus cpus =
      let (affinity, has_cpu) = set_from_cpus cpus no_cpu false in
      if not has_cpu then pure false else sched_setaffinity (kernel.accepts affinity)

  unfoldable pub apply_affinity_to_all_cpus : (count : ℕ) → AffinityM Bool
  apply_affinity_to_all_cpus count =
      if count == 0
      then pure false
      else sched_setaffinity (kernel.accepts (set_all (min count cpu_setsize) 0 no_cpu))

  unfoldable pub set_affinity : CpuSet → AffinityM Bool
  set_affinity affinity =
      if cpu_count_of affinity == 0 then pure false else sched_setaffinity (kernel.accepts affinity)

  unfoldable pub unpin_current_thread : Topology → AffinityM Bool
  unpin_current_thread t = apply_affinity_to_all_cpus t.cpu_count

  -- The end of `pin_current_thread_to_node`, with the affinity read into `previous`.
  unfoldable pub pin_from : (previous : CpuSet) → List ℕ → AffinityM CpuSet
  pin_from previous cpus = do
    applied ← apply_affinity_from_cpus cpus
    pure (if applied then previous else no_cpu)

  -- The affinity before, empty where the thread was not pinned.
  unfoldable pub pin_current_thread_to_node : (node : ℤ) → Topology → AffinityM CpuSet
  pin_current_thread_to_node node t a =
      if not (is_valid_node node t)
      then pure no_cpu a
      else if leb t.node_to_cpus.size (to_ℕ node)
      then pure no_cpu a
      else if not kernel.reads
      then pure no_cpu a
      else pin_from a (t.node_to_cpus.at (to_ℕ node)) a

-- `numa_thread_pin_guard`.
pub record PinGuard : Type 0 where
  pub node_id : ℤ
  pub previous_affinity : CpuSet
  pub active : Bool

module _ (kernel : Scheduler) where
  unfoldable pub new_guard : (node : ℤ) → Topology → AffinityM PinGuard
  new_guard node t = do
    previous ← pin_current_thread_to_node kernel node t
    pure (record {
      node_id = node;
      previous_affinity = previous;
      active = not (cpu_count_of previous == 0);
    })

  -- The answer, and the guard after it.
  unfoldable pub restore : PinGuard → AffinityM (Bool × PinGuard)
  restore g = if not g.active then pure (false, g) else (do
    set ← set_affinity kernel g.previous_affinity
    pure (set, record g { active = false }))

  -- `~numa_thread_pin_guard`.
  unfoldable pub destroy_guard : PinGuard → AffinityM (Unit {0})
  destroy_guard g = restore g >> pure tt

unfoldable pub release : PinGuard → PinGuard
release g = record g { active = false }
