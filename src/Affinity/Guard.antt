-- ===== src/Affinity/Guard.antt =====
-- What pinning does to the affinity of a thread, and that the guard undoes it.
use mathlib.Core.List.{Mem, mem-cons_self, mem-cons_of_mem}
use numa_pmr.Base.{
  ℕ, ◌≡◌, ◌≢◌, ◌⊎◌, inl, inr, refl, sym, subst, ◌∙◌, arith, Bool, Bool-cases, true, false, not,
  Option, none, some, List, [], ◌∷◌, ℤ, to_ℕ, leb, ltb, ◌==◌, if◌then◌else◌, ℕ_discrete,
  sum_below_zero,
}
use numa_pmr.Machine.Memory.{update, update_ne}
use numa_pmr.Machine.Monad.{Returns, Returns-seq, pure, ◌>>=◌}
use numa_pmr.Topology.{Topology, is_valid_node}
use numa_pmr.Affinity.{
  CpuSet, no_cpu, cpu_count_of, cpu_setsize, Scheduler, sched_setaffinity, set_from_cpus,
  apply_affinity_from_cpus, set_affinity, pin_from, pin_current_thread_to_node, PinGuard, new_guard,
  restore, destroy_guard,
}

cpu_count_of-no_cpu : cpu_count_of no_cpu ≡ 0
unfolding cpu_count_of
cpu_count_of-no_cpu = sum_below_zero cpu_setsize _ (λ i lt. refl)

-- The CPUs that the loop adds are those of the list.
set_from_cpus-Mem :
    (cpus : List ℕ) (a : CpuSet) (has_cpu : Bool) (cpu : ℕ)
    → (set_from_cpus cpus a has_cpu).0 cpu ≡ true
    → (a cpu ≡ true) ⊎ Mem cpu cpus
unfolding set_from_cpus
set_from_cpus-Mem [] a has_cpu cpu h = inl h
set_from_cpus-Mem (c ∷ rest) a has_cpu cpu h = elim (Bool-cases (ltb c cpu_setsize)) [
  | inr out ↦ elim (set_from_cpus-Mem rest a has_cpu cpu (rw out at h)) [
    | inl e ↦ inl e
    | inr i ↦ inr (mem-cons_of_mem c i)
  ]
  | inl inside ↦ elim (set_from_cpus-Mem rest (update a c true) true cpu (rw inside at h)) [
    | inr i ↦ inr (mem-cons_of_mem c i)
    | inl e ↦ elim (ℕ_discrete cpu c) [
      | yes same ↦ inr (subst (λ x. Mem cpu (x ∷ rest)) same mem-cons_self)
      | no ne ↦ inl (sym (update_ne a c cpu true ne) ∙ e)
    ]
  ]
]

-- After a pin: not pinned and nothing changed, or the kernel took a set of CPUs of the node.
pub data Pinned (kernel : Scheduler) (node : ℤ) (t : Topology) (a : CpuSet)
    : CpuSet → CpuSet → Type 0 where
  unpinned : Pinned kernel node t a no_cpu a
  pinned :
      {new : CpuSet} (asked : CpuSet)
      → is_valid_node node t ≡ true
      → kernel.accepts asked ≡ some new
      → ((cpu : ℕ) → asked cpu ≡ true → Mem cpu (t.node_to_cpus.at (to_ℕ node)))
      → Pinned kernel node t a a new

module _ (kernel : Scheduler) (node : ℤ) (t : Topology) (a : CpuSet) where
  abbrev Result : CpuSet → CpuSet → Type 0
  Result = Pinned kernel node t a

  pin_by :
      (asked : CpuSet) (answer : Option CpuSet)
      → is_valid_node node t ≡ true
      → ((cpu : ℕ) → asked cpu ≡ true → Mem cpu (t.node_to_cpus.at (to_ℕ node)))
      → kernel.accepts asked ≡ answer
      → Returns Result
          ((do applied ← sched_setaffinity answer; pure (if applied then a else no_cpu)) a)
  unfolding sched_setaffinity
  pin_by asked none valid sub e = unpinned
  pin_by asked (some new) valid sub e = pinned asked valid e sub

  pin_from-Pinned :
      is_valid_node node t ≡ true
      → Returns Result (pin_from kernel a (t.node_to_cpus.at (to_ℕ node)) a)
  unfolding pin_from apply_affinity_from_cpus
  pin_from-Pinned valid =
      let cpus = t.node_to_cpus.at (to_ℕ node) in
      let asked = (set_from_cpus cpus no_cpu false).0 in
      elim (Bool-cases ((set_from_cpus cpus no_cpu false).1)) [
        | inl some_cpu ↦ rw some_cpu (
            pin_by asked (kernel.accepts asked) valid
              (λ cpu h. elim (set_from_cpus-Mem cpus no_cpu false cpu h) [
                | inl e ↦ absurd (ground (arith, e))
                | inr i ↦ i
              ])
              refl)
        | inr none_set ↦ rw none_set unpinned
      ]

  after_read :
      is_valid_node node t ≡ true
      → (reads : Bool)
      → Returns Result
          (if not reads then pure no_cpu a else pin_from kernel a (t.node_to_cpus.at (to_ℕ node)) a)
  after_read valid true = pin_from-Pinned valid
  after_read valid false = unpinned

  -- A thread is pinned only to CPUs of a node that is present, as far as the kernel grants what is
  -- asked, and is then told its affinity before; otherwise its affinity is unchanged and the
  -- answer is the empty set.
  pub pin_current_thread_to_node-Pinned :
      Returns (Pinned kernel node t a) (pin_current_thread_to_node kernel node t a)
  unfolding pin_current_thread_to_node
  pin_current_thread_to_node-Pinned = elim (Bool-cases (is_valid_node node t)) [
    | inr invalid ↦ rw invalid unpinned
    | inl valid ↦ elim (Bool-cases (leb t.node_to_cpus.size (to_ℕ node))) [
      | inl outside ↦ rw (valid, outside) unpinned
      | inr inside ↦ rw (valid, inside) (after_read valid kernel.reads)
    ]
  ]

  module _ (some_cpus : cpu_count_of a ≢ 0) (kept : kernel.accepts a ≡ some a) where
    abbrev guard_of : CpuSet → PinGuard
    guard_of previous = record {
      node_id = node;
      previous_affinity = previous;
      active = not (cpu_count_of previous == 0);
    }

    undone :
        (previous now : CpuSet)
        → Pinned kernel node t a previous now
        → Returns (λ _ a'. a' ≡ a) (destroy_guard kernel (guard_of previous) now)
    unfolding destroy_guard restore set_affinity sched_setaffinity
    undone previous now unpinned = rw cpu_count_of-no_cpu refl
    undone previous now (pinned asked valid e sub) =
        let some_there : (cpu_count_of a == 0) ≡ false = ground (arith, some_cpus) in
        rw (some_there, kept) refl

    -- Where the kernel takes back the affinity that the thread had, and that is not empty, the guard
    -- leaves the thread with the affinity that it had, whether the pin worked or not.
    pub destroy_guard-new_guard :
        Returns (λ _ a'. a' ≡ a) ((do g ← new_guard kernel node t; destroy_guard kernel g) a)
    unfolding new_guard
    destroy_guard-new_guard =
        Returns-seq
          (λ g now.
            Pinned kernel node t a g.previous_affinity now × (g ≡ guard_of g.previous_affinity))
          (λ _ a'. a' ≡ a) (new_guard kernel node t a) _
          (Returns-seq (Pinned kernel node t a) _ (pin_current_thread_to_node kernel node t a) _
            pin_current_thread_to_node-Pinned (λ previous now h. (h, refl)))
          λ g now h. rw h.1 (undone g.previous_affinity now h.0)
