-- ===== src/Topology/Nodes.antt =====
-- The topology on every path of its constructor, and the node ids that it answers.
use mathlib.Core.List.{Mem}
use numa_pmr.Base.{
  ℕ, zero, suc, ◌+◌, ◌<◌, ◌≡◌, refl, arith, Bool, true, false, ℤ, pos, ℕ_discrete, subst, sym, ◌∙◌,
  Bool-cases, leb, if◌then◌else◌, inl, inr,
}
use numa_pmr.Machine.Memory.{update_self}
use numa_pmr.Topology.{
  Topology, NumaLibrary, node_count_of, single_loop, init_single_node_topology, single_start,
  list_cpu, init_topology, current_node_from_cpu, is_valid_node, normalize_node_id,
}
use numa_pmr.Topology.Homes.{
  IsTopology, Mem-append, Mem-last, node_count_of-pos, numa_loop-IsTopology,
}

-- A topology of one node, with the CPUs below `n` listed.
record IsSingle (t : Topology) (n : ℕ) : Type 0 where
  one_node : t.node_count ≡ 1
  cpus : t.cpu_to_node.size ≡ t.cpu_count
  nodes : t.node_present.size ≡ t.node_count
  lists : t.node_to_cpus.size ≡ t.node_count
  all_zero : (cpu : ℕ) → t.cpu_to_node.at cpu ≡ pos 0
  present : t.node_present.at 0 ≡ true
  listed : (cpu : ℕ) → cpu < n → Mem cpu (t.node_to_cpus.at 0)

single_loop-IsSingle :
    (n cpu : ℕ) (t : Topology)
    → IsSingle t cpu
    → IsSingle (single_loop n cpu t) (cpu + n) × ((single_loop n cpu t).cpu_count ≡ t.cpu_count)
unfolding single_loop
single_loop-IsSingle zero cpu t v = (subst (λ k. IsSingle t k) (omega arith) v, refl)
single_loop-IsSingle (suc n) cpu t v =
    let rest = single_loop-IsSingle n (cpu + 1) (list_cpu cpu t) (record {
      one_node = v.one_node;
      cpus = v.cpus;
      nodes = v.nodes;
      lists = v.lists;
      all_zero = v.all_zero;
      present = v.present;
      listed = λ c lt.
          subst (λ l. Mem c l) (sym (update_self t.node_to_cpus.at 0 _))
            (elim (ℕ_discrete c cpu) [
              | yes e ↦ rw e (Mem-last (t.node_to_cpus.at 0) cpu)
              | no ne ↦ Mem-append c (t.node_to_cpus.at 0) cpu (v.listed c (omega arith))
            ]);
    }) in
    (
      subst (λ k. IsSingle (single_loop n (cpu + 1) (list_cpu cpu t)) k) (omega arith) rest.0,
      rest.1,
    )

IsTopology-of_IsSingle : (t : Topology) (n : ℕ) → IsSingle t n → IsTopology t n
IsTopology-of_IsSingle t n v = record {
  some_node = omega (arith, v.one_node);
  cpus = v.cpus;
  nodes = v.nodes;
  lists = v.lists;
  homes = λ c lt. record {
    node = 0;
    node_eq = v.all_zero c;
    exists = omega (arith, v.one_node);
    present = v.present;
    listed = v.listed c lt;
  };
}

single_start-IsSingle :
    (cpus : ℕ) → IsSingle (single_start cpus) 0 × ((single_start cpus).cpu_count ≡ cpus)
unfolding single_start
single_start-IsSingle cpus = (
  record {
    one_node = refl;
    cpus = refl;
    nodes = refl;
    lists = refl;
    all_zero = λ _. refl;
    present = refl;
    listed = λ c lt. absurd (omega (arith, lt));
  },
  refl,
)

single_loop-IsTopology :
    (cpus : ℕ)
    → IsTopology
        (single_loop cpus 0 (single_start cpus))
        (single_loop cpus 0 (single_start cpus)).cpu_count
single_loop-IsTopology cpus =
    let first = single_start-IsSingle cpus in
    let all = single_loop-IsSingle cpus 0 (single_start cpus) first.0 in
    let count : (single_loop cpus 0 (single_start cpus)).cpu_count ≡ 0 + cpus =
      all.1 ∙ first.1 ∙ omega arith in
    IsTopology-of_IsSingle _ _
      (subst (λ k. IsSingle (single_loop cpus 0 (single_start cpus)) k) (sym count) all.0)

either :
    (b : Bool) (t t' : Topology)
    → IsTopology t t.cpu_count
    → IsTopology t' t'.cpu_count
    → IsTopology (if b then t else t') (if b then t else t').cpu_count
either true t t' h h' = h
either false t t' h h' = h'

-- After the constructor, with or without NUMA, every configured CPU has a node that exists, is
-- present and lists the CPU; there is a node; and the vector of the CPUs has as many entries as there
-- are CPUs, those of the presence and of the lists of CPUs as many as there are nodes.
pub init_topology-IsTopology :
    (lib : NumaLibrary) → IsTopology (init_topology lib) (init_topology lib).cpu_count
unfolding init_topology init_single_node_topology
init_topology-IsTopology lib =
    either lib.available _ _
      (numa_loop-IsTopology _ (node_count_of lib.max_node) lib (node_count_of-pos lib.max_node))
      (single_loop-IsTopology _)

current_valid :
    (t : Topology) (cpu : ℕ)
    → IsTopology t t.cpu_count
    → cpu < t.cpu_count
    → is_valid_node (current_node_from_cpu (pos cpu) t) t ≡ true
unfolding current_node_from_cpu is_valid_node
current_valid t cpu v lt =
    let h = v.homes cpu lt in
    let inside : leb t.cpu_to_node.size cpu ≡ false = ground (arith, v.cpus) in
    let counted : leb t.node_count h.node ≡ false = ground (arith, h.exists) in
    let sized : leb t.node_present.size h.node ≡ false = ground (arith, v.nodes, h.exists) in
    rw (inside, h.node_eq, counted, sized) h.present

-- On a CPU that was configured, `normalize_node_id` answers a valid node whatever it is asked for,
-- and leaves a valid node as it is.
pub normalize_node_id-is_valid_node :
    (t : Topology) (cpu : ℕ) (node : ℤ)
    → IsTopology t t.cpu_count
    → cpu < t.cpu_count
    → (is_valid_node (normalize_node_id (pos cpu) node t) t ≡ true)
      × (is_valid_node node t ≡ true → normalize_node_id (pos cpu) node t ≡ node)
unfolding normalize_node_id
normalize_node_id-is_valid_node t cpu node v lt = elim (Bool-cases (is_valid_node node t)) [
  | inl e ↦ rw e (e, λ _. refl)
  | inr e ↦ rw e (current_valid t cpu v lt, λ bad. absurd (ground arith))
]
