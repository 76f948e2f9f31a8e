-- ===== src/Topology/Homes.antt =====
-- The topology that the constructor builds: every CPU has a node that exists and lists it.
use mathlib.Core.List.Perm
use mathlib.Core.List.{perm_middle, append-nil, Mem, mem-cons_self, mem-cons_of_mem}
use numa_pmr.Base.{
  sym, ◌∙◌, subst, ℕ, zero, suc, ◌+◌, ◌<◌, ◌≡◌, ◌≢◌, refl, arith, Bool, true, Option, none, some,
  List, [], ◌∷◌, ◌++◌, ℤ, pos, negsuc, ℕ_discrete,
}
use numa_pmr.Machine.Memory.{update_self, update_ne}
use numa_pmr.Topology.{
  Vector, set, Topology, NumaLibrary, add_cpu, home_of, cpu_loop, no_cpus, present_loop,
  node_count_of,
}

-- CPU `cpu` has a node that exists and lists it.
pub record IsHome (t : Topology) (cpu : ℕ) : Type 0 where
  pub node : ℕ
  pub node_eq : t.cpu_to_node.at cpu ≡ pos node
  pub exists : node < t.node_count
  pub present : t.node_present.at node ≡ true
  pub listed : Mem cpu (t.node_to_cpus.at node)

-- The CPUs below `n` have their homes.
pub record IsTopology (t : Topology) (n : ℕ) : Type 0 where
  pub some_node : 0 < t.node_count
  pub cpus : t.cpu_to_node.size ≡ t.cpu_count
  pub nodes : t.node_present.size ≡ t.node_count
  pub lists : t.node_to_cpus.size ≡ t.node_count
  pub homes : (cpu : ℕ) → cpu < n → IsHome t cpu

home_of-lt : (node : ℤ) (t : Topology) → 0 < t.node_count → home_of node t < t.node_count
unfolding home_of
home_of-lt (pos n) t h = ground arith
home_of-lt (negsuc n) t h = ground arith

pub Mem-append : (x : ℕ) (l : List ℕ) (y : ℕ) → Mem x l → Mem x (l ++ y ∷ [])
Mem-append x l y m =
    (Perm.mem_iff (perm_middle l [])).1
      (mem-cons_of_mem y (subst (λ k. Mem x k) (sym (append-nil l)) m))

pub Mem-last : (l : List ℕ) (y : ℕ) → Mem y (l ++ y ∷ [])
Mem-last [] y = mem-cons_self
Mem-last (x ∷ l) y = mem-cons_of_mem x (Mem-last l y)

module _ (t : Topology) (cpu home : ℕ) (lt : home < t.node_count) where
  add_cpu_self : IsHome (add_cpu cpu home t) cpu
  unfolding add_cpu
  add_cpu_self = record {
    node = home;
    node_eq = update_self t.cpu_to_node.at cpu (pos home);
    exists = lt;
    present = update_self t.node_present.at home true;
    listed =
        subst (λ l. Mem cpu l) (sym (update_self t.node_to_cpus.at home _))
          (Mem-last (t.node_to_cpus.at home) cpu);
  }

  still_present : (n : ℕ) → t.node_present.at n ≡ true → (set t.node_present home true).at n ≡ true
  still_present n h = elim (ℕ_discrete n home) [
    | yes e ↦ rw e (update_self t.node_present.at home true)
    | no ne ↦ update_ne t.node_present.at home n true ne ∙ h
  ]

  still_listed :
      (n c : ℕ)
      → Mem c (t.node_to_cpus.at n)
      → Mem c ((set t.node_to_cpus home (t.node_to_cpus.at home ++ cpu ∷ [])).at n)
  still_listed n c m = elim (ℕ_discrete n home) [
    | yes e ↦ rw e (
        subst (λ l. Mem c l) (sym (update_self t.node_to_cpus.at home _))
          (Mem-append c (t.node_to_cpus.at home) cpu
            (subst (λ k. Mem c (t.node_to_cpus.at k)) e m)))
    | no ne ↦ subst (λ l. Mem c l) (sym (update_ne t.node_to_cpus.at home n _ ne)) m
  ]

  add_cpu_other : (c : ℕ) → c ≢ cpu → IsHome t c → IsHome (add_cpu cpu home t) c
  unfolding add_cpu
  add_cpu_other c ne h = record {
    node = h.node;
    node_eq = update_ne t.cpu_to_node.at cpu c (pos home) ne ∙ h.node_eq;
    exists = h.exists;
    present = still_present h.node h.present;
    listed = still_listed h.node c h.listed;
  }

add_cpu-IsTopology :
    (t : Topology) (cpu home : ℕ)
    → home < t.node_count
    → IsTopology t cpu
    → IsTopology (add_cpu cpu home t) (cpu + 1)
unfolding add_cpu
add_cpu-IsTopology t cpu home lt v = record {
  some_node = v.some_node;
  cpus = v.cpus;
  nodes = v.nodes;
  lists = v.lists;
  homes = λ c less. elim (ℕ_discrete c cpu) [
    | yes e ↦ rw e (add_cpu_self t cpu home lt)
    | no ne ↦ add_cpu_other t cpu home lt c ne (v.homes c (omega arith))
  ];
}

add_cpu-counts :
    (t : Topology) (cpu home : ℕ)
    → ((add_cpu cpu home t).cpu_count ≡ t.cpu_count)
      × ((add_cpu cpu home t).node_count ≡ t.node_count)
unfolding add_cpu
add_cpu-counts t cpu home = (refl, refl)

cpu_loop-IsTopology :
    (n cpu : ℕ) (lib : NumaLibrary) (t : Topology)
    → IsTopology t cpu
    → IsTopology (cpu_loop n cpu lib t) (cpu + n) × ((cpu_loop n cpu lib t).cpu_count ≡ t.cpu_count)
unfolding cpu_loop
cpu_loop-IsTopology zero cpu lib t v = (subst (λ k. IsTopology t k) (omega arith) v, refl)
cpu_loop-IsTopology (suc n) cpu lib t v =
    let home : ℕ = home_of (lib.node_of_cpu cpu) t in
    let (rest, count) =
      cpu_loop-IsTopology n (cpu + 1) lib (add_cpu cpu home t)
        (add_cpu-IsTopology t cpu home (home_of-lt (lib.node_of_cpu cpu) t v.some_node) v) in
    (
      subst (λ k. IsTopology (cpu_loop n (cpu + 1) lib (add_cpu cpu home t)) k) (omega arith) rest,
      count ∙ (add_cpu-counts t cpu home).0,
    )

present_loop-size :
    (n node : ℕ) (mask : Option (ℕ → Bool)) (v : Vector Bool)
    → (present_loop n node mask v).size ≡ v.size
unfolding present_loop
present_loop-size zero node mask v = refl
present_loop-size (suc n) node none v = present_loop-size n (node + 1) none _
present_loop-size (suc n) node (some mask) v = present_loop-size n (node + 1) (some mask) _

no_cpus-IsTopology :
    (cpus nodes : ℕ) (mask : Option (ℕ → Bool)) → 0 < nodes → IsTopology (no_cpus cpus nodes mask) 0
unfolding no_cpus
no_cpus-IsTopology cpus nodes mask h = record {
  some_node = h;
  cpus = refl;
  nodes = present_loop-size nodes 0 mask _;
  lists = refl;
  homes = λ cpu lt. absurd (omega (arith, lt));
}

pub node_count_of-pos : (n : ℤ) → 0 < node_count_of n
unfolding node_count_of
node_count_of-pos (pos n) = omega arith
node_count_of-pos (negsuc n) = omega arith

no_cpus-count :
    (cpus nodes : ℕ) (mask : Option (ℕ → Bool)) → (no_cpus cpus nodes mask).cpu_count ≡ cpus
unfolding no_cpus
no_cpus-count cpus nodes mask = refl

-- The loop from CPU 0 on.
pub numa_loop-IsTopology :
    (cpus nodes : ℕ) (lib : NumaLibrary)
    → 0 < nodes
    → IsTopology
        (cpu_loop cpus 0 lib (no_cpus cpus nodes lib.all_nodes))
        (cpu_loop cpus 0 lib (no_cpus cpus nodes lib.all_nodes)).cpu_count
numa_loop-IsTopology cpus nodes lib h =
    let start : Topology = no_cpus cpus nodes lib.all_nodes in
    let all =
      cpu_loop-IsTopology cpus 0 lib start (no_cpus-IsTopology cpus nodes lib.all_nodes h) in
    let count : (cpu_loop cpus 0 lib start).cpu_count ≡ 0 + cpus =
      all.1 ∙ no_cpus-count cpus nodes lib.all_nodes ∙ omega arith in
    subst (λ k. IsTopology (cpu_loop cpus 0 lib start) k) (sym count) all.0
