-- ===== src/Topology.antt =====
-- numa_topology/numa_topology.cpp: `NumaTopologyManager`, which CPU belongs to which node. What
-- libnuma and the scheduler answer is a parameter.
pub mod Homes
pub mod Nodes
use numa_pmr.Base.{
  ℕ, zero, suc, ◌+◌, Bool, true, false, not, ◌||◌, Option, none, some, List, [], ◌∷◌, ◌++◌, ℤ, pos,
  negsuc, is_negative, to_ℕ, from_u32, leb, ◌==◌, if◌then◌else◌,
}
use numa_pmr.Machine.Memory.{update}

-- A `std::vector` of a size that is set once, by its index.
pub record Vector (A : Type 0) : Type 0 where
  pub size : ℕ
  pub at : ℕ → A

-- `assign`, and the write of one entry.
abbrev pub assign : {A : Type 0} → ℕ → A → Vector A
assign n x = record { size = n; at = λ _. x }

abbrev pub set : {A : Type 0} → Vector A → ℕ → A → Vector A
set v i x = record v { at = update v.at i x }

-- The answers of libnuma, and of `std::thread::hardware_concurrency`.
pub record NumaLibrary : Type 0 where
  -- `numa_available() >= 0`
  pub available : Bool
  pub configured_cpus : ℤ
  pub max_node : ℤ
  -- `numa_all_nodes_ptr`, none for null
  pub all_nodes : Option (ℕ → Bool)
  pub node_of_cpu : ℕ → ℤ
  pub hardware_concurrency : ℕ

-- The counts are positive after the constructor.
pub record Topology : Type 0 where
  pub cpu_count : ℕ
  pub node_count : ℕ
  pub cpu_to_node : Vector ℤ
  pub node_to_cpus : Vector (List ℕ)
  pub node_present : Vector Bool

-- `if (cpu_count_ <= 0) cpu_count_ = 1`.
unfoldable pub at_least_one : ℤ → ℕ
at_least_one (pos n) = if n == 0 then 1 else n
at_least_one (negsuc n) = 1

unfoldable pub node_count_of : ℤ → ℕ
node_count_of (pos n) = n + 1
node_count_of (negsuc n) = 1

-- The loops that fill `node_present_`, from `node` on.
unfoldable pub present_loop : (rounds node : ℕ) → Option (ℕ → Bool) → Vector Bool → Vector Bool
present_loop zero node mask v = v
present_loop (suc n) node none v = present_loop n (node + 1) none (set v node true)
present_loop (suc n) node (some mask) v =
    present_loop n (node + 1) (some mask) (set v node (mask node))

-- The node that a CPU is given.
unfoldable pub home_of : ℤ → Topology → ℕ
home_of node t =
    if is_negative node || leb t.node_count (to_ℕ node) || not (t.node_present.at (to_ℕ node))
    then 0
    else to_ℕ node

unfoldable pub add_cpu : (cpu home : ℕ) → Topology → Topology
add_cpu cpu home t = record t {
  cpu_to_node = set t.cpu_to_node cpu (pos home);
  node_to_cpus = set t.node_to_cpus home (t.node_to_cpus.at home ++ cpu ∷ []);
  node_present = set t.node_present home true;
}

-- The last loop of `init_topology`, from `cpu` on.
unfoldable pub cpu_loop : (rounds cpu : ℕ) → NumaLibrary → Topology → Topology
cpu_loop zero cpu lib t = t
cpu_loop (suc n) cpu lib t =
    cpu_loop n (cpu + 1) lib (add_cpu cpu (home_of (lib.node_of_cpu cpu) t) t)

-- The state before the last loop.
unfoldable pub no_cpus : (cpus nodes : ℕ) → Option (ℕ → Bool) → Topology
no_cpus cpus nodes mask = record {
  cpu_count = cpus;
  node_count = nodes;
  cpu_to_node = assign cpus (pos 0);
  node_to_cpus = assign nodes [];
  node_present = present_loop nodes 0 mask (assign nodes false);
}

abbrev pub list_cpu : ℕ → Topology → Topology
list_cpu cpu t = record t { node_to_cpus = set t.node_to_cpus 0 (t.node_to_cpus.at 0 ++ cpu ∷ []) }

-- The loop of `init_single_node_topology`, from `cpu` on.
unfoldable pub single_loop : (rounds cpu : ℕ) → Topology → Topology
single_loop zero cpu t = t
single_loop (suc n) cpu t = single_loop n (cpu + 1) (list_cpu cpu t)

-- The state before that loop.
unfoldable pub single_start : ℕ → Topology
single_start cpus = record {
  cpu_count = cpus;
  node_count = 1;
  cpu_to_node = assign cpus (pos 0);
  node_to_cpus = assign 1 [];
  node_present = assign 1 true;
}

unfoldable pub init_single_node_topology : NumaLibrary → Topology
init_single_node_topology lib =
    let cpus : ℕ = at_least_one (from_u32 lib.hardware_concurrency) in
    single_loop cpus 0 (single_start cpus)

unfoldable pub init_topology : NumaLibrary → Topology
init_topology lib =
    let cpus : ℕ = at_least_one lib.configured_cpus in
    if lib.available
    then cpu_loop cpus 0 lib (no_cpus cpus (node_count_of lib.max_node) lib.all_nodes)
    else init_single_node_topology lib

-- `cpu` is what `sched_getcpu()` returned.
unfoldable pub current_node_from_cpu : (cpu : ℤ) → Topology → ℤ
current_node_from_cpu cpu t =
    if is_negative cpu || leb t.cpu_to_node.size (to_ℕ cpu)
    then pos 0
    else t.cpu_to_node.at (to_ℕ cpu)

unfoldable pub is_valid_node : ℤ → Topology → Bool
is_valid_node node t =
    if is_negative node || leb t.node_count (to_ℕ node)
    then false
    else if leb t.node_present.size (to_ℕ node)
    then false
    else t.node_present.at (to_ℕ node)

unfoldable pub normalize_node_id : (cpu node : ℤ) → Topology → ℤ
normalize_node_id cpu node t = if is_valid_node node t then node else current_node_from_cpu cpu t
