-- ===== src/Tests/Nodes.antt =====
-- Two nodes of two CPUs, of which the second node starts at CPU 2.
use numa_pmr.Base.{◌≡◌, refl, arith, true, some, pos, negsuc, ltb, if◌then◌else◌}
use numa_pmr.Topology.{Topology, NumaLibrary, init_topology, is_valid_node, normalize_node_id}
use numa_pmr.Topology.Homes.{IsTopology}
use numa_pmr.Topology.Nodes.{init_topology-IsTopology, normalize_node_id-is_valid_node}

abbrev pub two_nodes : NumaLibrary
two_nodes = record {
  available = true;
  configured_cpus = pos 4;
  max_node = pos 1;
  all_nodes = some (λ n. ltb n 2);
  node_of_cpu = λ cpu. if ltb cpu 2 then pos 0 else pos 1;
  hardware_concurrency = 4;
}

second_node : normalize_node_id (pos 3) (negsuc 0) (init_topology two_nodes) ≡ pos 1
unfolding normalize_node_id is_valid_node init_topology numa_pmr.Topology.current_node_from_cpu
    numa_pmr.Topology.cpu_loop numa_pmr.Topology.add_cpu numa_pmr.Topology.home_of
    numa_pmr.Topology.no_cpus numa_pmr.Topology.present_loop numa_pmr.Topology.at_least_one
    numa_pmr.Topology.node_count_of
second_node = refl

counts : (init_topology two_nodes).cpu_count ≡ 4
unfolding init_topology numa_pmr.Topology.cpu_loop numa_pmr.Topology.add_cpu
    numa_pmr.Topology.home_of numa_pmr.Topology.no_cpus numa_pmr.Topology.present_loop
    numa_pmr.Topology.at_least_one numa_pmr.Topology.node_count_of
counts = refl

init_topology-IsTopology_example :
    IsTopology (init_topology two_nodes) (init_topology two_nodes).cpu_count
init_topology-IsTopology_example = init_topology-IsTopology two_nodes

normalize_node_id-is_valid_node_example :
    (is_valid_node
        (normalize_node_id (pos 3) (negsuc 0) (init_topology two_nodes))
        (init_topology two_nodes)
      ≡ true)
    × (is_valid_node (negsuc 0) (init_topology two_nodes) ≡ true
        → normalize_node_id (pos 3) (negsuc 0) (init_topology two_nodes) ≡ negsuc 0)
normalize_node_id-is_valid_node_example =
    normalize_node_id-is_valid_node (init_topology two_nodes) 3 (negsuc 0)
      (init_topology-IsTopology two_nodes) (omega (arith, counts))
