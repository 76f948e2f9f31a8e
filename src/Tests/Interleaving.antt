-- ===== src/Tests/Interleaving.antt =====
-- One thread that frees a foreign block, step by step.
use numa_pmr.Base.{ℕ, zero, suc, ◌+◌, ◌*◌, ◌^◌, ◌≤◌, ◌<◌, ◌≡◌, ◌↔◌, refl, arith, sum_below}
use numa_pmr.Machine.Memory.{update, update_self}
use numa_pmr.BlockList.{BlockBin, empty_bin, push_header, link_header}
use numa_pmr.SizeClassTable.{num_size_classes}
use numa_pmr.SizeClassTable.Index.{num_size_classes_lem}
use numa_pmr.Arena.Interleaving.{
  idle, linked, added, detached, System, link, add, unlock, subtract, overflow, holds, locks, init,
  pick, Reach, start, later,
}
use numa_pmr.Arena.Interleaving.Counter.{update-all, cached, IsCounted}
use numa_pmr.Arena.Interleaving.Quiet.{Reach-IsCounted, foreign_bytes_quiet}
use numa_pmr.Tests.World.{blank}

abbrev header : ℕ
header = 2 ^ 20 + 32

inside : 3 < num_size_classes
inside = omega (arith, num_size_classes_lem)

-- The block of class size 64 is linked in bin 3.
abbrev s1 : System
s1 = record {
  shared = record {
    bins = update (init blank).shared.bins 3 (push_header 64 header empty_bin);
    memory = link_header header empty_bin blank;
    foreign_bytes = 0;
  };
  pc = update (init blank).pc 0 (linked 3 64);
}

reach1 : Reach 1 blank s1
unfolding holds
reach1 = later start (pick 0 (omega arith) (link header 3 64 inside (omega arith)) (λ u i e. refl))

abbrev s2 : System
s2 = record { shared = record (s1.shared) { foreign_bytes = 64 }; pc = update s1.pc 0 (added 3 64) }

reach2 : Reach 1 blank s2
unfolding locks
reach2 =
    later reach1
      (pick 0 (omega arith) (add {i = 3} {size = 64}) (λ u i e. absurd (ground (arith, e))))

abbrev s3 : System
s3 = record {
  shared = record (s2.shared) {
    bins = update s2.shared.bins 3 (overflow 3 64 s2.shared).bin;
    memory = (overflow 3 64 s2.shared).memory;
  };
  pc = update s2.pc 0 (detached (overflow 3 64 s2.shared).batch.bytes);
}

reach3 : Reach 1 blank s3
unfolding locks
reach3 =
    later reach2 (
      pick 0 (omega arith) (unlock {i = 3} {size = 64} inside)
        (λ u i e. absurd (ground (arith, e))))

none_detached : (overflow 3 64 s2.shared).batch.bytes ≡ 0
unfolding overflow numa_pmr.Arena.foreign_high_watermark
    numa_pmr.Config.Small.max_cached_bytes_for_class push_header
none_detached = refl

one_block : (overflow 3 64 s2.shared).bin.bytes ≤ 64
unfolding overflow numa_pmr.Arena.foreign_high_watermark
    numa_pmr.Config.Small.max_cached_bytes_for_class push_header
one_block = omega arith

abbrev s4 : System
s4 = record { shared = s3.shared; pc = update s3.pc 0 idle }

reach4 : Reach 1 blank s4
unfolding locks overflow numa_pmr.Arena.foreign_high_watermark
    numa_pmr.Config.Small.max_cached_bytes_for_class push_header
reach4 = later reach3 (pick 0 (omega arith) subtract (λ u i e. absurd (ground (arith, e))))

sum_bound : (n : ℕ) (f : ℕ → ℕ) → ((i : ℕ) → f i ≤ 64) → sum_below n f ≤ n * 64
unfolding sum_below
sum_bound zero f h = omega arith
sum_bound (suc n) f h = omega (arith, h n, sum_bound n f h)

pushed_bytes : (push_header 64 header empty_bin).bytes ≤ 64
unfolding push_header
pushed_bytes = omega arith

few_bytes : cached s4.shared < 2 ^ 64
few_bytes = omega (
  arith,
  num_size_classes_lem,
  sum_bound num_size_classes (λ i. (s4.shared.bins i).bytes)
      (update-all (λ (b : BlockBin). b.bytes ≤ 64) s2.shared.bins 3 _ one_block
        (update-all (λ (b : BlockBin). b.bytes ≤ 64) (init blank).shared.bins 3 _ pushed_bytes
          (λ i. omega arith))),
)

quiet : (t : ℕ) → t < 1 → s4.pc t ≡ idle
quiet zero lt = update_self s3.pc 0 idle
quiet (suc t) lt = absurd (omega arith)

foreign_bytes_quiet_example :
    (s4.shared.foreign_bytes ≡ cached s4.shared)
    × ((s4.shared.foreign_bytes ≡ 0)
        ↔ ((i : ℕ) → i < num_size_classes → (s4.shared.bins i).bytes ≡ 0))
foreign_bytes_quiet_example = foreign_bytes_quiet reach4 quiet few_bytes

Reach-IsCounted_example : IsCounted 1 s3
Reach-IsCounted_example = Reach-IsCounted reach3
