-- ===== src/Arena/Interleaving/Quiet.antt =====
-- What the counter of foreign bytes says in the reachable states.
use numa_pmr.Base.{
  ◌↔◌, ℕ_discrete, ◌∙◌, ℕ, zero, suc, ◌^◌, ◌≤◌, ◌<◌, ◌≡◌, refl, arith, sum_below, sum_below_zero,
}
use numa_pmr.Machine.Memory.{Memory}
use numa_pmr.BlockList.{empty_bin}
use numa_pmr.SizeClassTable.{num_size_classes}
use numa_pmr.Arena.Interleaving.{init, idle, System, Step, pick, Reach, start, later}
use numa_pmr.Arena.Interleaving.Counter.{
  owes, pends, size_of, cached, IsCounted, moves, Move-IsCounted,
}

sum-at-le : (n i : ℕ) (f : ℕ → ℕ) → i < n → f i ≤ sum_below n f
unfolding sum_below
sum-at-le zero i f lt = absurd (omega arith)
sum-at-le (suc n) i f lt = elim (ℕ_discrete i n) [
  | yes e ↦ rw e (omega arith)
  | no ne ↦ omega (arith, sum-at-le n i f (omega arith))
]

init-IsCounted : (n : ℕ) (m : Memory) → IsCounted n (init m)
unfolding owes pends size_of
init-IsCounted n m = record {
  balance = omega (
    arith,
    sum_below_zero n (λ t. owes idle) (λ t lt. refl),
    sum_below_zero n (λ t. pends idle) (λ t lt. refl),
    sum_below_zero num_size_classes (λ i. empty_bin.bytes) (λ i lt. refl),
  );
  counter_fits = omega arith;
  bins_fit = λ i. omega arith;
  pends_fit = λ t. omega arith;
  sizes_fit = λ t. omega arith;
}

Step-IsCounted : {n : ℕ} {s s' : System} → Step n s s' → IsCounted n s → IsCounted n s'
Step-IsCounted (pick t {s'} {p} lt move free) v = Move-IsCounted v t lt move (moves v t lt _ p refl)

-- However the threads interleave, the counter of foreign bytes is, modulo `2 ^ 64`, the bytes in
-- the bins, less what was linked in and not yet added, plus what was detached and not yet
-- subtracted.
pub Reach-IsCounted : {n : ℕ} {m : Memory} {s : System} → Reach n m s → IsCounted n s
Reach-IsCounted {n} {m} start = init-IsCounted n m
Reach-IsCounted (later r step) = Step-IsCounted step (Reach-IsCounted r)

-- In a reachable state where no thread is between its accesses and the bytes in the bins are fewer
-- than `2 ^ 64`, the counter is the number of bytes in the bins; and it is 0, which lets `allocate`
-- skip the bins, exactly when every bin counts no bytes.
pub foreign_bytes_quiet :
    {n : ℕ} {m : Memory} {s : System}
    → Reach n m s
    → ((t : ℕ) → t < n → s.pc t ≡ idle)
    → cached s.shared < 2 ^ 64
    → (s.shared.foreign_bytes ≡ cached s.shared)
      × ((s.shared.foreign_bytes ≡ 0)
          ↔ ((i : ℕ) → i < num_size_classes → (s.shared.bins i).bytes ≡ 0))
unfolding owes pends
foreign_bytes_quiet {n} {s = s} r quiet small =
    let v = Reach-IsCounted r in
    let none_owed = sum_below_zero n (λ t. owes (s.pc t)) (λ t lt. rw (quiet t lt) refl) in
    let none_pending = sum_below_zero n (λ t. pends (s.pc t)) (λ t lt. rw (quiet t lt) refl) in
    let exact : s.shared.foreign_bytes ≡ cached s.shared =
      omega (arith, v.balance, v.counter_fits, none_owed, none_pending, small) in
    (
      exact,
      (
        λ zero i lt.
            omega (arith, exact, sum-at-le num_size_classes i (λ j. (s.shared.bins j).bytes) lt),
        λ empty. exact ∙ sum_below_zero num_size_classes (λ j. (s.shared.bins j).bytes) empty,
      ),
    )
