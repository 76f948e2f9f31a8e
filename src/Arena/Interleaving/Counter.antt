-- ===== src/Arena/Interleaving/Counter.antt =====
-- A step of a thread keeps the counter of foreign bytes in agreement with the bins.
use numa_pmr.Base.{
  sym, subst, ap, ℕ_discrete, ◌∙◌, ℕ, ◌+◌, ◌^◌, ◌<◌, ◌≡◌, refl, arith, sum_below, sum_below_at,
}
use numa_pmr.Machine.Word.{wrap}
use numa_pmr.Machine.Memory.{update, update_self, update_ne}
use numa_pmr.BlockList.{BlockBin, empty_bin, push_header}
use numa_pmr.SizeClassTable.{num_size_classes}
use numa_pmr.Arena.Interleaving.{
  Pc, idle, linked, added, detached, Shared, System, Move, link, add, unlock, take, subtract,
  overflow,
}
use numa_pmr.Arena.Interleaving.Bytes.{overflow-bytes}

-- What a thread will still add to the counter, and what it will still subtract.
unfoldable pub owes : Pc → ℕ
owes (linked i size) = size
owes idle = 0
owes (added i size) = 0
owes (detached bytes) = 0

unfoldable pub pends : Pc → ℕ
pends (detached bytes) = bytes
pends idle = 0
pends (added i size) = 0
pends (linked i size) = 0

-- The size that a thread in the lock works with.
unfoldable pub size_of : Pc → ℕ
size_of (linked i size) = size
size_of (added i size) = size
size_of idle = 0
size_of (detached bytes) = 0

-- The bytes in the bins.
abbrev pub cached : Shared → ℕ
cached s = sum_below num_size_classes (λ i. (s.bins i).bytes)

-- The counter agrees with the bins, up to what the threads between two steps still owe it; all
-- these are `size_t` values.
pub record IsCounted (n : ℕ) (s : System) : Type 0 where
  pub balance :
      wrap (s.shared.foreign_bytes + sum_below n (λ t. owes (s.pc t)))
      ≡ wrap (cached s.shared + sum_below n (λ t. pends (s.pc t)))
  pub counter_fits : s.shared.foreign_bytes < 2 ^ 64
  pub bins_fit : (i : ℕ) → (s.shared.bins i).bytes < 2 ^ 64
  pub pends_fit : (t : ℕ) → pends (s.pc t) < 2 ^ 64
  pub sizes_fit : (t : ℕ) → size_of (s.pc t) < 2 ^ 64

sum-update :
    {A : Type 0} (w : A → ℕ) (n k : ℕ) (f : ℕ → A) (a : A)
    → k < n
    → sum_below n (λ t. w (update f k a t)) + w (f k) ≡ sum_below n (λ t. w (f t)) + w a
sum-update w n k f a lt =
    sum_below_at n k (λ t. w (update f k a t)) (λ t. w (f t)) lt
      (λ t inside ne. ap w (update_ne f k t a ne))
    ∙ ap (λ x. sum_below n (λ t. w (f t)) + w x) (update_self f k a)

pub update-all :
    {A : Type 0} (P : A → Type 0) (f : ℕ → A) (k : ℕ) (a : A)
    → P a
    → ((i : ℕ) → P (f i))
    → (i : ℕ) → P (update f k a i)
update-all P f k a new old i = elim (ℕ_discrete i k) [
  | yes e ↦ rw e (subst P (sym (update_self f k a)) new)
  | no ne ↦ subst P (sym (update_ne f k i a ne)) (old i)
]

module _ {n : ℕ} {s : System} (v : IsCounted n s) (t : ℕ) (lt : t < n) where
  open v use {balance, counter_fits, bins_fit, pends_fit, sizes_fit}

  -- Thread `t` goes from `p` to `p'`: what the sums over the threads become.
  pub record Moves (p p' : Pc) : Type 0 where
    pub here : s.pc t ≡ p
    pub owed :
        sum_below n (λ u. owes (update s.pc t p' u)) + owes p
        ≡ sum_below n (λ u. owes (s.pc u)) + owes p'
    pub pending :
        sum_below n (λ u. pends (update s.pc t p' u)) + pends p
        ≡ sum_below n (λ u. pends (s.pc u)) + pends p'
    pub fits : (pends p < 2 ^ 64) × (size_of p < 2 ^ 64)

  pub moves : (p p' : Pc) → s.pc t ≡ p → Moves p p'
  moves p p' e = record {
    here = e;
    owed = rw (← e) (sum-update owes n t s.pc p' lt);
    pending = rw (← e) (sum-update pends n t s.pc p' lt);
    fits = rw (← e) (pends_fit t, sizes_fit t);
  }

  bin_sum :
      (i : ℕ) (b : BlockBin)
      → i < num_size_classes
      → sum_below num_size_classes (λ j. (update s.shared.bins i b j).bytes)
          + (s.shared.bins i).bytes
        ≡ cached s.shared + b.bytes
  bin_sum i b inside =
      sum-update (λ (c : BlockBin). c.bytes) num_size_classes i s.shared.bins b inside

  new_pc :
      (p' : Pc)
      → (pends p' < 2 ^ 64) × (size_of p' < 2 ^ 64)
      → ((u : ℕ) → pends (update s.pc t p' u) < 2 ^ 64)
        × ((u : ℕ) → size_of (update s.pc t p' u) < 2 ^ 64)
  new_pc p' h = (
    update-all (λ p. pends p < 2 ^ 64) s.pc t p' h.0 pends_fit,
    update-all (λ p. size_of p < 2 ^ 64) s.pc t p' h.1 sizes_fit,
  )

  new_bins :
      (i : ℕ) (b : BlockBin)
      → b.bytes < 2 ^ 64
      → (j : ℕ) → (update s.shared.bins i b j).bytes < 2 ^ 64
  new_bins i b h = update-all (λ (c : BlockBin). c.bytes < 2 ^ 64) s.shared.bins i b h bins_fit

  pushed-bytes :
      (header i size : ℕ)
      → (push_header size header (s.shared.bins i)).bytes ≡ wrap ((s.shared.bins i).bytes + size)
  unfolding push_header
  pushed-bytes header i size = refl

  pub Move-IsCounted :
      {p p' : Pc} {s' : Shared}
      → Move s.shared p s' p'
      → Moves p p'
      → IsCounted n (record { shared = s'; pc = update s.pc t p' })
  unfolding owes pends size_of
  Move-IsCounted (link header i size inside small) f =
      let b = push_header size header (s.shared.bins i) in
      let pcs = new_pc (linked i size) (omega arith, omega arith) in
      record {
        balance =
            omega
              (arith, balance, f.owed, f.pending, bin_sum i b inside, pushed-bytes header i size);
        counter_fits = counter_fits;
        bins_fit = new_bins i b (omega (arith, pushed-bytes header i size));
        pends_fit = pcs.0;
        sizes_fit = pcs.1;
      }
  Move-IsCounted (add {i} {size}) f =
      let pcs = new_pc (added i size) (omega arith, f.fits.1) in
      record {
        balance = omega (arith, balance, f.owed, f.pending);
        counter_fits = omega arith;
        bins_fit = bins_fit;
        pends_fit = pcs.0;
        sizes_fit = pcs.1;
      }
  Move-IsCounted (unlock {i} {size} inside) f =
      let d = overflow i size s.shared in
      let (same, bin, batch) = overflow-bytes i size s.shared (bins_fit i) f.fits.1 in
      let pcs = new_pc (detached d.batch.bytes) (batch, omega arith) in
      record {
        balance = omega (arith, balance, f.owed, f.pending, bin_sum i d.bin inside, same);
        counter_fits = counter_fits;
        bins_fit = new_bins i d.bin bin;
        pends_fit = pcs.0;
        sizes_fit = pcs.1;
      }
  Move-IsCounted (take i inside) f =
      let pcs = new_pc (detached (s.shared.bins i).bytes) (bins_fit i, omega arith) in
      record {
        balance = omega (arith, balance, f.owed, f.pending, bin_sum i empty_bin inside);
        counter_fits = counter_fits;
        bins_fit = new_bins i empty_bin (omega arith);
        pends_fit = pcs.0;
        sizes_fit = pcs.1;
      }
  Move-IsCounted (subtract {bytes}) f =
      let pcs = new_pc idle (omega arith, omega arith) in
      record {
        balance = ground (arith, balance, f.owed, f.pending, f.fits);
        counter_fits = ground (arith, counter_fits);
        bins_fit = bins_fit;
        pends_fit = pcs.0;
        sizes_fit = pcs.1;
      }
