-- ===== src/Arena/Interleaving/Bytes.antt =====
-- The bytes that the overflow loop moves from a bin to a batch.
use numa_pmr.Base.{◌∙◌, ℕ, zero, suc, ◌+◌, ◌^◌, ◌<◌, ◌≡◌, refl, arith, Bool-cases, inl, inr, ltb}
use numa_pmr.Machine.Word.{wrap}
use numa_pmr.BlockList.{
  empty_bin, push_header, pop_header, Detaching, detach_one, goes_on, detach_loop,
}
use numa_pmr.Arena.{foreign_low_watermark, foreign_high_watermark, detach_until_low}
use numa_pmr.Arena.Interleaving.{Shared, overflow}

detach_one-bytes :
    (size : ℕ) (d : Detaching)
    → d.bin.bytes < 2 ^ 64
    → size < 2 ^ 64
    → (wrap ((detach_one size d).bin.bytes + (detach_one size d).batch.bytes)
        ≡ wrap (d.bin.bytes + d.batch.bytes))
      × ((detach_one size d).bin.bytes < 2 ^ 64)
      × ((detach_one size d).batch.bytes < 2 ^ 64)
unfolding detach_one push_header pop_header
detach_one-bytes size d small size_small = omega arith

-- Detaching moves bytes from a bin to a batch, whatever they hold.
detach_loop-bytes :
    (n size low : ℕ) (d : Detaching)
    → d.bin.bytes < 2 ^ 64
    → d.batch.bytes < 2 ^ 64
    → size < 2 ^ 64
    → (wrap ((detach_loop n size low d).bin.bytes + (detach_loop n size low d).batch.bytes)
        ≡ wrap (d.bin.bytes + d.batch.bytes))
      × ((detach_loop n size low d).bin.bytes < 2 ^ 64)
      × ((detach_loop n size low d).batch.bytes < 2 ^ 64)
unfolding detach_loop
detach_loop-bytes zero size low d small batch size_small = (refl, small, batch)
detach_loop-bytes (suc n) size low d small batch size_small =
    elim (Bool-cases (goes_on low d.bin)) [
      | inl more ↦
          let (same, bin1, batch1) = detach_one-bytes size d small size_small in
          let (rest, bin2, batch2) =
            detach_loop-bytes n size low (detach_one size d) bin1 batch1 size_small in
          rw more (rest ∙ same, bin2, batch2)
      | inr done ↦ rw done (refl, small, batch)
    ]

pub overflow-bytes :
    (i size : ℕ) (s : Shared)
    → (s.bins i).bytes < 2 ^ 64
    → size < 2 ^ 64
    → (wrap ((overflow i size s).bin.bytes + (overflow i size s).batch.bytes)
        ≡ wrap ((s.bins i).bytes))
      × ((overflow i size s).bin.bytes < 2 ^ 64)
      × ((overflow i size s).batch.bytes < 2 ^ 64)
unfolding overflow detach_until_low
overflow-bytes i size s small size_small =
    elim (Bool-cases (ltb (foreign_high_watermark size) (s.bins i).bytes)) [
      | inl over ↦
          let (same, bin, batch) =
            detach_loop-bytes (s.bins i).count size (foreign_low_watermark size)
              (record { bin = s.bins i; batch = empty_bin; memory = s.memory }) small (omega arith)
              size_small in
          rw over (omega (arith, same), bin, batch)
      | inr under ↦ rw under (omega arith, small, omega arith)
    ]
