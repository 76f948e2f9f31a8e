-- ===== src/LargeObject/Bin.antt =====
-- One bin of the span cache: its spans are of one size, and its counters agree with them.
use native.Mathlib.Nat.{mul-le-mul_right}
use numa_pmr.Base.{ℕ, zero, suc, ◌+◌, ◌-◌, ◌*◌, ◌≤◌, ◌<◌, ◌≡◌, arith}
use numa_pmr.Machine.Memory.{update_self}
use numa_pmr.LargeObject.{CachedSpan, SpanBin, top_span, pop_span, push_span}

-- A bin whose spans all have the size `each`.
pub record IsBin (each : ℕ) (b : SpanBin) : Type 0 where
  pub few : b.count ≤ 8
  pub bytes : b.bytes ≡ b.count * each
  pub sized : (j : ℕ) → j < b.count → (b.spans j).size ≡ each

le-mul_of_pos_left : (c each : ℕ) → 0 < c → each ≤ c * each
le-mul_of_pos_left zero each pos = absurd (omega arith)
le-mul_of_pos_left (suc c) each pos = omega arith

pred_mul : (c each : ℕ) → 0 < c → (c - 1) * each + each ≡ c * each
pred_mul zero each pos = absurd (omega arith)
pred_mul (suc c) each pos = let e : suc c - 1 ≡ c = omega arith in rw e (omega arith)

suc_mul : (c each : ℕ) → (c + 1) * each ≡ c * each + each
suc_mul c each = omega arith

module _ (each : ℕ) (b : SpanBin) (small : each ≤ 2 * 1024 * 1024) (v : IsBin each b) where
  pub top_span-size : 0 < b.count → (top_span b).size ≡ each
  unfolding top_span
  top_span-size pos = v.sized (b.count - 1) (omega arith)

  bytes_le : b.bytes ≤ 8 * each
  bytes_le = rw v.bytes (mul-le-mul_right each v.few)

  bytes_ge : 0 < b.count → each ≤ b.bytes
  bytes_ge pos = rw v.bytes (le-mul_of_pos_left b.count each pos)

  pub pop_span-bytes : 0 < b.count → (pop_span b).bytes + each ≡ b.bytes
  unfolding pop_span
  pop_span-bytes pos = omega (arith, bytes_le, bytes_ge pos, top_span-size pos)

  pub pop_span-IsBin : 0 < b.count → IsBin each (pop_span b)
  unfolding pop_span
  pop_span-IsBin pos = record {
    few = omega (arith, v.few);
    bytes = omega (arith, pop_span-bytes pos, v.bytes, pred_mul b.count each pos);
    sized = λ j lt. v.sized j (omega arith);
  }

  pub push_span-bytes :
      (s : CachedSpan) → s.size ≡ each → b.count < 8 → (push_span s b).bytes ≡ b.bytes + each
  unfolding push_span
  push_span-bytes s e lt = omega (arith, bytes_le)

  pub push_span-IsBin : (s : CachedSpan) → s.size ≡ each → b.count < 8 → IsBin each (push_span s b)
  unfolding push_span
  push_span-IsBin s e lt = record {
    few = omega arith;
    bytes = omega (arith, push_span-bytes s e lt, v.bytes, suc_mul b.count each);
    sized = λ j below. ground (arith, v.sized j);
  }

pub top_span-push_span : (s : CachedSpan) (b : SpanBin) → top_span (push_span s b) ≡ s
unfolding top_span push_span
top_span-push_span s b =
    let e : b.count + 1 - 1 ≡ b.count = omega arith in rw e (update_self b.spans b.count s)
