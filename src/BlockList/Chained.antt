-- ===== src/BlockList/Chained.antt =====
-- What a bin holds, and how pushing and popping change it.
use mathlib.Core.List.{Mem, Nodup, Nodup-cons}
use numa_pmr.Base.{
  refl, sym, subst, ◌∙◌, ℕ, ◌+◌, ◌^◌, ◌≤◌, ◌<◌, ◌≡◌, ◌≢◌, arith, List, [], ◌∷◌, length,
}
use numa_pmr.Machine.Word.{null}
use numa_pmr.Machine.Memory.{Memory, write_link}
use numa_pmr.Block.{to_user_ptr}
use numa_pmr.Slab.Chain.{IsChain, IsChain-push, IsChain-update}
use numa_pmr.BlockList.{BlockBin, push_header, link_header, pop_header}

-- The bytes of some blocks of one size.
unfoldable pub total : (size : ℕ) → List ℕ → ℕ
total size [] = 0
total size (x ∷ xs) = size + total size xs

-- The bin's list is `xs`, each block once, and its counters say so.
pub record IsBin (size : ℕ) (xs : List ℕ) (b : BlockBin) (m : Memory) : Type 0 where
  pub chain : IsChain m.link b.head xs
  pub distinct : Nodup xs
  pub count : b.count ≡ length xs
  pub bytes : b.bytes ≡ total size xs
  pub in_words : (length xs < 2 ^ 64) × (total size xs < 2 ^ 64)

module _ {size : ℕ} {xs : List ℕ} {b : BlockBin} {m : Memory} (x : ℕ) where
  pub push_header-IsBin :
      x ≢ null
      → ¬ Mem x xs
      → (length xs + 1 < 2 ^ 64) × (total size xs + size < 2 ^ 64)
      → IsBin size xs b m
      → IsBin size (x ∷ xs) (push_header size x b) (link_header x b m)
  unfolding push_header total
  push_header-IsBin ne out fits v = record {
    chain = IsChain-push m.link b.head xs x ne out v.chain;
    distinct = Nodup-cons.1 (out, v.distinct);
    count = omega (arith, v.count, fits);
    bytes = omega (arith, v.bytes, fits);
    in_words = omega (arith, fits);
  }

  pub pop_header-IsBin : IsBin size (x ∷ xs) b m → IsBin size xs (pop_header size b m) m
  unfolding pop_header total
  pop_header-IsBin v = record {
    chain = subst (λ p. IsChain m.link (m.link (to_user_ptr p)) xs) (sym v.chain.0) v.chain.2;
    distinct = (Nodup-cons.0 v.distinct).1;
    count = omega (arith, v.count, v.in_words);
    bytes = omega (arith, v.bytes, v.in_words);
    in_words = omega (arith, v.in_words);
  }

-- A bin is empty, by its head, exactly when its list is.
pub head-IsBin :
    {size : ℕ} (xs : List ℕ) {b : BlockBin} {m : Memory}
    → IsBin size xs b m
    → b.head ≡ null
    → xs ≡ []
head-IsBin [] v e = refl
head-IsBin (x ∷ xs) v e = absurd (v.chain.1 (sym v.chain.0 ∙ e))

-- A write to a block outside.
pub IsBin-link :
    {size : ℕ} {xs : List ℕ} {b : BlockBin} {m : Memory} (x q : ℕ)
    → ¬ Mem x xs
    → IsBin size xs b m
    → IsBin size xs b (write_link (to_user_ptr x) q m)
IsBin-link {xs} {b} {m} x q out v = record {
  chain = IsChain-update m.link b.head xs x q out v.chain;
  distinct = v.distinct;
  count = v.count;
  bytes = v.bytes;
  in_words = v.in_words;
}

pub total-nil : (size : ℕ) → total size [] ≡ 0
unfolding total
total-nil size = refl

pub total-cons : (size x : ℕ) (xs : List ℕ) → total size (x ∷ xs) ≡ size + total size xs
unfolding total
total-cons size x xs = refl

pub length-le-total : (size : ℕ) (xs : List ℕ) → 0 < size → length xs ≤ total size xs
unfolding total
length-le-total size [] pos = omega arith
length-le-total size (x ∷ xs) pos = omega (arith, length-le-total size xs pos)
