-- ===== src/SizeClass/Keep.antt =====
-- `release_extra_empty_slabs_locked`: what is left of the slabs, and what is current.
use mathlib.Core.List.{Perm, Permᴰ, Mem, mem-cons_self, mem-cons_of_mem}
use mathlib.Core.Logic.{∥∥₁_elim}
use mathlib.Core.HLevel.{hedberg}
use numa_pmr.Base.{
  if◌then◌else◌, ℕ_discrete, ◌&&◌, not, ==_iff, sym, subst, Bool-cases, ◌∙◌, ℕ, ◌+◌, ◌≡◌, ◌≢◌, refl,
  arith, List, [], ◌∷◌, ◌++◌, length, min, Bool, true, false, ◌⊎◌, inl, inr, ◌==◌, ◌||◌,
}
use numa_pmr.Machine.Word.{null}
use numa_pmr.Machine.Platform.{Platform}
use numa_pmr.Machine.Memory.{with_memory, Memory}
use numa_pmr.Machine.Monad.{Returns-mono, Returns, Returns-seq}
use numa_pmr.Machine.Object.{object, Object}
use numa_pmr.VirtualMemory.Mapping.{Maps}
use numa_pmr.Slab.{free_block, return_block, is_empty, has_free}
use numa_pmr.SizeClass.{
  deallocate, SizeClass, member, choose_current, release_extra_empty_slabs, release_loop,
}
use numa_pmr.SizeClass.Vector.{count_if, count_if-append}
use numa_pmr.SizeClass.Release.{one_slab, one-null, Swept, unmap_all, release_loop-Swept}

count_if-Permᴰ :
    (test : ℕ → Bool) {xs ys : List ℕ} → Permᴰ xs ys → count_if test xs ≡ count_if test ys
unfolding count_if
count_if-Permᴰ test Permᴰ.nil = refl
count_if-Permᴰ test (Permᴰ.cons e d) = rw e (omega (arith, count_if-Permᴰ test d))
count_if-Permᴰ test (Permᴰ.swap e1 e2) = rw (e1, e2) (omega arith)
count_if-Permᴰ test (Permᴰ.trans d1 d2) = count_if-Permᴰ test d1 ∙ count_if-Permᴰ test d2

count_if-perm :
    (test : ℕ → Bool) {xs ys : List ℕ} → Perm xs ys → count_if test xs ≡ count_if test ys
count_if-perm test {xs} {ys} p =
    ∥∥₁_elim p (hedberg ℕ_discrete (count_if test xs) (count_if test ys)) (count_if-Permᴰ test)

member-Mem : (x : ℕ) (l : List ℕ) → member x l ≡ true → Mem x l
unfolding member
member-Mem x [] e = absurd (ground arith)
member-Mem x (y ∷ ys) e = elim (Bool-cases (y == x)) [
  | inl same ↦ subst (λ z. Mem x (z ∷ ys)) (sym (((==_iff y x).0) same)) mem-cons_self
  | inr other ↦ mem-cons_of_mem y (member-Mem x ys (rw other at e))
]

-- What `release_extra_empty_slabs` does.
pub record Released (os : Platform) (o o' : Object SizeClass) : Type 0 where
  pub dropped : List ℕ
  pub split : Perm (o'.self.slabs.items ++ dropped) o.self.slabs.items
  pub all_empty : count_if (λ s. is_empty s o.world.memory) dropped ≡ length dropped
  pub one_kept :
      count_if (λ s. is_empty s o.world.memory) o'.self.slabs.items
      ≡ min 1 (count_if (λ s. is_empty s o.world.memory) o.self.slabs.items)
  pub current_owned : (o'.self.current ≡ null) ⊎ Mem o'.self.current o'.self.slabs.items
  pub current_set :
      count_if (λ s. is_empty s o.world.memory) o.self.slabs.items ≢ 0 → o'.self.current ≢ null
  pub same_size : o'.self.block_size ≡ o.self.block_size
  pub maps : Maps o.world o'.world (unmap_all os dropped)

-- The choice between the current slab and the kept one.
choice :
    (current retained : ℕ) (usable : Bool) (l : List ℕ)
    → (current ≡ null) ⊎ Mem current l
    → (retained ≡ null) ⊎ Mem retained l
    → (b : Bool) → ((current == null || not usable) && not (retained == null)) ≡ b
    → (((if b then retained else current) ≡ null) ⊎ Mem (if b then retained else current) l)
      × (retained ≢ null → (if b then retained else current) ≢ null)
choice current retained usable l h k true e = (k, λ ne. ne)
choice current retained usable l h k false e = (h, λ ne z. absurd (ground (arith, e)))

choose_current_lem :
    (retained : ℕ) (c : SizeClass) (m : Memory)
    → (retained ≡ null) ⊎ Mem retained c.slabs.items
    → ((choose_current retained c m ≡ null) ⊎ Mem (choose_current retained c m) c.slabs.items)
      × (retained ≢ null → choose_current retained c m ≢ null)
unfolding choose_current
choose_current_lem retained c m kept = elim (Bool-cases (member c.current c.slabs.items)) [
  | inl found ↦ rw found (
      choice c.current retained (has_free c.current m) c.slabs.items
        (inr (member-Mem c.current c.slabs.items found)) kept _ refl)
  | inr other ↦
      rw other (choice null retained (has_free null m) c.slabs.items (inl refl) kept _ refl)
]

-- The empty slabs that the loop leaves.
one_left :
    (os : Platform) (m : Memory) (items : List ℕ) (o : Object SizeClass) (r' : ℕ)
    (o' : Object SizeClass)
    → Swept os m [] items null o r' o'
    → (count_if (λ s. is_empty s m) o'.self.slabs.items
        ≡ min 1 (count_if (λ s. is_empty s m) items))
      × (r' ≡ null → count_if (λ s. is_empty s m) items ≡ 0)
one_left os m items o r' o' h =
    let total : count_if (λ s. is_empty s m) h.left + count_if (λ s. is_empty s m) h.dropped
        ≡ count_if (λ s. is_empty s m) items =
      sym (count_if-append (λ s. is_empty s m) h.left h.dropped)
      ∙ count_if-perm (λ s. is_empty s m) h.split in
    elim (ℕ_discrete r' null) [
      | yes e ↦ (
        rw h.items (
            omega (
              arith,
              total,
              h.counts,
              h.none_dropped e,
              one-null null refl,
              one-null r' e,
              h.all_empty,
            )),
        λ _. omega (
          arith,
          total,
          h.counts,
          h.none_dropped e,
          one-null null refl,
          one-null r' e,
          h.all_empty,
        ),
      )
      | no ne ↦ (
        rw h.items (omega (arith, total, h.counts, one-null null refl, one_slab r' ne)),
        λ e. absurd (ne e),
      )
    ]

-- When no slab of the class is null, the slabs left and the slabs given back are the slabs before;
-- those given back were empty and are unmapped; of the empty slabs exactly one is left, if there
-- was one; the current slab is null or one of those left, and not null when there was an empty one.
pub release_extra_empty_slabs-Released :
    (os : Platform) (o : Object SizeClass)
    → ((s : ℕ) → Mem s o.self.slabs.items → s ≢ null)
    → Returns (λ _ o'. Released os o o') (release_extra_empty_slabs os o)
unfolding release_extra_empty_slabs
release_extra_empty_slabs-Released os o slabs =
    Returns-seq _ (λ _ o'. Released os o o') (release_loop os (length o.self.slabs.items) 0 null o)
      _
      (release_loop-Swept os o.world.memory (length o.self.slabs.items) [] o.self.slabs.items null o
        refl refl slabs refl)
      λ r' o' h.
        let left = one_left os o.world.memory o.self.slabs.items o r' o' h in
        let choice_ok =
          choose_current_lem r' o'.self o'.world.memory
            (elim h.kept [ inl e ↦ inl e | inr k ↦ inr (subst (λ l. Mem r' l) (sym h.items) k) ]) in
        record {
          dropped = h.dropped;
          split = subst (λ l. Perm (l ++ h.dropped) o.self.slabs.items) (sym h.items) h.split;
          all_empty = h.all_empty;
          one_kept = left.0;
          current_owned = choice_ok.0;
          current_set = λ some_empty. choice_ok.1 (λ e. some_empty (left.1 e));
          same_size = h.same_size;
          maps = record { same_memory = h.maps.same_memory; maps = h.maps.maps };
        }

-- What `deallocate` of block `ptr` of `slab` does: the block is back on its slab, and when that
-- slab is empty by this, the empty slabs but one are given back.
pub data Deallocated (os : Platform) (slab ptr : ℕ) (o o' : Object SizeClass) : Type 0 where
  stays :
      is_empty slab (return_block slab ptr o.world.memory) ≡ false
      → o'.self ≡ o.self
      → o'.world ≡ with_memory (return_block slab ptr) o.world
      → Deallocated os slab ptr o o'
  empties :
      is_empty slab (return_block slab ptr o.world.memory) ≡ true
      → Released os (object o.self (with_memory (return_block slab ptr) o.world)) o'
      → Deallocated os slab ptr o o'

-- A block whose header names a slab goes back on that slab's free list. If the slab is then not
-- empty nothing else changes; if it is empty, the empty slabs but one are given back.
pub deallocate-Deallocated :
    (os : Platform) (o : Object SizeClass) (slab ptr : ℕ)
    → (o.world.memory.block ptr).raw_ptr ≡ slab
    → slab ≢ null
    → ((s : ℕ) → Mem s o.self.slabs.items → s ≢ null)
    → Returns (λ _ o'. Deallocated os slab ptr o o') (deallocate os ptr o)
unfolding deallocate free_block
deallocate-Deallocated os o slab ptr owner ne slabs =
    let owned : (slab == null) ≡ false = ground arith in
    rw (owner, owned)
      (elim (Bool-cases (is_empty slab (return_block slab ptr o.world.memory))) [
        | inl empty ↦ rw empty (
            Returns-mono
              (λ _ o'. Released os (object o.self (with_memory (return_block slab ptr) o.world)) o')
              (λ _ o'. Deallocated os slab ptr o o') _
              (release_extra_empty_slabs-Released os
                (object o.self (with_memory (return_block slab ptr) o.world)) slabs)
              (λ _ o' h. empties empty h))
        | inr full ↦ rw full (stays full refl refl)
      ])
