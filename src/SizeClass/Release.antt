-- ===== src/SizeClass/Release.antt =====
-- The loop that gives back the empty slabs of a size class but one.
use mathlib.Core.List.{Perm, perm_middle, Mem, append_assoc, mem-cons_self, mem-cons_of_mem}
use mathlib.Core.List.Perm
use numa_pmr.Base.{
  length-append, subst, ◌∙◌, ℕ, zero, suc, ◌+◌, ◌≡◌, ◌≢◌, refl, sym, ap, arith, List, [], ◌∷◌, ◌++◌,
  length, get_or, Bool, true, false, not, if◌then◌else◌, ◌==◌, ◌⊎◌, inl, inr,
}
use numa_pmr.Machine.Word.{null}
use numa_pmr.Machine.Platform.{Platform, unmap}
use numa_pmr.Machine.Memory.{Memory}
use numa_pmr.Machine.Monad.{Returns-mono, Returns, Returns-seq, ◌>>◌}
use numa_pmr.Machine.Object.{Object, Returns-outside}
use numa_pmr.Config.Small.{slab_size}
use numa_pmr.VirtualMemory.{align_up, release}
use numa_pmr.VirtualMemory.Mapping.{Maps, release-Maps}
use numa_pmr.Slab.{is_empty}
use numa_pmr.SizeClass.{drop_last, swap_remove, SizeClass, drop_slab, release_loop}
use numa_pmr.SizeClass.Vector.{
  count_if, get_or-append, rotate_last, rotate_last-perm, swap_remove-append,
}

-- The ranges mapped after some slabs are given back, the first one first.
unfoldable pub unmap_all : Platform → List ℕ → List (ℕ × ℕ) → List (ℕ × ℕ)
unmap_all os [] l = l
unmap_all os (s ∷ rest) l = unmap_all os rest (unmap s (align_up slab_size os.page_size) l)

-- Whether there is a slab, as a number.
unfoldable pub one : ℕ → ℕ
one r = if r == null then 0 else 1

pub one-null : (r : ℕ) → r ≡ null → one r ≡ 0
unfolding one
one-null r e = ground arith

pub one_slab : (r : ℕ) → r ≢ null → one r ≡ 1
unfolding one
one_slab r ne = ground arith

-- The rest of the loop, when the slabs `pre` are passed, `rest` are left and `r` is kept: it ends
-- with `r'` kept.
pub record Swept (os : Platform) (m : Memory) (pre rest : List ℕ) (r : ℕ) (o : Object SizeClass)
    (r' : ℕ) (o' : Object SizeClass) : Type 0 where
  pub left : List ℕ
  pub dropped : List ℕ
  pub items : o'.self.slabs.items ≡ pre ++ left
  pub split : Perm (left ++ dropped) rest
  pub all_empty : count_if (λ s. is_empty s m) dropped ≡ length dropped
  pub counts : count_if (λ s. is_empty s m) left + one r ≡ one r'
  pub none_dropped : r' ≡ null → length dropped ≡ 0
  pub kept : (r' ≡ r) ⊎ Mem r' left
  pub same_size : o'.self.block_size ≡ o.self.block_size
  pub maps : Maps o.world o'.world (unmap_all os dropped)

module _ (os : Platform) (m : Memory) (pre rest : List ℕ) (s r : ℕ) (o : Object SizeClass) where
  pass_Swept :
      (r' : ℕ) (o' : Object SizeClass)
      → is_empty s m ≡ false
      → Swept os m (pre ++ s ∷ []) rest r o r' o'
      → Swept os m pre (s ∷ rest) r o r' o'
  unfolding count_if
  pass_Swept r' o' full h = record {
    left = s ∷ h.left;
    dropped = h.dropped;
    items = h.items ∙ append_assoc pre (s ∷ []) h.left;
    split = Perm.cons s h.split;
    all_empty = h.all_empty;
    counts = rw full (omega (arith, h.counts));
    none_dropped = h.none_dropped;
    kept = elim h.kept [ inl e ↦ inl e | inr e ↦ inr (mem-cons_of_mem s e) ];
    same_size = h.same_size;
    maps = h.maps;
  }

  keep_Swept :
      (r' : ℕ) (o' : Object SizeClass)
      → is_empty s m ≡ true
      → r ≡ null
      → s ≢ null
      → Swept os m (pre ++ s ∷ []) rest s o r' o'
      → Swept os m pre (s ∷ rest) r o r' o'
  unfolding count_if
  keep_Swept r' o' empty unset ne h = record {
    left = s ∷ h.left;
    dropped = h.dropped;
    items = h.items ∙ append_assoc pre (s ∷ []) h.left;
    split = Perm.cons s h.split;
    all_empty = h.all_empty;
    counts = rw empty (omega (arith, h.counts, one_slab s ne, one-null r unset));
    none_dropped = h.none_dropped;
    kept = elim h.kept [
      | inl e ↦ inr (subst (λ x. Mem x (s ∷ h.left)) (sym e) mem-cons_self)
      | inr e ↦ inr (mem-cons_of_mem s e)
    ];
    same_size = h.same_size;
    maps = h.maps;
  }

  drop_Swept :
      (o1 : Object SizeClass) (r' : ℕ) (o' : Object SizeClass)
      → is_empty s m ≡ true
      → r ≢ null
      → o1.self.block_size ≡ o.self.block_size
      → Maps o.world o1.world (unmap s (align_up slab_size os.page_size))
      → Swept os m pre (rotate_last rest) r o1 r' o'
      → Swept os m pre (s ∷ rest) r o r' o'
  unfolding count_if unmap_all
  drop_Swept o1 r' o' empty ne size m1 h = record {
    left = h.left;
    dropped = s ∷ h.dropped;
    items = h.items;
    split =
        Perm.trans (perm_middle h.left h.dropped)
          (Perm.cons s (Perm.trans h.split (rotate_last-perm rest)));
    all_empty = rw empty (omega (arith, h.all_empty));
    counts = h.counts;
    none_dropped = λ e. absurd (omega (arith, h.counts, one_slab r ne, one-null r' e));
    kept = h.kept;
    same_size = h.same_size ∙ size;
    maps = record {
      same_memory = h.maps.same_memory ∙ m1.same_memory;
      maps = h.maps.maps ∙ ap (unmap_all os h.dropped) m1.maps;
    };
  }

-- One round that gives a slab back.
drop_slab_lem :
    (os : Platform) (pre : List ℕ) (s : ℕ) (rest : List ℕ) (o : Object SizeClass)
    → o.self.slabs.items ≡ pre ++ s ∷ rest
    → s ≢ null
    → Returns
        (λ _ o1.
          (o1.self.slabs.items ≡ pre ++ rotate_last rest)
          × (o1.self.block_size ≡ o.self.block_size)
          × Maps o.world o1.world (unmap s (align_up slab_size os.page_size)))
        (drop_slab os (length pre) s o)
unfolding drop_slab
drop_slab_lem os pre s rest o e ne =
    Returns-outside (λ _ w'. Maps o.world w' (unmap s (align_up slab_size os.page_size))) _
      (record o {
        self = record (o.self) {
          current = if o.self.current == s then null else o.self.current;
          slabs = record (o.self.slabs) { items = swap_remove o.self.slabs.items (length pre) };
        };
      })
      (release os s slab_size o.world) (release-Maps os slab_size (omega arith) s o.world ne)
      λ _ w' m. (ap (λ l. swap_remove l (length pre)) e ∙ swap_remove-append pre s rest, refl, m)

drop_last-length : (y : ℕ) (ys : List ℕ) → length (drop_last (y ∷ ys)) ≡ length ys
unfolding drop_last
drop_last-length y [] = refl
drop_last-length y (z ∷ zs) = ap suc (drop_last-length z zs)

rotate_last-length : (l : List ℕ) → length (rotate_last l) ≡ length l
unfolding rotate_last
rotate_last-length [] = refl
rotate_last-length (y ∷ ys) = ap suc (drop_last-length y ys)

module _ (os : Platform) (m : Memory) where
  -- What the loop does in `n` rounds from the slab behind `pre` on.
  abbrev Sweeps : ℕ → Type 0
  Sweeps n =
      (pre rest : List ℕ) (r : ℕ) (o : Object SizeClass)
      → length rest ≡ n
      → o.self.slabs.items ≡ pre ++ rest
      → ((s : ℕ) → Mem s rest → s ≢ null)
      → o.world.memory ≡ m
      → Returns (Swept os m pre rest r o) (release_loop os n (length pre) r o)

  module _ (n : ℕ) (pre : List ℕ) (s : ℕ) (rest : List ℕ) (r : ℕ) (o : Object SizeClass)
      (len : length rest ≡ n) (items : o.self.slabs.items ≡ pre ++ s ∷ rest)
      (slabs : (x : ℕ) → Mem x (s ∷ rest) → x ≢ null) (same : o.world.memory ≡ m)
      (ih : Sweeps n) where
    next :
        (k : ℕ)
        → Returns (Swept os m (pre ++ s ∷ []) rest k o) (release_loop os n (length pre + 1) k o)
    next k =
        subst (λ i. Returns (Swept os m (pre ++ s ∷ []) rest k o) (release_loop os n i k o))
          (length-append pre (s ∷ []))
          (ih (pre ++ s ∷ []) rest k o len (items ∙ sym (append_assoc pre (s ∷ []) rest))
            (λ x e. slabs x (mem-cons_of_mem s e)) same)

    one_round :
        (b c : Bool)
        → is_empty s o.world.memory ≡ b
        → (r == null) ≡ c
        → Returns (Swept os m pre (s ∷ rest) r o) (
            if not b
            then release_loop os n (length pre + 1) r o
            else if c
            then release_loop os n (length pre + 1) s o
            else (drop_slab os (length pre) s >> release_loop os n (length pre) r) o)
    one_round false c empty unset =
        Returns-mono _ (Swept os m pre (s ∷ rest) r o) _ (next r)
          λ r' o' h. pass_Swept os m pre rest s r o r' o' (ap (is_empty s) (sym same) ∙ empty) h
    one_round true true empty unset =
        Returns-mono _ (Swept os m pre (s ∷ rest) r o) _ (next s) λ r' o' h.
          keep_Swept os m pre rest s r o r' o' (ap (is_empty s) (sym same) ∙ empty)
            (ground (arith, unset)) (slabs s mem-cons_self) h
    one_round true false empty unset =
        Returns-seq _ (Swept os m pre (s ∷ rest) r o) (drop_slab os (length pre) s o) _
          (drop_slab_lem os pre s rest o items (slabs s mem-cons_self))
          λ _ o1 d.
            Returns-mono _ (Swept os m pre (s ∷ rest) r o) _
              (ih pre (rotate_last rest) r o1 (rotate_last-length rest ∙ len) d.0
                (λ x e. slabs x (mem-cons_of_mem s ((Perm.mem_iff (rotate_last-perm rest)).0 e)))
                (d.2.same_memory ∙ same))
              λ r' o' h.
                drop_Swept os m pre rest s r o o1 r' o' (ap (is_empty s) (sym same) ∙ empty)
                  (λ e. absurd (ground (arith, unset))) d.1 d.2 h

  -- The loop from the slab behind `pre` on.
  pub release_loop-Swept : (n : ℕ) → Sweeps n
  unfolding release_loop count_if unmap_all
  release_loop-Swept zero pre [] r o len items slabs same = record {
    left = [];
    dropped = [];
    items = items;
    split = Perm.refl [];
    all_empty = refl;
    counts = omega arith;
    none_dropped = λ _. refl;
    kept = inl refl;
    same_size = refl;
    maps = record { same_memory = refl; maps = refl };
  }
  release_loop-Swept zero pre (s ∷ rest) r o len items slabs same = absurd (omega (arith, len))
  release_loop-Swept (suc n) pre [] r o len items slabs same = absurd (omega (arith, len))
  release_loop-Swept (suc n) pre (s ∷ rest) r o len items slabs same =
      rw (ap (λ l. get_or l (length pre) null) items ∙ get_or-append pre s rest null) (
        one_round n pre s rest r o (omega (arith, len)) items slabs same (release_loop-Swept n)
          (is_empty s o.world.memory) (r == null) refl refl)
