-- ===== src/SizeClass/Existing.antt =====
-- `allocate_existing`: the current slab, then a scan of the slabs for one with a free block.
use numa_pmr.Base.{
  ℕ, ◌≤◌, ◌≡◌, ◌≢◌, ◌⊎◌, inl, inr, refl, sym, subst, arith, List, [], ◌∷◌, ◌++◌, map, All, true,
  false, Option, some, none, Bool-cases,
}
use mathlib.Core.List.{Mem}
use numa_pmr.Machine.Word.{null}
use numa_pmr.Machine.Platform.{Platform}
use numa_pmr.Machine.Memory.{Memory, World}
use numa_pmr.Machine.Monad.{Returns, Ensures, Exception, Outcome, ok, throw, pure}
use numa_pmr.Machine.Object.{Object, outside}
use numa_pmr.Config.Small.{small_large_threshold}
use numa_pmr.Slab.{has_free, allocate_block, pop_block}
use numa_pmr.Slab.Layout.{IsBase}
use numa_pmr.Slab.FreeList.{IsSlab}
use numa_pmr.Slab.Blocks.{allocate_block_lem, has_free_iff}
use numa_pmr.SizeClass.{
  SizeClass, ClassM, first_free, current_usable, from_slabs, allocate_or, allocate_existing,
}
use numa_pmr.Slab.Frame.{Apart}
use numa_pmr.SizeClass.Contents.{Piece, IsPiece, IsClass, split_at, All-append, first_free_lem}
use numa_pmr.SizeClass.Take.{Handed, pop-Handed}

-- No slab has a free block.
abbrev pub AllFull : List Piece → Type 0
AllFull pieces = All (λ s. s.free ≡ []) pieces

-- All these slabs are apart from the one at `t`.
abbrev pub Away : List Piece → ℕ → Type 0
Away pieces t = All (λ s. Apart s.slab t) pieces

-- `allocate_block` on this slab hands a block of the class out.
pub record Ready (n : ℕ) (pieces : List Piece) (Beside : ℕ → Type 0) (c : SizeClass) (slab : ℕ)
    (w : World) : Type 0 where
  pub block : ℕ
  pub run : allocate_block slab w ≡ (ok block, record w { memory = pop_block slab block w.memory })
  pub handed :
      Handed n pieces Beside w.memory block
        (record c { current = slab })
        (pop_block slab block w.memory)

module _ {n : ℕ} (small : n ≤ small_large_threshold) where
  split-Ready :
      (pre post : List Piece) (s : Piece) (c : SizeClass) (w : World) (Beside : ℕ → Type 0)
      (free : List ℕ)
      → ((t : ℕ) → Beside t → Away (pre ++ s ∷ post) t)
      → s.free ≡ free
      → free ≢ []
      → IsClass n (pre ++ s ∷ post) c w.memory
      → Ready n (pre ++ s ∷ post) Beside c s.slab w
  split-Ready pre post s c w Beside [] beside e some_free v = absurd (some_free refl)
  split-Ready pre post s c w Beside (x ∷ free) beside e some_free v =
      let piece = (All-append (IsPiece n w.memory) pre (s ∷ post) v.each).1.0 in
      record {
        block = x;
        run = allocate_block_lem w (subst (λ l. IsSlab s.slab n l s.used w.memory) e piece.1);
        handed = pop-Handed small w.memory pre post s c v Beside beside x free e;
      }

  -- A slab of the class with a free block.
  pub slab-Ready :
      (slab : ℕ) (pieces : List Piece) (c : SizeClass) (w : World) (Beside : ℕ → Type 0)
      → ((t : ℕ) → Beside t → Away pieces t)
      → IsClass n pieces c w.memory
      → Mem slab (map (λ s. s.slab) pieces)
      → has_free slab w.memory ≡ true
      → Ready n pieces Beside c slab w
  slab-Ready slab pieces c w Beside beside v i free =
      let at = split_at slab pieces i in
      let v' = subst (λ l. IsClass n l c w.memory) at.whole v in
      let beside' : (t : ℕ) → Beside t → Away (at.pre ++ at.here ∷ at.post) t =
        λ t b. subst (λ l. Away l t) at.whole (beside t b) in
      let piece = (All-append (IsPiece n w.memory) at.pre (at.here ∷ at.post) v'.each).1.0 in
      let free' = subst (λ a. has_free a w.memory ≡ true) (sym at.slab_eq) free in
      let ready =
        split-Ready at.pre at.post at.here c w Beside at.here.free beside' refl
          ((has_free_iff piece.0 small at.here.free at.here.used piece.1).0 free') v' in
      subst (λ l. Ready n l Beside c slab w) (sym at.whole)
        (subst (λ a. Ready n (at.pre ++ at.here ∷ at.post) Beside c a w) at.slab_eq ready)

  nil_of_full :
      (s : Piece) (m : Memory) (free : List ℕ)
      → IsBase s.slab
      → IsSlab s.slab n free s.used m
      → has_free s.slab m ≡ false
      → free ≡ []
  nil_of_full s m [] b v full = refl
  nil_of_full s m (x ∷ free) b v full =
      absurd (ground (arith, full, (has_free_iff b small (x ∷ free) s.used v).1 (λ e. cc)))

  none-AllFull :
      (pieces : List Piece) (m : Memory)
      → All (IsPiece n m) pieces
      → first_free (map (λ s. s.slab) pieces) m ≡ none
      → AllFull pieces
  unfolding first_free
  none-AllFull [] m h e = tt
  none-AllFull (s ∷ rest) m h e = elim (Bool-cases (has_free s.slab m)) [
    | inl free ↦ let found : ◌≡◌ {A = Option ℕ} (some s.slab) none = rw free at e in absurd (cc)
    | inr full ↦ (nil_of_full s m s.free h.0.0 h.0.1 full, none-AllFull rest m h.1 (rw full at e))
  ]

  module _ (os : Platform) (P : ℕ → Object SizeClass → Type 0)
      (Q : Exception → Object SizeClass → Type 0) (pieces : List Piece) (o : Object SizeClass)
      (v : IsClass n pieces o.self o.world.memory) (Beside : ℕ → Type 0)
      (beside : (t : ℕ) → Beside t → Away pieces t)
      (handed : (p : ℕ) (o' : Object SizeClass)
        → Handed n pieces Beside o.world.memory p o'.self o'.world.memory
        → P p o') where
    allocate_block-Ensures :
        (slab : ℕ)
        → Ready n pieces Beside o.self slab o.world
        → Ensures P Q
            (outside (allocate_block slab) (record o { self = record (o.self) { current = slab } }))
    allocate_block-Ensures slab r = rw r.run (handed r.block _ r.handed)

    scan-Ensures :
        (otherwise : ClassM ℕ) (found : Option ℕ)
        → first_free o.self.slabs.items o.world.memory ≡ found
        → (AllFull pieces → Ensures P Q (otherwise o))
        → Ensures P Q (from_slabs os found otherwise o)
    unfolding from_slabs
    scan-Ensures otherwise none e full = full (
        none-AllFull pieces o.world.memory v.each
          (subst (λ l. first_free l o.world.memory ≡ none) v.items e))
    scan-Ensures otherwise (some slab) e full =
        let (i, free) = first_free_lem o.self.slabs.items o.world.memory slab e in
        allocate_block-Ensures slab (
          slab-Ready slab pieces o.self o.world Beside beside v (subst (λ l. Mem slab l) v.items i)
            free)

    usable_lem :
        (c : SizeClass) (m : Memory)
        → current_usable c m ≡ true
        → (c.current ≢ null) × (has_free c.current m ≡ true)
    unfolding current_usable
    usable_lem c m e = ground (arith, e)

    -- The shared body: a block is handed out, or every slab is full and `otherwise` runs.
    pub allocate_or-Ensures :
        (otherwise : ClassM ℕ)
        → (AllFull pieces → Ensures P Q (otherwise o))
        → Ensures P Q (allocate_or os otherwise o)
    unfolding allocate_or
    allocate_or-Ensures otherwise full = elim (Bool-cases (current_usable o.self o.world.memory)) [
      | inl usable ↦
          let (ne, free) = usable_lem o.self o.world.memory usable in
          let i : Mem o.self.current (map (λ s. s.slab) pieces) = elim v.current [
            | inl e ↦ absurd (ne e)
            | inr i ↦ i
          ] in
          rw usable (
            allocate_block-Ensures o.self.current
              (slab-Ready o.self.current pieces o.self o.world Beside beside v i free))
      | inr none_here ↦
          rw none_here
            (scan-Ensures otherwise (first_free o.self.slabs.items o.world.memory) refl full)
    ]

  Returns-of_Ensures :
      {A S : Type 0} (P : A → S → Type 0) (r : Outcome A × S) → Ensures P (λ e s. ⊥) r → Returns P r
  Returns-of_Ensures P (ok a, s) h = h
  Returns-of_Ensures P (throw e, s) h = h

  -- On a class whose slabs are well formed, `allocate_existing` hands out a block that was free, and
  -- all other block headers, and the slabs apart from those of the class, are as before; or it
  -- returns null, no slab has a free block, and nothing changes.
  pub allocate_existing-Handed :
      (os : Platform) (pieces : List Piece) (o : Object SizeClass)
      → IsClass n pieces o.self o.world.memory
      → Returns
          (λ p o'.
            Handed n pieces (Away pieces) o.world.memory p o'.self o'.world.memory
            ⊎ ((p ≡ null) × AllFull pieces × (o' ≡ o)))
          (allocate_existing os o)
  unfolding allocate_existing
  allocate_existing-Handed os pieces o v = Returns-of_Ensures _ (allocate_or os (pure null) o) (
      allocate_or-Ensures os _ (λ e o'. ⊥) pieces o v (Away pieces) (λ t h. h) (λ p o' h. inl h)
        (pure null) (λ full. inr (refl, full, refl)))
