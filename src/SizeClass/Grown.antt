-- ===== src/SizeClass/Grown.antt =====
-- A new slab in a size class: what `Slab::create` makes, and the class with it behind the others.
use native.Mathlib.Nat.{dvd_of_mod-eq-zero, mod-eq-zero_of_dvd, dvd_trans}
use mathlib.Core.List.{Mem, append-nil, map-append, mem-append_right, mem-cons_self, Perm}
use numa_pmr.Base.{
  ℕ, ◌+◌, ◌%◌, ◌^◌, ◌≤◌, ◌≡◌, inl, inr, sym, ap, subst, ◌∙◌, arith, List, [], ◌∷◌, ◌++◌, map, All,
  some, ℤ,
}
use numa_pmr.Machine.Platform.{Platform, MmapLaws}
use numa_pmr.Machine.Memory.{Memory, World}
use numa_pmr.Machine.Monad.{Ensures, Ensures-bind, Ensures-mono}
use numa_pmr.Config.Small.{small_large_threshold, slab_size}
use numa_pmr.VirtualMemory.{align_up, alloc_on_node}
use numa_pmr.VirtualMemory.Align.{le-align_up}
use numa_pmr.VirtualMemory.Mapping.{Fresh, Unchanged, alloc_on_node-Maps}
use numa_pmr.Slab.{create, init, capacity_for}
use numa_pmr.Slab.Layout.{IsBase}
use numa_pmr.Slab.FreeList.{IsSlab, blocks, init-IsSlab}
use numa_pmr.Slab.Frame.{Apart}
use numa_pmr.NodeLocal.{SlabVector}
use numa_pmr.SizeClass.{SizeClass}
use numa_pmr.SizeClass.Contents.{
  All-zip, Piece, IsPiece, AllApart, IsClass, in_use, in_use-append, append-All,
}
use numa_pmr.SizeClass.Beside.{Frame, init-IsPiece, init-block}
use numa_pmr.SizeClass.Take.{Handed}

-- What a slab just made is, and what it leaves alone.
module _ (os : Platform) (laws : MmapLaws os) (pages : os.page_size % 16 ≡ 0)
    (page_fits : slab_size + os.page_size ≤ 2 ^ 64) where
  pub new_slab-IsBase : (w w' : World) (p : ℕ) → Fresh os slab_size w p w' → IsBase p
  new_slab-IsBase w w' p f =
      let covers = le-align_up slab_size os.page_size laws.page_pos page_fits in
      record {
        ne_null = omega (arith, laws.ne_null w.trace _ p f.1);
        aligned = mod-eq-zero_of_dvd _ (
            dvd_trans _ (dvd_of_mod-eq-zero _ pages)
              (dvd_of_mod-eq-zero _ (laws.aligned w.trace _ p f.1)));
        in_space = omega (arith, laws.in_space w.trace _ p f.1, covers);
      }

  module _ {n : ℕ} (small : n ≤ small_large_threshold) (node : ℤ) (w : World) (pieces : List Piece)
      (each : All (IsPiece n w.memory) pieces)
      (apart : (p : ℕ)
        → os.mmap_result w.trace (align_up slab_size os.page_size) ≡ some p
        → All (λ s. Apart p s.slab) pieces) where
    -- The new slab `p`, with every block free, beside the slabs of the class.
    pub record Made (p : ℕ) (m : Memory) : Type 0 where
      pub mapped : os.mmap_result w.trace (align_up slab_size os.page_size) ≡ some p
      pub base : IsBase p
      pub slab : IsSlab p n (blocks p n (capacity_for p n)) [] m
      pub away : All (λ s. Apart p s.slab) pieces
      pub kept : All (IsPiece n m) pieces
      pub frame : Frame (Apart p) w.memory m
      pub headers : m.block ≡ w.memory.block

    pub create-Made :
        Ensures (λ p w'. Made p w'.memory) (λ e w'. w'.memory ≡ w.memory) (create os n node w)
    unfolding create
    create-Made =
        Ensures-bind (Fresh os slab_size w) (λ p w'. Made p w'.memory)
          (λ e w'. w'.memory ≡ w.memory) (alloc_on_node os slab_size node w) _
          (Ensures-mono (Fresh os slab_size w) (Fresh os slab_size w) (Unchanged w)
            (λ e w'. w'.memory ≡ w.memory) (alloc_on_node os slab_size node w)
            (alloc_on_node-Maps os laws slab_size (omega arith) w node) (λ p w' f. f)
            (λ e w' u. u.0.same_memory))
          λ p w' f.
            let b = new_slab-IsBase w w' p f in
            let away = apart p f.1 in
            rw f.0.same_memory (record {
              mapped = f.1;
              base = b;
              slab = init-IsSlab p n b small node w.memory;
              away = away;
              kept =
                  All-zip (IsPiece n w.memory) (λ s. Apart p s.slab)
                    (IsPiece n (init p n node w.memory)) pieces
                    (λ s v a. init-IsPiece p n small s a w.memory v n node b small) each away;
              frame = λ k t fits a v. init-IsPiece p k fits t a w.memory v n node b small;
              headers = init-block p n node w.memory;
            })

-- The class with the new slab behind the others.
AllApart-snoc :
    (t : Piece) (l : List Piece)
    → AllApart l
    → All (λ s. Apart t.slab s.slab) l
    → AllApart (l ++ t ∷ [])
AllApart-snoc t [] h a = (tt, tt)
AllApart-snoc t (s ∷ l) h a = (
  append-All (λ u. Apart s.slab u.slab) l (t ∷ []) h.0
      (elim a.0 [ inl le ↦ inr le | inr le ↦ inl le ], tt),
  AllApart-snoc t l h.1 a.1,
)

in_use-snoc : (t : Piece) (l : List Piece) → t.used ≡ [] → in_use (l ++ t ∷ []) ≡ in_use l
unfolding in_use
in_use-snoc t l e =
    in_use-append l (t ∷ []) ∙ ap (λ u. in_use l ++ (u ++ [])) e ∙ append-nil (in_use l)

-- A block of a class that has just got a slab, as one of the class before it.
pub Handed-snoc :
    {n x : ℕ} {c : SizeClass} {m0 m1 m : Memory} (Beside : ℕ → Type 0) (t : Piece) (l : List Piece)
    → t.used ≡ []
    → ((a : ℕ) → Beside a → Apart t.slab a)
    → Frame (Apart t.slab) m0 m1
    → m1.block ≡ m0.block
    → Handed n (l ++ t ∷ []) Beside m1 x c m
    → Handed n l Beside m0 x c m
Handed-snoc {x = x} {m = m} Beside t l e apart frame headers h = record {
  pieces = h.pieces;
  class = h.class;
  fresh = subst (λ u. ¬ Mem x u) (in_use-snoc t l e) h.fresh;
  one_more = subst (λ u. Perm (in_use h.pieces) (x ∷ u)) (in_use-snoc t l e) h.one_more;
  frame = λ k s fits b v. h.frame k s fits b (frame k s fits (apart s.slab b) v);
  away = h.away;
  headers = λ y ne. h.headers y ne ∙ ap (λ f. f y) headers;
}

-- A slab with every block free.
abbrev pub new_piece : (n p : ℕ) → Piece
new_piece n p = record { slab = p; free = blocks p n (capacity_for p n); used = [] }

module _ (n p : ℕ) (pieces : List Piece) where
  pub grown-IsClass :
      (c : SizeClass) (items : List ℕ) (slabs : SlabVector) (m : Memory)
      → c.block_size ≡ n
      → IsPiece n m (new_piece n p)
      → All (IsPiece n m) pieces
      → AllApart pieces
      → All (λ s. Apart p s.slab) pieces
      → items ≡ map (λ s. s.slab) pieces
      → slabs.items ≡ items ++ p ∷ []
      → IsClass n (pieces ++ new_piece n p ∷ []) (record c { current = p; slabs = slabs }) m
  grown-IsClass c items slabs m size new each apart away e app =
      let split = map-append (λ (s : Piece). s.slab) pieces (new_piece n p ∷ []) in
      record {
        size = size;
        items = app ∙ ap (λ l. l ++ p ∷ []) e ∙ sym split;
        each = append-All (IsPiece n m) pieces (new_piece n p ∷ []) each (new, tt);
        apart = AllApart-snoc (new_piece n p) pieces apart away;
        current = inr (
            subst (λ l. Mem p l) (sym split)
              (mem-append_right (map (λ (s : Piece). s.slab) pieces) mem-cons_self));
      }
