-- ===== src/SizeClass/Back.antt =====
-- A block put back on its slab, in a size class whose slabs are well formed.
use mathlib.Core.List.{Mem, mem-append_right, mem-cons_self, Perm, map-append, Permᴰ}
use mathlib.Core.List.Perm
use numa_pmr.Base.{
  ℕ, ◌≤◌, ◌≡◌, ◌≢◌, ◌⊎◌, refl, sym, ap, subst, ◌∙◌, arith, List, ◌∷◌, ◌++◌, map, length, All, suc,
  ℕ_discrete,
}
use numa_pmr.Machine.Word.{null}
use numa_pmr.Machine.Platform.{Platform}
use numa_pmr.Machine.Memory.{Memory, with_memory}
use numa_pmr.Machine.Monad.{Returns, Returns-mono}
use numa_pmr.Machine.Object.{Object, object}
use numa_pmr.Config.Small.{small_large_threshold}
use numa_pmr.Slab.{return_block}
use numa_pmr.Slab.FreeList.{IsSlab}
use numa_pmr.Slab.Blocks.{return_block-IsSlab}
use numa_pmr.Slab.Frame.{Apart, Inside, IsSlab-Inside}
use numa_pmr.SizeClass.{SizeClass, deallocate}
use numa_pmr.SizeClass.Contents.{
  Piece, IsPiece, IsClass, in_use, All-append, append-All, around, AllApart-replace, in_use-append,
  in_use-perm, All-zip,
}
use numa_pmr.Block.{to_user_ptr}
use numa_pmr.SizeClass.Beside.{return_block-link, Frame, return_block-IsPiece, return_block-block}
use numa_pmr.SizeClass.Existing.{Away}
use numa_pmr.SizeClass.Used.{All-Perm}
use numa_pmr.SizeClass.Keep.{Deallocated, stays, empties, deallocate-Deallocated}
use mathlib.Core.Logic.{∥∥₁_elim}
use mathlib.Core.HLevel.{hedberg}
use numa_pmr.SizeClass.Holds.{release-Holds}

length-Permᴰ : {A : Type 0} {xs ys : List A} → Permᴰ xs ys → length xs ≡ length ys
length-Permᴰ Permᴰ.nil = refl
length-Permᴰ (Permᴰ.cons e d) = ap suc (length-Permᴰ d)
length-Permᴰ (Permᴰ.swap e1 e2) = refl
length-Permᴰ (Permᴰ.trans d1 d2) = length-Permᴰ d1 ∙ length-Permᴰ d2

length-Perm : {xs ys : List ℕ} → Perm xs ys → length xs ≡ length ys
length-Perm {xs} {ys} p = ∥∥₁_elim p (hedberg ℕ_discrete (length xs) (length ys)) length-Permᴰ

-- The blocks in use of a slab in another order.
IsSlab-Perm :
    {slab n : ℕ} {free used used' : List ℕ} {m : Memory}
    → Perm used' used
    → IsSlab slab n free used m
    → IsSlab slab n free used' m
IsSlab-Perm {free = free} p v = record {
  chain = v.chain;
  free_count = v.free_count;
  capacity = v.capacity;
  total = omega (arith, v.total, length-Perm p);
  all_blocks = Perm.trans (Perm.append_left free p) v.all_blocks;
}

-- The class with the block `x` out of use. The slabs apart from those of the class are as before, and
-- apart from those that it has now; no block header has changed,
-- nor a link but the block's.
pub record Given (n x : ℕ) (before : List Piece) (m0 : Memory) (o' : Object SizeClass)
    : Type 0 where
  pub pieces : List Piece
  pub class : IsClass n pieces o'.self o'.world.memory
  pub one_less : Perm (x ∷ in_use pieces) (in_use before)
  pub frame : Frame (Away before) m0 o'.world.memory
  pub away : (t : ℕ) → Away before t → Away pieces t
  pub headers : o'.world.memory.block ≡ m0.block
  pub links : (y : ℕ) → y ≢ x → o'.world.memory.link (to_user_ptr y) ≡ m0.link (to_user_ptr y)

module _ {n : ℕ} (small : n ≤ small_large_threshold) (pre post : List Piece) (s : Piece) (x : ℕ)
    (used : List ℕ) (o : Object SizeClass) (v : IsClass n (pre ++ s ∷ post) o.self o.world.memory)
    (in_slab : Perm (x ∷ used) s.used) where
  abbrev m : Memory
  m = o.world.memory

  abbrev m' : Memory
  m' = return_block s.slab x o.world.memory

  abbrev after : Piece
  after = record { slab = s.slab; free = x ∷ s.free; used = used }

  each-IsPiece : All (IsPiece n m) pre × (IsPiece n m s × All (IsPiece n m) post)
  each-IsPiece = All-append (IsPiece n m) pre (s ∷ post) v.each

  this_slab : IsSlab s.slab n s.free (x ∷ used) m
  this_slab = IsSlab-Perm in_slab each-IsPiece.1.0.1

  inside : Inside s.slab x
  inside =
      IsSlab-Inside each-IsPiece.1.0.0 small x this_slab (mem-append_right s.free mem-cons_self)

  kept :
      (l : List Piece)
      → All (IsPiece n m) l
      → All (λ t. Apart s.slab t.slab) l
      → All (IsPiece n m') l
  kept l =
      All-zip (IsPiece n m) (λ t. Apart s.slab t.slab) (IsPiece n m') l
        (λ t v' apart. return_block-IsPiece s.slab n small t apart m v' x inside)

  -- The headers of the blocks in use of this slab name it.
  owners : All (λ y. (m.block y).raw_ptr ≡ s.slab) (x ∷ used)
  owners =
      All-Perm (λ y. (m.block y).raw_ptr ≡ s.slab) s.used (x ∷ used)
        (λ y i. (Perm.mem_iff in_slab).0 i) each-IsPiece.1.0.2

  after-IsPiece : IsPiece n m' after
  after-IsPiece = (
    each-IsPiece.1.0.0,
    return_block-IsSlab each-IsPiece.1.0.0 small this_slab,
    rw (return_block-block s.slab x m) owners.1,
  )

  same_slabs : map (λ t. t.slab) (pre ++ after ∷ post) ≡ map (λ t. t.slab) (pre ++ s ∷ post)
  same_slabs =
      map-append (λ (t : Piece). t.slab) pre (after ∷ post)
      ∙ sym (map-append (λ (t : Piece). t.slab) pre (s ∷ post))

  returned : IsClass n (pre ++ after ∷ post) o.self m'
  returned =
      let (left, right) =
        All-append (λ t. Apart s.slab t.slab) pre post (around pre s post v.apart) in
      record {
        size = v.size;
        items = v.items ∙ sym same_slabs;
        each =
            append-All (IsPiece n m') pre (after ∷ post) (kept pre each-IsPiece.0 left)
              (after-IsPiece, kept post each-IsPiece.1.1 right);
        apart = AllApart-replace pre s after post refl v.apart;
        current =
            subst (λ l. (o.self.current ≡ null) ⊎ Mem o.self.current l) (sym same_slabs) v.current;
      }

  one_out : Perm (x ∷ in_use (pre ++ after ∷ post)) (in_use (pre ++ s ∷ post))
  unfolding in_use
  one_out =
      let s'' : Piece = record { slab = s.slab; free = s.free; used = x ∷ used } in
      Perm.trans (Perm.symm (in_use-perm pre post after s'' x refl)) (
        subst (λ l. Perm l (in_use (pre ++ s ∷ post))) (sym (in_use-append pre (s'' ∷ post)))
          (subst (λ l. Perm (in_use pre ++ ((x ∷ used) ++ in_use post)) l)
            (sym (in_use-append pre (s ∷ post)))
            (Perm.append_left (in_use pre) (Perm.append_right (in_use post) in_slab))))

  Away-after : (t : ℕ) → Away (pre ++ s ∷ post) t → Away (pre ++ after ∷ post) t
  Away-after t h =
      let (l, r) = All-append (λ u. Apart u.slab t) pre (s ∷ post) h in
      append-All (λ u. Apart u.slab t) pre (after ∷ post) l r

  Frame-after : Frame (Away (pre ++ s ∷ post)) m m'
  Frame-after k t fits a v' =
      return_block-IsPiece s.slab k fits t
        ((All-append (λ u. Apart u.slab t.slab) pre (s ∷ post) a).1.0) m v' x inside

  pub given :
      (os : Platform) (o' : Object SizeClass)
      → Deallocated os s.slab x o o'
      → Given n x (pre ++ s ∷ post) m o'
  given os o' (stays full same world) = record {
    pieces = pre ++ after ∷ post;
    class = rw (same, world) returned;
    one_less = one_out;
    frame = rw world Frame-after;
    away = Away-after;
    headers = rw world (return_block-block s.slab x m);
    links = λ y ne. rw world (return_block-link s.slab x y m ne);
  }
  given os o' (empties empty r) =
      let h =
        release-Holds small os (pre ++ after ∷ post)
          (object o.self (with_memory (return_block s.slab x) o.world)) o' returned r in
      record {
        pieces = h.pieces;
        class = h.class;
        one_less = Perm.trans (Perm.cons x h.same_used) one_out;
        frame =
            subst (λ mem. Frame (Away (pre ++ s ∷ post)) m mem) (sym r.maps.same_memory)
              Frame-after;
        away = λ t a. h.away t (Away-after t a);
        headers =
            ap (λ (mem : Memory). mem.block) r.maps.same_memory ∙ return_block-block s.slab x m;
        links = λ y ne.
            ap (λ (mem : Memory). mem.link (to_user_ptr y)) r.maps.same_memory
            ∙ return_block-link s.slab x y m ne;
      }

  pub split-Given :
      (os : Platform)
      → ((a : ℕ) → Mem a o.self.slabs.items → a ≢ null)
      → Returns (λ _ o'. Given n x (pre ++ s ∷ post) m o') (deallocate os x o)
  split-Given os mapped =
      Returns-mono (λ _ o'. Deallocated os s.slab x o o') _ (deallocate os x o)
        (deallocate-Deallocated os o s.slab x owners.0
          (λ e. absurd (omega (arith, each-IsPiece.1.0.0.ne_null, e))) mapped)
        (λ _ o' d. given os o' d)

  pub split_owner : (m.block x).raw_ptr ≡ s.slab
  split_owner = owners.0

  pub split_back :
      Given n x (pre ++ s ∷ post) m (object o.self (with_memory (return_block s.slab x) o.world))
  split_back = record {
    pieces = pre ++ after ∷ post;
    class = returned;
    one_less = one_out;
    frame = Frame-after;
    away = Away-after;
    headers = return_block-block s.slab x m;
    links = λ y ne. return_block-link s.slab x y m ne;
  }
