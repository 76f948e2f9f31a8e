-- ===== src/SizeClass/GivenAll.antt =====
-- `deallocate_batch` on a class whose slabs are well formed: the blocks of the batch are out of use.
use mathlib.Core.List.{Mem, Perm, Nodup, mem-cons_self, mem-append_left, mem-cons_of_mem}
use mathlib.Core.List.Perm
use numa_pmr.Base.{
  ℕ, ◌<◌, ◌≤◌, ◌≡◌, ◌≢◌, refl, sym, ap, subst, ◌∙◌, Bool, true, false, ◌||◌, List, [], ◌∷◌, ◌++◌,
  length, All, if◌then◌else◌,
}
use numa_pmr.Machine.Word.{null}
use numa_pmr.Machine.Platform.{Platform}
use numa_pmr.Machine.Memory.{Memory, with_memory}
use numa_pmr.Machine.Monad.{Returns, Returns-seq, Returns-mono, pure}
use numa_pmr.Machine.Object.{Object, object}
use numa_pmr.Block.{to_user_ptr}
use numa_pmr.Config.Small.{small_large_threshold}
use numa_pmr.Slab.{return_block, is_empty, free_block}
use numa_pmr.Slab.Chain.{IsChain}
use numa_pmr.SizeClass.{SizeClass, deallocate_batch, release_extra_empty_slabs}
use numa_pmr.SizeClass.Contents.{Piece, IsClass, in_use}
use numa_pmr.SizeClass.Beside.{Frame}
use numa_pmr.SizeClass.Existing.{Away}
use numa_pmr.SizeClass.Batch.{free_each, deallocate_batch-free_each}
use numa_pmr.SizeClass.Given.{return_block-Given, owner_of, mapped_slabs}
use numa_pmr.SizeClass.Holds.{release-Holds}
use numa_pmr.SizeClass.Keep.{release_extra_empty_slabs-Released}

-- The class with the blocks `xs` out of use and `rest` still in use. The slabs apart from those of
-- the class are as before, and apart from those that it has now; no block header has changed, and of
-- the links only those of these blocks.
pub record GivenAll (n : ℕ) (xs rest : List ℕ) (before : List Piece) (m0 : Memory) (c : SizeClass)
    (m : Memory) : Type 0 where
  pub pieces : List Piece
  pub class : IsClass n pieces c m
  pub left : Perm (in_use pieces) rest
  pub frame : Frame (Away before) m0 m
  pub away : (t : ℕ) → Away before t → Away pieces t
  pub headers : m.block ≡ m0.block
  pub links : (y : ℕ) → ¬ Mem y xs → m.link (to_user_ptr y) ≡ m0.link (to_user_ptr y)

module _ {n : ℕ} (small : n ≤ small_large_threshold) where
  free_each-GivenAll :
      (xs rest : List ℕ) (saw : Bool) (pieces : List Piece) (o : Object SizeClass)
      → IsClass n pieces o.self o.world.memory
      → Perm (xs ++ rest) (in_use pieces)
      → Returns
          (λ _ o'. GivenAll n xs rest pieces o.world.memory o'.self o'.world.memory)
          (free_each xs saw o)
  unfolding free_each free_block
  free_each-GivenAll [] rest saw pieces o v p = record {
    pieces = pieces;
    class = v;
    left = Perm.symm p;
    frame = λ k t fits a v'. v';
    away = λ t a. a;
    headers = refl;
    links = λ y out. refl;
  }
  free_each-GivenAll (x ∷ xs) rest saw pieces o v p =
      let g = return_block-Given small pieces x o v ((Perm.mem_iff p).0 mem-cons_self) in
      let slab = (o.world.memory.block x).raw_ptr in
      let o1 = object o.self (with_memory (return_block slab x) o.world) in
      Returns-mono (λ _ o'. GivenAll n xs rest g.pieces o1.world.memory o'.self o'.world.memory) _
        (free_each xs (saw || is_empty slab o1.world.memory) o1)
        (free_each-GivenAll xs rest (saw || is_empty slab o1.world.memory) g.pieces o1 g.class
          (Perm.cons_inv (Perm.trans p (Perm.symm g.one_less))))
        λ _ o' h. record {
          pieces = h.pieces;
          class = h.class;
          left = h.left;
          frame = λ k t fits a v'. h.frame k t fits (g.away t.slab a) (g.frame k t fits a v');
          away = λ t a. h.away t (g.away t a);
          headers = h.headers ∙ g.headers;
          links = λ y out.
              h.links y (λ i. out (mem-cons_of_mem x i))
              ∙ g.links y (λ e. out (subst (λ z. Mem y (z ∷ xs)) e mem-cons_self));
        }

  released :
      (os : Platform) (saw : Bool) (xs rest : List ℕ) (before : List Piece) (m0 : Memory)
      (o : Object SizeClass)
      → GivenAll n xs rest before m0 o.self o.world.memory
      → Returns
          (λ _ o'. GivenAll n xs rest before m0 o'.self o'.world.memory)
          ((if saw then release_extra_empty_slabs os else pure tt) o)
  released os false xs rest before m0 o g = g
  released os true xs rest before m0 o g =
      Returns-mono _ _ (release_extra_empty_slabs os o)
        (release_extra_empty_slabs-Released os o (mapped_slabs g.pieces o g.class))
        λ _ o' r.
          let h = release-Holds small os g.pieces o o' g.class r in
          record {
            pieces = h.pieces;
            class = h.class;
            left = Perm.trans h.same_used g.left;
            frame = subst (λ m. Frame (Away before) m0 m) (sym r.maps.same_memory) g.frame;
            away = λ t a. h.away t (g.away t a);
            headers = ap (λ (m : Memory). m.block) r.maps.same_memory ∙ g.headers;
            links = λ y out.
                ap (λ (m : Memory). m.link (to_user_ptr y)) r.maps.same_memory ∙ g.links y out;
          }

  owners_ne :
      (xs : List ℕ) (pieces : List Piece) (o : Object SizeClass)
      → IsClass n pieces o.self o.world.memory
      → ((x : ℕ) → Mem x xs → Mem x (in_use pieces))
      → All (λ x. (o.world.memory.block x).raw_ptr ≢ null) xs
  owners_ne [] pieces o v sub = tt
  owners_ne (x ∷ xs) pieces o v sub = (
    owner_of pieces x o v (sub x mem-cons_self),
    owners_ne xs pieces o v (λ y i. sub y (mem-cons_of_mem x i)),
  )

  -- On a class whose slabs are well formed, `deallocate_batch` of a list of blocks in use, each once,
  -- with more fuel than blocks, returns and takes these blocks and no others out of use; the class
  -- stays well formed, also when empty slabs are given back. No block header changes, nor does any
  -- slab apart from those of the class, and no link but those of these blocks.
  pub deallocate_batch-GivenAll :
      (os : Platform) (fuel head : ℕ) (xs rest : List ℕ) (pieces : List Piece)
      (o : Object SizeClass)
      → IsClass n pieces o.self o.world.memory
      → Perm (xs ++ rest) (in_use pieces)
      → IsChain o.world.memory.link head xs
      → Nodup xs
      → length xs < fuel
      → Returns
          (λ _ o'. GivenAll n xs rest pieces o.world.memory o'.self o'.world.memory)
          (deallocate_batch os fuel head o)
  deallocate_batch-GivenAll os fuel head xs rest pieces o v p chain once enough =
      rw
        (deallocate_batch-free_each os fuel head xs o enough chain once
          (owners_ne xs pieces o v (λ x i. (Perm.mem_iff p).0 (mem-append_left rest i))))
        (Returns-seq (λ _ o'. GivenAll n xs rest pieces o.world.memory o'.self o'.world.memory) _
          (free_each xs false o) _ (free_each-GivenAll xs rest false pieces o v p)
          (λ saw o1 g. released os saw xs rest pieces o.world.memory o1 g))
