-- ===== src/SizeClass/Links.antt =====
-- The free-list links that `allocate` leaves alone: all but those of a new slab.
use numa_pmr.Base.{
  ◌==◌, ℕ, zero, suc, ◌+◌, ◌%◌, ◌^◌, ◌≤◌, ◌≡◌, ◌≢◌, inl, inr, refl, ap, ◌∙◌, arith, Bool-cases,
  Option, some, none, ℤ,
}
use numa_pmr.Machine.Platform.{Platform, MmapLaws}
use numa_pmr.Machine.Memory.{Memory, World, update_ne}
use numa_pmr.Machine.Monad.{throw, ok, pure, Outcome, Ensures, Ensures-bind, Ensures-mono}
use numa_pmr.Machine.Object.{Object, object, outside, outside-bind}
use numa_pmr.Block.{to_user_ptr}
use numa_pmr.Config.Small.{slab_size, small_large_threshold}
use numa_pmr.VirtualMemory.{align_up, alloc_on_node}
use numa_pmr.VirtualMemory.Mapping.{Fresh, Unchanged, alloc_on_node-Maps}
use numa_pmr.Slab.{
  create, init, init_loop, push_block, capacity_for, first_block, total_block_size, allocate_block,
  pop_block,
}
use numa_pmr.Slab.Layout.{IsBase, block_at, block_at-inside}
use numa_pmr.Slab.Frame.{Apart, Inside}
use numa_pmr.NodeLocal.{push_back}
use numa_pmr.NodeLocal.Keeps.{Appended, push_back-Appended}
use numa_pmr.SizeClass.{
  null, SizeClass, ClassM, allocate, allocate_or, allocate_existing, from_slabs, add_slab,
  first_free, current_usable,
}
use numa_pmr.SizeClass.Grown.{new_slab-IsBase}

-- Block `y` is not one of slab `s`, or that slab is apart.
payload_ne : (s t x y : ℕ) → Apart s t → Inside s x → Inside t y → to_user_ptr y ≢ to_user_ptr x
payload_ne s t x y (inl le) a b e = absurd (omega arith)
payload_ne s t x y (inr le) a b e = absurd (omega arith)

module _ (s n : ℕ) (base : IsBase s) (fits : n ≤ small_large_threshold) (t y : ℕ)
    (apart : Apart s t) (inside : Inside t y) where
  init_loop-link :
      (rounds i : ℕ) (m : Memory)
      → i + rounds ≤ capacity_for s n
      → (init_loop rounds i s (first_block s) (total_block_size n) m).link (to_user_ptr y)
        ≡ m.link (to_user_ptr y)
  unfolding init_loop push_block
  init_loop-link zero i m le = refl
  init_loop-link (suc r) i m le =
      let (low, high, _, _) = block_at-inside s n base fits i (omega arith) in
      init_loop-link r (i + 1) (push_block s (block_at s n i) m) (omega arith)
      ∙ update_ne m.link (to_user_ptr (block_at s n i)) (to_user_ptr y) (m.slab s).free_list
          (payload_ne s t (block_at s n i) y apart (omega arith, omega arith) inside)

  pub init-link :
      (node : ℤ) (m : Memory) → (init s n node m).link (to_user_ptr y) ≡ m.link (to_user_ptr y)
  unfolding init
  init-link node m = init_loop-link (capacity_for s n) 0 _ (omega arith)

-- The links in slabs apart from the next mapping are the same.
abbrev pub SameLinks : Platform → World → Memory → Type 0
SameLinks os w m' =
    (s y : ℕ)
    → ((p : ℕ) → os.mmap_result w.trace (align_up slab_size os.page_size) ≡ some p → Apart p s)
    → Inside s y
    → m'.link (to_user_ptr y) ≡ w.memory.link (to_user_ptr y)

allocate_block-link :
    (slab : ℕ) (w : World)
    → Ensures
        (λ _ w'. w'.memory.link ≡ w.memory.link)
        (λ _ w'. w'.memory.link ≡ w.memory.link)
        (allocate_block slab w)
unfolding allocate_block pop_block
allocate_block-link slab w = elim (Bool-cases ((w.memory.slab slab).free_list == null)) [
  | inl e ↦ rw e refl
  | inr e ↦ rw e refl
]

module _ (os : Platform) (o : Object SizeClass) where
  abbrev Linked : ClassM ℕ → Type 0
  Linked f =
      Ensures (λ _ o'. SameLinks os o.world o'.world.memory)
        (λ _ o'. SameLinks os o.world o'.world.memory) (f o)

  -- `allocate_block` where the links are already the same.
  last_step :
      (slab : ℕ) (c : SizeClass) (w : World)
      → SameLinks os o.world w.memory
      → Ensures
          (λ _ o'. SameLinks os o.world o'.world.memory)
          (λ _ (o' : Object SizeClass). SameLinks os o.world o'.world.memory)
          (outside (allocate_block slab) (object c w))
  last_step slab c w same = ends (allocate_block slab w) (allocate_block-link slab w)
    where
      ends :
          (r : Outcome ℕ × World)
          → Ensures
              (λ _ w'. w'.memory.link ≡ w.memory.link)
              (λ _ w'. w'.memory.link ≡ w.memory.link)
              r
          → Ensures
              (λ _ o'. SameLinks os o.world o'.world.memory)
              (λ _ (o' : Object SizeClass). SameLinks os o.world o'.world.memory)
              (r.0, record (object c w) { world = r.1 })
      ends (ok p, w') e = λ s y far inside. ap (λ l. l (to_user_ptr y)) e ∙ same s y far inside
      ends (throw e', w') e = λ s y far inside. ap (λ l. l (to_user_ptr y)) e ∙ same s y far inside

  allocate_or-SameLinks :
      (otherwise : ClassM ℕ) → Linked otherwise → Linked (allocate_or os otherwise)
  unfolding allocate_or
  allocate_or-SameLinks otherwise h = elim (Bool-cases (current_usable o.self o.world.memory)) [
    | inl e ↦ rw e (last_step o.self.current o.self o.world (λ s y far inside. refl))
    | inr e ↦ rw e (scan (first_free o.self.slabs.items o.world.memory))
  ]
    where
      scan : (found : Option ℕ) → Linked (from_slabs os found otherwise)
      scan none = unfold from_slabs in h
      scan (some slab) =
          unfold from_slabs in
          last_step slab (record (o.self) { current = slab }) o.world (λ s y far inside. refl)

  -- `allocate_existing` writes no link.
  pub allocate_existing-links :
      Ensures
        (λ _ o'. o'.world.memory.link ≡ o.world.memory.link)
        (λ _ o'. o'.world.memory.link ≡ o.world.memory.link)
        (allocate_existing os o)
  unfolding allocate_existing allocate_or
  allocate_existing-links = elim (Bool-cases (current_usable o.self o.world.memory)) [
    | inl e ↦ rw e (taken o.self.current o.self)
    | inr e ↦ rw e (scan (first_free o.self.slabs.items o.world.memory))
  ]
    where
      ends :
          (c : SizeClass) (r : Outcome ℕ × World)
          → Ensures
              (λ _ w'. w'.memory.link ≡ o.world.memory.link)
              (λ _ w'. w'.memory.link ≡ o.world.memory.link)
              r
          → Ensures
              (λ _ o'. o'.world.memory.link ≡ o.world.memory.link)
              (λ _ (o' : Object SizeClass). o'.world.memory.link ≡ o.world.memory.link)
              (r.0, record (object c o.world) { world = r.1 })
      ends c (ok p, w') e = e
      ends c (throw e', w') e = e

      taken :
          (slab : ℕ) (c : SizeClass)
          → Ensures
              (λ _ o'. o'.world.memory.link ≡ o.world.memory.link)
              (λ _ (o' : Object SizeClass). o'.world.memory.link ≡ o.world.memory.link)
              (outside (allocate_block slab) (object c o.world))
      taken slab c = ends c (allocate_block slab o.world) (allocate_block-link slab o.world)

      scan :
          (found : Option ℕ)
          → Ensures
              (λ _ o'. o'.world.memory.link ≡ o.world.memory.link)
              (λ _ o'. o'.world.memory.link ≡ o.world.memory.link)
              (from_slabs os found (pure null) o)
      scan none = unfold from_slabs in refl
      scan (some slab) = unfold from_slabs in taken slab (record (o.self) { current = slab })

  module _ (laws : MmapLaws os) (pages : os.page_size % 16 ≡ 0)
      (page_fits : slab_size + os.page_size ≤ 2 ^ 64)
      (small : o.self.block_size ≤ small_large_threshold) where
    create-SameLinks :
        Ensures
          (λ p w'. SameLinks os o.world w'.memory)
          (λ e w'. SameLinks os o.world w'.memory)
          (create os o.self.block_size o.self.node_id o.world)
    unfolding create
    create-SameLinks =
        Ensures-bind (Fresh os slab_size o.world) (λ p w'. SameLinks os o.world w'.memory)
          (λ e w'. SameLinks os o.world w'.memory)
          (alloc_on_node os slab_size o.self.node_id o.world) _
          (Ensures-mono (Fresh os slab_size o.world) (Fresh os slab_size o.world)
            (Unchanged o.world) (λ e w'. SameLinks os o.world w'.memory)
            (alloc_on_node os slab_size o.self.node_id o.world)
            (alloc_on_node-Maps os laws slab_size (omega arith) o.world o.self.node_id)
            (λ p w' f. f) (λ e w' u. rw u.0.same_memory (λ s y far inside. refl)))
          λ p w' f. rw f.0.same_memory λ s y far inside.
            init-link p o.self.block_size (new_slab-IsBase os laws pages page_fits o.world w' p f)
              small s y (far p f.1) inside o.self.node_id o.world.memory

    add_slab-SameLinks : Linked (add_slab os)
    unfolding add_slab
    add_slab-SameLinks =
        outside-bind (λ p w. SameLinks os o.world w.memory) (λ e w. SameLinks os o.world w.memory) _
          _ o (create os o.self.block_size o.self.node_id o.world) _ create-SameLinks
          (λ p w same.
            outside-bind (Appended os o.self.node_id p o.self.slabs w.memory)
              (λ e w'. w'.memory ≡ w.memory) _ _ (object (record (o.self) { current = p }) w)
              (push_back os o.self.node_id p o.self.slabs w) _
              (push_back-Appended os o.self.node_id p o.self.slabs w)
              (λ slabs w' a.
                last_step p (record (o.self) { current = p; slabs = slabs }) w' (rw a.1 same))
              (λ e w' kept. rw kept same))
          (λ e w same. same)

    -- `allocate` writes no link in slabs apart from the next mapping.
    pub allocate-SameLinks : Linked (allocate os)
    unfolding allocate
    allocate-SameLinks = allocate_or-SameLinks (add_slab os) add_slab-SameLinks
