-- ===== src/NodeLocal/Keeps.antt =====
-- `push_back` appends its item and writes none of the memory that the allocator keeps its headers
-- and lists in, also where it throws.
use numa_pmr.Base.{
  ℕ, ◌*◌, ◌/◌, ◌≡◌, refl, arith, Bool, Bool-cases, true, false, inl, inr, ltb, Option, some, none,
  ℤ, [], ◌∷◌, ◌++◌, length, if◌then◌else◌,
}
use numa_pmr.Machine.Word.{size_max, sizeof_pointer}
use numa_pmr.Machine.Platform.{Platform}
use numa_pmr.Machine.Memory.{Memory, World}
use numa_pmr.Machine.Monad.{Ensures, Outcome, pure, raise, bad_alloc, Ensures-bind, ◌>>=◌, ◌>>◌}
use numa_pmr.VirtualMemory.{bind, map_span, reserve, release, bind_to_node, alloc_on_node}
use numa_pmr.NodeLocal.{SlabVector, allocate_items, deallocate_items, push_back}

-- The call wrote no memory.
abbrev Keeps : {A : Type 0} → Memory → Outcome A × World → Type 0
Keeps m = Ensures (λ _ w'. w'.memory ≡ m) (λ _ w'. w'.memory ≡ m)

module _ (os : Platform) where
  map_span-Keeps : (answer : Option ℕ) (n : ℕ) (w : World) → Keeps w.memory (map_span os answer n w)
  unfolding map_span
  map_span-Keeps none n w = refl
  map_span-Keeps (some p) n w = refl

  release-Keeps : (p n : ℕ) (w : World) → Keeps w.memory (release os p n w)
  unfolding release
  release-Keeps p n w = ground arith

  bind_to_node-Keeps :
      (p n : ℕ) (node : ℤ) (w : World) → Keeps w.memory (bind_to_node os p n node bind w)
  unfolding bind_to_node
  bind_to_node-Keeps p n node w = ground arith

  bound-Keeps :
      (p n : ℕ) (b : Bool) (w : World)
      → Keeps w.memory ((if b then pure p else (do release os p n; raise bad_alloc)) w)
  bound-Keeps p n true w = refl
  bound-Keeps p n false w =
      Ensures-bind _ _ _ (release os p n w) (λ _. raise bad_alloc) (release-Keeps p n w)
        (λ _ w' e. e)

  alloc_on_node-Keeps : (n : ℕ) (node : ℤ) (w : World) → Keeps w.memory (alloc_on_node os n node w)
  unfolding alloc_on_node reserve
  alloc_on_node-Keeps n node w =
      Ensures-bind (λ (_ : ℕ) w'. w'.memory ≡ w.memory) _ _ (reserve os n w) _
        (map_span-Keeps _ _ w)
        λ p w1 e1.
          Ensures-bind (λ (_ : Bool) w'. w'.memory ≡ w.memory) _ _
            (bind_to_node os p n node bind w1) _ (rw (← e1) (bind_to_node-Keeps p n node w1))
            λ b w2 e2. rw (← e2) (bound-Keeps p n b w2)

  module _ (node : ℤ) (x : ℕ) (v : SlabVector) where
    abbrev pub Appended : Memory → SlabVector → World → Type 0
    Appended m v' w' = (v'.items ≡ v.items ++ x ∷ []) × (w'.memory ≡ m)

    allocate_items-Keeps : (n : ℕ) (w : World) → Keeps w.memory (allocate_items os node n w)
    unfolding allocate_items
    allocate_items-Keeps n w = elim (Bool-cases (ltb (size_max / sizeof_pointer) n)) [
      | inl large ↦ rw large refl
      | inr fits ↦ rw fits (alloc_on_node-Keeps (n * sizeof_pointer) node w)
    ]

    grow-Keeps :
        (n : ℕ) (w : World)
        → Ensures
            (Appended w.memory)
            (λ e w'. w'.memory ≡ w.memory)
            ((do
              storage ← allocate_items os node n
              deallocate_items os node v.storage v.capacity
              pure (record { items = v.items ++ x ∷ []; storage = storage; capacity = n }))
              w)
    unfolding deallocate_items
    grow-Keeps n w =
        Ensures-bind _ _ _ (allocate_items os node n w) _ (allocate_items-Keeps n w)
          λ storage w1 e1.
            Ensures-bind (λ (_ : Unit {0}) w'. w'.memory ≡ w.memory) _ _
              (release os v.storage (v.capacity * sizeof_pointer) w1) _
              (rw (← e1) (release-Keeps v.storage (v.capacity * sizeof_pointer) w1))
              λ _ w2 e2. (refl, e2)

    pub push_back-Appended :
        (w : World)
        → Ensures (Appended w.memory) (λ e w'. w'.memory ≡ w.memory) (push_back os node x v w)
    unfolding push_back
    push_back-Appended w = elim (Bool-cases (ltb (length v.items) v.capacity)) [
      | inl room ↦ rw room (refl, refl)
      | inr none_left ↦ rw none_left (grow-Keeps (os.vector_growth (length v.items)) w)
    ]
