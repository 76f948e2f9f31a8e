-- ===== src/VirtualMemory/Mapping.antt =====
-- What `VirtualMemory` leaves mapped, on every path.
use numa_pmr.Base.{
  ℕ, ◌≡◌, ◌≢◌, refl, arith, ◌==◌, ◌∷◌, Bool, true, false, Option, none, some, ℤ, inl, inr, ◌⊎◌,
  List, if◌then◌else◌,
}
use numa_pmr.Machine.Word.{null}
use numa_pmr.Machine.Platform.{Platform, MmapLaws, mapped, unmap}
use numa_pmr.Machine.Memory.{World}
use numa_pmr.Machine.Monad.{
  Returns-bind, pure, Exception, bad_alloc, Returns, Ensures, ◌>>◌, raise, Ensures-bind,
}
use numa_pmr.VirtualMemory.{align_up, map_span, reserve, release, bind_to_node, alloc_on_node, bind}

-- The world after a call that changes what is mapped by `f` and writes no memory.
pub record Maps (w w' : World) (f : List (ℕ × ℕ) → List (ℕ × ℕ)) : Type 0 where
  pub same_memory : w'.memory ≡ w.memory
  pub maps : mapped w'.trace ≡ f (mapped w.trace)

ℕ-cases-zero : (n : ℕ) → (n ≡ 0) ⊎ ((n == 0) ≡ false)
ℕ-cases-zero n = ground arith

module _ (os : Platform) (size : ℕ) (nonzero : size ≢ 0) where
  abbrev pub bytes : ℕ
  bytes = align_up size os.page_size

  map_span-Maps :
      (w : World) (answer : Option ℕ)
      → os.mmap_result w.trace bytes ≡ answer
      → Ensures
          (λ p w'. Maps w w' (◌∷◌ (p, bytes)) × (os.mmap_result w.trace bytes ≡ some p))
          (λ e w'. Maps w w' (λ l. l) × (e ≡ bad_alloc))
          (map_span os answer bytes w)
  unfolding map_span mapped
  map_span-Maps w none e = (record { same_memory = refl; maps = refl }, refl)
  map_span-Maps w (some p) e = (record { same_memory = refl; maps = refl }, e)

  reserve-Maps :
      (w : World)
      → Ensures
          (λ p w'. Maps w w' (◌∷◌ (p, bytes)) × (os.mmap_result w.trace bytes ≡ some p))
          (λ e w'. Maps w w' (λ l. l) × (e ≡ bad_alloc))
          (reserve os size w)
  unfolding reserve
  reserve-Maps w = elim (ℕ-cases-zero size) [
    | inl zero_size ↦ absurd (nonzero zero_size)
    | inr test ↦ rw test (map_span-Maps w (os.mmap_result w.trace bytes) refl)
  ]

  bind_to_node-Maps :
      (ptr : ℕ) (node : ℤ) (w : World)
      → Returns (λ b w'. Maps w w' (λ l. l)) (bind_to_node os ptr size node bind w)
  unfolding bind_to_node mapped
  bind_to_node-Maps ptr node w = ground arith

  pub release-Maps :
      (ptr : ℕ) (w : World)
      → ptr ≢ null
      → Returns (λ _ w'. Maps w w' (unmap ptr bytes)) (release os ptr size w)
  unfolding release mapped
  release-Maps ptr w h = ground arith

pub unmap_head : (p n : ℕ) (l : List (ℕ × ℕ)) → unmap p n ((p, n) ∷ l) ≡ l
unfolding unmap
unmap_head p n l = ground arith

abbrev pub Fresh : (os : Platform) (size : ℕ) → World → ℕ → World → Type 0
Fresh os size w p w' =
    Maps w w' (◌∷◌ (p, align_up size os.page_size))
    × (os.mmap_result w.trace (align_up size os.page_size) ≡ some p)

abbrev pub Unchanged : World → Exception → World → Type 0
Unchanged w e w' = Maps w w' (λ l. l) × (e ≡ bad_alloc)

module _ (os : Platform) (laws : MmapLaws os) (size : ℕ) (nonzero : size ≢ 0) (w : World) where
  give_back :
      (p : ℕ) (w1 w2 : World)
      → Maps w w1 (◌∷◌ (p, align_up size os.page_size))
      → Maps w1 w2 (λ l. l)
      → p ≢ null
      → Ensures {A = ℕ} (Fresh os size w) (Unchanged w) ((release os p size >> raise bad_alloc) w2)
  give_back p w1 w2 m1 m2 h =
      Returns-bind (λ (_ : Unit {0}) w'. Maps w2 w' (unmap p (align_up size os.page_size)))
        (Fresh os size w) (Unchanged w) (release os p size w2) (λ _. raise bad_alloc)
        (release-Maps os size nonzero p w2 h)
        (λ _ w' m. (
          record {
            same_memory = ground (arith);
            maps = rw (m.maps, m2.maps, m1.maps) (unmap_head p _ _);
          },
          refl,
        ))

  bound :
      (p : ℕ) (w1 w2 : World) (b : Bool)
      → Fresh os size w p w1
      → Maps w1 w2 (λ l. l)
      → Ensures
          (Fresh os size w)
          (Unchanged w)
          ((if b then pure p else (do release os p size; raise bad_alloc)) w2)
  bound p w1 w2 true fresh m = (ground arith, fresh.1)
  bound p w1 w2 false fresh m = give_back p w1 w2 fresh.0 m (laws.ne_null w.trace _ p fresh.1)

  -- Where `mmap` keeps to POSIX, and for a size that is not 0: an allocation maps one fresh span of
  -- whole pages, where `mmap` answered, and writes no memory; one that throws, `bad_alloc` and nothing
  -- else, leaves mapped what was mapped, also when the binding failed of a span that was mapped.
  pub alloc_on_node-Maps :
      (node : ℤ) → Ensures (Fresh os size w) (Unchanged w) (alloc_on_node os size node w)
  unfolding alloc_on_node
  alloc_on_node-Maps node =
      Ensures-bind (Fresh os size w) (Fresh os size w) (Unchanged w) (reserve os size w) _
        (reserve-Maps os size nonzero w)
        λ p w1 fresh.
          Returns-bind (λ (_ : Bool) w'. Maps w1 w' (λ l. l)) (Fresh os size w) (Unchanged w)
            (bind_to_node os p size node bind w1) _ (bind_to_node-Maps os size nonzero p node w1)
            λ b w2 m. bound p w1 w2 b fresh m
