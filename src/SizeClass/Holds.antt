-- ===== src/SizeClass/Holds.antt =====
-- The release of empty slabs, on a class whose slabs are well formed: what is in use stays in use.
use mathlib.Core.List.{
  Mem, mem-append_left, mem-append_right, mem-cons_self, mem-cons_of_mem, Nodup-append, Perm,
  append-nil, map-append,
}
use mathlib.Core.List.Perm
use numa_pmr.Base.{
  ℕ, ◌≤◌, ◌≡◌, inl, inr, refl, sym, ap, subst, ◌∙◌, arith, Bool, Bool-cases, true, List, [], ◌∷◌,
  ◌++◌, map, length, All,
}
use numa_pmr.Machine.Platform.{Platform}
use numa_pmr.Machine.Memory.{Memory}
use numa_pmr.Machine.Object.{Object}
use numa_pmr.Config.Small.{small_large_threshold}
use numa_pmr.Slab.{is_empty}
use numa_pmr.Slab.Blocks.{is_empty_iff}
use numa_pmr.SizeClass.{SizeClass}
use numa_pmr.SizeClass.Vector.{count_if}
use numa_pmr.SizeClass.Contents.{Piece, IsPiece, IsClass, in_use, in_use-append}
use numa_pmr.Slab.Frame.{Apart}
use numa_pmr.SizeClass.Existing.{Away}
use numa_pmr.SizeClass.Keep.{Released}
use numa_pmr.SizeClass.Pieces.{
  find, find-slab, slabs-find, find-All, All-find, find-slabs, AllApart-Nodup, find-AllApart,
  in_use-Perm,
}

-- A class with the blocks of the slabs `before` in use, in any order, and no slab but these.
pub record Holds (n : ℕ) (before : List Piece) (c : SizeClass) (m : Memory) : Type 0 where
  pub pieces : List Piece
  pub class : IsClass n pieces c m
  pub same_used : Perm (in_use pieces) (in_use before)
  pub away : (t : ℕ) → Away before t → Away pieces t

count_le : (test : ℕ → Bool) (l : List ℕ) → count_if test l ≤ length l
unfolding count_if
count_le test [] = omega arith
count_le test (x ∷ xs) = elim (Bool-cases (test x)) [
  | inl e ↦ rw e (omega (arith, count_le test xs))
  | inr e ↦ rw e (omega (arith, count_le test xs))
]

module _ {n : ℕ} (small : n ≤ small_large_threshold) (m : Memory) (pieces : List Piece)
    (each : All (IsPiece n m) pieces) where
  used_nil :
      (a : ℕ) → Mem a (map (λ s. s.slab) pieces) → is_empty a m ≡ true → (find pieces a).used ≡ []
  used_nil a i e =
      let (b, v, _) = find-All (IsPiece n m) pieces a each i in
      (is_empty_iff b small (find pieces a).free (find pieces a).used v).0
        (subst (λ x. is_empty x m ≡ true) (sym (find-slab pieces a)) e)

  -- Slabs that count as empty have no block in use.
  none_used :
      (l : List ℕ)
      → ((a : ℕ) → Mem a l → Mem a (map (λ s. s.slab) pieces))
      → count_if (λ s. is_empty s m) l ≡ length l
      → in_use (map (find pieces) l) ≡ []
  unfolding in_use count_if
  none_used [] sub e = refl
  none_used (a ∷ l) sub e = elim (Bool-cases (is_empty a m)) [
    | inl empty ↦
        let rest : count_if (λ s. is_empty s m) l ≡ length l = omega (arith, (rw empty at e)) in
        rw
          (
            used_nil a (sub a mem-cons_self) empty,
            none_used l (λ b i. sub b (mem-cons_of_mem a i)) rest,
          )
          refl
    | inr full ↦ absurd (omega (arith, (rw full at e), count_le (λ s. is_empty s m) l))
  ]

-- The empty slabs but one given back: what is in use stays in use.
pub release-Holds :
    {n : ℕ} (small : n ≤ small_large_threshold) (os : Platform) (pieces : List Piece)
    (o o' : Object SizeClass)
    → IsClass n pieces o.self o.world.memory
    → Released os o o'
    → Holds n pieces o'.self o'.world.memory
release-Holds {n} small os pieces o o' v r =
    let slabs = map (λ (s : Piece). s.slab) pieces in
    let split : Perm (o'.self.slabs.items ++ r.dropped) slabs =
      subst (λ l. Perm (o'.self.slabs.items ++ r.dropped) l) v.items r.split in
    let left_in : (a : ℕ) → Mem a o'.self.slabs.items → Mem a slabs =
      λ a i. (Perm.mem_iff split).0 (mem-append_left r.dropped i) in
    let dropped_in : (a : ℕ) → Mem a r.dropped → Mem a slabs =
      λ a i. (Perm.mem_iff split).0 (mem-append_right o'.self.slabs.items i) in
    let once = (Nodup-append.0 (Perm.nodup (Perm.symm split) (AllApart-Nodup pieces v.apart))).0 in
    let left = map (find pieces) o'.self.slabs.items in
    let each = All-find (IsPiece n o.world.memory) pieces o'.self.slabs.items v.each left_in in
    record {
      pieces = left;
      class = record {
        size = r.same_size ∙ v.size;
        items = sym (slabs-find pieces o'.self.slabs.items);
        each = subst (λ mem. All (IsPiece n mem) left) (sym r.maps.same_memory) each;
        apart = find-AllApart pieces o'.self.slabs.items v.apart once left_in;
        current = elim r.current_owned [
          | inl e ↦ inl e
          | inr i ↦
              inr
                (subst (λ l. Mem o'.self.current l) (sym (slabs-find pieces o'.self.slabs.items)) i)
        ];
      };
      same_used =
          kept_used split
            (none_used small o.world.memory pieces v.each r.dropped dropped_in r.all_empty);
      away = λ t h. All-find (λ s. Apart s.slab t) pieces o'.self.slabs.items h left_in;
    }
  where
    parts :
        in_use (map (find pieces) r.dropped) ≡ []
        → in_use (map (find pieces) (o'.self.slabs.items ++ r.dropped))
          ≡ in_use (map (find pieces) o'.self.slabs.items)
    parts none =
        ap in_use (map-append (find pieces) o'.self.slabs.items r.dropped)
        ∙ in_use-append (map (find pieces) o'.self.slabs.items) (map (find pieces) r.dropped)
        ∙ ap (λ l. in_use (map (find pieces) o'.self.slabs.items) ++ l) none
        ∙ append-nil _

    kept_used :
        Perm (o'.self.slabs.items ++ r.dropped) (map (λ (s : Piece). s.slab) pieces)
        → in_use (map (find pieces) r.dropped) ≡ []
        → Perm (in_use (map (find pieces) o'.self.slabs.items)) (in_use pieces)
    kept_used split none =
        let all = in_use-Perm (Perm.map (find pieces) split) in
        let left = in_use (map (find pieces) o'.self.slabs.items) in
        let whole =
          subst
            (λ l. Perm (in_use (map (find pieces) (o'.self.slabs.items ++ r.dropped))) (in_use l))
            (find-slabs pieces v.apart) all in
        subst (λ l. Perm l (in_use pieces)) (parts none) whole
