-- ===== src/Arena/Steps.antt =====
-- What each step of the clients of an arena leaves: the arena sound, with what they hold then.
use mathlib.Core.List.{
  Mem, Nodup-cons, Nodup-nil, not-mem-nil, mem-cons_self, mem-cons_of_mem, mem-map_of_mem,
  eq-or-mem_of_mem-cons, Perm,
}
use mathlib.Core.List.Perm
use mathlib.Core.Logic.Or
use native.Mathlib.Bridge.{le_prop}
use numa_pmr.Base.{
  ℕ, ℤ, Bool, ◌≡◌, ◌<◌, ◌≤◌, inl, refl, sym, ap, subst, ◌∙◌, arith, List, [], ◌∷◌, map,
}
use numa_pmr.Machine.Memory.{Memory, World}
use numa_pmr.Machine.Monad.{Ensures, Returns, Outcome, ok, Exception}
use numa_pmr.Machine.Object.{Object, object}
use numa_pmr.Block.{to_user_ptr, from_user_ptr}
use numa_pmr.SizeClassTable.{class_size_at, num_size_classes}
use numa_pmr.SizeClass.{new_class}
use numa_pmr.SizeClass.Contents.{in_use}
use numa_pmr.SmallObject.{new_small}
use numa_pmr.SmallObject.Pool.{IsPool}
use numa_pmr.SmallObject.Joined.{joined, joined_nil, joined-perm, joined-same, joined_Mem, class_of}
use numa_pmr.Arena.{NumaArena, new_arena}
use numa_pmr.Arena.Foreign.{empty_bin-IsBin}
use numa_pmr.Arena.Payload.{from_to, from_Mem}
use numa_pmr.Arena.Pool.{
  Label, Stock, IsArena, IsBin-frame, out_blocks, binned-used, binned-out, out-used,
}
use numa_pmr.Arena.Took.{Served}
use numa_pmr.Arena.Drain.{Emptied, Drained}
use numa_pmr.Arena.Untouched.{Untouched, untouched-IsPool, untouched-block, untouched-link}
use numa_pmr.Arena.Client.{Grant, ptrs, Sound, Owned, owned, owned-used}

pub Ensures-ok :
    {A S : Type 0} (P : A → S → Type 0) (Q : Exception → S → Type 0) (r : Outcome A × S) (a : A)
    (s : S)
    → r ≡ (ok a, s)
    → Ensures P Q r
    → P a s
Ensures-ok P Q r a s e h = subst (λ x. Ensures P Q x) e h

pub Returns-ok :
    {A S : Type 0} (P : A → S → Type 0) (r : Outcome A × S) (a : A) (s : S)
    → r ≡ (ok a, s)
    → Returns P r
    → P a s
Returns-ok P r a s e h = subst (λ x. Returns P x) e h

-- Nothing is in use.
abbrev pub no_stock : Stock
no_stock = record { pool = λ _. []; binned = λ _. []; out = λ _. [] }

-- A new arena holds nothing.
pub new_arena-IsArena :
    (node : ℤ) (foreign sync route : Bool) (m : Memory)
    → IsArena no_stock (new_arena node foreign sync route) m
unfolding new_arena new_small new_class in_use
new_arena-IsArena node foreign sync route m = record {
  small = record {
    each = λ i lt. record { size = refl; items = refl; each = tt; apart = tt; current = inl refl };
    apart = λ i j lt lt' ne. tt;
  };
  labelled = λ i x lt h. absurd (not-mem-nil h);
  split = λ i lt. Perm.refl [];
  distinct = λ i lt. Nodup-nil;
  bins = λ i lt. empty_bin-IsBin (class_size_at i) m;
  bounded = λ i lt. omega arith;
}

pub starts-Sound :
    (node : ℤ) (foreign sync route : Bool) (w : World)
    → Sound (object (new_arena node foreign sync route) w) []
starts-Sound node foreign sync route w = record {
  stock = no_stock;
  valid = new_arena-IsArena node foreign sync route w.memory;
  same = rw (joined_nil num_size_classes) (Perm.refl []);
  once = Nodup-nil;
  sizes = λ g h. absurd (not-mem-nil h);
}

pub allocates-Sound :
    (o : Object NumaArena) (held : List Grant) (size p : ℕ) (o' : Object NumaArena)
    → (s : Sound o held) → Served s.stock o.world.memory size p o'.self o'.world.memory
    → Sound o' (record { ptr = p; size = size } ∷ held)
allocates-Sound o held size p o' s h = record {
  stock = h.now;
  valid = h.valid;
  same = rw h.payload (
      Perm.trans (Perm.cons (to_user_ptr h.block) s.same) (
        Perm.symm (
          Perm.map to_user_ptr (
            joined-perm num_size_classes h.class h.block s.stock.out h.now.out h.class_in
              h.out_others (rw h.out_here (Perm.refl _))))));
  once = Nodup-cons.1 (not_held, s.once);
  sizes = λ g i.
      Or.elim le_prop (eq-or-mem_of_mem-cons i) (λ e. rw e granted)
        (λ k. rw (headers g k) (s.sizes g k));
}
  where
    not_held : ¬ Mem p (ptrs held)
    not_held i = h.fresh (
        subst (λ x. Mem x (out_blocks s.stock)) (ap from_user_ptr h.payload ∙ from_to h.block)
          (from_Mem p (out_blocks s.stock) ((Perm.mem_iff s.same).0 i)))

    now_used : Mem h.block (in_use (h.now.pool h.class))
    now_used =
        out-used h.now o'.self o'.world.memory h.valid h.class h.block h.class_in
          (subst (λ l. Mem h.block l) (sym h.out_here) mem-cons_self)

    granted : size ≤ (o'.world.memory.block (from_user_ptr p)).size_class
    granted =
        subst (λ x. size ≤ (o'.world.memory.block x).size_class)
          (sym (ap from_user_ptr h.payload ∙ from_to h.block))
          (subst (λ n. size ≤ n) (sym (h.valid.labelled h.class h.block h.class_in now_used).0)
            h.covers)

    headers :
        (g : Grant)
        → Mem g held
        → o'.world.memory.block (from_user_ptr g.ptr) ≡ o.world.memory.block (from_user_ptr g.ptr)
    headers g k = h.headers (from_user_ptr g.ptr) λ e. h.fresh (
        subst (λ x. Mem x (out_blocks s.stock)) e
          (from_Mem g.ptr (out_blocks s.stock)
            ((Perm.mem_iff s.same).0 (mem-map_of_mem (λ (d : Grant). d.ptr) k))))

pub emptied-Sound :
    (o : Object NumaArena) (held : List Grant) (g : Grant) (rest : List Grant)
    (o' : Object NumaArena) (s : Sound o held) (w : Owned s.stock g.ptr)
    → Perm (g ∷ rest) held
    → Emptied s.stock w.class w.rest o.world.memory o'.self o'.world.memory
    → Sound o' rest
emptied-Sound o held g rest o' s w p f = record {
  stock = f.now;
  valid = f.valid;
  same = Perm.cons_inv (
      Perm.trans (Perm.map (λ (d : Grant). d.ptr) p) (
        Perm.trans s.same (
          subst
            (λ q.
              Perm (map to_user_ptr (out_blocks s.stock)) (q ∷ map to_user_ptr (out_blocks f.now)))
            w.payload (Perm.map to_user_ptr one_less))));
  once = (Nodup-cons.0 (Perm.nodup (Perm.symm (Perm.map (λ (d : Grant). d.ptr) p)) s.once)).1;
  sizes = λ d i.
      rw (ap (λ b. b (from_user_ptr d.ptr)) f.headers)
        (s.sizes d ((Perm.mem_iff p).0 (mem-cons_of_mem g i)));
}
  where
    one_less : Perm (out_blocks s.stock) (w.block ∷ out_blocks f.now)
    one_less =
        joined-perm num_size_classes w.class w.block f.now.out s.stock.out w.class_in
          (λ j ne. sym (f.out_others j ne)) (rw f.out_here (Perm.symm w.parts))

pub drains-Sound :
    (o : Object NumaArena) (held : List Grant) (o' : Object NumaArena) (s : Sound o held)
    → Drained s.stock o.world.memory o'.self o'.world.memory
    → Sound o' held
drains-Sound o held o' s d = record {
  stock = d.now;
  valid = d.valid;
  same =
      subst (λ l. Perm (ptrs held) (map to_user_ptr l))
        (sym (joined-same num_size_classes s.stock.out d.now.out (λ j lt. d.same_out j))) s.same;
  once = s.once;
  sizes = λ g i. rw (ap (λ b. b (from_user_ptr g.ptr)) d.headers) (s.sizes g i);
}

pub others-Sound :
    (o : Object NumaArena) (held : List Grant) (o' : Object NumaArena)
    → Sound o held
    → Untouched (ptrs held) o o'
    → Sound o' held
others-Sound o held o' s u = record {
  stock = s.stock;
  valid = record {
    small =
        subst (λ a. IsPool s.stock.pool a o'.world.memory) (sym u.same_small)
          (untouched-IsPool s.stock.pool o.self.small o.world.memory o'.world.memory (ptrs held)
            s.valid.small used u.same_slabs);
    labelled = λ i x lt in_class.
        subst (λ b. Label o'.self.node_id (class_size_at i) b) (sym (same_block i x lt in_class))
          (rw u.same_node (s.valid.labelled i x lt in_class));
    split = s.valid.split;
    distinct = s.valid.distinct;
    bins = λ i lt. rw u.same_bins (IsBin-frame (same_link i lt) (s.valid.bins i lt));
    bounded = λ i lt. rw u.same_bins (s.valid.bounded i lt);
  };
  same = s.same;
  once = s.once;
  sizes = λ g k.
      let w = owned o held s g.ptr (mem-map_of_mem (λ (d : Grant). d.ptr) k) in
      let at : from_user_ptr g.ptr ≡ w.block = ap from_user_ptr (sym w.payload) ∙ from_to w.block in
      subst (λ b. g.size ≤ b.size_class)
        (sym (
          subst (λ x. o'.world.memory.block x ≡ o.world.memory.block x) (sym at)
            (same_block w.class w.block w.class_in (owned-used o held s g.ptr w))))
        (s.sizes g k);
}
  where
    same_block :
        (i x : ℕ)
        → i < num_size_classes
        → Mem x (in_use (s.stock.pool i))
        → o'.world.memory.block x ≡ o.world.memory.block x
    same_block i x lt in_class =
        untouched-block s.stock.pool o.self.small o.world.memory o'.world.memory (ptrs held) i x
          s.valid.small u.same_slabs lt in_class

    out_of : (x : ℕ) → Mem (to_user_ptr x) (ptrs held) → Mem x (out_blocks s.stock)
    out_of x i =
        subst (λ z. Mem z (out_blocks s.stock)) (from_to x)
          (from_Mem (to_user_ptr x) (out_blocks s.stock) ((Perm.mem_iff s.same).0 i))

    used :
        (x : ℕ)
        → Mem (to_user_ptr x) (ptrs held)
        → Mem x (joined num_size_classes (λ i. in_use (s.stock.pool i)))
    used x h =
        let (i, lt, out) = class_of num_size_classes x s.stock.out (out_of x h) in
        joined_Mem num_size_classes i x (λ c. in_use (s.stock.pool c)) lt
          (out-used s.stock o.self o.world.memory s.valid i x lt out)

    same_link :
        (i : ℕ)
        → i < num_size_classes
        → (x : ℕ) → Mem x (s.stock.binned i)
        → o'.world.memory.link (to_user_ptr x) ≡ o.world.memory.link (to_user_ptr x)
    same_link i lt x h =
        untouched-link s.stock.pool o.self.small o.world.memory o'.world.memory (ptrs held) i x
          s.valid.small u.same_slabs lt (binned-used s.stock o.self o.world.memory s.valid i x lt h)
          (λ there. binned-out s.stock o.self o.world.memory s.valid i x lt h (out_of x there))
