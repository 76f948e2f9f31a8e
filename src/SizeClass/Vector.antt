-- ===== src/SizeClass/Vector.antt =====
-- The vector operations of `SizeClass` on a list split at an index.
use mathlib.Core.List.{Perm}
use mathlib.Core.List.Perm
use numa_pmr.Base.{
  ◌∙◌, ℕ, ◌+◌, ◌≡◌, refl, ap, arith, List, [], ◌∷◌, ◌++◌, length, get_or, Bool, if◌then◌else◌,
}
use numa_pmr.SizeClass.{null, last_or, drop_last, set_item, swap_remove}

-- How many items pass a test.
unfoldable pub count_if : (ℕ → Bool) → List ℕ → ℕ
count_if test [] = 0
count_if test (x ∷ xs) = (if test x then 1 else 0) + count_if test xs

pub count_if-append :
    (test : ℕ → Bool) (xs ys : List ℕ)
    → count_if test (xs ++ ys) ≡ count_if test xs + count_if test ys
unfolding count_if
count_if-append test [] ys = omega arith
count_if-append test (x ∷ xs) ys = omega (arith, count_if-append test xs ys)

pub get_or-append :
    (pre : List ℕ) (s : ℕ) (rest : List ℕ) (d : ℕ) → get_or (pre ++ s ∷ rest) (length pre) d ≡ s
get_or-append [] s rest d = refl
get_or-append (x ∷ pre) s rest d = get_or-append pre s rest d

-- What stands behind the hole: the last item first.
unfoldable pub rotate_last : List ℕ → List ℕ
rotate_last [] = []
rotate_last (y ∷ ys) = last_or y ys ∷ drop_last (y ∷ ys)

last_or-append :
    (d : ℕ) (pre : List ℕ) (s : ℕ) (rest : List ℕ) → last_or d (pre ++ s ∷ rest) ≡ last_or s rest
unfolding last_or
last_or-append d [] s rest = refl
last_or-append d (x ∷ pre) s rest = last_or-append x pre s rest

set_item-append :
    (pre : List ℕ) (s : ℕ) (rest : List ℕ) (v : ℕ)
    → set_item (pre ++ s ∷ rest) (length pre) v ≡ pre ++ v ∷ rest
unfolding set_item
set_item-append [] s rest v = refl
set_item-append (x ∷ pre) s rest v = ap (λ l. x ∷ l) (set_item-append pre s rest v)

drop_last-append :
    (pre : List ℕ) (s : ℕ) (rest : List ℕ)
    → drop_last (pre ++ s ∷ rest) ≡ pre ++ drop_last (s ∷ rest)
unfolding drop_last
drop_last-append [] s rest = refl
drop_last-append (x ∷ []) s rest = refl
drop_last-append (x ∷ y ∷ pre) s rest = ap (λ l. x ∷ l) (drop_last-append (y ∷ pre) s rest)

last_or-cons : (s y : ℕ) (ys : List ℕ) → last_or s (y ∷ ys) ≡ last_or y ys
unfolding last_or
last_or-cons s y ys = refl

drop_last-perm : (y : ℕ) (ys : List ℕ) → Perm (last_or y ys ∷ drop_last (y ∷ ys)) (y ∷ ys)
unfolding last_or drop_last
drop_last-perm y [] = Perm.refl _
drop_last-perm y (z ∷ zs) = Perm.trans (Perm.swap _ _ _) (Perm.cons y (drop_last-perm z zs))

pub rotate_last-perm : (ys : List ℕ) → Perm (rotate_last ys) ys
unfolding rotate_last
rotate_last-perm [] = Perm.refl _
rotate_last-perm (y ∷ ys) = drop_last-perm y ys

-- Removing the item behind `pre` moves the last item into its place.
pub swap_remove-append :
    (pre : List ℕ) (s : ℕ) (rest : List ℕ)
    → swap_remove (pre ++ s ∷ rest) (length pre) ≡ pre ++ rotate_last rest
unfolding swap_remove rotate_last drop_last
swap_remove-append pre s [] =
    ap (λ v. drop_last (set_item (pre ++ s ∷ []) (length pre) v)) (last_or-append null pre s [])
    ∙ ap drop_last (set_item-append pre s [] _)
    ∙ drop_last-append pre _ []
swap_remove-append pre s (y ∷ ys) =
    ap (λ v. drop_last (set_item (pre ++ s ∷ y ∷ ys) (length pre) v))
      (last_or-append null pre s (y ∷ ys))
    ∙ ap drop_last (set_item-append pre s (y ∷ ys) _)
    ∙ drop_last-append pre _ (y ∷ ys)
    ∙ ap (λ v. pre ++ v ∷ drop_last (y ∷ ys)) (last_or-cons s y ys)
