-- ===== src/Clock/Median.antt =====
-- internal/sync/clock.go: medianInt64 works on a sorted copy, so it does not see the order of its
-- argument.
use mathlib.Core.List.{Perm, foldr}
use mathlib.Core.List.Perm
use soundswamp.Prelude.{suc, ◌≡◌, refl, ap, ◌∙◌, sym, List, [], ◌∷◌, arith, length}
use soundswamp.Prelude.Int.{ℤ, eq_of_parts}
use soundswamp.Clock.{insert_sorted, sort, median_int64}

insert_sorted_comm :
    (x y : ℤ) (l : List ℤ)
    → insert_sorted x (insert_sorted y l) ≡ insert_sorted y (insert_sorted x l)
unfolding insert_sorted
insert_sorted_comm x y [] = ground (arith, eq_of_parts x y)
insert_sorted_comm x y (z ∷ l) = ground (arith, eq_of_parts x y, insert_sorted_comm x y l)

sort-foldr : (l : List ℤ) → sort l ≡ foldr insert_sorted [] l
unfolding sort
sort-foldr [] = refl
sort-foldr (x ∷ l) = ap (insert_sorted x) (sort-foldr l)

sort-perm : (xs ys : List ℤ) → Perm xs ys → sort xs ≡ sort ys
sort-perm xs ys p =
    sort-foldr xs
    ∙ Perm.foldr-eq (hlevel) insert_sorted insert_sorted_comm p []
    ∙ sym (sort-foldr ys)

length-insert_sorted : (x : ℤ) (l : List ℤ) → length (insert_sorted x l) ≡ suc (length l)
unfolding insert_sorted
length-insert_sorted x [] = refl
length-insert_sorted x (y ∷ l) = ground (arith, length-insert_sorted x l)

length-sort : (l : List ℤ) → length (sort l) ≡ length l
unfolding sort
length-sort [] = refl
length-sort (x ∷ l) = omega (arith, length-insert_sorted x (sort l), length-sort l)

-- The median of the values does not depend on their order.
pub median_int64-perm : (xs ys : List ℤ) → Perm xs ys → median_int64 xs ≡ median_int64 ys
unfolding median_int64
median_int64-perm xs ys p =
    ground (arith, sort-perm xs ys p, length-sort xs, length-sort ys, ap length (sort-perm xs ys p))
