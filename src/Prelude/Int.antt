-- ===== src/Prelude/Int.antt =====
-- Signed integers over the native numbers, and Go's int64 as an integer that wraps.
use soundswamp.Prelude.{
  ℕ, suc, ◌+◌, ◌-◌, ◌*◌, ◌/◌, ◌%◌, ◌^◌, ◌≤◌, ◌<◌, ◌≡◌, refl, ◌⊎◌, inl, inr, Bool, true, false,
  arith, ltb, leb, if◌then◌else◌,
}

-- `negsuc n` is -(n + 1).
pub data ℤ : Type 0 where
  pos : ℕ → ℤ
  negsuc : ℕ → ℤ

abbrev pub pos_part : ℤ → ℕ
pos_part (pos n) = n
pos_part (negsuc n) = 0

abbrev pub neg_part : ℤ → ℕ
neg_part (pos n) = 0
neg_part (negsuc n) = suc n

-- a - b, as an integer.
abbrev pub sub_ℕ : ℕ → ℕ → ℤ
sub_ℕ a b = if leb b a then pos (a - b) else negsuc (b - a - 1)

infixl 65 ◌+ℤ◌ ◌-ℤ◌
infix 50 ◌≤ℤ◌ ◌<ℤ◌
unfoldable pub ◌+ℤ◌ : ℤ → ℤ → ℤ
a +ℤ b = sub_ℕ (pos_part a + pos_part b) (neg_part a + neg_part b)

unfoldable pub ◌-ℤ◌ : ℤ → ℤ → ℤ
a -ℤ b = sub_ℕ (pos_part a + neg_part b) (neg_part a + pos_part b)

abbrev pub ◌≤ℤ◌ : ℤ → ℤ → Type 0
a ≤ℤ b = pos_part a + neg_part b ≤ pos_part b + neg_part a

abbrev pub ◌<ℤ◌ : ℤ → ℤ → Type 0
a <ℤ b = pos_part a + neg_part b < pos_part b + neg_part a

abbrev pub ltb_ℤ : ℤ → ℤ → Bool
ltb_ℤ a b = ltb (pos_part a + neg_part b) (pos_part b + neg_part a)

-- Division that truncates toward zero, as Go's `/`.
unfoldable pub quot : ℤ → ℕ → ℤ
quot a d = sub_ℕ (pos_part a / d) (neg_part a / d)

unfoldable pub abs : ℤ → ℕ
abs a = pos_part a + neg_part a

-- One lemma for each operation lets `omega` work with the operations shut.
pub +ℤ_parts :
    (a b : ℤ)
    → pos_part (a +ℤ b) + neg_part a + neg_part b ≡ neg_part (a +ℤ b) + pos_part a + pos_part b
unfolding ◌+ℤ◌
+ℤ_parts a b = ground arith

pub -ℤ_parts :
    (a b : ℤ)
    → pos_part (a -ℤ b) + neg_part a + pos_part b ≡ neg_part (a -ℤ b) + pos_part a + neg_part b
unfolding ◌-ℤ◌
-ℤ_parts a b = ground arith

-- At most one of the two parts is there.
pub parts_disjoint : (a : ℤ) → pos_part a * neg_part a ≡ 0
parts_disjoint (pos n) = omega arith
parts_disjoint (negsuc n) = omega arith

pub eq_of_parts : (a b : ℤ) → pos_part a + neg_part b ≡ pos_part b + neg_part a → a ≡ b
eq_of_parts a b h = ground arith

pub ruleset int_laws = (arith, +ℤ_parts, -ℤ_parts, eq_of_parts)

pub ltb_ℤ→lt : (a b : ℤ) → ltb_ℤ a b ≡ true → a <ℤ b
ltb_ℤ→lt a b h = ground arith

pub ltb_ℤ_not→le : (a b : ℤ) → ltb_ℤ a b ≡ false → b ≤ℤ a
ltb_ℤ_not→le a b h = ground arith

-- The two's complement pattern of an int64, and back: Go's conversions `uint64(x)` and `int64(u)`.
unfoldable pub to_u64 : ℤ → ℕ
to_u64 (pos n) = n % 2 ^ 64
to_u64 (negsuc n) = 2 ^ 64 - 1 - n % 2 ^ 64

unfoldable pub of_u64 : ℕ → ℤ
of_u64 u = if ltb u (2 ^ 63) then pos u else negsuc (2 ^ 64 - 1 - u)

-- What Go's int64 arithmetic makes of an exact result.
unfoldable pub wrap64 : ℤ → ℤ
unfolding to_u64 of_u64
wrap64 a = of_u64 (to_u64 a)

abbrev pub IsI64 : ℤ → Type 0
IsI64 a = (pos_part a < 2 ^ 63) × (neg_part a ≤ 2 ^ 63)

pub of_u64-to_u64 : (a : ℤ) → IsI64 a → of_u64 (to_u64 a) ≡ a
unfolding of_u64 to_u64
of_u64-to_u64 (pos n) h = ground arith
of_u64-to_u64 (negsuc n) h = ground arith

pub to_u64-of_u64 : (u : ℕ) → u < 2 ^ 64 → to_u64 (of_u64 u) ≡ u
unfolding of_u64 to_u64
to_u64-of_u64 u h = ground arith

pub to_u64-lt : (a : ℤ) → to_u64 a < 2 ^ 64
unfolding to_u64
to_u64-lt (pos n) = omega arith
to_u64-lt (negsuc n) = omega arith

-- Arithmetic that stays in range is exact.
pub wrap64-eq : (a : ℤ) → IsI64 a → wrap64 a ≡ a
unfolding wrap64
wrap64-eq a h = of_u64-to_u64 a h

pub of_u64-IsI64 : (u : ℕ) → u < 2 ^ 64 → IsI64 (of_u64 u)
unfolding of_u64
of_u64-IsI64 u h = ground arith

-- Whatever the exact result, int64 arithmetic gives an int64.
pub wrap64-IsI64 : (a : ℤ) → IsI64 (wrap64 a)
unfolding wrap64
wrap64-IsI64 a = of_u64-IsI64 (to_u64 a) (to_u64-lt a)

pub quot_two_parts :
    (a : ℤ) → (pos_part (quot a 2) ≡ pos_part a / 2) × (neg_part (quot a 2) ≡ neg_part a / 2)
unfolding quot
quot_two_parts (pos n) = ground arith
quot_two_parts (negsuc n) = ground arith

-- Both parts are below a bound; sums and differences add the bounds.
abbrev pub Within : ℕ → ℤ → Type 0
Within m a = (pos_part a < m) × (neg_part a < m)

pub -ℤ-Within : (m n : ℕ) (a b : ℤ) → Within m a → Within n b → Within (m + n) (a -ℤ b)
unfolding ◌-ℤ◌
-ℤ-Within m n a b ha hb = ground arith

pub +ℤ-Within : (m n : ℕ) (a b : ℤ) → Within m a → Within n b → Within (m + n) (a +ℤ b)
unfolding ◌+ℤ◌
+ℤ-Within m n a b ha hb = ground arith

pub quot_two-Within : (m : ℕ) (a : ℤ) → Within m a → Within m (quot a 2)
quot_two-Within m a h = omega (arith, quot_two_parts a)

pub wrap64-Within : (m : ℕ) (a : ℤ) → m ≤ 2 ^ 63 → Within m a → wrap64 a ≡ a
wrap64-Within m a hm h = wrap64-eq a (omega arith)

-- An equation of integers as one of numbers.
pub parts_of_eq : {a b : ℤ} → a ≡ b → pos_part a + neg_part b ≡ pos_part b + neg_part a
parts_of_eq {a} {b} h = rw h (omega arith)

pub one_side : (a : ℤ) → (neg_part a ≡ 0) ⊎ (pos_part a ≡ 0)
one_side (pos n) = inl refl
one_side (negsuc n) = inr refl

pub abs_parts : (a : ℤ) → abs a ≡ pos_part a + neg_part a
unfolding abs
abs_parts a = refl
