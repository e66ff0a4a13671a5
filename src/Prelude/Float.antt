-- ===== src/Prelude/Float.antt =====
-- Go's float64 as far as the server computes with it: a type, the operations, and their laws. Both
-- are parameters of the modules that use them; `tenths` is an instance.
use soundswamp.Prelude.{ℕ, ◌≤◌, ◌≡◌, Bool, true, false, ltb, arith, not}
use soundswamp.Prelude.Int.{ℤ, pos, ◌+ℤ◌, ◌-ℤ◌, ltb_ℤ, abs, -ℤ_parts}

pub record Float : Type 1 where
  pub Carrier : Type 0
  -- A literal, in tenths: 20.0 is `lit 200`, 0.5 is `lit 5`.
  pub lit : ℕ → Carrier
  pub lt : Carrier → Carrier → Bool
  pub le : Carrier → Carrier → Bool
  pub add : Carrier → Carrier → Carrier
  pub sub : Carrier → Carrier → Carrier
  pub abs : Carrier → Carrier

-- Facts of IEEE 754 comparison and subtraction, for NaN and the infinities too: a comparison with NaN is
-- false, and rounding is monotone. Literals are compared up to 1000.0, where neighbouring tenths are
-- different doubles; larger ones may round to the same double.
pub record IsFloat (f : Float) : Type 0 where
  pub lt_trans : (a b c : f.Carrier) → f.lt a b ≡ true → f.lt b c ≡ true → f.lt a c ≡ true
  pub lt_irrefl : (a : f.Carrier) → f.lt a a ≡ false
  pub lt-lit : (m n : ℕ) → m ≤ 10000 → n ≤ 10000 → f.lt (f.lit m) (f.lit n) ≡ ltb m n
  -- If a - b exceeds c, then a - c is not below b, nor below anything that b is not below.
  pub sub_swap :
      (a b c m : f.Carrier)
      → f.lt c (f.sub a b) ≡ true
      → f.lt b m ≡ false
      → f.lt (f.sub a c) m ≡ false
  -- Taking a literal away does not go up.
  pub sub-lit : (a m : f.Carrier) (n : ℕ) → f.lt m a ≡ false → f.lt m (f.sub a (f.lit n)) ≡ false

-- Multiples of 0.1 that are exact and have no bound.
abbrev pub tenths : Float
tenths = record {
  Carrier = ℤ;
  lit = pos;
  lt = ltb_ℤ;
  le = λ a b. not (ltb_ℤ b a);
  add = ◌+ℤ◌;
  sub = ◌-ℤ◌;
  abs = λ a. pos (abs a);
}

pub tenths-IsFloat : IsFloat tenths
tenths-IsFloat = record {
  lt_trans = λ a b c p q. ground arith;
  lt_irrefl = λ a. ground arith;
  lt-lit = λ m n p q. ground arith;
  sub_swap = λ a b c m p q. ground (arith, -ℤ_parts a b, -ℤ_parts a c);
  sub-lit = λ a m n p. ground (arith, -ℤ_parts a (pos n));
}
