-- ===== src/Ring/Slots.antt =====
-- Positions that are less than a ring apart have different slots.
use soundswamp.Prelude.{ℕ, ◌+◌, ◌%◌, ◌<◌, ◌≡◌, ◌≢◌, arith}

pub slots_differ : (k d n : ℕ) → 0 < d → d < n → k % n ≢ (k + d) % n
slots_differ k d n hd hn = grind arith

pub wrap_mod : (a b n : ℕ) → a ≡ b + n → a % n ≡ b % n
wrap_mod a b n h = grind arith
