-- ===== src/Tests/Ring.antt =====
-- internal/capture/wasapi_windows.go: small rings.
use soundswamp.Prelude.{ℕ, ◌≤◌, ◌<◌, ◌≡◌, refl, ◌⊎◌, true, List, [], ◌∷◌, arith, length, take, drop}
use soundswamp.Prelude.Table.{string_eq}
use soundswamp.Ring.{Ring, blocks, read, read_ring}
use soundswamp.Ring.Fifo.{IsQueue, read_ring_lem}

-- A ring of four samples with two that wait, around its end.
abbrev ring : Ring ℕ
ring = record {
  ring_buf = 8 ∷ 0 ∷ 0 ∷ 7 ∷ [];
  ring_write = 5;
  ring_read = 3;
  ring_size = 4;
  running = true;
}

ring-IsQueue : IsQueue 0 ring (7 ∷ 8 ∷ [])
ring-IsQueue = record {
  sized = refl;
  positive = omega arith;
  pending = refl;
  holds = (refl, (refl, tt));
}

abbrev full_ring : Ring ℕ
full_ring = record {
  ring_buf = 8 ∷ 7 ∷ [];
  ring_write = 3;
  ring_read = 1;
  ring_size = 2;
  running = true;
}

full_ring-IsQueue : IsQueue 0 full_ring (7 ∷ 8 ∷ [])
full_ring-IsQueue = record {
  sized = refl;
  positive = omega arith;
  pending = refl;
  holds = (refl, (refl, tt));
}

read_ring_lem_example :
    let A : Type 0 = ℕ in
    let silence : ℕ = 0 in
    let n : ℕ = 1 in
    let w : Ring A = ring in
    let q : List A = 7 ∷ 8 ∷ [] in
    ((length q < n) × (read_ring silence n w ≡ blocks))
    ⊎ ((w' : Ring A) × (n ≤ length q)
        × (read_ring silence n w ≡ read (take n q) w')
        × IsQueue silence w' (drop n q))
read_ring_lem_example = read_ring_lem 0 1 ring (7 ∷ 8 ∷ []) ring-IsQueue refl
