-- ===== src/Ring.antt =====
-- internal/capture/wasapi_windows.go: the ring buffer between the capture thread and Read, and the
-- conversion of captured bytes. Positions only grow; an index is taken modulo the size. Of a captured
-- buffer, the samples are an argument.
pub mod Slots
pub mod Fifo
use soundswamp.Prelude.{
  ℕ, zero, suc, ◌+◌, ◌*◌, ◌-◌, ◌%◌, ◌^◌, ◌<◌, Bool, true, false, Option, none, some, List, [], ◌∷◌,
  ◌++◌, ◌==◌, not, ltb, if◌then◌else◌, length, get_or, set, replicate, map,
}

-- The ring of WASAPICapture: `ringBuf`, `ringWrite`, `ringRead` and `ringSize`, with `running`.
pub record Ring (A : Type 0) : Type 0 where
  pub ring_buf : List A
  pub ring_write : ℕ
  pub ring_read : ℕ
  pub ring_size : ℕ
  pub running : Bool

pub data ReadResult (A : Type 0) : Type 0 where
  blocks : ReadResult A
  stopped : ReadResult A
  read : List A → Ring A → ReadResult A

module _ {A : Type 0} where
  unfoldable pub ring_available : Ring A → ℕ
  ring_available w = w.ring_write - w.ring_read

module _ {A : Type 0} (silence : A) where
  -- The ring that Start makes for a format: two seconds of samples.
  unfoldable pub start_ring : ℕ → ℕ → Ring A
  start_ring sample_rate channels = record {
    ring_buf = replicate (sample_rate * channels * 2) silence;
    ring_write = 0;
    ring_read = 0;
    ring_size = sample_rate * channels * 2;
    running = true;
  }

  -- One sample: w.ringBuf[w.ringWrite%w.ringSize] = s; w.ringWrite++.
  unfoldable pub write_sample : A → Ring A → Ring A
  write_sample s w = record w {
    ring_buf = set w.ring_buf (w.ring_write % w.ring_size) s;
    ring_write = w.ring_write + 1;
  }

  -- The loops that write samples, of convertAndWrite and of a silent packet.
  unfoldable pub write_samples : List A → Ring A → Ring A
  unfolding write_sample
  write_samples [] w = w
  write_samples (s ∷ ss) w = write_samples ss (write_sample s w)

  -- What a packet of the capture client puts into the ring: silence if its flag says so.
  unfoldable pub write_packet : Bool → List A → Ring A → Ring A
  write_packet is_silent samples w =
      write_samples (if is_silent then replicate (length samples) silence else samples) w

  -- The copying loop of Read, for `n` samples.
  unfoldable pub read_samples : ℕ → Ring A → List A × Ring A
  read_samples zero w = ([], w)
  read_samples (suc n) w =
      let s = get_or w.ring_buf (w.ring_read % w.ring_size) silence in
      let (ss, w') = read_samples n (record w { ring_read = w.ring_read + 1 }) in (s ∷ ss, w')

  -- Read of `n` samples: it waits while the ring holds fewer.
  unfoldable pub read_ring : ℕ → Ring A → ReadResult A
  read_ring n w =
      if not w.running
      then stopped
      else if ltb (ring_available w) n
      then blocks
      else let (ss, w') = read_samples n w in read ss w'
