-- ===== src/Tests/Capture.antt =====
-- internal/capture/wasapi_windows.go: one packet of a device, and its life.
use soundswamp.Prelude.{
  ℕ, ◌+◌, ◌*◌, ◌<◌, ◌≡◌, refl, ◌⊎◌, inr, true, none, some, List, [], ◌∷◌, ◌++◌, map, arith, length,
}
use soundswamp.Prelude.Int.{ℤ, pos, negsuc}
use soundswamp.Prelude.Table.{string_eq}
use soundswamp.Prelude.Float.{Float, tenths, tenths-IsFloat}
use soundswamp.Ring.{Ring}
use soundswamp.Ring.Fifo.{IsQueue}
use soundswamp.Capture.{Float32, WaveFormatEx}
use soundswamp.Capture.Convert.{written, convert}
use soundswamp.Capture.Formats.{scaled, pcm_bytes, convert-pcm_bytes}
use soundswamp.Capture.Packets.{Round, Event, done, process}
use soundswamp.Capture.Rounds.{IsAligned, Captured}
use soundswamp.Capture.Delivered.{Paired, frames_released, process_delivers}
use soundswamp.Capture.Device.{
  Answers, start_failed, WasapiCapture, new_wasapi_capture, begin_stream, start, stop,
}
use soundswamp.Capture.Lifecycle.{
  Call, start_with, stop_it, run, Inv, history-Inv, failed_start_leaks,
}

-- Samples that are integers, not scaled.
abbrev whole : Float32
whole = record { Carrier = ℤ; zero = pos 0; from_bits = pos; of_int = λ z. z; div = λ a b. a }

abbrev pcm16 : WaveFormatEx
pcm16 = record {
  format_tag = 1;
  channels = 2;
  samples_per_sec = 48000;
  avg_bytes_per_sec = 192000;
  block_align = 4;
  bits_per_sample = 16;
  cb_size = 0;
}

pcm16-IsAligned : IsAligned pcm16
pcm16-IsAligned = record { some_channel = omega arith; frame = refl }

-- One frame, then silence, then nothing.
abbrev met : List Round
met =
    record {
      running = true;
      next_hr = 0;
      num_frames_in_next_packet = 1;
      get_hr = 0;
      num_frames = 1;
      flags = 0;
      memory = 255 ∷ 255 ∷ 1 ∷ 0 ∷ [];
    }
    ∷ record {
      running = true;
      next_hr = 0;
      num_frames_in_next_packet = 1;
      get_hr = 0;
      num_frames = 1;
      flags = 2;
      memory = 0 ∷ 0 ∷ 0 ∷ 0 ∷ [];
    }
    ∷ record {
      running = true;
      next_hr = 0;
      num_frames_in_next_packet = 0;
      get_hr = 0;
      num_frames = 0;
      flags = 0;
      memory = [];
    }
    ∷ []

abbrev small_ring : Ring ℤ
small_ring = record {
  ring_buf = pos 0 ∷ pos 0 ∷ pos 0 ∷ pos 0 ∷ [];
  ring_write = 0;
  ring_read = 0;
  ring_size = 4;
  running = true;
}

small_ring-IsQueue : IsQueue (pos 0) small_ring []
small_ring-IsQueue = record { sized = refl; positive = omega arith; pending = refl; holds = tt }

abbrev answers : Answers tenths
answers = record {
  com_error = none;
  create_hr = 0;
  enumerator = 1;
  endpoint_hr = 0;
  device = 2;
  activate_hr = 0;
  audio_client = 3;
  mix_hr = 0;
  mix = pcm16;
  initialize_hr = 0;
  event = 4;
  service_hr = 0;
  capture_client = 5;
  start_hr = 0;
  latency_hr = 0;
  latency_ms = pos 100;
}

-- The device refuses to start.
abbrev refusing : Answers tenths
refusing = let a : Answers tenths = answers in record a { start_hr = 7 }

convert-pcm_bytes_example :
    let f : Float32 = whole in
    let width : ℕ = 3 in
    let v : ℤ = negsuc 4 in
    let vs : List ℤ = pos 9 ∷ [] in
    convert f (8 * width) (length (v ∷ vs)) (pcm_bytes width (v ∷ vs))
    ≡ written (map (scaled f width) (v ∷ vs))
convert-pcm_bytes_example =
    convert-pcm_bytes whole 3 (negsuc 4) (pos 9 ∷ []) (inr refl) (omega arith)

process_delivers_example :
    let f : Float32 = whole in
    let mix : WaveFormatEx = pcm16 in
    let ms : List Round = met in
    let w : Ring f.Carrier = small_ring in
    let q : List f.Carrier = [] in
    (w' : Ring f.Carrier) × (ss : List f.Carrier) × (events : List Event) × (process f mix ms w
      ≡ done w' events)
    × Paired events
    × Captured f mix ms ss
    × (length ss ≡ frames_released events * mix.channels)
    × ((w.ring_size < length q + length ss) ⊎ IsQueue f.zero w' (q ++ ss))
process_delivers_example =
    process_delivers whole pcm16 met small_ring [] pcm16-IsAligned (omega arith) small_ring-IsQueue

history-Inv_example :
    let f : Float = tenths in
    let s : Float32 = whole in
    let cs : List (Call f s) = start_with refusing ∷ start_with answers ∷ stop_it ∷ stop_it ∷ [] in
    (w : WasapiCapture f s) × (run f s cs (new_wasapi_capture f s) ≡ some w) × Inv f s w
history-Inv_example =
    history-Inv tenths whole (start_with refusing ∷ start_with answers ∷ stop_it ∷ stop_it ∷ [])
      tenths-IsFloat

failed_start_leaks_example :
    let f : Float = tenths in
    let s : Float32 = whole in
    let a : Answers f = refusing in
    let b : Answers f = answers in
    let w' : WasapiCapture f s =
      (start tenths whole refusing (new_wasapi_capture tenths whole)).0 in
    (w'.device_enumerator ≡ a.enumerator)
    × (stop f s w' ≡ some (w', []))
    × ((start f s b w').0.device_enumerator ≡ b.enumerator)
unfolding start begin_stream new_wasapi_capture
failed_start_leaks_example =
    failed_start_leaks tenths whole refusing answers (new_wasapi_capture tenths whole)
      ((start tenths whole refusing (new_wasapi_capture tenths whole)).0) start_failed refl refl
      refl refl refl refl
