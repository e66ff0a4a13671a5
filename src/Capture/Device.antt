-- ===== src/Capture/Device.antt =====
-- internal/capture/wasapi_windows.go: Start, Stop and measureLoopbackLatency. Handles are numbers, 0 for
-- none. What Windows answers is an argument; the capture thread and its waking are left out.
use soundswamp.Prelude.{
  ℕ, ◌%◌, ◌^◌, Bool, true, false, ◌||◌, ◌&&◌, Option, none, some, List, [], ◌∷◌, ◌++◌, ◌==◌, not,
  if◌then◌else◌,
}
use soundswamp.Prelude.Float.{Float}
use soundswamp.Ring.{Ring, start_ring}
use soundswamp.Capture.{Float32, WaveFormatEx}

-- AudioFormat.
pub record AudioFormat : Type 0 where
  pub sample_rate : ℕ
  pub channels : ℕ
  pub bit_depth : ℕ

-- What the calls of Start answer: the error of CoInitializeEx if there is one, the HRESULTs, and what the
-- calls that succeed give. `latency_ms` is the stream latency over 10000.
pub record Answers (f : Float) : Type 0 where
  pub com_error : Option ℕ
  pub create_hr : ℕ
  pub enumerator : ℕ
  pub endpoint_hr : ℕ
  pub device : ℕ
  pub activate_hr : ℕ
  pub audio_client : ℕ
  pub mix_hr : ℕ
  pub mix : WaveFormatEx
  pub initialize_hr : ℕ
  pub event : ℕ
  pub service_hr : ℕ
  pub capture_client : ℕ
  pub start_hr : ℕ
  pub latency_hr : ℕ
  pub latency_ms : f.Carrier

pub data Error : Type 0 where
  already_running com_failed create_failed endpoint_failed activate_failed : Error
  mix_failed initialize_failed service_failed start_failed : Error

-- What Stop does to the handles.
pub data Event : Type 0 where
  stopped released closed : ℕ → Event

-- isAlreadyInitialized, for a code of CoInitializeEx.
unfoldable pub is_already_initialized : ℕ → Bool
is_already_initialized code = code % 2 ^ 32 == 1 || code % 2 ^ 32 == 2147549446

-- Whether Start gives up for what CoInitializeEx answered.
unfoldable pub com_refused : Option ℕ → Bool
com_refused none = false
com_refused (some code) = not (code == 0) && not (is_already_initialized code)

module _ (f : Float) (s : Float32) where
  -- WASAPICapture. The flag `running` is that of the ring; `stop_open` is whether stopChan is open.
  pub record WasapiCapture : Type 0 where
    pub device_enumerator : ℕ
    pub device : ℕ
    pub audio_client : ℕ
    pub capture_client : ℕ
    pub format : AudioFormat
    pub mix_format : Option WaveFormatEx
    pub bytes_per_frame : ℕ
    pub capture_event : ℕ
    pub stop_open : Bool
    pub ring : Ring s.Carrier
    pub loopback_latency_ms : f.Carrier

  -- NewWASAPICapture.
  unfoldable pub new_wasapi_capture : WasapiCapture
  new_wasapi_capture = record {
    device_enumerator = 0;
    device = 0;
    audio_client = 0;
    capture_client = 0;
    format = record { sample_rate = 0; channels = 0; bit_depth = 0 };
    mix_format = none;
    bytes_per_frame = 0;
    capture_event = 0;
    stop_open = true;
    ring = let r : Ring s.Carrier = start_ring s.zero 48000 2 in record r { running = false };
    loopback_latency_ms = f.lit 0;
  }

  -- measureLoopbackLatency, with the audio client, the result of GetStreamLatency and its latency in
  -- milliseconds.
  unfoldable pub measure_loopback_latency : ℕ → ℕ → f.Carrier → f.Carrier
  measure_loopback_latency audio_client hr ms =
      if audio_client == 0
      then f.lit 150
      else if not (hr == 0)
      then f.lit 150
      else if f.lt ms (f.lit 50)
      then f.lit 50
      else ms

  -- The part of Start from the mix format on.
  unfoldable pub begin_stream : Answers f → WasapiCapture → WasapiCapture × Option Error
  unfolding measure_loopback_latency
  begin_stream a w =
      let r : Ring s.Carrier = start_ring s.zero a.mix.samples_per_sec a.mix.channels in
      let sized : WasapiCapture = record w {
        mix_format = some a.mix;
        format = record {
          sample_rate = a.mix.samples_per_sec;
          channels = a.mix.channels;
          bit_depth = 32;
        };
        bytes_per_frame = a.mix.block_align;
        ring = record r { running = false };
      } in
      let served : WasapiCapture = record sized {
        capture_event = a.event;
        capture_client = a.capture_client;
      } in
      if not (a.initialize_hr == 0)
      then (sized, some initialize_failed)
      else if not (a.service_hr == 0)
      then (record sized { capture_event = a.event }, some service_failed)
      else if not (a.start_hr == 0)
      then (served, some start_failed)
      else (
        record served {
          ring = r;
          stop_open = true;
          loopback_latency_ms = measure_loopback_latency w.audio_client a.latency_hr a.latency_ms;
        },
        none,
      )

  -- Start.
  unfoldable pub start : Answers f → WasapiCapture → WasapiCapture × Option Error
  unfolding begin_stream com_refused
  start a w =
      let listed : WasapiCapture = record w { device_enumerator = a.enumerator } in
      let found : WasapiCapture = record listed { device = a.device } in
      let activated : WasapiCapture = record found { audio_client = a.audio_client } in
      if w.ring.running
      then (w, some already_running)
      else if com_refused a.com_error
      then (w, some com_failed)
      else if not (a.create_hr == 0)
      then (w, some create_failed)
      else if not (a.endpoint_hr == 0)
      then (listed, some endpoint_failed)
      else if not (a.activate_hr == 0)
      then (found, some activate_failed)
      else if not (a.mix_hr == 0)
      then (activated, some mix_failed)
      else begin_stream a activated

  -- A handle that there is, and what is done to it.
  unfoldable pub given : ℕ → (ℕ → Event) → List Event
  given h act = if h == 0 then [] else act h ∷ []

  -- Stop's calls on the handles that there are, in their order.
  unfoldable pub release_all : WasapiCapture → List Event
  unfolding given
  release_all w =
      given w.audio_client stopped
      ++ (given w.capture_client released
          ++ (given w.audio_client released
              ++ (given w.device released
                  ++ (given w.device_enumerator released ++ given w.capture_event closed))))

  -- What Stop leaves.
  unfoldable pub let_go : WasapiCapture → WasapiCapture
  let_go w =
      let r : Ring s.Carrier = w.ring in
      record w {
        ring = record r { running = false };
        stop_open = false;
        capture_client = 0;
        audio_client = 0;
        device = 0;
        device_enumerator = 0;
        capture_event = 0;
      }

  -- Stop: nothing when it does not run; `none` is the panic of closing stopChan twice.
  unfoldable pub stop : WasapiCapture → Option (WasapiCapture × List Event)
  unfolding release_all let_go
  stop w =
      if not w.ring.running
      then some (w, [])
      else if not w.stop_open
      then none
      else some (let_go w, release_all w)
