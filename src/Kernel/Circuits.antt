-- ===== src/Kernel/Circuits.antt =====
-- The audio circuits of driver/ak1-acx/src/circuit.rs and the wave formats of ks.rs. `system` answers each
-- call of the audio framework from the calls and answers before it; what a call gives is a number.
-- The log has the newest call first.
pub mod Inits
pub mod Streams
use ak1_driver.Prelude.{ℕ, ◌+◌, ◌*◌, ◌/◌, ◌%◌, ◌^◌, Bool, true, false, List, [], ◌∷◌, if◌then◌else◌}
use ak1_driver.Proto.Wire.{SampleRate, hz44100, hz48000, hz88200, hz96000, hz192000, hz}
use ak1_driver.Kernel.Rt.{Slot, is_capture}
use ak1_driver.Kernel.Usb.{Status, failure, Outcome, done, failed}

pub record Guid : Type 0 where
  pub data1 : ℕ
  pub data2 : ℕ
  pub data3 : ℕ
  pub data4 : List ℕ

abbrev guid : ℕ → ℕ → ℕ → List ℕ → Guid
guid data1 data2 data3 data4 = record { data1 = data1; data2 = data2; data3 = data3; data4 = data4 }

abbrev tail : List ℕ
tail = 0x80 ∷ 0x00 ∷ 0x00 ∷ 0xaa ∷ 0x00 ∷ 0x38 ∷ 0x9b ∷ 0x71 ∷ []

abbrev pub ksdataformat_type_audio : Guid
ksdataformat_type_audio = guid 0x73647561 0x0000 0x0010 tail

abbrev pub ksdataformat_subtype_pcm : Guid
ksdataformat_subtype_pcm = guid 0x00000001 0x0000 0x0010 tail

abbrev pub ksdataformat_specifier_waveformatex : Guid
ksdataformat_specifier_waveformatex =
    guid 0x05589f81 0xc356 0x11ce (0xbf ∷ 0x01 ∷ 0x00 ∷ 0xaa ∷ 0x00 ∷ 0x55 ∷ 0x59 ∷ 0x5a ∷ [])

pub record KsWaveFormat : Type 0 where
  pub format_size : ℕ
  pub flags : ℕ
  pub sample_size : ℕ
  pub reserved : ℕ
  pub major_format : Guid
  pub sub_format : Guid
  pub specifier : Guid
  pub format_tag : ℕ
  pub channels : ℕ
  pub samples_per_sec : ℕ
  pub avg_bytes_per_sec : ℕ
  pub block_align : ℕ
  pub bits_per_sample : ℕ
  pub cb_size : ℕ
  pub valid_bits_per_sample : ℕ
  pub channel_mask : ℕ
  pub pcm_sub_format : Guid

-- Interleaved stereo integer PCM. The structure has 104 bytes.
unfoldable pub stereo_pcm : (rate_hz container_bits valid_bits : ℕ) → KsWaveFormat
stereo_pcm rate_hz container_bits valid_bits =
    let align = 2 * container_bits % 2 ^ 16 / 8 in
    record {
      format_size = 104;
      flags = 0;
      sample_size = align;
      reserved = 0;
      major_format = ksdataformat_type_audio;
      sub_format = ksdataformat_subtype_pcm;
      specifier = ksdataformat_specifier_waveformatex;
      format_tag = 0xfffe;
      channels = 2;
      samples_per_sec = rate_hz;
      avg_bytes_per_sec = rate_hz * align % 2 ^ 32;
      block_align = align;
      bits_per_sample = container_bits;
      cb_size = 22;
      valid_bits_per_sample = valid_bits;
      channel_mask = 0x3;
      pcm_sub_format = ksdataformat_subtype_pcm;
    }

-- A rate, the bits of a container and how many of them are valid.
abbrev pub Format : Type 0
Format = SampleRate × ℕ × ℕ

-- The default comes first.
abbrev pub formats : List Format
formats =
    (hz48000, 32, 24)
    ∷ (hz44100, 32, 24)
    ∷ (hz88200, 32, 24)
    ∷ (hz96000, 32, 24)
    ∷ (hz192000, 32, 24)
    ∷ (hz48000, 16, 16)
    ∷ (hz44100, 16, 16)
    ∷ (hz88200, 16, 16)
    ∷ (hz96000, 16, 16)
    ∷ (hz192000, 16, 16)
    ∷ []

unfoldable pub wave_format : Format → KsWaveFormat
unfolding stereo_pcm hz
wave_format (rate, container_bits, valid_bits) = stereo_pcm (hz rate) container_bits valid_bits

pub data PinType : Type 0 where
  source : PinType
  sink : PinType

pub data Communication : Type 0 where
  unconnected : Communication
  with_sink : Communication

pub data Category : Type 0 where
  audio : Category
  line_connector : Category

-- The calls of the framework. Those that answer nothing are asked too, and their answer is not read.
pub data Request : Type 0 where
  allocate_init : Request
  free_init : (init : ℕ) → Request
  set_component_id : (init : ℕ) → Slot → Request
  assign_name : (init : ℕ) → Slot → Request
  set_circuit_type : (init : ℕ) → (capture : Bool) → Request
  assign_create_stream : (init : ℕ) → Request
  assign_properties : (init : ℕ) → Request
  set_power_callbacks : (init : ℕ) → Request
  create_circuit : (init : ℕ) → Request
  create_pin : (circuit : ℕ) → PinType → Communication → Category → Request
  get_format_list : (pin : ℕ) → Request
  create_format : (circuit : ℕ) → KsWaveFormat → Request
  add_format : (formats format : ℕ) → Request
  add_pins : (circuit host bridge : ℕ) → Request

abbrev pub Log : Type 0
Log = List (Request × Outcome ℕ)

-- Calls made from a log on, which keep it beside a failure too.
abbrev pub Call : Type 0 → Type 0
Call A = Log → Outcome A × Log

infixl 20 ◌>>=◌ ◌>>◌
abbrev pub ◌>>=◌ : {A B : Type 0} → Call A → (A → Call B) → Call B
◌>>=◌ m f log = let (r, log') = m log in elim r [ done a ↦ f a log' | failed s ↦ (failed s, log') ]

abbrev pub ◌>>◌ : {A B : Type 0} → Call A → Call B → Call B
m >> k = m >>= λ _. k

abbrev pub pure : {A : Type 0} → A → Call A
pure a log = (done a, log)

abbrev pub insufficient_resources : Status
insufficient_resources = failure 0xc000009a

-- A null pointer is a lack of resources.
abbrev pub null_check : Outcome ℕ → Outcome ℕ
null_check (done pointer) = done pointer
null_check (failed _) = failed insufficient_resources

abbrev pub pin_types : Slot → PinType × PinType
pin_types slot = if is_capture slot then (source, sink) else (sink, source)

module _ (system : Log → Request → Outcome ℕ) where
  -- A call whose status is checked.
  unfoldable pub ask : Request → Call ℕ
  ask request log = let a = system log request in (a, (request, a) ∷ log)

  -- A call that answers nothing.
  unfoldable pub tell : Request → Call Unit
  tell request log = (done tt, (request, system log request) ∷ log)

  -- A call that answers a pointer.
  unfoldable pub ask_pointer : Request → Call ℕ
  ask_pointer request log = let a = system log request in (null_check a, (request, a) ∷ log)

  unfoldable pub properties_of : Slot → (init : ℕ) → Call Unit
  unfolding ask
  properties_of Slot.output12 init = do ask (assign_properties init); pure tt
  properties_of Slot.output34 init = pure tt
  properties_of Slot.input12 init = pure tt

  -- Up to the creation, whose success takes `init` over.
  unfoldable pub configure_init : Slot → (init : ℕ) → Call Unit
  unfolding ask tell properties_of is_capture
  configure_init slot init = do
    tell (set_component_id init slot)
    ask (assign_name init slot)
    tell (set_circuit_type init (is_capture slot))
    ask (assign_create_stream init)
    properties_of slot init
    tell (set_power_callbacks init)

  unfoldable pub create_from_init : Slot → (init : ℕ) → Call ℕ
  unfolding configure_init ask
  create_from_init slot init = do configure_init slot init; ask (create_circuit init)

  -- A circuit that was not created leaves `init` to be freed.
  unfoldable pub free_unless_taken : (init : ℕ) → Outcome ℕ × Log → Outcome ℕ × Log
  unfolding tell
  free_unless_taken init (done circuit, log) = (done circuit, log)
  free_unless_taken init (failed status, log) = (failed status, (tell (free_init init) log).1)

  unfoldable pub create_with : Slot → (init : ℕ) → Call ℕ
  unfolding create_from_init free_unless_taken
  create_with slot init log = free_unless_taken init (create_from_init slot init log)

  unfoldable pub add_each : (circuit formats : ℕ) → List Format → Call Unit
  unfolding ask wave_format
  add_each circuit list [] = pure tt
  add_each circuit list (format ∷ rest) = do
    created ← ask (create_format circuit (wave_format format))
    ask (add_format list created)
    add_each circuit list rest

  unfoldable pub add_formats : (circuit pin : ℕ) → Call Unit
  unfolding ask_pointer add_each
  add_formats circuit pin = do
    list ← ask_pointer (get_format_list pin)
    add_each circuit list formats

  unfoldable pub create_pins : Slot → (circuit : ℕ) → Call Unit
  unfolding ask add_formats
  create_pins slot circuit = do
    host ← ask (create_pin circuit (pin_types slot).0 with_sink audio)
    bridge ← ask (create_pin circuit (pin_types slot).1 unconnected line_connector)
    add_formats circuit host
    ask (add_pins circuit host bridge)
    pure tt

  unfoldable pub create : Slot → Call ℕ
  unfolding ask_pointer create_with create_pins
  create slot = do
    init ← ask_pointer allocate_init
    circuit ← create_with slot init
    create_pins slot circuit
    pure circuit

  -- The circuits by slot.
  unfoldable pub create_all : Call (List ℕ)
  unfolding create
  create_all = do
    output12 ← create Slot.output12
    output34 ← create Slot.output34
    input12 ← create Slot.input12
    pure (output12 ∷ output34 ∷ input12 ∷ [])
