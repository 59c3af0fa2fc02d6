-- ===== src/Kernel/Audio/Steps/Sections.antt =====
-- The calls of driver/ak1-acx/src/audio.rs as they interleave. A call under the control lock excludes the others
-- there; the creation and the end of a stream take the spin lock alone, and come at any of its sections.
use ak1_driver.Prelude.{
  ℕ, ◌+◌, ◌-◌, ◌<◌, ◌≡◌, ◌==◌, Bool, false, ◌||◌, not, List, Option, none, some,
}
use ak1_driver.Proto.Wire.{SampleRate, DeviceSpec}
use ak1_driver.Kernel.Rt.{Slot, RtStream}
use ak1_driver.Kernel.Session.{Session, Refusal, Result}
use ak1_driver.Kernel.Audio.{
  new, Audio, attach, claim_rate, release_rate, prepare_at, run, pause, release, claimed,
  start_stopped, give_back, restart, join, left, suspend, resume_at,
}

-- Where the call is that has the control lock: `start_asio` before the start and after a failed one, `prepare` and
-- `resume` with the rate that they read, `stop_asio` before it gives back its claim.
pub data Phase : Type 0 where
  free : Phase
  starting : Session → SampleRate → (previous : Option SampleRate) → Phase
  restoring : (restored : Option SampleRate) → Phase
  preparing : RtStream → (read : Option SampleRate) → Phase
  resuming : (read : Option SampleRate) → Phase
  leaving : Phase

-- `created` streams exist and `ready` of them are prepared. `lost` says that a session that found the card without
-- a rate failed to start, and took the rate from a stream that was created meanwhile.
pub record Moment : Type 0 where
  pub audio : Audio
  pub created : ℕ
  pub ready : ℕ
  pub phase : Phase
  pub lost : Bool

abbrev pub loses : (previous : Option SampleRate) → (streams : ℕ) → Bool
loses none streams = not (streams == 0)
loses (some rate) streams = false

abbrev pub ready_after : Result Unit → ℕ → ℕ
ready_after (Result.ok _) n = n + 1
ready_after (Result.err _) n = n

-- A stream that is being prepared.
abbrev pub in_preparation : Phase → ℕ
in_preparation (preparing stream read) = 1
in_preparation _ = 0

-- After a failed start: the claim is given back.
abbrev pub turned_back : Moment → SampleRate → (previous : Option SampleRate) → Moment
turned_back m rate previous =
    let a = give_back (start_stopped m.audio.hardware.engine m.audio rate).0 previous in
    record m {
      audio = a;
      phase = restoring a.shared.rate;
      lost = m.lost || loses previous a.shared.streams;
    }

-- One step is one section of the spin lock with what follows under the control lock alone, which no other step sees.
-- What may happen next. The audio engine prepares a stream it created, releases one it prepared, and ends one that
-- is neither prepared nor being prepared.
pub data Step : Moment → Moment → Type 0 where
  created_stream :
      {m : Moment} (rate : SampleRate)
      → Step m (record m { audio = claim_rate m.audio rate; created = m.created + 1 })
  destroyed_stream :
      {m : Moment}
      → m.ready + in_preparation m.phase < m.created
      → Step m (record m { audio = release_rate m.audio; created = m.created - 1 })
  ran : {m : Moment} (slot : Slot) (id : ℕ) → Step m (record m { audio = run m.audio slot id })
  paused : {m : Moment} (slot : Slot) (id : ℕ) → Step m (record m { audio = pause m.audio slot id })
  attached :
      {m : Moment} (spec : DeviceSpec)
      → m.phase ≡ free
      → Step m (record m { audio = attach m.audio spec })
  released_stream :
      {m : Moment} (slot : Slot) (id : ℕ)
      → m.phase ≡ free
      → 0 < m.ready
      → Step m (record m { audio = release m.audio slot id; ready = m.ready - 1 })
  suspended : {m : Moment} → m.phase ≡ free → Step m (record m { audio = suspend m.audio })
  prepares :
      {m : Moment} (stream : RtStream)
      → m.phase ≡ free
      → m.ready < m.created
      → Step m (record m { phase = preparing stream m.audio.shared.rate })
  prepared_stream :
      {m : Moment} (stream : RtStream) (read : Option SampleRate)
      → m.phase ≡ preparing stream read
      → Step m (record m {
        audio = (prepare_at read m.audio stream).0;
        ready = ready_after (prepare_at read m.audio stream).2 m.ready;
        phase = free;
      })
  resumes :
      {m : Moment} → m.phase ≡ free → Step m (record m { phase = resuming m.audio.shared.rate })
  resumed :
      {m : Moment} (read : Option SampleRate)
      → m.phase ≡ resuming read
      → Step m (record m { audio = (resume_at read m.audio).0; phase = free })
  starts :
      {m : Moment} (session : Session) (rate : SampleRate)
      → m.phase ≡ free
      → m.audio.asio ≡ none
      → Step m (record m {
        audio = claimed m.audio rate;
        phase = starting session rate m.audio.shared.rate;
      })
  started :
      {m : Moment} (session : Session) (rate : SampleRate) (previous : Option SampleRate)
      → m.phase ≡ starting session rate previous
      → (start_stopped m.audio.hardware.engine m.audio rate).1 ≡ Result.ok tt
      → Step m (record m {
        audio = join (start_stopped m.audio.hardware.engine m.audio rate).0 session;
        phase = free;
      })
  refused :
      {m : Moment} (session : Session) (rate : SampleRate) (previous : Option SampleRate)
      (refusal : Refusal)
      → m.phase ≡ starting session rate previous
      → (start_stopped m.audio.hardware.engine m.audio rate).1 ≡ Result.err refusal
      → Step m (turned_back m rate previous)
  restored :
      {m : Moment} (rate : Option SampleRate)
      → m.phase ≡ restoring rate
      → Step m (record m { audio = restart m.audio rate; phase = free })
  leaves :
      {m : Moment} (session : Session)
      → m.phase ≡ free
      → m.audio.asio ≡ some session
      → Step m (record m { audio = left m.audio; phase = leaving })
  gone :
      {m : Moment}
      → m.phase ≡ leaving
      → Step m (record m { audio = release_rate m.audio; phase = free })

abbrev pub at_load : List (Option Refusal) → Moment
at_load answers = record { audio = new answers; created = 0; ready = 0; phase = free; lost = false }

pub data Reached (m : Moment) : Moment → Type 0 where
  here : Reached m m
  next : {m' m'' : Moment} → Reached m m' → Step m' m'' → Reached m m''
