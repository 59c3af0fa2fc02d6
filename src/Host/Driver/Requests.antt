-- ===== src/Host/Driver/Requests.antt =====
-- The start requests that the methods of asio/src/driver.rs send, and how the kernel driver's handler
-- (driver/ak1-acx/src/asio.rs) takes them.
use ak1_driver.Prelude.{
  ℕ, ◌≤◌, ◌<◌, ◌≡◌, sym, subst, Bool, true, false, List, [], ◌∷◌, ◌++◌, Option, some, arith,
  Option-cases, inl, inr, ◌⊎◌,
}
use ak1_driver.Proto.Wire.{SampleRate, hz44100, hz48000, hz88200, hz96000, hz192000, hz}
use ak1_driver.Kernel.Session.{Session, Result}
use ak1_driver.Kernel.Audio.{Audio, start_asio}
use ak1_driver.Kernel.Handlers as Handlers
use ak1_driver.Kernel.Handlers.Starts.{start_value, start-well_formed}
use ak1_driver.Host.Settings.{contains, rates}
use ak1_driver.Host.Duplex as Duplex
use ak1_driver.Host.Duplex.{
  Duplex, Effect, device_start, ask_time_info, StartParams, StartAnswers, OpenAnswers, start_params,
  signal_stop, stop_streams, join_if_any, join_worker, drop_duplex, request_reset,
}
use ak1_driver.Host.Driver.{Driver, set_sample_rate, fail, change_rate}
use ak1_driver.Host.Driver.Streams.{
  start, start_session, conclude_start, refuse_start, stop_session, stop_if_present,
  dispose_buffers, drop_session,
}
use ak1_driver.Prelude.Int.{ℤ}
use ak1_driver.Host.Driver.Create.{
  BufferInfo, create_buffers, create_at, create_checked, open_session, refuse,
}
use ak1_driver.Host.Driver.Valid.{
  IsValid, Step, inits, reads_sizes, sets_rate, creates, starts, begins_stop, ends_stop, disposes,
  Reached, created, called, Reached-IsValid,
}

pub record IsSane (params : StartParams) : Type 0 where
  pub some_frames : 0 < params.period_frames
  pub few_frames : params.period_frames ≤ 8192
  pub listed : contains rates params.rate_hz ≡ true

-- Of each start request among the effects.
abbrev pub AllStarts : (StartParams → Type 0) → List Effect → Type 0
AllStarts P [] = Unit
AllStarts P (device_start params ∷ effects) = P params × AllStarts P effects
AllStarts P (_ ∷ effects) = AllStarts P effects

AllStarts-append :
    (P : StartParams → Type 0) (before effects : List Effect)
    → AllStarts P before
    → AllStarts P effects
    → AllStarts P (before ++ effects)
AllStarts-append P [] effects h k = k
AllStarts-append P (Effect.device_start params ∷ before) effects h k =
    (h.0, AllStarts-append P before effects h.1 k)
AllStarts-append P (Effect.ask_reset_supported ∷ before) effects h k =
    AllStarts-append P before effects h k
AllStarts-append P (Effect.reset_request ∷ before) effects h k =
    AllStarts-append P before effects h k
AllStarts-append P (Effect.ask_time_info ∷ before) effects h k =
    AllStarts-append P before effects h k
AllStarts-append P (Effect.device_stop ∷ before) effects h k = AllStarts-append P before effects h k
AllStarts-append P (Effect.set_stop_event ∷ before) effects h k =
    AllStarts-append P before effects h k
AllStarts-append P (Effect.join thread ∷ before) effects h k = AllStarts-append P before effects h k
AllStarts-append P (Effect.close_events ∷ before) effects h k =
    AllStarts-append P before effects h k

request_reset-AllStarts :
    (P : StartParams → Type 0) (supported : Bool) → AllStarts P (request_reset supported)
unfolding request_reset
request_reset-AllStarts P true = tt
request_reset-AllStarts P false = tt

drop_duplex-AllStarts :
    (P : StartParams → Type 0) (current : ℕ) (duplex : Duplex)
    → AllStarts P (drop_duplex current duplex)
unfolding drop_duplex signal_stop join_if_any join_worker stop_streams
drop_duplex-AllStarts P current duplex = ground arith

module _ (d : Driver) (v : IsValid d) where
  starts-IsSane :
      (answers : StartAnswers) (supported : Bool) → AllStarts IsSane (start answers supported d).2
  unfolding start start_session conclude_start refuse_start fail Duplex.start start_params
      request_reset
  starts-IsSane answers supported = ground arith

set_sample_rate-AllStarts :
    (supported : Bool) (rate : Option ℕ) (d : Driver)
    → AllStarts IsSane (set_sample_rate supported rate d).2
unfolding set_sample_rate fail change_rate
set_sample_rate-AllStarts supported rate d =
    ground (arith, request_reset-AllStarts IsSane supported)

create_buffers-AllStarts :
    (answers : OpenAnswers) (time_info : Bool) (d : Driver) (infos : Option (List BufferInfo))
    (channels size : ℤ) (callbacks : Bool)
    → AllStarts IsSane (create_buffers answers time_info d infos channels size callbacks).2
unfolding create_buffers create_at create_checked open_session refuse
create_buffers-AllStarts answers time_info d infos channels size callbacks = ground arith

dispose_buffers-AllStarts :
    (current : ℕ) (d : Driver) → AllStarts IsSane (dispose_buffers current d).2
unfolding dispose_buffers drop_session
dispose_buffers-AllStarts current d = elim (Option-cases d.session) [
  | inl e ↦ ground arith
  | inr (session, e) ↦ ground (arith, drop_duplex-AllStarts IsSane current session.duplex)
]

stop_session-AllStarts :
    (d d' : Driver) (thread : Option ℕ) (effects : List Effect)
    → stop_session d d.session ≡ some (d', thread, effects)
    → AllStarts IsSane effects
unfolding stop_session signal_stop
stop_session-AllStarts d d' thread effects e = ground arith

Step-AllStarts :
    {d d' : Driver} {effects : List Effect}
    → IsValid d
    → Step d d' effects
    → AllStarts IsSane effects
unfolding stop_if_present stop_streams
Step-AllStarts v (inits f d) = tt
Step-AllStarts v (reads_sizes registry d) = tt
Step-AllStarts v (sets_rate supported rate d) = set_sample_rate-AllStarts supported rate d
Step-AllStarts v (creates answers time_info d infos channels size callbacks) =
    create_buffers-AllStarts answers time_info d infos channels size callbacks
Step-AllStarts v (starts answers supported d) = starts-IsSane d v answers supported
Step-AllStarts v (begins_stop d d' thread effects e) = stop_session-AllStarts d d' thread effects e
Step-AllStarts v (ends_stop d) = ground arith
Step-AllStarts v (disposes current d) = dispose_buffers-AllStarts current d

Reached-AllStarts :
    {d : Driver} {effects : List Effect} → Reached d effects → AllStarts IsSane effects
Reached-AllStarts (created registry) = tt
Reached-AllStarts (called {before = before} {effects = effects} reached step) =
    AllStarts-append IsSane before effects (Reached-AllStarts reached)
      (Step-AllStarts (Reached-IsValid reached) step)

-- The kernel driver's handler passes the request on to the card, in a session of that period.
abbrev pub IsPassedOn : StartParams → Type 0
IsPassedOn params =
    (a : Audio) (owner event : ℕ)
    → (s : Session) × ((rate : SampleRate) × ((hz rate ≡ params.rate_hz)
          × ((s.buffers.period ≡ params.period_frames)
              × (Handlers.start (Result.ok tt) true true a (record {
                file = some owner;
                value = some (start_value params.rate_hz params.period_frames event);
              })
                  ≡ start_asio a s rate))))

listed_rate : (n : ℕ) → contains rates n ≡ true → (rate : SampleRate) × (hz rate ≡ n)
unfolding hz
listed_rate n h = go (ground arith)
  where
    go :
        (n ≡ 44100) ⊎ ((n ≡ 48000) ⊎ ((n ≡ 88200) ⊎ ((n ≡ 96000) ⊎ (n ≡ 192000))))
        → (rate : SampleRate) × (hz rate ≡ n)
    go (inl e) = (hz44100, sym e)
    go (inr (inl e)) = (hz48000, sym e)
    go (inr (inr (inl e))) = (hz88200, sym e)
    go (inr (inr (inr (inl e)))) = (hz96000, sym e)
    go (inr (inr (inr (inr e)))) = (hz192000, sym e)

IsSane-IsPassedOn : (params : StartParams) → IsSane params → IsPassedOn params
IsSane-IsPassedOn params sane a owner event =
    let (rate, e) = listed_rate params.rate_hz sane.listed in
    let (s, found) =
      start-well_formed a owner event rate params.period_frames sane.some_frames sane.few_frames in
    (s, (rate, (e, (found.1.1, subst (passed s rate) e found.0))))
  where
    passed : Session → SampleRate → ℕ → Type 0
    passed s rate n =
        Handlers.start (Result.ok tt) true true a
          (record { file = some owner; value = some (start_value n params.period_frames event) })
        ≡ start_asio a s rate

module _ {P Q : StartParams → Type 0} (f : (params : StartParams) → P params → Q params) where
  AllStarts-map : (effects : List Effect) → AllStarts P effects → AllStarts Q effects
  AllStarts-map [] h = tt
  AllStarts-map (Effect.device_start params ∷ effects) h = (f params h.0, AllStarts-map effects h.1)
  AllStarts-map (Effect.ask_reset_supported ∷ effects) h = AllStarts-map effects h
  AllStarts-map (Effect.reset_request ∷ effects) h = AllStarts-map effects h
  AllStarts-map (Effect.ask_time_info ∷ effects) h = AllStarts-map effects h
  AllStarts-map (Effect.device_stop ∷ effects) h = AllStarts-map effects h
  AllStarts-map (Effect.set_stop_event ∷ effects) h = AllStarts-map effects h
  AllStarts-map (Effect.join thread ∷ effects) h = AllStarts-map effects h
  AllStarts-map (Effect.close_events ∷ effects) h = AllStarts-map effects h

-- Whatever calls a host makes, each start request that the ASIO driver sends is one that the kernel
-- driver's handler does not refuse as malformed: with the event and the memory granted, it asks for the
-- card at the rate of the request, with a session of the period of the request.
pub Reached-IsPassedOn :
    {d : Driver} {effects : List Effect} → Reached d effects → AllStarts IsPassedOn effects
Reached-IsPassedOn {effects = effects} reached =
    AllStarts-map {P = IsSane} {Q = IsPassedOn} IsSane-IsPassedOn effects
      (Reached-AllStarts reached)
