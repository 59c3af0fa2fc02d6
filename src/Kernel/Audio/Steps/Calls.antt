-- ===== src/Kernel/Audio/Steps/Calls.antt =====
-- What the sections of `prepare`, `resume` and `start_asio` of driver/ak1-acx/src/audio.rs keep.
use ak1_driver.Prelude.{
  ℕ, ◌+◌, ◌-◌, ◌<◌, ◌≡◌, ◌∙◌, ◌⊎◌, refl, ap, subst, Option, none, some, false, ◌||◌, ℕ_discrete,
  arith,
}
use ak1_driver.Proto.Wire.{SampleRate, hz}
use ak1_driver.Kernel.Rt.{Slot, RtStream}
use ak1_driver.Kernel.Session.{Session, Refusal, Result}
use ak1_driver.Kernel.Audio.{
  Audio, Engine, Shared, stop_engine, pause, release, claimed, start_stopped, give_back, restart,
  join, resume_at, prepare_at,
}
use ak1_driver.Kernel.Audio.Steps.Starts.{start_engine-keeps, start_stopped-keeps}
use ak1_driver.Kernel.Audio.Steps.Sections.{
  Phase, Moment, free, starting, restoring, preparing, resuming, in_preparation, loses, turned_back,
  ready_after,
}
use ak1_driver.Kernel.Audio.Steps.Kept.{IsKept, IsSound, Knows, in_claim}

hz_inj : (a b : SampleRate) → hz a ≡ hz b → a ≡ b
unfolding hz
hz_inj a b h = ground arith

pub release-IsSound :
    (m : Moment) (slot : Slot) (id : ℕ)
    → 0 < m.ready
    → IsSound m
    → IsSound (record m { audio = release m.audio slot id; ready = m.ready - 1 })
unfolding release pause stop_engine
release-IsSound m slot id h v = ground (arith, v)

starting-IsSound :
    (m : Moment) (a : Audio) (session : Session) (rate : SampleRate) (previous : Option SampleRate)
    → m.phase ≡ free
    → m.audio.asio ≡ none
    → IsSound m
    → a.shared ≡ record { streams = m.audio.shared.streams + 1; rate = some rate }
    → a.asio ≡ m.audio.asio
    → a.hardware.prepared ≡ m.audio.hardware.prepared
    → (a.hardware.engine ≡ m.audio.hardware.engine) ⊎ (a.hardware.engine ≡ none)
    → ((e : Engine) → a.hardware.engine ≡ some e → m.lost ≡ false → e.engine_rate ≡ rate)
    → IsSound (record m { audio = a; phase = starting session rate previous })
starting-IsSound m a session rate previous h n v h1 h2 h3 h4 h5 =
    ground (arith, h, n, v, h1, h2, h3, h4, h5, ap in_claim h, ap in_preparation h)

turned_back-IsSound :
    (m : Moment) (a : Audio) (session : Session) (rate : SampleRate) (previous : Option SampleRate)
    → m.phase ≡ starting session rate previous
    → m.audio.asio ≡ none
    → IsSound m
    → a.shared ≡ m.audio.shared
    → a.asio ≡ m.audio.asio
    → a.hardware.prepared ≡ m.audio.hardware.prepared
    → a.hardware.engine ≡ none
    → let a' = give_back a previous in
      IsSound (record m {
        audio = a';
        phase = restoring a'.shared.rate;
        lost = m.lost || loses previous a'.shared.streams;
      })
unfolding give_back
turned_back-IsSound m a session rate none h n v h1 h2 h3 h4 =
    ground (arith, h, n, v, h1, h2, h3, h4, ap in_claim h, ap in_preparation h)
turned_back-IsSound m a session rate (some r) h n v h1 h2 h3 h4 =
    ground (arith, h, n, v, h1, h2, h3, h4, ap in_claim h, ap in_preparation h)

-- The sections of the calls, over what is kept.
module _ {m : Moment} (k : IsKept m) where
  claimed-engine :
      (rate : SampleRate) (e : Engine)
      → (claimed m.audio rate).hardware.engine ≡ some e
      → m.lost ≡ false
      → e.engine_rate ≡ rate
  unfolding stop_engine
  claimed-engine rate e h l = by_rate m.audio.shared.rate refl
    where
      by_rate : (r : Option SampleRate) → m.audio.shared.rate ≡ r → e.engine_rate ≡ rate
      by_rate none q = ground (arith, q, h)
      by_rate (some held) q = elim (ℕ_discrete (hz held) (hz rate)) [
        | yes p ↦
            let same : held ≡ rate = hz_inj held rate p in
            ground (arith, q, p, same, h, k.sound.at_rate l e)
        | no p ↦ ground (arith, q, p, h)
      ]

  known : {p : Phase} → m.phase ≡ p → Knows p m.audio m.lost
  known h = subst (λ p. Knows p m.audio m.lost) h k.knows

  claimed-rest :
      (rate : SampleRate)
      → let a = claimed m.audio rate in
        (a.asio ≡ m.audio.asio)
        × (a.hardware.prepared ≡ m.audio.hardware.prepared)
        × ((a.hardware.engine ≡ m.audio.hardware.engine) ⊎ (a.hardware.engine ≡ none))
  unfolding stop_engine
  claimed-rest rate = ground arith

  claimed-shared :
      (rate : SampleRate)
      → (claimed m.audio rate).shared
        ≡ record { streams = m.audio.shared.streams + 1; rate = some rate }
  unfolding stop_engine
  claimed-shared rate = ground arith

  pub starts-IsKept :
      (session : Session) (rate : SampleRate)
      → m.phase ≡ free
      → m.audio.asio ≡ none
      → IsKept (record m {
        audio = claimed m.audio rate;
        phase = starting session rate m.audio.shared.rate;
      })
  starts-IsKept session rate h n =
      let (asio, prepared, engine) = claimed-rest rate in
      let ruled = claimed-engine rate in
      let shared = claimed-shared rate in
      record {
        sound =
            starting-IsSound m (claimed m.audio rate) session rate m.audio.shared.rate h n k.sound
              shared asio prepared engine ruled;
        knows = (asio ∙ n, ap (λ (s : Shared). s.rate) shared, ruled);
      }

  pub started-IsKept :
      (session : Session) (rate : SampleRate) (previous : Option SampleRate)
      → m.phase ≡ starting session rate previous
      → (start_stopped m.audio.hardware.engine m.audio rate).1 ≡ Result.ok tt
      → IsKept (record m {
        audio = join (start_stopped m.audio.hardware.engine m.audio rate).0 session;
        phase = free;
      })
  started-IsKept session rate previous h n = record {
    sound = ground (
      arith,
      k.sound,
      ap in_claim h,
      ap in_preparation h,
      known h,
      start_stopped-keeps m.audio.hardware.engine m.audio rate refl,
    );
    knows = tt;
  }

  pub refused-IsKept :
      (session : Session) (rate : SampleRate) (previous : Option SampleRate) (refusal : Refusal)
      → m.phase ≡ starting session rate previous
      → (start_stopped m.audio.hardware.engine m.audio rate).1 ≡ Result.err refusal
      → IsKept (turned_back m rate previous)
  unfolding give_back
  refused-IsKept session rate previous refusal h n =
      let (shared, asio, prepared, engine, ended) =
        start_stopped-keeps m.audio.hardware.engine m.audio rate refl in
      record {
        sound =
            turned_back-IsSound m (start_stopped m.audio.hardware.engine m.audio rate).0 session
              rate previous h (known h).0 k.sound shared asio prepared (ended refusal n);
        knows = (ended refusal n, λ r e q. e);
      }

  pub restored-IsKept :
      (rate : Option SampleRate)
      → m.phase ≡ restoring rate
      → IsKept (record m { audio = restart m.audio rate; phase = free })
  unfolding restart
  restored-IsKept none h = record {
    sound = ground (arith, k.sound, ap in_claim h, ap in_preparation h);
    knows = tt;
  }
  restored-IsKept (some rate) h = record {
    sound = ground (
      arith,
      k.sound,
      ap in_claim h,
      ap in_preparation h,
      (known h).0,
      (known h).1 rate refl,
      start_engine-keeps m.audio rate,
    );
    knows = tt;
  }

  pub prepared_stream-IsKept :
      (stream : RtStream) (read : Option SampleRate)
      → m.phase ≡ preparing stream read
      → IsKept (record m {
        audio = (prepare_at read m.audio stream).0;
        ready = ready_after (prepare_at read m.audio stream).2 m.ready;
        phase = free;
      })
  unfolding prepare_at
  prepared_stream-IsKept stream none h = record {
    sound = ground (
      arith,
      k.sound,
      ap in_claim h,
      ap in_preparation h,
      known h,
      start_engine-keeps m.audio stream.rate,
    );
    knows = tt;
  }
  prepared_stream-IsKept stream (some rate) h = record {
    sound = ground (
      arith,
      k.sound,
      ap in_claim h,
      ap in_preparation h,
      known h,
      start_engine-keeps m.audio rate,
    );
    knows = tt;
  }

  pub resumed-IsKept :
      (read : Option SampleRate)
      → m.phase ≡ resuming read
      → IsKept (record m { audio = (resume_at read m.audio).0; phase = free })
  unfolding resume_at
  resumed-IsKept none h = record {
    sound = ground (arith, k.sound, ap in_claim h, ap in_preparation h);
    knows = tt;
  }
  resumed-IsKept (some rate) h = record {
    sound = ground (
      arith,
      k.sound,
      ap in_claim h,
      ap in_preparation h,
      known h rate refl,
      start_engine-keeps m.audio rate,
    );
    knows = tt;
  }
