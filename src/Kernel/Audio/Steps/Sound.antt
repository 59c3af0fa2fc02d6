-- ===== src/Kernel/Audio/Steps/Sound.antt =====
-- However the calls of driver/ak1-acx/src/audio.rs interleave, they keep the books of `Audio`.
use ak1_driver.Prelude.{◌≡◌, inl, inr, refl, ap, List, Option, false, arith}
use ak1_driver.Kernel.Session.{Refusal}
use ak1_driver.Kernel.Audio.{new, attach, release_rate, stop_engine, run, pause, suspend}
use ak1_driver.Kernel.Audio.Steps as Steps
use ak1_driver.Kernel.Audio.Steps.{one_if}
use ak1_driver.Kernel.Audio.Steps.Sections.{Moment, Step, Reached, at_load, free, in_preparation}
use ak1_driver.Kernel.Audio.Steps.Kept.{
  IsKept, IsSound, claim_rate-IsSound, claim_rate-Knows, in_claim, others-IsKept, others-IsSound,
  release_rate-IsSound, release_rate-Knows,
}
use ak1_driver.Kernel.Audio.Steps.Calls.{
  prepared_stream-IsKept, refused-IsKept, release-IsSound, restored-IsKept, resumed-IsKept,
  started-IsKept, starts-IsKept,
}

Step-IsKept : {m m' : Moment} → Step m m' → IsKept m → IsKept m'
unfolding run pause attach suspend stop_engine release_rate
Step-IsKept (Step.created_stream {m} rate) k = record {
  sound = claim_rate-IsSound m rate k.sound;
  knows = claim_rate-Knows m.phase m.audio m.lost rate k.knows;
}
Step-IsKept (Step.destroyed_stream {m} h) k = record {
  sound = release_rate-IsSound m h k.sound;
  knows =
      release_rate-Knows m.phase m.audio m.lost
        (λ q. omega (arith, q, h, k.sound.counted, k.sound.prepared)) k.knows;
}
Step-IsKept (Step.ran slot id) k = others-IsKept _ refl refl refl k
Step-IsKept (Step.paused slot id) k = others-IsKept _ (ground arith) (ground arith) (ground arith) k
Step-IsKept (Step.attached {m} spec h) k = record {
  sound = others-IsSound m _ refl refl refl (inl refl) k.sound;
  knows = rw h tt;
}
Step-IsKept (Step.released_stream {m} slot id h r) k = record {
  sound = release-IsSound m slot id r k.sound;
  knows = rw h tt;
}
Step-IsKept (Step.suspended {m} h) k = record {
  sound = others-IsSound m _ refl refl refl (inr refl) k.sound;
  knows = rw h tt;
}
Step-IsKept (Step.prepares {m} stream h r) k = record {
  sound = ground (arith, k.sound, ap in_claim h, ap in_preparation h, r);
  knows = λ l. (refl, k.sound.has_rate l (omega (arith, r, k.sound.counted)));
}
Step-IsKept (Step.prepared_stream stream read h) k = prepared_stream-IsKept k stream read h
Step-IsKept (Step.resumes {m} h) k = record {
  sound = ground (arith, k.sound, ap in_claim h, ap in_preparation h);
  knows = λ r e q. e;
}
Step-IsKept (Step.resumed read h) k = resumed-IsKept k read h
Step-IsKept (Step.starts session rate h n) k = starts-IsKept k session rate h n
Step-IsKept (Step.started session rate previous h n) k = started-IsKept k session rate previous h n
Step-IsKept (Step.refused session rate previous refusal h n) k =
    refused-IsKept k session rate previous refusal h n
Step-IsKept (Step.restored rate h) k = restored-IsKept k rate h
Step-IsKept (Step.leaves {m} session h n) k = record {
  sound = ground (arith, k.sound, ap in_claim h, ap in_preparation h, n);
  knows = tt;
}
Step-IsKept (Step.gone {m} h) k = record {
  sound = ground (arith, k.sound, ap in_claim h, ap in_preparation h);
  knows = tt;
}

-- Between calls, and with no rate lost, these are the books of Audio.
pub free-IsSound :
    {m : Moment}
    → IsSound m
    → m.phase ≡ free
    → m.lost ≡ false
    → Steps.IsSound (record { audio = m.audio; created = m.created; ready = m.ready })
free-IsSound {m} v h l = record {
  counted = omega (arith, v.counted, ap in_claim h);
  prepared = v.prepared;
  ready_le = omega (arith, v.ready_le);
  has_rate = v.has_rate l;
  no_rate = v.no_rate;
  at_rate = v.at_rate l;
  idle = v.idle;
}

loaded-IsKept : (answers : List (Option Refusal)) → IsKept (at_load answers)
unfolding new
loaded-IsKept answers = record {
  sound = record {
    counted = refl;
    prepared = refl;
    ready_le = omega arith;
    no_rate = λ h. refl;
    idle = λ h. refl;
    has_rate = λ l h. absurd (omega arith);
    at_rate = λ l e h. ground (arith, h);
  };
  knows = tt;
}

Reached-IsKept :
    (answers : List (Option Refusal)) {m : Moment} → Reached (at_load answers) m → IsKept m
Reached-IsKept answers Reached.here = loaded-IsKept answers
Reached-IsKept answers (Reached.next r s) = Step-IsKept s (Reached-IsKept answers r)

-- However the calls interleave on a driver that was just loaded, and whatever the card answers: the streams and the
-- session, also one that is starting or ending, are counted; without one of them the card has no rate; and no
-- engine runs while no stream is prepared and no session is there. Unless a session that found the card without a
-- rate failed to start after a stream was created meanwhile, the card has a rate while one of them is
-- counted, and a running engine runs at it.
pub Reached-IsSound :
    (answers : List (Option Refusal)) {m : Moment} → Reached (at_load answers) m → IsSound m
Reached-IsSound answers r = (Reached-IsKept answers r).sound
