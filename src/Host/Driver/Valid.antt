-- ===== src/Host/Driver/Valid.antt =====
-- What holds of the driver between two calls, whichever threads make them: the invariant of `Driver` of
-- asio/src/driver.rs under its methods. `stop` is two steps, for the driver is unlocked between them.
use ak1_driver.Prelude.{
  ℕ, ◌≤◌, ◌≡◌, refl, Bool, true, false, List, [], ◌++◌, Option, none, some, ◌⊎◌, inl, inr, arith,
  Option-cases, Bool-cases, take,
}
use ak1_driver.Prelude.Int.{ℤ, pos, negsuc}
use ak1_driver.Host.Settings.{
  contains, rates, min_buffer_frames, min_buffer_frames_cases, max_buffer_frames_last,
  load-IsListed,
}
use ak1_driver.Host.Duplex as Duplex
use ak1_driver.Host.Duplex.{
  Duplex, Effect, StartAnswers, OpenAnswers, Opened, opened, refused, open_device,
}
use ak1_driver.Host.Driver.{
  Session, Driver, Registry, Found, found, absent, search_failed, new, settings, init, fail,
  get_buffer_size, set_sample_rate, change_rate, find_listed,
}
use ak1_driver.Host.Driver.Streams.{
  start, start_session, conclude_start, refuse_start, stop_session, stop_if_present,
  dispose_buffers,
}
use ak1_driver.Host.Driver.Create.{
  BufferInfo, create_buffers, create_at, create_checked, open_session, session_of, host_of, refuse,
  is_accepted, smallest, as_usize,
}

abbrev pub is_some : Option ℕ → Bool
is_some none = false
is_some (some n) = true

-- A session's period and rate are the kernel driver's, and it runs just when it has a thread.
pub record IsOpen (s : Session) : Type 0 where
  pub long : 64 ≤ s.host.buffer_frames
  pub short : s.host.buffer_frames ≤ 8192
  pub listed : contains rates s.host.rate ≡ true
  pub threaded : s.running ≡ is_some s.duplex.thread

abbrev pub AllOpen : Option Session → Type 0
AllOpen none = Unit
AllOpen (some s) = IsOpen s

abbrev pub IsListed : Option ℕ → Type 0
IsListed none = Unit
IsListed (some rate) = contains rates rate ≡ true

pub record IsValid (d : Driver) : Type 0 where
  pub rate_listed : contains rates d.rate ≡ true
  pub read_listed : IsListed d.listed_rate
  pub sessions : AllOpen d.session

-- A call: the driver before it and after it, and its effects.
pub data Step : Driver → Driver → List Effect → Type 0 where
  inits : (f : Found) (d : Driver) → Step d (init f d).0 []
  reads_sizes : (registry : Registry) (d : Driver) → Step d (get_buffer_size registry d).0 []
  sets_rate :
      (supported : Bool) (rate : Option ℕ) (d : Driver)
      → Step d (set_sample_rate supported rate d).0 (set_sample_rate supported rate d).2
  creates :
      (answers : OpenAnswers) (time_info : Bool) (d : Driver) (infos : Option (List BufferInfo))
      (channels size : ℤ) (callbacks : Bool)
      → Step d
          (create_buffers answers time_info d infos channels size callbacks).0
          (create_buffers answers time_info d infos channels size callbacks).2
  starts :
      (answers : StartAnswers) (supported : Bool) (d : Driver)
      → Step d (start answers supported d).0 (start answers supported d).2
  begins_stop :
      (d d' : Driver) (thread : Option ℕ) (effects : List Effect)
      → stop_session d d.session ≡ some (d', thread, effects)
      → Step d d' effects
  ends_stop : (d : Driver) → Step d d (stop_if_present d.session)
  disposes :
      (current : ℕ) (d : Driver)
      → Step d (dispose_buffers current d).0 (dispose_buffers current d).2

-- The drivers that calls lead to, with all the effects up to there.
pub data Reached : Driver → List Effect → Type 0 where
  created : (registry : Registry) → Reached (new registry) []
  called :
      {d d' : Driver} {before effects : List Effect}
      → Reached d before
      → Step d d' effects
      → Reached d' (before ++ effects)

new-IsValid : (registry : Registry) → IsValid (new registry)
unfolding new settings
new-IsValid registry =
    let (listed, _) = load-IsListed registry.sample_rate registry.buffer_multiple in
    record { rate_listed = listed; read_listed = tt; sessions = tt }

init-IsValid : (f : Found) (d : Driver) → IsValid d → IsValid (init f d).0
unfolding init
init-IsValid (found path) d v = record {
  rate_listed = v.rate_listed;
  read_listed = v.read_listed;
  sessions = v.sessions;
}
init-IsValid absent d v = record {
  rate_listed = v.rate_listed;
  read_listed = v.read_listed;
  sessions = v.sessions;
}
init-IsValid (search_failed e) d v = record {
  rate_listed = v.rate_listed;
  read_listed = v.read_listed;
  sessions = v.sessions;
}

pub find_listed-IsListed : (rate : Option ℕ) → IsListed (find_listed rates rate)
unfolding find_listed
find_listed-IsListed none = tt
find_listed-IsListed (some rate) = ground arith

set_sample_rate-IsValid :
    (supported : Bool) (rate : Option ℕ) (d : Driver)
    → IsValid d
    → IsValid (set_sample_rate supported rate d).0
unfolding set_sample_rate fail change_rate
set_sample_rate-IsValid supported rate d v = ground (arith, find_listed-IsListed rate)

start-IsValid :
    (answers : StartAnswers) (supported : Bool) (d : Driver)
    → IsValid d
    → IsValid (start answers supported d).0
unfolding start start_session conclude_start refuse_start fail Duplex.start
start-IsValid answers supported d v = ground arith

stop_session-IsValid :
    (d d' : Driver) (thread : Option ℕ) (effects : List Effect)
    → stop_session d d.session ≡ some (d', thread, effects)
    → IsValid d
    → IsValid d'
unfolding stop_session Duplex.signal_stop
stop_session-IsValid d d' thread effects e v = ground arith

-- The size that is accepted is one that the kernel driver takes.
is_accepted_bounds :
    (d : Driver) (size : ℕ)
    → IsValid d
    → is_accepted d (pos size) ≡ true
    → (64 ≤ size) × (size ≤ 8192)
unfolding is_accepted smallest
is_accepted_bounds d size v h = ground (
  arith,
  max_buffer_frames_last,
  min_buffer_frames_cases d.rate v.rate_listed,
  listed_bound d.listed_rate v.read_listed,
)
  where
    listed_bound :
        (listed : Option ℕ)
        → IsListed listed
        → (listed ≡ none) ⊎ ((l : ℕ) × ((listed ≡ some l) × (64 ≤ min_buffer_frames l)))
    listed_bound none h = inl refl
    listed_bound (some l) h = inr (l, (refl, ground (arith, min_buffer_frames_cases l h)))

open_session-IsValid :
    (answers : OpenAnswers) (time_info : Bool) (path frames : ℕ) (d : Driver)
    (infos : List BufferInfo)
    → 64 ≤ frames
    → frames ≤ 8192
    → IsValid d
    → IsValid (open_session time_info frames d infos (open_device answers path)).0
unfolding open_device open_session session_of host_of
open_session-IsValid answers time_info path frames d infos low high v = ground arith

create_checked-IsValid :
    (answers : OpenAnswers) (time_info : Bool) (path frames : ℕ) (d : Driver)
    (infos : List BufferInfo)
    → 64 ≤ frames
    → frames ≤ 8192
    → IsValid d
    → IsValid (create_checked answers time_info path frames d infos).0
unfolding create_checked refuse
create_checked-IsValid answers time_info path frames d infos low high v =
    ground (arith, open_session-IsValid answers time_info path frames d infos low high v)

create_at-IsValid :
    (answers : OpenAnswers) (time_info : Bool) (path : ℕ) (d : Driver)
    (infos : Option (List BufferInfo)) (channels size : ℤ) (callbacks : Bool)
    → IsValid d
    → IsValid (create_at answers time_info path d infos channels size callbacks).0
unfolding create_at refuse
create_at-IsValid answers time_info path d none channels size callbacks v = ground arith
create_at-IsValid answers time_info path d (some infos) channels (negsuc size) callbacks v =
    ground arith
create_at-IsValid answers time_info path d (some infos) channels (pos size) callbacks v =
    elim (Bool-cases (is_accepted d (pos size))) [
      | inl fits ↦
          let (low, high) = is_accepted_bounds d size v fits in
          ground (
            arith,
            create_checked-IsValid answers time_info path size d (take (as_usize channels) infos)
                low high v,
          )
      | inr misfits ↦ unfold is_accepted smallest in ground arith
    ]

create_buffers-IsValid :
    (answers : OpenAnswers) (time_info : Bool) (d : Driver) (infos : Option (List BufferInfo))
    (channels size : ℤ) (callbacks : Bool)
    → IsValid d
    → IsValid (create_buffers answers time_info d infos channels size callbacks).0
unfolding create_buffers refuse
create_buffers-IsValid answers time_info d infos channels size callbacks v =
    elim (Option-cases d.device) [
      | inl closed ↦ ground arith
      | inr (path, e) ↦
          ground (arith, create_at-IsValid answers time_info path d infos channels size callbacks v)
    ]

-- Each call keeps the invariant.
Step-IsValid : {d d' : Driver} {effects : List Effect} → Step d d' effects → IsValid d → IsValid d'
unfolding get_buffer_size dispose_buffers
Step-IsValid (inits f d) v = init-IsValid f d v
Step-IsValid (reads_sizes registry d) v = record {
  rate_listed = v.rate_listed;
  read_listed = v.rate_listed;
  sessions = v.sessions;
}
Step-IsValid (sets_rate supported rate d) v = set_sample_rate-IsValid supported rate d v
Step-IsValid (creates answers time_info d infos channels size callbacks) v =
    create_buffers-IsValid answers time_info d infos channels size callbacks v
Step-IsValid (starts answers supported d) v = start-IsValid answers supported d v
Step-IsValid (begins_stop d d' thread effects e) v = stop_session-IsValid d d' thread effects e v
Step-IsValid (ends_stop d) v = v
Step-IsValid (disposes current d) v = record {
  rate_listed = v.rate_listed;
  read_listed = v.read_listed;
  sessions = tt;
}

-- After any sequence of calls that the methods' threads make, the driver's rate is a listed one, and a
-- session has a listed rate, a period of 64 to 8192 frames, and a streaming thread just while it runs.
pub Reached-IsValid : {d : Driver} {effects : List Effect} → Reached d effects → IsValid d
Reached-IsValid (created registry) = new-IsValid registry
Reached-IsValid (called reached step) = Step-IsValid step (Reached-IsValid reached)
