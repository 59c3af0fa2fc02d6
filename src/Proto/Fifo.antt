-- ===== src/Proto/Fifo.antt =====
-- The ring buffer `Fifo` of crates/ak1-proto/src/asio.rs, for frames of any type.
pub mod Queue
pub mod Overwrite
use ak1_driver.Prelude.{
  ℕ, ◌+◌, ◌-◌, ◌%◌, ◌^◌, Bool, true, false, not, List, Option, none, some, length, get_or, set,
  replicate, ◌==◌, if◌then◌else◌,
}

-- `usize` addition.
abbrev pub add_size : ℕ → ℕ → ℕ
add_size a b = (a + b) % 2 ^ 64

pub record Fifo (A : Type 0) : Type 0 where
  pub frames : List A
  pub start : ℕ
  pub len : ℕ

-- `blank` is the frame `[0; C]`, which also stands for a read out of range.
module _ {A : Type 0} (blank : A) where
  -- `granted` says whether the allocator gives the storage.
  pub new : Bool → ℕ → Option (Fifo A)
  new granted capacity =
      if granted
      then some (record { frames = replicate capacity blank; start = 0; len = 0 })
      else none

  -- Appends `frame` unless the ring is full.
  pub push : Fifo A → A → Fifo A × Bool
  push f frame = if f.len == length f.frames then (f, false) else (
    record f {
      frames = set f.frames (add_size f.start f.len % length f.frames) frame;
      len = add_size f.len 1;
    },
    true,
  )

  pub pop : Fifo A → Fifo A × Option A
  pop f = if f.len == 0 then (f, none) else (
    record f { start = add_size f.start 1 % length f.frames; len = f.len - 1 },
    some (get_or f.frames f.start blank),
  )

  -- Appends `frame`, dropping the oldest one if the ring is full; says whether it did.
  pub push_over : Fifo A → A → Fifo A × Bool
  push_over f frame =
      let (f', pushed) = push f frame in
      if not pushed then ((push (pop f').0 frame).0, true) else (f', false)
