-- ===== src/Kernel/Stream/Transfer.antt =====
-- The allocation of the transfers of the USB engine: `Transfer` of driver/ak1-acx/src/stream.rs, and the loop of
-- `start` that makes them. The framework's answers are arguments; `held` counts the objects and the memory that are
-- not given back.
use ak1_driver.Prelude.{
  ℕ, ◌+◌, ◌-◌, Bool, true, false, List, [], ◌∷◌, ◌++◌, Option, none, some, if◌then◌else◌,
}
use ak1_driver.Kernel.Usb.{Status, failure, Outcome, done, failed}

-- What a transfer has allocated; its URB's memory belongs to its request.
pub record Transfer : Type 0 where
  pub request : Bool
  pub urb : Bool
  pub buffer : Bool
  pub mdl : Bool

-- The answers to the three allocations that may fail.
pub record AllocateAnswers : Type 0 where
  pub request : Option Status
  pub urb : Option Status
  pub mdl : Bool

abbrev pub insufficient_resources : Status
insufficient_resources = failure 0xC000009A

abbrev pub empty : Transfer
empty = record { request = false; urb = false; buffer = false; mdl = false }

unfoldable pub allocate : AllocateAnswers → (held : ℕ) → Transfer × ℕ × Outcome Unit
allocate answers held = elim answers.request [
  | some status ↦ (empty, held, failed status)
  | none ↦ elim answers.urb [
    | some status ↦ (record empty { request = true }, held + 1, failed status)
    | none ↦
        if answers.mdl
        then (record { request = true; urb = true; buffer = true; mdl = true }, held + 4, done tt)
        else (
          record { request = true; urb = true; buffer = true; mdl = false },
          held + 3,
          failed insufficient_resources,
        )
  ]
]

abbrev pub count_of : Bool → ℕ
count_of true = 1
count_of false = 0

-- Deleting the request gives back the URB's memory with it.
unfoldable pub free : Transfer → (held : ℕ) → ℕ
free transfer held =
    let without_mdl = held - count_of transfer.mdl in
    let without_buffer = without_mdl - count_of transfer.buffer in
    if transfer.request then without_buffer - 1 - count_of transfer.urb else without_buffer

abbrev pub free_if_failed : Transfer × ℕ × Outcome Unit → Outcome Transfer × ℕ
free_if_failed (transfer, held, failed status) = (failed status, free transfer held)
free_if_failed (transfer, held, done _) = (done transfer, held)

-- `Transfer::new`.
unfoldable pub new_transfer : AllocateAnswers → (held : ℕ) → Outcome Transfer × ℕ
unfolding allocate free
new_transfer answers held = free_if_failed (allocate answers held)

-- `Drop for Engine`, for a list of its transfers.
unfoldable pub free_all : List Transfer → (held : ℕ) → ℕ
unfolding free
free_all [] held = held
free_all (transfer ∷ transfers) held = free_all transfers (free transfer held)

-- The loop of `start` over the transfers of both pipes, in its order; those made so far come first.
-- When one fails the engine is dropped with them. Answers that run out end the loop.
unfoldable pub make_all :
    List AllocateAnswers → (made : List Transfer) (held : ℕ) → Outcome (List Transfer) × ℕ
unfolding new_transfer free_all
make_all [] made held = (done made, held)
make_all (answers ∷ rest) made held = elim (new_transfer answers held).0 [
  | failed status ↦ (failed status, free_all made (new_transfer answers held).1)
  | done transfer ↦ make_all rest (made ++ (transfer ∷ [])) (new_transfer answers held).1
]
