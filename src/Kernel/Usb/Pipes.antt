-- ===== src/Kernel/Usb/Pipes.antt =====
-- The pipes that `Ak1Usb::open` of driver/ak1-acx/src/usb.rs finds.
use ak1_driver.Prelude.{
  ℕ, ◌≡◌, ◌⊎◌, inl, inr, refl, false, true, List, [], ◌∷◌, some, ℕ_discrete, arith,
}
use ak1_driver.Kernel.Usb.{
  Outcome, done, failed, check, Pipe, find_pipe, Usb, ep_cmd_out, ep_cmd_in, ep_audio_in,
  ep_audio_out, assign, select_streaming, OpenAnswers, opened_with, open_usb,
}

-- One of the pipes has this address and this handle.
abbrev pub HasPipe : List Pipe → (address handle : ℕ) → Type 0
HasPipe [] address handle = false ≡ true
HasPipe (pipe ∷ pipes) address handle =
    ((pipe.address ≡ address) × (pipe.handle ≡ handle)) ⊎ HasPipe pipes address handle

-- The four pipes are those of the card's endpoints.
pub record IsOpen (pipes : List Pipe) (usb : Usb) : Type 0 where
  pub cmd_out : (h : ℕ) × (usb.cmd_out ≡ some h) × HasPipe pipes 0x01 h
  pub cmd_in : (h : ℕ) × (usb.cmd_in ≡ some h) × HasPipe pipes 0x81 h
  pub audio_in : (h : ℕ) × (usb.audio_in ≡ some h) × HasPipe pipes 0x82 h
  pub audio_out : (h : ℕ) × (usb.audio_out ≡ some h) × HasPipe pipes 0x06 h

find_pipe-HasPipe :
    (pipes : List Pipe) (address h : ℕ) → find_pipe pipes address ≡ done h → HasPipe pipes address h
unfolding find_pipe
find_pipe-HasPipe [] address h e = absurd (cc e)
find_pipe-HasPipe (pipe ∷ pipes) address h e = elim (ℕ_discrete pipe.address address) [
  | yes p ↦ inl (p, ground (arith, e, p))
  | no p ↦ inr (find_pipe-HasPipe pipes address h (ground (arith, e, p)))
]

-- The chain of searches, by what they found.
chain_lem :
    (pipes : List Pipe) (usb usb' : Usb) (selected : Outcome Unit) (o1 o2 o3 o4 : Outcome ℕ)
    → find_pipe pipes ep_cmd_out ≡ o1
    → find_pipe pipes ep_cmd_in ≡ o2
    → find_pipe pipes ep_audio_in ≡ o3
    → find_pipe pipes ep_audio_out ≡ o4
    → opened_with (
        assign
          (assign
            (assign
              (assign (usb, selected) o1 (λ u pipe. record u { cmd_out = some pipe }))
              o2
              (λ u pipe. record u { cmd_in = some pipe }))
            o3
            (λ u pipe. record u { audio_in = some pipe }))
          o4
          (λ u pipe. record u { audio_out = some pipe }))
      ≡ done usb'
    → IsOpen pipes usb'
chain_lem pipes usb usb' (failed s) o1 o2 o3 o4 e1 e2 e3 e4 e = absurd (cc e)
chain_lem pipes usb usb' (done _) (failed s) o2 o3 o4 e1 e2 e3 e4 e = absurd (cc e)
chain_lem pipes usb usb' (done _) (done a) (failed s) o3 o4 e1 e2 e3 e4 e = absurd (cc e)
chain_lem pipes usb usb' (done _) (done a) (done b) (failed s) o4 e1 e2 e3 e4 e = absurd (cc e)
chain_lem pipes usb usb' (done _) (done a) (done b) (done c) (failed s) e1 e2 e3 e4 e =
    absurd (cc e)
chain_lem pipes usb usb' (done _) (done a) (done b) (done c) (done d) e1 e2 e3 e4 e = record {
  cmd_out = (a, ground (arith, e), find_pipe-HasPipe pipes ep_cmd_out a e1);
  cmd_in = (b, ground (arith, e), find_pipe-HasPipe pipes ep_cmd_in b e2);
  audio_in = (c, ground (arith, e), find_pipe-HasPipe pipes ep_audio_in c e3);
  audio_out = (d, ground (arith, e), find_pipe-HasPipe pipes ep_audio_out d e4);
}

pub open_usb-IsOpen :
    (answers : OpenAnswers) (usb : Usb) → open_usb answers ≡ done usb → IsOpen answers.pipes usb
unfolding open_usb select_streaming
open_usb-IsOpen answers usb e = by_cases answers.created answers.configured refl refl
  where
    by_cases :
        (created configured : Outcome ℕ)
        → answers.created ≡ created
        → answers.configured ≡ configured
        → IsOpen answers.pipes usb
    by_cases (failed s) configured p q = absurd (cc (rw (p, open_usb) at e))
    by_cases (done device) (failed s) p q = absurd (cc (rw (p, q, open_usb) at e))
    by_cases (done device) (done interface) p q =
        chain_lem answers.pipes _ usb (check answers.selected) _ _ _ _ refl refl refl refl
          (rw (p, q, open_usb) at e)
