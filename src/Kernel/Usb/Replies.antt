-- ===== src/Kernel/Usb/Replies.antt =====
-- The loops of `sync` and `set_audio_params` in driver/ak1-acx/src/usb.rs against what the card answers.
use ak1_driver.Prelude.{
  ℕ, zero, suc, ◌<◌, ◌≡◌, ◌≢◌, refl, ◌∙◌, ap, Bool, true, false, List, [], ◌∷◌, ◌++◌, Option, none,
  some, arith, length, replicate, append_assoc,
}
use ak1_driver.Proto.Wire.{
  SampleRate, DeviceSpec, Reply, device_info, audio_params, midi_read, read_io, read_erp,
  read_analog, other, parse_reply, get_device_info_request, audio_params_request,
}
use ak1_driver.Kernel.Usb.{
  Status, io_timeout, not_supported, Outcome, done, failed, Io, wrote, asked, next_write, next_read,
  send, receive, info, again, info_of, attempt_of, attempt, sync_loop, sync, accepted_of,
  reply_loop, set_audio_params,
}

-- A time out, or a reply that is no device info.
abbrev pub IsNoise : Outcome (List ℕ) → Type 0
IsNoise (failed status) = status ≡ io_timeout
IsNoise (done bytes) = (spec : DeviceSpec) → parse_reply bytes ≢ some (device_info spec)

abbrev pub AllNoise : List (Outcome (List ℕ)) → Type 0
AllNoise [] = Unit
AllNoise (r ∷ reads) = IsNoise r × AllNoise reads

info_of-again :
    (reply : Option Reply)
    → ((spec : DeviceSpec) → reply ≢ some (device_info spec))
    → info_of reply ≡ again
unfolding info_of
info_of-again none h = refl
info_of-again (some (device_info spec)) h = absurd (h spec refl)
info_of-again (some (audio_params accepted)) h = refl
info_of-again (some (midi_read port bytes)) h = refl
info_of-again (some (read_io bytes)) h = refl
info_of-again (some (read_erp bytes)) h = refl
info_of-again (some (read_analog bytes)) h = refl
info_of-again (some (other command payload)) h = refl

attempt_of-again : (r : Outcome (List ℕ)) → IsNoise r → attempt_of r ≡ again
unfolding attempt_of
attempt_of-again (done bytes) h = info_of-again (parse_reply bytes) h
attempt_of-again (failed status) h = rw (h, attempt_of) refl

attempt_of-info :
    (bytes : List ℕ) (spec : DeviceSpec)
    → parse_reply bytes ≡ some (device_info spec)
    → attempt_of (done bytes) ≡ info spec
unfolding attempt_of info_of
attempt_of-info bytes spec h = rw (h, info_of) refl

-- `n` times a request for the device info and a read.
abbrev pub exchanges : ℕ → List Io
exchanges zero = []
exchanges (suc n) = wrote get_device_info_request ∷ asked ∷ exchanges n

append-exchanges :
    (log : List Io) (n : ℕ)
    → ((log ++ (wrote get_device_info_request ∷ [])) ++ (asked ∷ [])) ++ exchanges n
      ≡ log ++ exchanges (suc n)
append-exchanges log n =
    append_assoc (log ++ (wrote get_device_info_request ∷ [])) (asked ∷ []) (exchanges n)
    ∙ append_assoc log (wrote get_device_info_request ∷ []) (asked ∷ exchanges n)

sync_loop-info :
    (n : ℕ) (before : List (Outcome (List ℕ))) (bytes : List ℕ) (rest : List (Outcome (List ℕ)))
    (writes : List (Option Status)) (log : List Io) (spec : DeviceSpec)
    → length before < n
    → AllNoise before
    → attempt_of (done bytes) ≡ info spec
    → sync_loop n (record {
      writes = replicate (suc (length before)) none ++ writes;
      reads = before ++ (done bytes ∷ rest);
      log = log;
    })
      ≡ (
        record { writes = writes; reads = rest; log = log ++ exchanges (suc (length before)) },
        done spec,
      )
unfolding sync_loop send next_write receive next_read attempt
sync_loop-info zero before bytes rest writes log spec few h found = absurd (omega arith)
sync_loop-info (suc n) [] bytes rest writes log spec few h found = rw found (
    ap (λ l. (record { writes = writes; reads = rest; log = l }, done spec))
      (append_assoc log (wrote get_device_info_request ∷ []) (asked ∷ [])))
sync_loop-info (suc n) (b ∷ before) bytes rest writes log spec few h found =
    rw (attempt_of-again b h.0) (
      sync_loop-info n before bytes rest writes
        ((log ++ (wrote get_device_info_request ∷ [])) ++ (asked ∷ [])) spec (omega arith) h.1 found
      ∙ ap (λ l. (record { writes = writes; reads = rest; log = l }, done spec))
          (append-exchanges log (suc (length before))))

-- If the writes succeed and one of the first four reads is a device info, after time outs and other
-- replies only, `sync` answers with it; it has sent one request before each of the reads up to it.
pub sync-info :
    (before : List (Outcome (List ℕ))) (bytes : List ℕ) (rest : List (Outcome (List ℕ)))
    (writes : List (Option Status)) (log : List Io) (spec : DeviceSpec)
    → length before < 4
    → AllNoise before
    → parse_reply bytes ≡ some (device_info spec)
    → sync (record {
      writes = replicate (suc (length before)) none ++ writes;
      reads = before ++ (done bytes ∷ rest);
      log = log;
    })
      ≡ (
        record { writes = writes; reads = rest; log = log ++ exchanges (suc (length before)) },
        done spec,
      )
unfolding sync
sync-info before bytes rest writes log spec few h found =
    sync_loop-info 4 before bytes rest writes log spec few h (attempt_of-info bytes spec found)

-- Replies that are no answer to the audio parameters.
abbrev pub AllUnsolicited : List (List ℕ) → Type 0
AllUnsolicited [] = Unit
AllUnsolicited (bytes ∷ replies) =
    ((accepted : Bool) → parse_reply bytes ≢ some (audio_params accepted)) × AllUnsolicited replies

accepted_of-none :
    (reply : Option Reply)
    → ((accepted : Bool) → reply ≢ some (audio_params accepted))
    → accepted_of reply ≡ none
unfolding accepted_of
accepted_of-none none h = refl
accepted_of-none (some (device_info spec)) h = refl
accepted_of-none (some (audio_params accepted)) h = absurd (h accepted refl)
accepted_of-none (some (midi_read port bytes)) h = refl
accepted_of-none (some (read_io bytes)) h = refl
accepted_of-none (some (read_erp bytes)) h = refl
accepted_of-none (some (read_analog bytes)) h = refl
accepted_of-none (some (other command payload)) h = refl

accepted_of-some :
    (bytes : List ℕ) (accepted : Bool)
    → parse_reply bytes ≡ some (audio_params accepted)
    → accepted_of (parse_reply bytes) ≡ some accepted
unfolding accepted_of
accepted_of-some bytes accepted h = rw (h, accepted_of) refl

abbrev pub reads_of : List (List ℕ) → List (Outcome (List ℕ)) → List (Outcome (List ℕ))
reads_of [] rest = rest
reads_of (bytes ∷ replies) rest = done bytes ∷ reads_of replies rest

abbrev pub verdict : Bool → Outcome Unit
verdict true = done tt
verdict false = failed not_supported

reply_loop-accepted :
    (n : ℕ) (before : List (List ℕ)) (bytes : List ℕ) (rest : List (Outcome (List ℕ)))
    (writes : List (Option Status)) (log : List Io) (accepted : Bool)
    → length before < n
    → AllUnsolicited before
    → accepted_of (parse_reply bytes) ≡ some accepted
    → reply_loop n
        (record { writes = writes; reads = reads_of before (done bytes ∷ rest); log = log })
      ≡ (
        record {
          writes = writes;
          reads = rest;
          log = log ++ replicate (suc (length before)) asked;
        },
        verdict accepted,
      )
unfolding reply_loop receive next_read
reply_loop-accepted zero before bytes rest writes log accepted few h found = absurd (omega arith)
reply_loop-accepted (suc n) [] bytes rest writes log true few h found = rw found refl
reply_loop-accepted (suc n) [] bytes rest writes log false few h found = rw found refl
reply_loop-accepted (suc n) (b ∷ before) bytes rest writes log accepted few h found =
    rw (accepted_of-none (parse_reply b) h.0) (
      reply_loop-accepted n before bytes rest writes (log ++ (asked ∷ [])) accepted (omega arith)
        h.1 found
      ∙ ap (λ l. (record { writes = writes; reads = rest; log = l }, verdict accepted))
          (append_assoc log (asked ∷ []) (replicate (suc (length before)) asked)))

-- If the write succeeds and the card's answer comes after at most seven other replies,
-- `set_audio_params` sends one request, reads up to the answer, and succeeds just when the card accepts.
pub set_audio_params-accepted :
    (rate : SampleRate) (max_packet : ℕ) (before : List (List ℕ)) (bytes : List ℕ)
    (rest : List (Outcome (List ℕ))) (writes : List (Option Status)) (log : List Io)
    (accepted : Bool)
    → length before < 8
    → AllUnsolicited before
    → parse_reply bytes ≡ some (audio_params accepted)
    → set_audio_params rate max_packet
        (record { writes = none ∷ writes; reads = reads_of before (done bytes ∷ rest); log = log })
      ≡ (
        record {
          writes = writes;
          reads = rest;
          log =
              (log ++ (wrote (audio_params_request rate max_packet) ∷ []))
              ++ replicate (suc (length before)) asked;
        },
        verdict accepted,
      )
unfolding set_audio_params send next_write
set_audio_params-accepted rate max_packet before bytes rest writes log accepted few h found =
    reply_loop-accepted 8 before bytes rest writes
      (log ++ (wrote (audio_params_request rate max_packet) ∷ [])) accepted few h
      (accepted_of-some bytes accepted found)
