-- ===== src/Panel/Device/Counters.antt =====
-- The counters on their way from the kernel driver (driver/ak1-acx/src/lib.rs) to the window of the control
-- panel (panel/src/device.rs).
use ak1_driver.Prelude.{
  ℕ, ◌^◌, ◌<◌, ◌≡◌, ◌≢◌, refl, ap, ap₂, ◌∙◌, true, List, [], ◌∷◌, Option, map, AllLength, arith,
}
use ak1_driver.Kernel.Handlers.{word_bytes, bytes_word}
use ak1_driver.Kernel.Handlers.Values.{as_chunks-concat}
use ak1_driver.Kernel.Device.{record_stream_stats}
use ak1_driver.Kernel.Device.Stats.{Stats, snapshot, snapshot_bytes, stream_value}
use ak1_driver.Panel.Device.{Answers, present_node, read_value, words, query, last_stream, streamed}

abbrev AllWords : List ℕ → Type 0
AllWords [] = Unit
AllWords (w ∷ ws) = (w < 2 ^ 32) × AllWords ws

bytes_word-word_bytes : (w : ℕ) → w < 2 ^ 32 → bytes_word (word_bytes w) ≡ w
bytes_word-word_bytes w h = omega arith

words_back : (ws : List ℕ) → AllWords ws → map bytes_word (map word_bytes ws) ≡ ws
words_back [] h = refl
words_back (w ∷ ws) h = ap₂ ◌∷◌ (bytes_word-word_bytes w h.0) (words_back ws h.1)

words-AllLength : (ws : List ℕ) → AllLength 4 (map word_bytes ws)
words-AllLength [] = tt
words-AllLength (w ∷ ws) = (refl, words-AllLength ws)

words-snapshot_bytes : (ws : List ℕ) → AllWords ws → words (snapshot_bytes ws) ≡ ws
unfolding words snapshot_bytes
words-snapshot_bytes ws h =
    ap (map bytes_word) (as_chunks-concat 4 (map word_bytes ws) (omega arith) (words-AllLength ws))
    ∙ words_back ws h

-- Each counter fits its 32 bits.
abbrev pub IsCounted : Stats → Type 0
unfolding snapshot
IsCounted stats = AllWords (snapshot stats)

-- When the kernel driver records the counters of a stream that moved audio, a panel that finds the card and its
-- key shows the stream's transfers, lost packets, check errors and overruns.
pub last_stream-record_stream_stats :
    (stats : Stats) (before : Option (List ℕ)) (answers : Answers)
    → IsCounted stats
    → stats.capture_transfers ≢ 0
    → present_node answers ≡ true
    → answers.key ≡ true
    → answers.stream_value ≡ stream_value before (record_stream_stats true (snapshot stats))
    → last_stream (query answers)
      ≡ streamed stats.capture_transfers stats.invalid_packets stats.check_errors
          stats.playback_overruns
unfolding query last_stream read_value record_stream_stats snapshot stream_value
last_stream-record_stream_stats stats before answers h moved found key e =
    ground (arith, moved, found, key, e, words-snapshot_bytes (snapshot stats) h)
