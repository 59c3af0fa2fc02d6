-- ===== src/Tests/Panel.antt =====
-- Theorems on panel/src at concrete inputs.
use ak1_driver.Prelude.{refl}
use ak1_driver.Prelude.{◌≡◌, List, [], ◌∷◌, some, map, arith}
use ak1_driver.Prelude.Text.{codes}
use ak1_driver.Panel.Template.{Item, child_style, static, named, build}
use ak1_driver.Panel.Template.Reads.{words_of, read_template, shown, sets_font}
use ak1_driver.Panel.Template.Buffer.{read_template-build}
use ak1_driver.Panel.Template.Stream.{Header, IsHeader, template, said}
use ak1_driver.Prelude.{none, true, false, get_elem?}
use ak1_driver.Host.Settings.{load, buffer_frames}
use ak1_driver.Kernel.Device.{record_stream_stats}
use ak1_driver.Kernel.Device.Stats.{Stats, snapshot, stream_value}
use ak1_driver.Panel.Dialog.{Registry, outputs12, init, change_settings, start_test}
use ak1_driver.Panel.Dialog.Shows.{Step, Reached, IsRight, Reached-IsRight, load-change_settings}
use ak1_driver.Panel.Device.{Answers, present_node, query, last_stream, streamed}
use ak1_driver.Panel.Device.Counters.{last_stream-record_stream_stats}

abbrev header : Header
header = record {
  title = codes "AK1";
  style = 0x80c800c0;
  font = codes "Segoe UI";
  point_size = 9;
  cx = 260;
  cy = 262;
}

abbrev items : List Item
items =
    record {
      class = static;
      text = codes "In 1";
      id = 0xffff;
      style = 0;
      rect = record { x = 15; y = 203; cx = 20; cy = 10 };
    }
    ∷ record {
      class = named (codes "msctls_progress32");
      text = [];
      id = 123;
      style = 0;
      rect = record { x = 38; y = 203; cx = 160; cy = 9 };
    }
    ∷ []

header-IsHeader : IsHeader header
header-IsHeader = record {
  title = omega arith;
  has_font = unfold sets_font in refl;
  style = omega arith;
  font = omega arith;
  point_size = omega arith;
  cx = omega arith;
  cy = omega arith;
}

read_template-build_example :
    read_template (words_of (build (template header items).words))
    ≡ some (said header (map shown items))
read_template-build_example =
    read_template-build header items header-IsHeader
      (
        record {
          class = tt;
          text = omega arith;
          style = unfold child_style in omega arith;
          id = omega arith;
          x = omega arith;
          y = omega arith;
          cx = omega arith;
          cy = omega arith;
        },
        (
          record {
            class = omega arith;
            text = tt;
            style = unfold child_style in omega arith;
            id = omega arith;
            x = omega arith;
            y = omega arith;
            cx = omega arith;
            cy = omega arith;
          },
          tt,
        ),
      )
      (omega arith)

-- A registry that was never written; the user chooses 96 kHz and tests outputs 1 and 2.
abbrev unset : Registry
unset = record { sample_rate = none; buffer_multiple = none }

Reached-IsRight_example :
    IsRight (start_test outputs12 (change_settings (some 3) (some 2) true false (init unset)))
Reached-IsRight_example = Reached-IsRight unset (
    Reached.next
      (Reached.next Reached.here
        (Step.changed (some 3) (some 2) true false (omega arith) (omega arith)))
      (Step.test_clicked outputs12))

load-change_settings_example :
    let w' = change_settings (some 3) none true true (init unset) in
    (load w'.registry.sample_rate w'.registry.buffer_multiple ≡ w'.settings)
    × (get_elem? w'.window.size_items w'.window.size_selected
        ≡ some (
            buffer_frames
              (load w'.registry.sample_rate w'.registry.buffer_multiple)
              w'.settings.sample_rate))
load-change_settings_example =
    load-change_settings (init unset) (some 3) none (omega arith) (omega arith)

-- A stream of 2000 transfers with a check error.
abbrev stats : Stats
stats = record {
  capture_transfers = 2000;
  capture_failures = 0;
  frames = 96000;
  check_errors = 1;
  rejected_packets = 0;
  playback_transfers = 2000;
  playback_failures = 0;
  playback_overruns = 0;
  invalid_packets = 3;
}

-- One device is listed, and it is the card.
abbrev answers : Answers
answers = record {
  listed = true;
  ids = some (codes "usb\\vid_17cc&pid_0815\\1");
  located = true;
  node_status = some (false, 0);
  service = some (codes "ak1acx");
  version = none;
  key = true;
  firmware_value = none;
  stream_value = stream_value none (record_stream_stats true (snapshot stats));
}

last_stream-record_stream_stats_example : last_stream (query answers) ≡ streamed 2000 3 1 0
last_stream-record_stream_stats_example =
    last_stream-record_stream_stats stats none answers (unfold snapshot in omega arith)
      (omega arith) (unfold present_node in refl) refl refl
