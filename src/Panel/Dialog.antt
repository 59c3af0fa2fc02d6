-- ===== src/Panel/Dialog.antt =====
-- The control panel's window: panel/src/main.rs. What the controls show is a record beside the panel's state;
-- an event gives the new state. Of the meter's levels, which the source
-- computes in floating point, only whether they are shown is kept. A combo box answers an index of its
-- own or none.
pub mod Shows
use ak1_driver.Prelude.{
  ℕ, zero, suc, ◌+◌, ◌-◌, ◌&&◌, Bool, true, false, not, List, [], ◌∷◌, Option, none, some, map,
  get_or, ◌==◌, if◌then◌else◌,
}
use ak1_driver.Host.Settings.{Settings, rates, buffer_multiples, load, buffer_frames}

pub data Pair : Type 0 where
  outputs12 : Pair
  outputs34 : Pair

-- What the message line says: an error of the meter or of a test, by its number, or that saving failed.
pub data Message : Type 0 where
  empty : Message
  save_failed : Message
  failure : ℕ → Message

-- The two values of the registry.
pub record Registry : Type 0 where
  pub sample_rate : Option ℕ
  pub buffer_multiple : Option ℕ

unfoldable pub position_from : (at : ℕ) → List ℕ → ℕ → Option ℕ
position_from at [] n = none
position_from at (x ∷ xs) n =
    let rest = position_from (at + 1) xs n in if x == n then some at else rest

abbrev pub or_first : Option ℕ → ℕ
or_first none = 0
or_first (some i) = i

-- `iter().position(..).unwrap_or(0)`.
unfoldable pub position : List ℕ → ℕ → ℕ
unfolding position_from
position xs n = or_first (position_from 0 xs n)

-- The buffer sizes as they apply at the settings' rate.
unfoldable pub sizes : Settings → List ℕ
sizes settings =
    map
      (λ multiple.
        buffer_frames (record settings { buffer_multiple = multiple }) settings.sample_rate)
      buffer_multiples

pub record Window : Type 0 where
  pub rate_selected : ℕ
  pub size_items : List ℕ
  pub size_selected : ℕ
  pub tests_enabled : Bool
  pub meter_checked : Bool
  pub levels_shown : Bool
  pub message : Message

-- With `TEST_RUNNING`, `TEST_ERROR` and the number of test threads.
pub record World : Type 0 where
  pub settings : Settings
  pub meter : Bool
  pub window : Window
  pub registry : Registry
  pub running : Bool
  pub error : Option ℕ
  pub threads : ℕ

unfoldable pub fill_buffer_sizes : Settings → Window → Window
unfolding sizes position
fill_buffer_sizes settings window = record window {
  size_items = sizes settings;
  size_selected = position buffer_multiples settings.buffer_multiple;
}

unfoldable pub init : Registry → World
unfolding fill_buffer_sizes position
init registry =
    let settings = load registry.sample_rate registry.buffer_multiple in
    record {
      settings = settings;
      meter = false;
      window = fill_buffer_sizes settings (record {
        rate_selected = position rates settings.sample_rate;
        size_items = [];
        size_selected = 0;
        tests_enabled = true;
        meter_checked = false;
        levels_shown = false;
        message = empty;
      });
      registry = registry;
      running = false;
      error = none;
      threads = 0;
    }

-- `Settings::save`: the second value is written if the first was. With whether both were.
unfoldable pub save : (first second : Bool) → Settings → Registry → Registry × Bool
save false second settings registry = (registry, false)
save true second settings registry =
    let registry' : Registry = record registry { sample_rate = some settings.sample_rate } in
    if second
    then (record registry' { buffer_multiple = some settings.buffer_multiple }, true)
    else (registry', false)

-- With what the user left selected in the two boxes, which the rate box goes on to show (`none`, no selection, is
-- read as the first), and whether the writes succeed.
unfoldable pub change_settings : (rate size : Option ℕ) → (first second : Bool) → World → World
unfolding fill_buffer_sizes save
change_settings rate size first second w =
    let settings : Settings = record {
      sample_rate = get_or rates (or_first rate) 0;
      buffer_multiple = get_or buffer_multiples (or_first size) 0;
    } in
    let (registry, saved) = save first second settings w.registry in
    let window = record (fill_buffer_sizes settings w.window) { rate_selected = or_first rate } in
    record w {
      settings = settings;
      registry = registry;
      window = if saved then window else record window { message = save_failed };
    }

unfoldable pub start_test : Pair → World → World
start_test pair w = if w.running then w else record w {
  running = true;
  threads = w.threads + 1;
  window = record w.window { tests_enabled = false; message = empty };
}

-- The end of a test's thread.
unfoldable pub end_test : (error : Option ℕ) → World → World
end_test none w = record w { running = false; threads = w.threads - 1 }
end_test (some e) w = record w { running = false; error = some e; threads = w.threads - 1 }

-- The click that left the meter's box checked or not.
unfoldable pub click_meter : (on : Bool) → World → World
click_meter on w = record w {
  meter = on;
  window = record w.window { meter_checked = on; levels_shown = on && w.window.levels_shown };
}

unfoldable pub show_error : World → World
show_error w = elim w.error [
  | none ↦ w
  | some e ↦ record w { error = none; window = record w.window { message = failure e } }
]

unfoldable pub enable_tests : World → World
enable_tests w =
    if w.running then w else record w { window = record w.window { tests_enabled = true } }

-- What the meter answers: its error, or peaks.
pub data Reading : Type 0 where
  meter_failed : ℕ → Reading
  peaks : Reading

unfoldable pub show_reading : Reading → World → World
show_reading (meter_failed e) w = record w {
  meter = false;
  window = record w.window { meter_checked = false; message = failure e };
}
show_reading peaks w = record w { window = record w.window { levels_shown = true } }

unfoldable pub update_meter : Reading → World → World
unfolding enable_tests show_error show_reading
update_meter reading w =
    let w' = show_error (enable_tests w) in if w'.meter then show_reading reading w' else w'
