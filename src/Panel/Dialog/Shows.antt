-- ===== src/Panel/Dialog/Shows.antt =====
-- What the window of panel/src/main.rs shows, whatever its user, its timers and its test threads do.
use ak1_driver.Prelude.{
  ℕ, zero, suc, ◌+◌, ◌<◌, ◌≡◌, ◌≢◌, refl, sym, ap, ◌∙◌, inl, inr, Bool, true, false, List, [], ◌∷◌,
  Option, none, some, map, length, get_or, get_elem?, ◌==◌, if◌then◌else◌, Bool-cases, arith,
}
use ak1_driver.Host.Settings.{
  Settings, rates, buffer_multiples, contains, load, default, listed_or, buffer_frames,
}
use ak1_driver.Panel.Dialog.{
  Pair, Registry, position_from, or_first, position, sizes, World, fill_buffer_sizes, init, save,
  change_settings, start_test, end_test, click_meter, show_error, enable_tests, Reading,
  meter_failed, peaks, show_reading, update_meter,
}

pub data Step : World → World → Type 0 where
  changed :
      {w : World} (rate size : Option ℕ) (first second : Bool)
      → or_first rate < 5
      → or_first size < 6
      → Step w (change_settings rate size first second w)
  test_clicked : {w : World} (pair : Pair) → Step w (start_test pair w)
  test_ended : {w : World} (error : Option ℕ) → w.threads ≢ 0 → Step w (end_test error w)
  meter_clicked : {w : World} (on : Bool) → Step w (click_meter on w)
  ticked : {w : World} (reading : Reading) → Step w (update_meter reading w)

pub data Reached (w : World) : World → Type 0 where
  here : Reached w w
  next : {w' w'' : World} → Reached w w' → Step w' w'' → Reached w w''

pub record IsRight (w : World) : Type 0 where
  pub rate : contains rates w.settings.sample_rate ≡ true
  pub multiple : contains buffer_multiples w.settings.buffer_multiple ≡ true
  pub items : w.window.size_items ≡ sizes w.settings
  pub selected :
      get_elem? w.window.size_items w.window.size_selected
      ≡ some (buffer_frames w.settings w.settings.sample_rate)
  pub one_test : w.threads ≡ (if w.running then 1 else 0)
  pub disabled : w.running ≡ true → w.window.tests_enabled ≡ false

position_from_lem :
    (f : ℕ → ℕ) (at : ℕ) (xs : List ℕ) (n : ℕ)
    → contains xs n ≡ true
    → (k : ℕ) × ((position_from at xs n ≡ some (at + k)) × (get_elem? (map f xs) k ≡ some (f n)))
unfolding position_from
position_from_lem f at [] n h = absurd (cc h)
position_from_lem f at (x ∷ xs) n h = elim (Bool-cases (x == n)) [
  | inl e ↦ (0, (ground (arith, e), ground (arith, e)))
  | inr e ↦
      let (k, (p, g)) = position_from_lem f (at + 1) xs n (ground (arith, h, e)) in
      (suc k, (ground (arith, e, p), g))
]

position_lem :
    (f : ℕ → ℕ) (xs : List ℕ) (n : ℕ)
    → contains xs n ≡ true
    → get_elem? (map f xs) (position xs n) ≡ some (f n)
unfolding position
position_lem f xs n h =
    let (k, (p, g)) = position_from_lem f 0 xs n h in
    ap (λ o. get_elem? (map f xs) (or_first o)) p ∙ ap (get_elem? (map f xs)) (omega arith) ∙ g

contains-get_or : (xs : List ℕ) (i : ℕ) → i < length xs → contains xs (get_or xs i 0) ≡ true
contains-get_or [] i h = absurd (omega arith)
contains-get_or (x ∷ xs) zero h = ground arith
contains-get_or (x ∷ xs) (suc i) h = ground (arith, contains-get_or xs i (omega (arith, h)))

listed_or-contains :
    (allowed : List ℕ) (o : Option ℕ) (d : ℕ)
    → contains allowed d ≡ true
    → contains allowed (listed_or allowed o d) ≡ true
unfolding listed_or
listed_or-contains allowed none d h = h
listed_or-contains allowed (some n) d h = ground (arith, h)

selected_lem :
    (settings : Settings)
    → contains buffer_multiples settings.buffer_multiple ≡ true
    → get_elem? (sizes settings) (position buffer_multiples settings.buffer_multiple)
      ≡ some (buffer_frames settings settings.sample_rate)
unfolding sizes
selected_lem settings h =
    position_lem
      (λ multiple.
        buffer_frames (record settings { buffer_multiple = multiple }) settings.sample_rate)
      buffer_multiples settings.buffer_multiple h

init-IsRight : (registry : Registry) → IsRight (init registry)
unfolding init load default fill_buffer_sizes
init-IsRight registry =
    let settings = load registry.sample_rate registry.buffer_multiple in
    let multiple = listed_or-contains buffer_multiples registry.buffer_multiple 4 refl in
    record {
      rate = listed_or-contains rates registry.sample_rate 48000 refl;
      multiple = multiple;
      items = refl;
      selected = selected_lem settings multiple;
      one_test = refl;
      disabled = λ h. absurd (cc h);
    }

change_settings-IsRight :
    {w : World} (rate size : Option ℕ) (first second : Bool)
    → or_first rate < 5
    → or_first size < 6
    → IsRight w
    → IsRight (change_settings rate size first second w)
unfolding change_settings fill_buffer_sizes
change_settings-IsRight {w} rate size first second r z v =
    let settings : Settings = record {
      sample_rate = get_or rates (or_first rate) 0;
      buffer_multiple = get_or buffer_multiples (or_first size) 0;
    } in
    let multiple = contains-get_or buffer_multiples (or_first size) z in
    record {
      rate = contains-get_or rates (or_first rate) r;
      multiple = multiple;
      items = ground arith;
      selected = ground (arith, selected_lem settings multiple);
      one_test = v.one_test;
      disabled = λ h. ground (arith, v.disabled h);
    }

start_test-IsRight : {w : World} (pair : Pair) → IsRight w → IsRight (start_test pair w)
unfolding start_test
start_test-IsRight pair v = ground (arith, v)

end_test-IsRight :
    {w : World} (error : Option ℕ) → w.threads ≢ 0 → IsRight w → IsRight (end_test error w)
unfolding end_test
end_test-IsRight none n v = ground (arith, v, n)
end_test-IsRight (some e) n v = ground (arith, v, n)

click_meter-IsRight : {w : World} (on : Bool) → IsRight w → IsRight (click_meter on w)
unfolding click_meter
click_meter-IsRight on v = ground (arith, v)

enable_tests-IsRight : {w : World} → IsRight w → IsRight (enable_tests w)
unfolding enable_tests
enable_tests-IsRight v = ground (arith, v)

show_error-IsRight : {w : World} → IsRight w → IsRight (show_error w)
unfolding show_error
show_error-IsRight v = ground (arith, v)

show_reading-IsRight :
    {w : World} (reading : Reading) → IsRight w → IsRight (show_reading reading w)
unfolding show_reading
show_reading-IsRight (meter_failed e) v = ground (arith, v)
show_reading-IsRight peaks v = ground (arith, v)

update_meter-IsRight :
    {w : World} (reading : Reading) → IsRight w → IsRight (update_meter reading w)
unfolding update_meter
update_meter-IsRight {w} reading v =
    let v' = show_error-IsRight (enable_tests-IsRight v) in
    elim (Bool-cases (show_error (enable_tests w)).meter) [
      | inl e ↦ rw e (show_reading-IsRight reading v')
      | inr e ↦ rw e v'
    ]

Step-IsRight : {w w' : World} → Step w w' → IsRight w → IsRight w'
Step-IsRight (Step.changed rate size first second r z) v =
    change_settings-IsRight rate size first second r z v
Step-IsRight (Step.test_clicked pair) v = start_test-IsRight pair v
Step-IsRight (Step.test_ended error n) v = end_test-IsRight error n v
Step-IsRight (Step.meter_clicked on) v = click_meter-IsRight on v
Step-IsRight (Step.ticked reading) v = update_meter-IsRight reading v

-- Whatever the registry held and whatever happens to the window: the settings are listed ones, the box shows
-- the buffer sizes at their rate with theirs selected, at most one test runs, and its buttons are
-- disabled while it does.
pub Reached-IsRight : (registry : Registry) {w : World} → Reached (init registry) w → IsRight w
Reached-IsRight registry Reached.here = init-IsRight registry
Reached-IsRight registry (Reached.next r s) = Step-IsRight s (Reached-IsRight registry r)

load_listed :
    (settings : Settings)
    → contains rates settings.sample_rate ≡ true
    → contains buffer_multiples settings.buffer_multiple ≡ true
    → load (some settings.sample_rate) (some settings.buffer_multiple) ≡ settings
unfolding load listed_or
load_listed settings r m = rw r (rw m refl)

-- Once both writes of a change succeed, the ASIO driver that loads the registry has the panel's settings, so
-- it offers the size that the panel's box shows as selected.
pub load-change_settings :
    (w : World) (rate size : Option ℕ)
    → or_first rate < 5
    → or_first size < 6
    → let w' = change_settings rate size true true w in
      (load w'.registry.sample_rate w'.registry.buffer_multiple ≡ w'.settings)
      × (get_elem? w'.window.size_items w'.window.size_selected
          ≡ some (
              buffer_frames
                (load w'.registry.sample_rate w'.registry.buffer_multiple)
                w'.settings.sample_rate))
unfolding change_settings fill_buffer_sizes save
load-change_settings w rate size r z =
    let settings : Settings = record {
      sample_rate = get_or rates (or_first rate) 0;
      buffer_multiple = get_or buffer_multiples (or_first size) 0;
    } in
    let multiple = contains-get_or buffer_multiples (or_first size) z in
    let loaded = load_listed settings (contains-get_or rates (or_first rate) r) multiple in
    (
      loaded,
      selected_lem settings multiple
          ∙ ap (λ s. some (buffer_frames s settings.sample_rate)) (sym loaded),
    )
