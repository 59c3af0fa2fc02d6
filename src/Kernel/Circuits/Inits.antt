-- ===== src/Kernel/Circuits/Inits.antt =====
-- The init structures of driver/ak1-acx/src/circuit.rs: who frees them.
use ak1_driver.Prelude.{ℕ, ◌+◌, ◌≡◌, refl, sym, ap, ◌∙◌, List, [], ◌∷◌, ◌==◌, if◌then◌else◌, arith}
use ak1_driver.Kernel.Rt.{Slot}
use ak1_driver.Kernel.Usb.{Outcome, done, failed}
use ak1_driver.Kernel.Circuits.{
  Request, allocate_init, free_init, create_circuit, create_pin, get_format_list, create_format,
  add_format, add_pins, set_component_id, assign_name, set_circuit_type, assign_create_stream,
  assign_properties, set_power_callbacks, Log, Call, null_check, ◌>>=◌, ◌>>◌, pure, ask, tell,
  ask_pointer, properties_of, configure_init, create_from_init, free_unless_taken, create_with,
  add_each, add_formats, create_pins, create, create_all, Format, formats, wave_format, with_sink,
  unconnected, audio, line_connector,
}

abbrev one_if_eq : ℕ → ℕ → ℕ
one_if_eq a b = if a == b then 1 else 0

module _ (init : ℕ) where
  -- How often the framework gave `init`.
  abbrev pub taken : Log → ℕ
  taken [] = 0
  taken ((allocate_init, done pointer) ∷ log) = one_if_eq pointer init + taken log
  taken (entry ∷ log) = taken log

  -- How often it got it back: freed, or taken over by a circuit.
  abbrev pub given : Log → ℕ
  given [] = 0
  given ((free_init pointer, a) ∷ log) = one_if_eq pointer init + given log
  given ((create_circuit pointer, done circuit) ∷ log) = one_if_eq pointer init + given log
  given (entry ∷ log) = given log

  -- Calls that neither take nor give an init structure.
  record Untouched {A : Type 0} (m : Call A) : Type 0 where
    pub at : (log : Log) → (taken (m log).1 ≡ taken log) × (given (m log).1 ≡ given log)

  record Other (request : Request) : Type 0 where
    pub at :
        (a : Outcome ℕ) (log : Log)
        → (taken ((request, a) ∷ log) ≡ taken log) × (given ((request, a) ∷ log) ≡ given log)

  Untouched-pure : {A : Type 0} (a : A) → Untouched (pure a)
  Untouched-pure a = record { at = λ log. (refl, refl) }

  resumed :
      {A B : Type 0} (f : A → Call B)
      → ((a : A) → Untouched (f a))
      → (r : Outcome A) (log : Log)
      → let log' = ((λ log. (r, log)) >>= f) log in
        (taken log'.1 ≡ taken log) × (given log'.1 ≡ given log)
  resumed f kf (done a) log = (kf a).at log
  resumed f kf (failed s) log = (refl, refl)

  Untouched-bind :
      {A B : Type 0} (m : Call A) (f : A → Call B)
      → Untouched m
      → ((a : A) → Untouched (f a))
      → Untouched (m >>= f)
  Untouched-bind m f km kf = record {
    at = λ log.
        let (t, g) = resumed f kf (m log).0 (m log).1 in
        let (t', g') = km.at log in (t ∙ t', g ∙ g');
  }

  module _ (system : Log → Request → Outcome ℕ) where
    Untouched-ask : (request : Request) → Other request → Untouched (ask system request)
    unfolding ask
    Untouched-ask request o = record { at = λ log. o.at (system log request) log }

    Untouched-tell : (request : Request) → Other request → Untouched (tell system request)
    unfolding tell
    Untouched-tell request o = record { at = λ log. o.at (system log request) log }

    Untouched-ask_pointer :
        (request : Request) → Other request → Untouched (ask_pointer system request)
    unfolding ask_pointer
    Untouched-ask_pointer request o = record { at = λ log. o.at (system log request) log }

    properties_of-Untouched : (slot : Slot) (p : ℕ) → Untouched (properties_of system slot p)
    unfolding properties_of
    properties_of-Untouched Slot.output12 p =
        Untouched-bind (ask system (assign_properties p)) _
          (Untouched-ask _ (record { at = λ a log. (refl, refl) })) (λ _. Untouched-pure tt)
    properties_of-Untouched Slot.output34 p = Untouched-pure tt
    properties_of-Untouched Slot.input12 p = Untouched-pure tt

    Untouched-then :
        {A B : Type 0} (m : Call A) (k : Call B) → Untouched m → Untouched k → Untouched (m >> k)
    Untouched-then m k km kk = Untouched-bind m (λ _. k) km (λ _. kk)

    configure_init-Untouched : (slot : Slot) (p : ℕ) → Untouched (configure_init system slot p)
    unfolding configure_init
    configure_init-Untouched slot p =
        Untouched-then (tell system (set_component_id p slot)) _
          (Untouched-tell _ (record { at = λ a log. (refl, refl) }))
          (Untouched-then (ask system (assign_name p slot)) _
            (Untouched-ask _ (record { at = λ a log. (refl, refl) }))
            (Untouched-then (tell system (set_circuit_type p _)) _
              (Untouched-tell _ (record { at = λ a log. (refl, refl) }))
              (Untouched-then (ask system (assign_create_stream p)) _
                (Untouched-ask _ (record { at = λ a log. (refl, refl) }))
                (Untouched-then (properties_of system slot p) _ (properties_of-Untouched slot p) (
                  Untouched-tell (set_power_callbacks p)
                    (record { at = λ a log. (refl, refl) }))))))

    add_each-Untouched :
        (circuit list : ℕ) (rest : List Format) → Untouched (add_each system circuit list rest)
    unfolding add_each
    add_each-Untouched circuit list [] = Untouched-pure tt
    add_each-Untouched circuit list (format ∷ rest) =
        Untouched-bind (ask system (create_format circuit (wave_format format))) _
          (Untouched-ask _ (record { at = λ a log. (refl, refl) }))
          (λ created.
            Untouched-then (ask system (add_format list created)) _
              (Untouched-ask _ (record { at = λ a log. (refl, refl) }))
              (add_each-Untouched circuit list rest))

    add_formats-Untouched : (circuit pin : ℕ) → Untouched (add_formats system circuit pin)
    unfolding add_formats
    add_formats-Untouched circuit pin =
        Untouched-bind (ask_pointer system (get_format_list pin)) _
          (Untouched-ask_pointer _ (record { at = λ a log. (refl, refl) }))
          (λ list. add_each-Untouched circuit list formats)

    create_pins-Untouched :
        (slot : Slot) (circuit : ℕ) → Untouched (create_pins system slot circuit)
    unfolding create_pins
    create_pins-Untouched slot circuit =
        Untouched-bind (ask system (create_pin circuit _ with_sink audio)) _
          (Untouched-ask _ (record { at = λ a log. (refl, refl) }))
          (λ host.
            Untouched-bind (ask system (create_pin circuit _ unconnected line_connector)) _
              (Untouched-ask _ (record { at = λ a log. (refl, refl) }))
              (λ bridge.
                Untouched-then (add_formats system circuit host) _
                  (add_formats-Untouched circuit host)
                  (Untouched-then (ask system (add_pins circuit host bridge)) _
                    (Untouched-ask _ (record { at = λ a log. (refl, refl) })) (Untouched-pure tt))))

    -- One more given than before.
    abbrev Gave : (pointer : ℕ) → (before after : Log) → Type 0
    Gave pointer before after =
        (taken after ≡ taken before) × (given after ≡ one_if_eq pointer init + given before)

    create_from_init-Gave :
        (slot : Slot) (p : ℕ) (log : Log)
        → Gave p log (free_unless_taken system p (create_from_init system slot p log)).1
    unfolding create_from_init free_unless_taken ask tell
    create_from_init-Gave slot p log = ground (arith, (configure_init-Untouched slot p).at log)

    create_with-Gave :
        (slot : Slot) (p : ℕ) (log : Log) → Gave p log (create_with system slot p log).1
    unfolding create_with
    create_with-Gave slot p log = create_from_init-Gave slot p log

    rest_of_create :
        (slot : Slot) (p : ℕ) (log : Log)
        → Gave p log
            ((create_with system slot p >>= λ circuit.
                create_pins system slot circuit >> pure circuit)
              log).1
    rest_of_create slot p log =
        let (t, g) =
          resumed (λ circuit. create_pins system slot circuit >> pure circuit)
            (λ circuit.
              Untouched-then (create_pins system slot circuit) (pure circuit)
                (create_pins-Untouched slot circuit) (Untouched-pure circuit))
            (create_with system slot p log).0 (create_with system slot p log).1 in
        let (t', g') = create_with-Gave slot p log in (t ∙ t', g ∙ g')

    -- What the framework gave it got back.
    record Balances {A : Type 0} (m : Call A) : Type 0 where
      pub at : (log : Log) → taken log ≡ given log → taken (m log).1 ≡ given (m log).1

    Balances-bind :
        {A B : Type 0} (m : Call A) (f : A → Call B)
        → Balances m
        → ((a : A) → Balances (f a))
        → Balances (m >>= f)
    Balances-bind m f km kf = record {
      at = λ log h. Balances-resumed f kf (m log).0 (m log).1 (km.at log h);
    }
      where
        Balances-resumed :
            {A B : Type 0} (f : A → Call B)
            → ((a : A) → Balances (f a))
            → (r : Outcome A) (log : Log) → taken log ≡ given log
            → let log' = ((λ log. (r, log)) >>= f) log in taken log'.1 ≡ given log'.1
        Balances-resumed f kf (done a) log h = (kf a).at log h
        Balances-resumed f kf (failed s) log h = h

    create_answered :
        (slot : Slot) (a : Outcome ℕ) (log : Log)
        → taken log ≡ given log
        → let entered : Call ℕ = λ log. (null_check a, (allocate_init, a) ∷ log) in
          let log' =
            ((entered >>= λ p. create_with system slot p >>= λ circuit.
            create_pins system slot circuit >> pure circuit)
              log).1 in
          taken log' ≡ given log'
    create_answered slot (failed s) log h = h
    create_answered slot (done p) log h =
        let (t, g) = rest_of_create slot p ((allocate_init, done p) ∷ log) in
        t ∙ ap (λ n. one_if_eq p init + n) h ∙ sym g

    create-Balances : (slot : Slot) → Balances (create system slot)
    unfolding create ask_pointer
    create-Balances slot = record {
      at = λ log h. create_answered slot (system log allocate_init) log h;
    }

    create_all-Balances : Balances (create_all system)
    unfolding create_all
    create_all-Balances =
        Balances-bind (create system Slot.output12) _ (create-Balances Slot.output12) (λ a.
          Balances-bind (create system Slot.output34) _ (create-Balances Slot.output34) (λ b.
            Balances-bind (create system Slot.input12) (λ c. pure (a ∷ b ∷ c ∷ []))
              (create-Balances Slot.input12) (λ c. record { at = λ log h. h })))

-- Whatever the framework answers, each init structure that it gave while the three circuits were created
-- went back as often as it was given, freed or taken over by its circuit.
pub create_all-balanced :
    (system : Log → Request → Outcome ℕ) (init : ℕ)
    → taken init (create_all system []).1 ≡ given init (create_all system []).1
create_all-balanced system init = (create_all-Balances init system).at [] refl
