-- ===== src/Host/Driver/Accepts.antt =====
-- Which buffers `create_buffers` of asio/src/driver.rs makes.
use ak1_driver.Prelude.{
  ℕ, ◌≤◌, ◌<◌, ◌≡◌, ◌≢◌, ◌&&◌, if◌then◌else◌, leb, min, dec_le, ◌⊎◌, inl, inr, refl, subst, [], ◌∷◌,
  Bool, true, false, Option, none, some, List, ◌↔◌, arith, take,
}
use ak1_driver.Prelude.Int.{ℤ, pos, negsuc}
use ak1_driver.Proto.Buffers.{inputs, outputs}
use ak1_driver.Host.Abi.{ok, hw_malfunction}
use ak1_driver.Host.Settings.{
  min_buffer_frames, max_buffer_frames, min_buffer_frames_cases, max_buffer_frames_last,
}
use ak1_driver.Host.Duplex.{OpenAnswers, open_device}
use ak1_driver.Host.Driver.{Driver, Registry, get_buffer_size, set_sample_rate, change_rate, fail}
use ak1_driver.Host.Driver.Create.{
  BufferInfo, create_buffers, create_at, create_checked, open_session, refuse, first_bad,
  is_accepted, smallest, as_usize, is_below, largest,
}
use ak1_driver.Host.Driver.Valid.{IsValid, is_some}

-- Every size between the bounds that a host reads is accepted, also after it changes the rate: the
-- bounds then suit the rate that they were read at.
pub is_accepted-set_sample_rate :
    (registry : Registry) (supported : Bool) (rate : Option ℕ) (d : Driver) (size : ℕ)
    → IsValid d
    → (get_buffer_size registry d).1.min ≤ size
    → size ≤ (get_buffer_size registry d).1.max
    → is_accepted (set_sample_rate supported rate (get_buffer_size registry d).0).0 (pos size)
      ≡ true
unfolding get_buffer_size set_sample_rate change_rate fail is_accepted smallest
is_accepted-set_sample_rate registry supported rate d size v low high =
    ground (arith, max_bound, max_buffer_frames_last)
  where
    max_bound : max_buffer_frames d.rate ≤ 8192
    max_bound =
        unfold max_buffer_frames in ground (arith, min_buffer_frames_cases d.rate v.rate_listed)

-- The card has two input channels and four output channels.
abbrev pub IsChannel : (is_input : Bool) → ℤ → Type 0
IsChannel true (pos n) = n < 2
IsChannel false (pos n) = n < 4
IsChannel _ (negsuc n) = false ≡ true

abbrev pub AllChannels : List BufferInfo → Type 0
AllChannels [] = Unit
AllChannels (info ∷ infos) = IsChannel info.is_input info.channel_num × AllChannels infos

-- Infos that are there and name channels only.
abbrev pub IsUsable : Option (List BufferInfo) → ℤ → Type 0
IsUsable none channels = false ≡ true
IsUsable (some infos) channels = AllChannels (take (as_usize channels) infos)

-- At least the smallest size of the rate, or of the rate that the host read the sizes at, and at most 8192.
abbrev pub IsFitting : Driver → (size : ℤ) → Type 0
IsFitting d (pos n) =
    ((min_buffer_frames d.rate ≤ n)
      ⊎ ((listed : ℕ) × (d.listed_rate ≡ some listed) × (min_buffer_frames listed ≤ n)))
    × (n ≤ 8192)
IsFitting d (negsuc n) = false ≡ true

is_below_iff :
    (is_input : Bool) (n : ℤ)
    → (is_below n (if is_input then inputs else outputs) ≡ true) ↔ IsChannel is_input n
is_below_iff true (pos n) = (λ h. ground (arith, h), λ h. ground (arith, h))
is_below_iff false (pos n) = (λ h. ground (arith, h), λ h. ground (arith, h))
is_below_iff true (negsuc n) = (λ h. h, λ h. h)
is_below_iff false (negsuc n) = (λ h. h, λ h. h)

first_or :
    (b : Bool) (c : ℤ) (rest : Option ℤ)
    → (if b then rest else some c) ≡ none
    → (b ≡ true) × (rest ≡ none)
first_or true c rest h = (refl, h)
first_or false c rest h = absurd (cc h)

first_bad_iff : (infos : List BufferInfo) → (first_bad infos ≡ none) ↔ AllChannels infos
unfolding first_bad
first_bad_iff [] = (λ _. tt, λ _. refl)
first_bad_iff (info ∷ infos) = (
  λ h.
      let (below, rest) = first_or _ info.channel_num (first_bad infos) h in
      ((is_below_iff info.is_input info.channel_num).0 below, (first_bad_iff infos).0 rest),
  λ h. rw ((is_below_iff info.is_input info.channel_num).1 h.0) ((first_bad_iff infos).1 h.1),
)

within_iff : (low n : ℕ) → ((leb low n && leb n largest) ≡ true) ↔ ((low ≤ n) × (n ≤ 8192))
within_iff low n =
    (λ h. ground (arith, h, max_buffer_frames_last), λ h. ground (arith, h, max_buffer_frames_last))

is_accepted_iff : (d : Driver) (size : ℤ) → (is_accepted d size ≡ true) ↔ IsFitting d size
unfolding is_accepted
is_accepted_iff d (negsuc n) = (λ h. h, λ h. h)
is_accepted_iff d (pos n) = by_listed d.listed_rate refl
  where
    unlisted :
        d.listed_rate ≡ none
        → (min_buffer_frames d.rate ≤ n)
          ⊎ ((listed : ℕ) × (d.listed_rate ≡ some listed) × (min_buffer_frames listed ≤ n))
        → min_buffer_frames d.rate ≤ n
    unlisted q (inl h) = h
    unlisted q (inr (listed, e, h)) = absurd (cc (e, q))

    from_listed :
        {listed : ℕ}
        → d.listed_rate ≡ some listed
        → (min_buffer_frames d.rate ≤ n)
          ⊎ ((listed : ℕ) × (d.listed_rate ≡ some listed) × (min_buffer_frames listed ≤ n))
        → min (min_buffer_frames d.rate) (min_buffer_frames listed) ≤ n
    from_listed q (inl h) = omega (arith, h)
    from_listed {listed} q (inr (other, e, h)) =
        let same : other ≡ listed = ground (arith, q, e) in
        omega (arith, subst (λ x. min_buffer_frames x ≤ n) same h)

    by_listed :
        (o : Option ℕ) → d.listed_rate ≡ o → (is_accepted d (pos n) ≡ true) ↔ IsFitting d (pos n)
    by_listed none q =
        let low : smallest d ≡ min_buffer_frames d.rate = rw (q, smallest) refl in
        (
          λ h.
              let (over, under) = (within_iff (smallest d) n).0 h in
              (inl (omega (arith, over, low)), under),
          λ h. (within_iff (smallest d) n).1 (omega (arith, low, unlisted q h.0), h.1),
        )
    by_listed (some listed) q =
        let low : smallest d ≡ min (min_buffer_frames d.rate) (min_buffer_frames listed) =
          rw (q, smallest) refl in
        (
          λ h.
              let (over, under) = (within_iff (smallest d) n).0 h in
              (
                elim (dec_le (min_buffer_frames d.rate) n) [
                  | yes p ↦ inl p
                  | no p ↦ inr (listed, q, omega (arith, over, low, p))
                ],
                under,
              ),
          λ h. (within_iff (smallest d) n).1 (omega (arith, low, from_listed q h.0), h.1),
        )

-- What a host must give, and the system grant.
pub record CanCreate (answers : OpenAnswers) (d : Driver) (infos : Option (List BufferInfo))
    (channels size : ℤ) (callbacks : Bool) : Type 0 where
  pub unused : d.session ≡ none
  pub initialized : is_some d.device ≡ true
  pub usable : IsUsable infos channels
  pub called_back : callbacks ≡ true
  pub channels_given : 0 < as_usize channels
  pub fitting : IsFitting d size
  pub file : answers.file ≡ none
  pub period : answers.period ≡ none
  pub stop : answers.stop ≡ none

abbrev IsGiven : Option (List BufferInfo) → ℤ → Type 0
IsGiven none channels = false ≡ true
IsGiven (some infos) channels = first_bad (take (as_usize channels) infos) ≡ none

-- The same as the code tests it.
record IsTested (answers : OpenAnswers) (d : Driver) (infos : Option (List BufferInfo))
    (channels size : ℤ) (callbacks : Bool) : Type 0 where
  unused : d.session ≡ none
  initialized : is_some d.device ≡ true
  given : IsGiven infos channels
  called_back : callbacks ≡ true
  channels_given : 0 < as_usize channels
  fitting : is_accepted d size ≡ true
  file : answers.file ≡ none
  period : answers.period ≡ none
  stop : answers.stop ≡ none

given_iff :
    (infos : Option (List BufferInfo)) (channels : ℤ)
    → IsGiven infos channels ↔ IsUsable infos channels
given_iff none channels = (λ h. h, λ h. h)
given_iff (some infos) channels = first_bad_iff (take (as_usize channels) infos)

module _ (answers : OpenAnswers) (time_info : Bool) (d : Driver) (infos : Option (List BufferInfo))
    (channels size : ℤ) (callbacks : Bool) where
  create_buffers_made :
      IsTested answers d infos channels size callbacks
      → (create_buffers answers time_info d infos channels size callbacks).1 ≡ ok
  unfolding create_buffers create_at create_checked open_session refuse open_device is_accepted
      smallest
  create_buffers_made c = ground arith

  create_buffers_needs :
      (create_buffers answers time_info d infos channels size callbacks).1 ≡ ok
      → IsTested answers d infos channels size callbacks
  unfolding create_buffers create_at create_checked open_session refuse open_device is_accepted
      smallest
  create_buffers_needs c = ground arith

  create_buffers_refused :
      (create_buffers answers time_info d infos channels size callbacks).1 ≢ ok
      → let (d', error, _, written) =
          create_buffers answers time_info d infos channels size callbacks in
        (d' ≡ record d { error = d'.error }) × ((written ≡ []) ⊎ (error ≡ hw_malfunction))
  create_buffers_refused h =
      unfold create_buffers create_at create_checked open_session refuse open_device is_accepted
        smallest in
      ground arith

  -- Buffers are made just when the driver is initialized and has none, the infos and the callbacks are
  -- there, the infos are one or more and name channels of the card only, the size lies between the smallest of the
  -- rate, or of the rate that the host read the sizes at, and 8192, and the device opens. Otherwise only the error
  -- message of the driver changes, and no pointers are written to the infos, unless the error is that of a
  -- device that did not open.
  pub create_buffers_iff :
      ((create_buffers answers time_info d infos channels size callbacks).1 ≡ ok
        ↔ CanCreate answers d infos channels size callbacks)
      × ((create_buffers answers time_info d infos channels size callbacks).1 ≢ ok
          → let (d', error, _, written) =
              create_buffers answers time_info d infos channels size callbacks in
            (d' ≡ record d { error = d'.error }) × ((written ≡ []) ⊎ (error ≡ hw_malfunction)))
  create_buffers_iff = (
    (λ h. allowed (create_buffers_needs h), λ h. create_buffers_made (tested h)),
    create_buffers_refused,
  )
    where
      allowed :
          IsTested answers d infos channels size callbacks
          → CanCreate answers d infos channels size callbacks
      allowed c = record {
        unused = c.unused;
        initialized = c.initialized;
        usable = (given_iff infos channels).0 c.given;
        called_back = c.called_back;
        channels_given = c.channels_given;
        fitting = (is_accepted_iff d size).0 c.fitting;
        file = c.file;
        period = c.period;
        stop = c.stop;
      }

      tested :
          CanCreate answers d infos channels size callbacks
          → IsTested answers d infos channels size callbacks
      tested c = record {
        unused = c.unused;
        initialized = c.initialized;
        given = (given_iff infos channels).1 c.usable;
        called_back = c.called_back;
        channels_given = c.channels_given;
        fitting = (is_accepted_iff d size).1 c.fitting;
        file = c.file;
        period = c.period;
        stop = c.stop;
      }
