-- ===== src/Host/Abi.antt =====
-- The values exchanged with a host: asio/src/abi.rs. A byte is a number below 256, and memory a list.
use ak1_driver.Prelude.{
  ℕ, zero, suc, ◌+◌, ◌-◌, ◌*◌, ◌/◌, ◌%◌, ◌^◌, ◌≤◌, ◌<◌, min, ◌≡◌, ◌≢◌, refl, List, [], ◌∷◌, ◌++◌,
  take, drop, length, length-append, length-take, length-drop, arith, ◌==◌, if◌then◌else◌,
}

-- The results of the methods, by their names.
pub data AsioError : Type 0 where
  ok success not_present hw_malfunction invalid_parameter invalid_mode no_clock : AsioError

-- A 64-bit count in two words.
pub record AsioU64 : Type 0 where
  pub hi : ℕ
  pub lo : ℕ

unfoldable pub asio_u64_from : ℕ → AsioU64
asio_u64_from value = record { hi = value / 2 ^ 32 % 2 ^ 32; lo = value % 2 ^ 32 }

-- The words do not overlap, so their union is their sum.
unfoldable pub u64_from : AsioU64 → ℕ
u64_from value = value.hi * 2 ^ 32 + value.lo

-- A count below 2 ^ 64 comes back from its two words, and each of these is below 2 ^ 32.
pub u64_from-asio_u64_from :
    (value : ℕ)
    → value < 2 ^ 64
    → (u64_from (asio_u64_from value) ≡ value)
      × ((asio_u64_from value).hi < 2 ^ 32)
      × ((asio_u64_from value).lo < 2 ^ 32)
unfolding u64_from asio_u64_from
u64_from-asio_u64_from value h = ground arith

-- The memory at `out` after the text and its NUL are written.
unfoldable pub write_c_string : (out : List ℕ) (capacity : ℕ) (text : List ℕ) → List ℕ
write_c_string out capacity text =
    let len = min (length text) (capacity - 1) in take len text ++ (0 ∷ drop (len + 1) out)

-- What a reader of a C string finds: the bytes before the first NUL.
pub read_c_string : List ℕ → List ℕ
read_c_string [] = []
read_c_string (b ∷ bs) = if b == 0 then [] else b ∷ read_c_string bs

abbrev pub NoNul : List ℕ → Type 0
NoNul [] = Unit
NoNul (b ∷ bs) = (b ≢ 0) × NoNul bs

take-NoNul : (n : ℕ) (bs : List ℕ) → NoNul bs → NoNul (take n bs)
take-NoNul zero bs h = tt
take-NoNul (suc n) [] h = tt
take-NoNul (suc n) (b ∷ bs) h = (h.0, take-NoNul n bs h.1)

read_c_string-append : (text rest : List ℕ) → NoNul text → read_c_string (text ++ (0 ∷ rest)) ≡ text
unfolding read_c_string
read_c_string-append [] rest h = refl
read_c_string-append (b ∷ text) rest h = ground (arith, read_c_string-append text rest h.1)

length-write_c_string :
    (out : List ℕ) (capacity : ℕ) (text : List ℕ)
    → 0 < capacity
    → capacity ≤ length out
    → length (write_c_string out capacity text) ≡ length out
unfolding write_c_string
length-write_c_string out capacity text positive room =
    let len = min (length text) (capacity - 1) in
    omega (
      arith,
      length-append (take len text) (0 ∷ drop (len + 1) out),
      length-take len text,
      length-drop (len + 1) out,
    )

-- A text without a NUL, written to memory of at least `capacity` bytes, reads back as its first
-- `capacity - 1` bytes, and the memory keeps its length.
pub read_c_string-write_c_string :
    (out : List ℕ) (capacity : ℕ) (text : List ℕ)
    → 0 < capacity
    → capacity ≤ length out
    → NoNul text
    → (read_c_string (write_c_string out capacity text)
        ≡ take (min (length text) (capacity - 1)) text)
      × (length (write_c_string out capacity text) ≡ length out)
unfolding write_c_string
read_c_string-write_c_string out capacity text positive room h =
    let len = min (length text) (capacity - 1) in
    (
      read_c_string-append (take len text) (drop (len + 1) out) (take-NoNul len text h),
      unfold write_c_string in length-write_c_string out capacity text positive room,
    )
