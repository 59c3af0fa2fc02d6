-- ===== src/Proto/Mode2/Samples.antt =====
-- The 24-bit samples and check bytes of crates/ak1-proto/src/mode2.rs.
use ak1_driver.Prelude.{ℕ, ◌<◌, ◌≡◌, arith}
use ak1_driver.Prelude.Int.{ℤ, pos, negsuc, Is24}
use ak1_driver.Proto.Mode2.{from_be24, to_be24}

-- A 24-bit sample is read back from its three bytes, which are bytes.
pub from_be24-to_be24 : (x : ℤ) → Is24 x → let (b0, b1, b2) = to_be24 x in from_be24 b0 b1 b2 ≡ x
unfolding from_be24 to_be24
from_be24-to_be24 (pos n) h = ground arith
from_be24-to_be24 (negsuc n) h = ground arith

-- Any three bytes are the bytes of the 24-bit sample that they are read as.
pub to_be24-from_be24 :
    (b0 b1 b2 : ℕ)
    → b0 < 256
    → b1 < 256
    → b2 < 256
    → Is24 (from_be24 b0 b1 b2) × (to_be24 (from_be24 b0 b1 b2) ≡ (b0, b1, b2))
unfolding from_be24 to_be24
to_be24-from_be24 b0 b1 b2 h0 h1 h2 = ground arith
