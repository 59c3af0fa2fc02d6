-- ===== src/Proto/Resample/Gcd.antt =====
-- The greatest common divisor of crates/ak1-proto/src/resample.rs.
use mathlib.Core.WellFounded.{Acc}
use Prim.Native.Nat.{◌∣◌}
use native.Mathlib.Nat
use ak1_driver.Prelude.Order.{lt_wf}
use ak1_driver.Prelude.{ℕ, zero, suc, ◌*◌, ◌/◌, ◌%◌, ◌<◌, ◌≡◌, subst, arith, ◌↔◌}
use ak1_driver.Proto.Resample.{gcd, gcd_acc}

gcd_acc_iff : (d a b : ℕ) (w : Acc ◌<◌ b) → ((d ∣ a) × (d ∣ b)) ↔ (d ∣ gcd_acc a b w)
unfolding gcd_acc
gcd_acc_iff d a zero (Acc.intro _ smaller) = (λ h. h.0, λ h. (h, Nat.dvd-zero d))
gcd_acc_iff d a (suc b) (Acc.intro _ smaller) =
    let ih = gcd_acc_iff d (suc b) (a % suc b) (smaller (a % suc b) (omega arith)) in
    (
      λ h. ih.0 (h.1, (Nat.dvd-mod_iff d h.1).1 h.0),
      λ h. let (left, right) = ih.1 h in ((Nat.dvd-mod_iff d left).0 right, left),
    )

-- `gcd` divides both numbers, and every common divisor divides it.
pub gcd_iff : (d a b : ℕ) → ((d ∣ a) × (d ∣ b)) ↔ (d ∣ gcd a b)
unfolding gcd
gcd_iff d a b = gcd_acc_iff d a b (lt_wf.apply b)

pub gcd-dvd : (a b : ℕ) → (gcd a b ∣ a) × (gcd a b ∣ b)
gcd-dvd a b = (gcd_iff (gcd a b) a b).1 (Nat.dvd_refl (gcd a b))

pub gcd_pos : (a b : ℕ) → 0 < b → 0 < gcd a b
gcd_pos a b h = Nat.pos_of_dvd_of_pos (gcd-dvd a b).1 h

-- Divided by it, two numbers that are not both 0 have no common divisor but 1.
pub gcd-div-div : (a b d : ℕ) → 0 < b → d ∣ (a / gcd a b) → d ∣ (b / gcd a b) → d ≡ 1
gcd-div-div a b d h x y =
    Nat.eq-one_of_dvd-one (Nat.dvd_of_mul-dvd-mul_right d (gcd_pos a b h) (rw Nat.one-mul both))
  where
    scaled : (n : ℕ) → gcd a b ∣ n → d ∣ n / gcd a b → d * gcd a b ∣ n
    scaled n hg hd =
        subst (◌∣◌ (d * gcd a b)) (Nat.div-mul_cancel (gcd a b) hg)
          (Nat.mul-dvd-mul_right d hd (gcd a b))

    both : d * gcd a b ∣ gcd a b
    both = (gcd_iff (d * gcd a b) a b).0 (scaled a (gcd-dvd a b).0 x, scaled b (gcd-dvd a b).1 y)
