-- ===== src/Base/Int.antt =====
-- Go's int, 64 bits wide.
use Prim.Native.Nat.{ℕ, zero, suc, ◌+◌, ◌-◌, ◌^◌}
use mathlib.Core.Path.{◌≡◌}
use mathlib.Core.Logic.{◌↔◌}
use mathlib.Core.Bool.{Bool, true, false}
use native.Mathlib.Omega.{arith}
use local_drive.Base.Tests.{Comparable, nat_eq, ltb, if◌then◌else◌}

-- `negsuc n` is -(n + 1).
pub data ℤ : Type 0 where
  pos : ℕ → ℤ
  negsuc : ℕ → ℤ

abbrev pub max_int : ℕ
max_int = 2 ^ 63 - 1

abbrev pub z_eq : ℤ → ℤ → Bool
z_eq (pos a) (pos b) = nat_eq a b
z_eq (negsuc a) (negsuc b) = nat_eq a b
z_eq _ _ = false

pub z_eq_iff : (a b : ℤ) → (z_eq a b ≡ true) ↔ (a ≡ b)
z_eq_iff (pos a) (pos b) = ground arith
z_eq_iff (pos a) (negsuc b) = ground arith
z_eq_iff (negsuc a) (pos b) = ground arith
z_eq_iff (negsuc a) (negsuc b) = ground arith

instance abbrev pub ℤ_eq : Comparable ℤ
ℤ_eq = record { same = z_eq; same_iff = z_eq_iff }

-- a > b
abbrev pub z_gt : ℤ → ℤ → Bool
z_gt (pos a) (pos b) = ltb b a
z_gt (pos a) (negsuc b) = true
z_gt (negsuc a) (pos b) = false
z_gt (negsuc a) (negsuc b) = ltb a b

-- a + 1, which wraps round at the largest int
abbrev pub z_incr : ℤ → ℤ
z_incr (pos a) = if nat_eq a max_int then negsuc max_int else pos (a + 1)
z_incr (negsuc zero) = pos 0
z_incr (negsuc (suc a)) = negsuc a
