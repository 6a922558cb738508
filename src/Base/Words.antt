-- ===== src/Base/Words.antt =====
-- Machine words, durations and signed timestamps.
use Prim.Native.Nat.{ℕ, ◌+◌, ◌-◌, ◌*◌, ◌^◌, min}
use mathlib.Core.Path.{◌≡◌, refl}
use native.Mathlib.Omega.{arith}
use mathlib.Core.Bool.{Bool, true, false}
use webex_generic_account_bo.Base.Tests.{leb}

abbrev pub u64_max : ℕ
u64_max = 2 ^ 64 - 1

-- `u64::saturating_add`; `usize` has 64 bits on the supported hosts.
abbrev pub saturating_add : ℕ → ℕ → ℕ
saturating_add a b = min (a + b) u64_max

abbrev pub saturating_mul : ℕ → ℕ → ℕ
saturating_mul a b = min (a * b) u64_max

-- A `Duration`, in nanoseconds.
abbrev pub Duration : Type 0
Duration = ℕ

abbrev pub from_secs : ℕ → Duration
from_secs n = n * 1_000_000_000

abbrev pub from_millis : ℕ → Duration
from_millis n = n * 1_000_000

-- `negsuc n` is -(n + 1).
pub data ℤ : Type 0 where
  pos : ℕ → ℤ
  negsuc : ℕ → ℤ

-- `a <= b`.
unfoldable pub leb_ℤ : ℤ → ℤ → Bool
leb_ℤ (pos a) (pos b) = leb a b
leb_ℤ (pos a) (negsuc b) = false
leb_ℤ (negsuc a) (pos b) = true
leb_ℤ (negsuc a) (negsuc b) = leb b a

pub leb_ℤ-total : (a b : ℤ) → leb_ℤ a b ≡ false → leb_ℤ b a ≡ true
unfolding leb_ℤ
leb_ℤ-total (pos a) (pos b) h = ground arith
leb_ℤ-total (pos a) (negsuc b) h = refl
leb_ℤ-total (negsuc a) (pos b) h = cc
leb_ℤ-total (negsuc a) (negsuc b) h = ground arith

pub leb_ℤ-trans : (a b c : ℤ) → leb_ℤ a b ≡ true → leb_ℤ b c ≡ true → leb_ℤ a c ≡ true
unfolding leb_ℤ
leb_ℤ-trans (pos a) (pos b) (pos c) p q = ground arith
leb_ℤ-trans (pos a) (pos b) (negsuc c) p q = cc
leb_ℤ-trans (pos a) (negsuc b) c p q = cc
leb_ℤ-trans (negsuc a) (pos b) (pos c) p q = refl
leb_ℤ-trans (negsuc a) (pos b) (negsuc c) p q = cc
leb_ℤ-trans (negsuc a) (negsuc b) (pos c) p q = refl
leb_ℤ-trans (negsuc a) (negsuc b) (negsuc c) p q = ground arith
