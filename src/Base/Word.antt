-- ===== src/Base/Word.antt =====
-- 64-bit words: uint64 subtraction wraps, and a conversion to int64 reads the top bit as a sign.
use Prim.Native.Nat.{ℕ, suc, ◌+◌, ◌-◌, ◌^◌, ◌%◌, ◌≤◌, ◌<◌, bit_and, bit_xor}
use mathlib.Core.Path.{◌≡◌}
use native.Mathlib.Omega.{arith}
use krnl_sentry.Base.Tests.{ltb, if◌then◌else◌}
use krnl_sentry.Base.Int.{ℤ, pos, negsuc}

abbrev pub u64_mod : ℕ
u64_mod = 2 ^ 64

-- uint64 a - b.
unfoldable pub sub64 : ℕ → ℕ → ℕ
sub64 a b = (a + u64_mod - b) % u64_mod

-- With no wrap it is the difference.
pub sub64_of_le : (a b : ℕ) → b ≤ a → a < u64_mod → sub64 a b ≡ a - b
unfolding sub64
sub64_of_le a b h k = omega arith

-- int64(w), for a word w.
unfoldable pub signed64 : ℕ → ℤ
signed64 w = if ltb w (2 ^ 63) then pos w else negsuc (u64_mod - w - 1)

-- uint64(z), for an int64 z.
unfoldable pub unsigned64 : ℤ → ℕ
unsigned64 (pos n) = n
unsigned64 (negsuc n) = u64_mod - suc n

pub signed64-unsigned64 : (w : ℕ) → w < u64_mod → unsigned64 (signed64 w) ≡ w
unfolding signed64 unsigned64
signed64-unsigned64 w h = ground arith

-- a &^ b on 64-bit patterns: the bits of `a` that `b` does not have.
abbrev pub and_not : ℕ → ℕ → ℕ
and_not a b = bit_and a (bit_xor b (u64_mod - 1))

-- -z, for an int64 z.
unfoldable pub neg64 : ℤ → ℤ
unfolding signed64 sub64 unsigned64
neg64 z = signed64 (sub64 0 (unsigned64 z))
