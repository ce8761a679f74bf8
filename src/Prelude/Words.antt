-- ===== src/Prelude/Words.antt =====
-- 64-bit words as natural numbers below `2 ^ 64`, with the wrap-around written out.
use Prim.Native.Nat.{ℕ, ◌+◌, ◌-◌, ◌%◌, ◌^◌}

abbrev pub word : ℕ
word = 2 ^ 64

-- uint64_t a + b.
abbrev pub add64 : ℕ → ℕ → ℕ
add64 a b = (a + b) % word

-- uint64_t a - b.
abbrev pub sub64 : ℕ → ℕ → ℕ
sub64 a b = (a + word - b) % word

-- uint32_t a + b.
abbrev pub add32 : ℕ → ℕ → ℕ
add32 a b = (a + b) % 2 ^ 32
