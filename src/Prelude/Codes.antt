-- ===== src/Prelude/Codes.antt =====
-- include/error.h: the status codes, and results that carry a value or a code.
use mathlib.Core.Path.{◌≡◌, refl}
use mathlib.Core.Logic.{◌⊎◌, inl, inr, ◌≢◌}
use mathlib.Core.Bool.{Bool, true, false}

-- `RDNX_OK` and `RDNX_E_GENERIC` to `RDNX_E_TIMEOUT`.
pub data Status : Type 0 where
  ok generic invalid nomem notfound busy denied unsupported timeout : Status

-- The test `rc == RDNX_OK`.
abbrev pub is_ok : Status → Bool
is_ok ok = true
is_ok _ = false

-- What a `long` result of the kernel encodes: a value, or a negative code.
pub data Result {ℓ} (A : Type ℓ) : Type ℓ where
  done : A → Result A
  fail : Status → Result A

-- A status is RDNX_OK or is not.
pub ok-cases : (r : Status) → (r ≡ ok) ⊎ (r ≢ ok)
ok-cases ok = inl refl
ok-cases generic = inr (λ h. cc)
ok-cases invalid = inr (λ h. cc)
ok-cases nomem = inr (λ h. cc)
ok-cases notfound = inr (λ h. cc)
ok-cases busy = inr (λ h. cc)
ok-cases denied = inr (λ h. cc)
ok-cases unsupported = inr (λ h. cc)
ok-cases timeout = inr (λ h. cc)
