-- ===== src/HttpPdp/Stream/Backoff.antt =====
-- http_pdp_client.py, `_backoff_delay`: the wait before a reconnection.
use sapl_python.Prelude.{◌≡◌, arith, if◌then◌else◌, ltb, ◌≤◌, ◌<◌, ◌+◌, ◌-◌, ◌*◌, ◌^◌, ℕ}
use native.Mathlib.Nat.{mul-le-mul_left}
use sapl_python.Python.Action.{ok}
use sapl_python.HttpPdp.Stream.{backoff_delay}

-- The delay without jitter.
abbrev pub nominal : ℕ → ℕ → ℕ → ℕ
nominal attempt base cap = let raw = base * 2 ^ (attempt - 1) in if ltb cap raw then cap else raw

scaled : (m r : ℕ) → r < 2 ^ 53 → (m * 2 ^ 53 ≤ m * (2 ^ 53 + r)) × (m * (2 ^ 53 + r) ≤ m * 2 ^ 54)
scaled m r h = (mul-le-mul_left m (omega arith), mul-le-mul_left m (omega arith))

-- Up to the 1024th attempt the wait is between a half and the whole of the nominal delay, which is
-- at most the cap.
pub backoff_delay-bounds :
    (attempt base cap r : ℕ)
    → attempt ≤ 1024
    → r < 2 ^ 53
    → (delay : ℕ) × (backoff_delay attempt base cap r ≡ ok delay)
      × (nominal attempt base cap * 2 ^ 53 ≤ delay)
      × (delay ≤ nominal attempt base cap * 2 ^ 54)
      × (nominal attempt base cap ≤ cap)
unfolding backoff_delay
backoff_delay-bounds attempt base cap r tries h =
    let (low, high) = scaled (nominal attempt base cap) r h in
    (nominal attempt base cap * (2 ^ 53 + r), ground arith, low, high, ground arith)
