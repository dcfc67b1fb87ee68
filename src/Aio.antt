-- ===== src/Aio.antt =====
-- mpsystemd/_aio.py: the sleep of asyncio that the package awaits. What the module asyncio offers
-- is a parameter: MicroPython has sleep_ms, and CPython has sleep, which takes seconds.
use micropython_systemd.Prelude.{Option, none, some, ℕ, ℤ}

-- A number of seconds, as a fraction.
pub record Seconds : Type 0 where
  pub numerator : ℤ
  pub denominator : ℕ

pub record Asyncio (A : Type 0) : Type 0 where
  pub sleep_ms : Option (ℤ → A)
  pub sleep : Seconds → A

abbrev pub ms_per_sec : ℕ
ms_per_sec = 1000

unfoldable pub sleep_ms : {A : Type 0} → Asyncio A → ℤ → A
sleep_ms asyncio ms = elim asyncio.sleep_ms [
  | some own ↦ own ms
  | none ↦ asyncio.sleep (record { numerator = ms; denominator = ms_per_sec })
]
