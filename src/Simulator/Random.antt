-- ===== src/Simulator/Random.antt =====
-- `SeededSyntheticGeneratorV1` of simulator.ts. A 32-bit value is its unsigned bit pattern: `Math.imul`
-- is the product modulo 2 ^ 32, and the signed results of the source have the patterns that stand here.
use Prim.Native.Nat.{bit_or, bit_xor}
use kootha.Prelude.{ℕ, ◌+◌, ◌-◌, ◌*◌, ◌/◌, ◌%◌, ◌<◌, arith}
use kootha.Prelude.Number.{ℤ, pos, negsuc}

abbrev pub u32 : ℕ → ℕ
u32 n = n % 4294967296

-- `seed >>> 0`.
unfoldable pub seeded : ℤ → ℕ
seeded (pos n) = u32 n
seeded (negsuc n) = 4294967295 - u32 n

-- The new state, and the number drawn: the source divides it by 2 ^ 32.
unfoldable pub next : ℕ → ℕ × ℕ
next state =
    let state' = u32 (state + 1831565813) in
    let mixed = u32 (bit_xor state' (state' / 32768) * bit_or state' 1) in
    let value =
      u32 (bit_xor mixed (u32 (mixed + u32 (bit_xor mixed (mixed / 128) * bit_or mixed 61)))) in
    (state', u32 (bit_xor value (value / 16384)))

-- A draw, over 2 ^ 32, lies from 0 up to but not at 1, and the state stays a 32-bit value.
pub next_bounds : (state : ℕ) → ((next state).0 < 4294967296) × ((next state).1 < 4294967296)
unfolding next
next_bounds state = omega arith

seeded_bound : (z : ℤ) → seeded z < 4294967296
unfolding seeded
seeded_bound (pos n) = omega arith
seeded_bound (negsuc n) = omega arith
