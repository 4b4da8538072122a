-- ===== src/Server/Random.antt =====
-- src/server.cpp: `Generator::nextRandom`, in 64-bit arithmetic.
use Prim.Native.Nat.{bit_xor}
use dxfcxx_event_test.Base.{ℕ, ◌+◌, ◌*◌, ◌/◌, ◌%◌, ◌^◌, ◌≡◌, refl}
use dxfcxx_event_test.Text.{size_limit}

-- The value and the new state.
unfoldable pub next_random : ℕ → ℕ × ℕ
next_random state =
    let next = (state + 0x9e3779b97f4a7c15) % size_limit in
    let mixed = (bit_xor next (next / 2 ^ 30) * 0xbf58476d1ce4e5b9) % size_limit in
    let again = (bit_xor mixed (mixed / 2 ^ 27) * 0x94d049bb133111eb) % size_limit in
    (bit_xor again (again / 2 ^ 31), next)

-- The first value of SplitMix64 from the seed 0.
first_value : (next_random 0).0 ≡ 0xe220a8397b1dcdaf
unfolding next_random
first_value = refl
