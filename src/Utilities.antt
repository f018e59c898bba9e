-- ===== src/Utilities.antt =====
-- src/utils/date.js and src/utils/crypto.js. Nothing else of the repository calls them; the clocks and
-- the random bytes of Node.js are arguments.
use potens_intern_backend_sh.Common.{
  ℕ, ◌+◌, ◌-◌, ◌*◌, ◌/◌, ◌%◌, ◌<◌, ◌≤◌, ◌≡◌, List, [], ◌∷◌, Text, length, arith,
}
use potens_intern_backend_sh.Json.{hex_digit}
use potens_intern_backend_sh.Date.{to_iso}

-- `nowIso` and `toIso`, for a date or for milliseconds.
unfoldable pub now_iso : ℕ → Text
now_iso now = to_iso now

unfoldable pub iso_of_time : ℕ → Text
iso_of_time date = to_iso date

-- `elapsedMs`, in hundredths of a millisecond: `Math.round` rounds a half up. The arguments are
-- nanoseconds, of a clock that does not go back.
unfoldable pub elapsed_ms : ℕ → ℕ → ℕ
elapsed_ms start now = (now - start + 5000) / 10000

unfoldable pub to_hex : List ℕ → Text
to_hex [] = []
to_hex (b ∷ bytes) = hex_digit (b / 16) ∷ hex_digit (b % 16) ∷ to_hex bytes

-- `randomHex`, of what `crypto.randomBytes` returns.
unfoldable pub random_hex : (ℕ → List ℕ) → ℕ → Text
unfolding to_hex
random_hex random_bytes bytes = to_hex (random_bytes bytes)

length-to_hex : (bytes : List ℕ) → length (to_hex bytes) ≡ length bytes * 2
unfolding to_hex
length-to_hex [] = omega arith
length-to_hex (b ∷ bytes) = omega (arith, length-to_hex bytes)

-- The text has two digits for each byte that is asked for.
length-random_hex :
    (random_bytes : ℕ → List ℕ) (bytes : ℕ)
    → length (random_bytes bytes) ≡ bytes
    → length (random_hex random_bytes bytes) ≡ bytes * 2
unfolding random_hex
length-random_hex random_bytes bytes long = omega (arith, long, length-to_hex (random_bytes bytes))

-- Half a hundredth up or down.
elapsed_ms_bounds :
    (start now : ℕ)
    → start ≤ now
    → (elapsed_ms start now * 10000 ≤ now - start + 5000)
      × (now - start < elapsed_ms start now * 10000 + 5000)
unfolding elapsed_ms
elapsed_ms_bounds start now h = omega arith
