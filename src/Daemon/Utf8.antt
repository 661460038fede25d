-- ===== src/Daemon/Utf8.antt =====
-- `String::from_utf8`: which byte strings are UTF-8.
use dzta.Prelude.{
  ℕ, zero, suc, Text, Option, none, some, Bool, false, ◌&&◌, [], ◌∷◌, leb, ltb, ◌==◌, if◌then◌else◌,
}

-- How many continuation bytes are due, and the range of the next.
record Due : Type 0 where
  count : ℕ
  low : ℕ
  high : ℕ

abbrev due : ℕ → ℕ → ℕ → Option Due
due count low high = some (record { count = count; low = low; high = high })

-- The first byte of a character.
lead : ℕ → Option Due
lead b =
    if ltb b 0x80
    then due 0 0 0
    else if ltb b 0xc2
    then none
    else if ltb b 0xe0
    then due 1 0x80 0xbf
    else if b == 0xe0
    then due 2 0xa0 0xbf
    else if b == 0xed
    then due 2 0x80 0x9f
    else if ltb b 0xf0
    then due 2 0x80 0xbf
    else if b == 0xf0
    then due 3 0x90 0xbf
    else if ltb b 0xf4
    then due 3 0x80 0xbf
    else if b == 0xf4
    then due 3 0x80 0x8f
    else none

step : ℕ → Due → ℕ → Option Due
step zero d b = lead b
step (suc more) d b = if leb d.low b && leb b d.high then due more 0x80 0xbf else none

run : Due → Text → Bool
run d [] = d.count == 0
run d (b ∷ s) = elim (step d.count d b) [ none ↦ false | some d' ↦ run d' s ]

unfoldable pub is_utf8 : Text → Bool
unfolding run step lead
is_utf8 s = run (record { count = 0; low = 0; high = 0 }) s
