-- ===== src/Common/Time.antt =====
-- common/Time, but for `NowUs`, which stands beside the replay. The clock and the printing of a number
-- of nanoseconds as seconds, which the source does with doubles, are arguments.
use gateway_forge.Common.{ℕ, ◌*◌, ◌/◌, ◌%◌, ◌^◌, ◌++◌}
use gateway_forge.Common.Text.{Text, lit}

-- `NowMs`.
unfoldable pub now_ms : {World : Type 0} → (World → ℕ × World) → World → ℕ × World
now_ms now_ns world = let reading = now_ns world in (reading.0 / 1000000, reading.1)

module _ (print_seconds : ℕ → Text) where
  unfoldable pub format_ns : ℕ → Text
  format_ns ns = print_seconds ns ++ lit "s"

  -- The product is a uint64_t.
  unfoldable pub format_us : ℕ → Text
  format_us us = format_ns (us * 1000 % 2 ^ 64)

  unfoldable pub format_ms : ℕ → Text
  format_ms ms = format_ns (ms * 1000000 % 2 ^ 64)
