-- ===== src/Tests/Clock.antt =====
-- A counter of 3 GHz, and the theorems on tsc.c at it.
use willow_os.Prelude.{ℕ, ◌*◌, ◌/◌, ◌%◌, ◌^◌, ◌≡◌, arith}
use willow_os.Clock.{one_second, tsc_ticks_to_ns}
use willow_os.Clock.Conversion.{tsc_ticks_to_ns_exact}

abbrev three_ghz : ℕ
three_ghz = 3000000000

-- Ten hours, of which the product with 10^9 does not fit in 64 bits.
tsc_ticks_to_ns_exact_example :
    tsc_ticks_to_ns three_ghz 108000000000001 ≡ 108000000000001 * one_second / three_ghz % 2 ^ 64
tsc_ticks_to_ns_exact_example =
    tsc_ticks_to_ns_exact three_ghz 108000000000001 (omega arith) (omega arith)
