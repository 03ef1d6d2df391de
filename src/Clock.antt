-- ===== src/Clock.antt =====
-- The clocks: tsc.c, hpet_get_elapsed_ns of hpet.c, and kpass, lapic_oneshot and lapic_periodic of
-- apic.c, all of limine-c-template-x86-64/kernel/src. What a device register holds is an argument.
use willow_os.Prelude.{ℕ, ◌+◌, ◌-◌, ◌*◌, ◌/◌, ◌%◌, ◌^◌, bit_or, Bool, true, false, if◌then◌else◌}
pub mod Conversion

abbrev pub one_second : ℕ
one_second = 1000000000

-- The two halves of the counter.
unfoldable pub rdtsc : (low high : ℕ) → ℕ
rdtsc low high = bit_or (high * 2 ^ 32) low

unfoldable pub tsc_ticks_to_ns : (tsc_freq ticks : ℕ) → ℕ
tsc_ticks_to_ns tsc_freq ticks =
    let quot = ticks / tsc_freq in
    let rem = ticks % tsc_freq in
    (quot * one_second % 2 ^ 64 + rem * one_second % 2 ^ 64 / tsc_freq) % 2 ^ 64

unfoldable pub tsc_ns_to_ticks : (tsc_freq time : ℕ) → ℕ
tsc_ns_to_ticks tsc_freq time = tsc_freq * time % 2 ^ 64 / one_second

unfoldable pub tsc_read_ns : (tsc_freq low high : ℕ) → ℕ
unfolding tsc_ticks_to_ns rdtsc
tsc_read_ns tsc_freq low high = tsc_ticks_to_ns tsc_freq (rdtsc low high)

unfoldable pub tsc_read_ms : (tsc_freq low high : ℕ) → ℕ
unfolding tsc_read_ns
tsc_read_ms tsc_freq low high = tsc_read_ns tsc_freq low high / 1000000

unfoldable pub tsc_read_s : (tsc_freq low high : ℕ) → ℕ
unfolding tsc_read_ms
tsc_read_s tsc_freq low high = tsc_read_ms tsc_freq low high / 1000

-- `tsc_freq` as `tsc_init` sets it, from the counter before and after 10 milliseconds.
unfoldable pub tsc_init : (tsc_start tsc_end : ℕ) → ℕ
tsc_init tsc_start tsc_end = (tsc_end + 2 ^ 64 - tsc_start) % 2 ^ 64 * 100 % 2 ^ 64

unfoldable pub hpet_get_elapsed_ns : (main_counter capabilities : ℕ) → ℕ
hpet_get_elapsed_ns main_counter capabilities =
    main_counter * (capabilities / 2 ^ 32 / 1000000) % 2 ^ 64

-- The registers of the timer of a local interrupt controller.
pub record LapicTimer : Type 0 where
  pub divider : ℕ
  pub lvt_timer : ℕ
  pub initial_count : ℕ

-- A number of milliseconds in ticks, of which `per_second` is lapic_timer_converted, in 32 bits.
unfoldable pub lapic_count : (ms per_second : ℕ) → ℕ
lapic_count ms per_second = ms * per_second % 2 ^ 64 / 1000 % 2 ^ 32

unfoldable pub kpass : (ms per_second : ℕ) → LapicTimer
unfolding lapic_count
kpass ms per_second = record {
  divider = 3;
  lvt_timer = 66;
  initial_count = lapic_count ms per_second;
}

-- The unit is false for milliseconds and true for ticks.
unfoldable pub lapic_oneshot :
    (ms vector divider : ℕ) (ms_or_ticks : Bool) (per_second : ℕ) → LapicTimer
unfolding lapic_count
lapic_oneshot ms vector divider ms_or_ticks per_second = record {
  divider = divider;
  lvt_timer = bit_or 0 vector;
  initial_count = if ms_or_ticks then ms % 2 ^ 32 else lapic_count ms per_second;
}

unfoldable pub lapic_periodic :
    (ms vector divider : ℕ) (ms_or_ticks : Bool) (per_second : ℕ) → LapicTimer
unfolding lapic_count
lapic_periodic ms vector divider ms_or_ticks per_second = record {
  divider = divider;
  lvt_timer = bit_or 0x20000 vector;
  initial_count = if ms_or_ticks then ms % 2 ^ 32 else lapic_count ms per_second;
}
