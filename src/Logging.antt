-- ===== src/Logging.antt =====
-- src/logging/logger.cpp: the size of the ring of the logger. Its `log` is `enqueue` of SpscQueue;
-- the texts and the writer thread are I/O.
pub mod Sizes
pub mod Records
pub mod Lines
use lob_engine.Prelude.{ℕ, zero, suc, ◌*◌, ◌^◌, ◌%◌, ltb, Run, ok, out_of_fuel, if◌then◌else◌}

-- `while (n < queue_size) n <<= 1`, in uint32_t.
unfoldable pub round_up : ℕ → ℕ → ℕ → Run ℕ
round_up zero queue_size n = out_of_fuel
round_up (suc f) queue_size n =
    let rest = round_up f queue_size (n * 2 % 2 ^ 32) in if ltb n queue_size then rest else ok n

-- The size of the buffer, on enough rounds of the loop.
unfoldable pub buffer_size : ℕ → ℕ → Run ℕ
unfolding round_up
buffer_size f queue_size = round_up f queue_size 1
