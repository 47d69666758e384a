-- ===== src/Pit/Tests.antt =====
-- The timer at 1000 Hz.
use cynix.Base.{◌+◌, ◌*◌, ◌^◌, ◌≤◌, ◌<◌, arith}
use cynix.Pit.{pit_dividend, divisor}
use cynix.Pit.Channel.{divisor-nearest}

divisor-nearest_example :
    (0 < divisor 1000)
    × (divisor 1000 < 2 ^ 16)
    × (2 * (divisor 1000 * 1000) ≤ 2 * pit_dividend + 1000)
    × (2 * pit_dividend ≤ 2 * (divisor 1000 * 1000) + 1000)
divisor-nearest_example = divisor-nearest 1000 (omega arith) (omega arith)
