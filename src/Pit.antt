-- ===== src/Pit.antt =====
-- kernel/src/sys/pit.c on the port operations of port.k.h: the programmable interval timer.
pub mod Channel
mod Tests
use cynix.Base.{
  ℕ, zero, suc, ◌+◌, ◌*◌, ◌/◌, ◌%◌, ◌^◌, bit_or, Bool, ltb, ◌==◌, if◌then◌else◌, List, [], ◌∷◌,
  ◌++◌,
}
use cynix.Base.Run.{Cmd, ok, trap, gets, modify, pure, ◌>>=◌, ◌>>◌}

-- The writes to ports, the last one first, each with its width in bytes, its port and its value, and
-- the values that the device answers to reads.
pub record Ports : Type 0 where
  pub written : List (ℕ × ℕ × ℕ)
  pub to_read : List ℕ

abbrev write_port : (width port value : ℕ) → Cmd Ports (Unit {0})
write_port width port value =
    modify (λ p. record p { written = (width, port % 2 ^ 16, value % 2 ^ (8 * width)) ∷ p.written })

unfoldable pub outb : (port value : ℕ) → Cmd Ports (Unit {0})
outb port value = write_port 1 port value

unfoldable pub outw : (port value : ℕ) → Cmd Ports (Unit {0})
outw port value = write_port 2 port value

unfoldable pub outd : (port value : ℕ) → Cmd Ports (Unit {0})
outd port value = write_port 4 port value

-- A read with nothing left to read sees an idle bus.
abbrev next_value : List ℕ → ℕ
next_value [] = 0xffffffff
next_value (b ∷ bs) = b

abbrev rest_values : List ℕ → List ℕ
rest_values [] = []
rest_values (b ∷ bs) = bs

abbrev read_port : (width : ℕ) → Cmd Ports ℕ
read_port width = do
  b ← gets (λ p. next_value p.to_read)
  modify (λ p. record p { to_read = rest_values p.to_read })
  pure (b % 2 ^ (8 * width))

unfoldable pub inb : (port : ℕ) → Cmd Ports ℕ
inb port = read_port 1

unfoldable pub inw : (port : ℕ) → Cmd Ports ℕ
inw port = read_port 2

unfoldable pub ind : (port : ℕ) → Cmd Ports ℕ
ind port = read_port 4

abbrev pub pit_dividend : ℕ
pit_dividend = 1193182

unfoldable pub pit_get_current_count : Cmd Ports ℕ
unfolding outb inb
pit_get_current_count = do outb 0x43 0; lo ← inb 0x40; hi ← inb 0x40; pure (bit_or (hi * 2 ^ 8) lo)

unfoldable pub pit_set_reload_value : (new_count : ℕ) → Cmd Ports (Unit {0})
unfolding outb
pit_set_reload_value new_count = do
  outb 0x43 0x34
  outb 0x40 (new_count % 2 ^ 16)
  outb 0x40 (new_count % 2 ^ 16 / 2 ^ 8)

-- The value of `new_divisor` at the end
unfoldable pub divisor : (frequency : ℕ) → ℕ
divisor frequency =
    if ltb (frequency / 2) (pit_dividend % frequency)
    then pit_dividend / frequency + 1
    else pit_dividend / frequency

-- A frequency of 0 raises the division exception.
unfoldable pub pit_set_frequency : (frequency : ℕ) → Cmd Ports (Unit {0})
unfolding divisor pit_set_reload_value
pit_set_frequency frequency =
    if frequency == 0 then (λ _. trap) else pit_set_reload_value (divisor frequency)
