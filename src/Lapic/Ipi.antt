-- ===== src/Lapic/Ipi.antt =====
-- Where an inter-processor interrupt goes.
use cynix.Base.{
  ℕ, ◌+◌, ◌*◌, ◌/◌, ◌%◌, ◌^◌, ◌<◌, ◌≡◌, refl, ap, ◌∙◌, ◌≢◌, bit_or, Bool, true, false, Bool-cases,
  inl, inr, if◌then◌else◌, add64, update, update_self, update_ne, ◌∷◌, arith,
}
use cynix.Base.Bits.{bit_or_low}
use cynix.Base.Run.{Run, ok, ◌>>◌, >>=-ok}
use cynix.Lapic.Access.{base_of, based, xapic_write_lem, base_of-based}
use cynix.Lapic.{
  Lapic, stored, lapic_reg_icr0, lapic_reg_icr1, xapic_write, x2apic_write, lapic_send_ipi,
}

-- The APIC sends the vector to the CPU.
pub data Sends (l : Lapic) (lapic_id vec : ℕ) (r : Run Lapic (Unit {0})) : Type 0 where
  sends : (l' : Lapic) → r ≡ ok tt l' → l'.sent ≡ (lapic_id, vec) ∷ l.sent → Sends l lapic_id vec r

module _ (l : Lapic) (lapic_id vec : ℕ) (byte : vec < 2 ^ 8) where
  x2apic-Sends :
      l.x2apic_mode ≡ true
      → lapic_id < 2 ^ 32
      → Sends l lapic_id vec (lapic_send_ipi lapic_id vec l)
  unfolding lapic_send_ipi x2apic_write
  x2apic-Sends on lt =
      let val = bit_or (lapic_id * 2 ^ 32) vec in
      let word : val ≡ lapic_id * 2 ^ 32 + vec = bit_or_low 32 lapic_id vec (omega arith) in
      let to : val / 2 ^ 32 ≡ lapic_id = omega (arith, word) in
      let number : val % 2 ^ 8 ≡ vec = omega (arith, word) in
      sends (record l { msr = update l.msr 0x830 val; sent = (val / 2 ^ 32, val % 2 ^ 8) ∷ l.sent })
        (rw on refl) (rw (to, number) refl)

  abbrev high : ℕ
  high = lapic_id * 2 ^ 24 % 2 ^ 32

  abbrev half : Lapic
  half = stored lapic_reg_icr1 high (based l)

  xapic-Sends :
      l.x2apic_mode ≡ false
      → lapic_id < 2 ^ 8
      → Sends l lapic_id vec (lapic_send_ipi lapic_id vec l)
  unfolding lapic_send_ipi
  xapic-Sends off lt =
      let same : base_of half ≡ base_of l = base_of-based l in
      let apart : add64 (base_of half) 0x300 ≢ add64 (base_of half) 0x310 =
        λ e. absurd (omega arith) in
      let dest : (update half.mmio (add64 (base_of half) 0x300) (vec % 2 ^ 32))
              (add64 (base_of half) 0x310)
            / 2 ^ 24
          ≡ lapic_id =
        ap (λ (w : ℕ). w / 2 ^ 24)
          (update_ne half.mmio (vec % 2 ^ 32) apart
            ∙ ap (λ (b : ℕ). half.mmio (add64 b 0x310)) same
            ∙ update_self l.mmio (add64 (base_of l) 0x310) (high % 2 ^ 32))
        ∙ omega arith in
      let number : vec % 2 ^ 8 ≡ vec = omega arith in
      sends (stored lapic_reg_icr0 vec (based half))
        (ap
            (λ (b : Bool).
              (if b
                  then x2apic_write lapic_reg_icr0 (bit_or (lapic_id * 2 ^ 32) vec)
                  else (xapic_write lapic_reg_icr1 high >> xapic_write lapic_reg_icr0 vec))
                l)
            off
          ∙ >>=-ok (xapic_write lapic_reg_icr1 high) (λ _. xapic_write lapic_reg_icr0 vec)
              (xapic_write_lem lapic_reg_icr1 high l)
          ∙ xapic_write_lem lapic_reg_icr0 vec half)
        (ap (λ (t : ℕ). (t, vec % 2 ^ 8) ∷ l.sent) dest
          ∙ ap (λ (t : ℕ). (lapic_id, t) ∷ l.sent) number)

  -- For a byte-sized vector and a destination that fits the mode, 32 bits in x2APIC mode and 8
  -- bits otherwise, `lapic_send_ipi` returns and the APIC sends that vector to that destination,
  -- in both modes alike.
  pub lapic_send_ipi-Sends :
      lapic_id < (if l.x2apic_mode then 2 ^ 32 else 2 ^ 8)
      → Sends l lapic_id vec (lapic_send_ipi lapic_id vec l)
  lapic_send_ipi-Sends lt = elim (Bool-cases l.x2apic_mode) [
    | inl on ↦ x2apic-Sends on (ground arith)
    | inr off ↦ xapic-Sends off (ground arith)
  ]
