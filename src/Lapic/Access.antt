-- ===== src/Lapic/Access.antt =====
-- What an access to a register of the local APIC does, in both modes.
use cynix.Base.{
  ℕ, ◌+◌, ◌*◌, ◌/◌, ◌%◌, ◌^◌, ◌≤◌, ◌<◌, ◌≡◌, refl, sym, ap, ◌∙◌, subst, ◌≢◌, bit_and, Bool, true,
  false, Bool-cases, inl, inr, ◌==◌, if◌then◌else◌, add64, update, update_self, update_ne, ◌∷◌,
  arith,
}
use cynix.Base.Run.{ok, >>=-ok}
use cynix.Lapic.{
  Lapic, stored, lapic_reg_icr0, lapic_reg_timer, lapic_reg_timer_initcnt, find_base, xapic_read,
  x2apic_read, lapic_read, xapic_write, x2apic_write, lapic_write, lapic_timer_stop,
}

-- The base that an access in xAPIC mode uses
abbrev pub base_of : Lapic → ℕ
base_of l =
    if l.lapic_base == 0 then add64 (bit_and (l.msr 0x1b) 0xfffff000) l.hhdm else l.lapic_base

abbrev pub based : Lapic → Lapic
based l = record l { lapic_base = base_of l }

pub find_base_lem : (l : Lapic) → find_base l ≡ ok tt (based l)
unfolding find_base
find_base_lem l = elim (Bool-cases (l.lapic_base == 0)) [
  | inl unset ↦ rw unset refl
  | inr set ↦ rw set refl
]

pub xapic_write_lem :
    (reg val : ℕ) (l : Lapic) → xapic_write reg val l ≡ ok tt (stored reg val (based l))
unfolding xapic_write
xapic_write_lem reg val l = rw (find_base_lem l)

pub base_of-based : (l : Lapic) → base_of (based l) ≡ base_of l
base_of-based l = elim (Bool-cases (l.lapic_base == 0)) [
  | inl unset ↦ ground arith
  | inr set ↦ ground arith
]

-- What a register holds for the mode
abbrev pub register : (reg : ℕ) → Lapic → ℕ
register reg l =
    if l.x2apic_mode then l.msr (0x800 + reg / 2 ^ 4) else l.mmio (add64 (base_of l) reg)

abbrev by_msr : (reg val : ℕ) → Lapic → Lapic
by_msr reg val l = record l {
  msr = update l.msr (0x800 + reg / 2 ^ 4) val;
  sent = if reg == lapic_reg_icr0 then (val / 2 ^ 32, val % 2 ^ 8) ∷ l.sent else l.sent;
}

abbrev pub written : (reg val : ℕ) → Lapic → Lapic
written reg val l = if l.x2apic_mode then by_msr reg val l else stored reg val (based l)

pub lapic_write_lem : (reg val : ℕ) (l : Lapic) → lapic_write reg val l ≡ ok tt (written reg val l)
unfolding lapic_write x2apic_write
lapic_write_lem reg val l = elim (Bool-cases l.x2apic_mode) [
  | inl on ↦ rw on refl
  | inr off ↦
      ap (λ (b : Bool). (if b then x2apic_write reg val else xapic_write reg val) l) off
      ∙ xapic_write_lem reg val l
      ∙ ap (λ (b : Bool). ok tt (if b then by_msr reg val l else stored reg val (based l)))
          (sym off)
]

-- The timer is off: its count is 0 and its interrupt is masked.
pub record IsStopped (l : Lapic) : Type 0 where
  pub count : register lapic_reg_timer_initcnt l ≡ 0
  pub masked : register lapic_reg_timer l ≡ 2 ^ 16

abbrev pub stopped : Lapic → Lapic
stopped l = written lapic_reg_timer (2 ^ 16) (written lapic_reg_timer_initcnt 0 l)

pub lapic_timer_stop_lem : (l : Lapic) → lapic_timer_stop l ≡ ok tt (stopped l)
unfolding lapic_timer_stop
lapic_timer_stop_lem l =
    >>=-ok (lapic_write lapic_reg_timer_initcnt 0) (λ _. lapic_write lapic_reg_timer (2 ^ 16))
      {s = l} (lapic_write_lem lapic_reg_timer_initcnt 0 l)
    ∙ lapic_write_lem lapic_reg_timer (2 ^ 16) (written lapic_reg_timer_initcnt 0 l)

module _ (l : Lapic) (on : l.x2apic_mode ≡ true) where
  written-on : (reg val : ℕ) → written reg val l ≡ by_msr reg val l
  written-on reg val =
      ap (λ (b : Bool). if b then by_msr reg val l else stored reg val (based l)) on

  register-on : (reg : ℕ) → register reg l ≡ l.msr (0x800 + reg / 2 ^ 4)
  register-on reg =
      ap (λ (b : Bool). if b then l.msr (0x800 + reg / 2 ^ 4) else l.mmio (add64 (base_of l) reg))
        on

module _ (l : Lapic) (off : l.x2apic_mode ≡ false) where
  written-off : (reg val : ℕ) → written reg val l ≡ stored reg val (based l)
  written-off reg val =
      ap (λ (b : Bool). if b then by_msr reg val l else stored reg val (based l)) off

  register-off : (reg : ℕ) → register reg l ≡ l.mmio (add64 (base_of l) reg)
  register-off reg =
      ap (λ (b : Bool). if b then l.msr (0x800 + reg / 2 ^ 4) else l.mmio (add64 (base_of l) reg))
        off

stopped-on : (l : Lapic) → l.x2apic_mode ≡ true → IsStopped (stopped l)
stopped-on l on =
    let first = by_msr lapic_reg_timer_initcnt 0 l in
    let both = by_msr lapic_reg_timer (2 ^ 16) first in
    let e : stopped l ≡ both =
      ap (written lapic_reg_timer (2 ^ 16)) (written-on l on lapic_reg_timer_initcnt 0)
      ∙ written-on first on lapic_reg_timer (2 ^ 16) in
    subst IsStopped (sym e) (record {
      count =
          register-on both on lapic_reg_timer_initcnt
          ∙ update_ne first.msr {i = 0x832} {j = 0x838} (2 ^ 16) (omega arith)
          ∙ update_self l.msr 0x838 0;
      masked = register-on both on lapic_reg_timer ∙ update_self first.msr 0x832 (2 ^ 16);
    })

stopped-off : (l : Lapic) → l.x2apic_mode ≡ false → IsStopped (stopped l)
stopped-off l off =
    let first = stored lapic_reg_timer_initcnt 0 (based l) in
    let both = stored lapic_reg_timer (2 ^ 16) (based first) in
    let e : stopped l ≡ both =
      ap (written lapic_reg_timer (2 ^ 16)) (written-off l off lapic_reg_timer_initcnt 0)
      ∙ written-off first off lapic_reg_timer (2 ^ 16) in
    let same : base_of first ≡ base_of l = base_of-based l in
    let still : base_of both ≡ base_of first = base_of-based first in
    let apart : add64 (base_of first) 0x320 ≢ add64 (base_of both) 0x380 =
      λ e. absurd (omega (arith, still)) in
    subst IsStopped (sym e) (record {
      count =
          register-off both off lapic_reg_timer_initcnt
          ∙ update_ne first.mmio (2 ^ 16) apart
          ∙ ap (λ (b : ℕ). first.mmio (add64 b 0x380)) (still ∙ same)
          ∙ update_self l.mmio (add64 (base_of l) 0x380) 0;
      masked =
          register-off both off lapic_reg_timer
          ∙ ap (λ (b : ℕ). both.mmio (add64 b 0x320)) still
          ∙ update_self first.mmio (add64 (base_of first) 0x320) (2 ^ 16);
    })

pub stopped-IsStopped : (l : Lapic) → IsStopped (stopped l)
stopped-IsStopped l = elim (Bool-cases l.x2apic_mode) [
  | inl on ↦ stopped-on l on
  | inr off ↦ stopped-off l off
]

-- A write changes no model-specific register but those of the APIC, below 0x900.
pub written-msr :
    (reg val : ℕ) (l : Lapic) (k : ℕ)
    → reg < 0x1000
    → 0x900 ≤ k
    → (written reg val l).msr k ≡ l.msr k
written-msr reg val l k lt le = elim (Bool-cases l.x2apic_mode) [
  | inl on ↦
      ap (λ (m : Lapic). m.msr k) (written-on l on reg val)
      ∙ update_ne l.msr {i = 0x800 + reg / 2 ^ 4} {j = k} val (λ e. absurd (omega arith))
  | inr off ↦ ap (λ (m : Lapic). m.msr k) (written-off l off reg val)
]

xapic_read_lem :
    (reg : ℕ) (l : Lapic)
    → xapic_read reg l ≡ ok (l.mmio (add64 (base_of l) (reg / 4 * 4)) % 2 ^ 32) (based l)
unfolding xapic_read
xapic_read_lem reg l = rw (find_base_lem l)

pub lapic_read_lem :
    (reg : ℕ) (l : Lapic)
    → (v : ℕ) × (l' : Lapic) × (lapic_read reg l ≡ ok v l') × ((k : ℕ) → l'.msr k ≡ l.msr k)
unfolding lapic_read x2apic_read
lapic_read_lem reg l = elim (Bool-cases l.x2apic_mode) [
  | inl on ↦ (l.msr (0x800 + reg / 2 ^ 4), l, rw on refl, λ k. refl)
  | inr off ↦ (
    l.mmio (add64 (base_of l) (reg / 4 * 4)) % 2 ^ 32,
    based l,
    ap (λ (b : Bool). (if b then x2apic_read reg else xapic_read reg) l) off ∙ xapic_read_lem reg l,
    λ k. refl,
  )
]
