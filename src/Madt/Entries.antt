-- ===== src/Madt/Entries.antt =====
-- What the scan of the MADT collects, and when it ends.
use native.Mathlib.Decide.{ℕ_discrete}
use cynix.Base.{
  ℕ, zero, suc, ◌+◌, ◌^◌, ◌≤◌, ◌<◌, ◌≡◌, refl, sym, ap, Bool, true, false, ◌==◌, leb, if◌then◌else◌,
  List, [], ◌∷◌, ◌++◌, ++-nil, ++-one, ==_false, Bool-cases, inl, inr, ◌⊎◌, subst, length, add64,
  arith,
}
use cynix.Base.Run.{Run, Cmd, ok, panics, spins, out_of_memory, and_then}
use cynix.Madt.{Madt, madt_size, push_back, collect, scan_entries}

-- The headers that follow each other from `offset` on up to the end of the table.
pub data Chain (bytes : ℕ → ℕ) (length : ℕ) : (offset : ℕ) → List ℕ → Type 0 where
  ends : {offset : ℕ} → length ≤ offset + madt_size → Chain bytes length offset []
  entry :
      {offset : ℕ} {rest : List ℕ}
      → offset + madt_size < length
      → 0 < bytes (offset + 1)
      → Chain bytes length (offset + bytes (offset + 1)) rest
      → Chain bytes length offset (offset ∷ rest)

-- The headers of one kind, in order.
abbrev pub of_id : (bytes : ℕ → ℕ) → (id : ℕ) → List ℕ → List ℕ
of_id bytes id [] = []
of_id bytes id (h ∷ hs) = let rest = of_id bytes id hs in if bytes h == id then h ∷ rest else rest

-- The vectors with one more header
abbrev stored : (x2apic_mode : Bool) → (id header : ℕ) → Madt → Madt
stored x2apic_mode id header m =
    if id == 0
    then record m { madt_lapics = m.madt_lapics ++ (header ∷ []) }
    else if id == 9
    then (if x2apic_mode then record m { madt_x2apics = m.madt_x2apics ++ (header ∷ []) } else m)
    else if id == 1
    then record m { madt_io_apics = m.madt_io_apics ++ (header ∷ []) }
    else if id == 2
    then record m { madt_isos = m.madt_isos ++ (header ∷ []) }
    else if id == 4
    then record m { madt_nmis = m.madt_nmis ++ (header ∷ []) }
    else m

-- A vector did not get room, and the kernel panics.
pub record Refused (room : ℕ → Bool) (r : Run Madt (Unit {0})) : Type 0 where
  pub items : ℕ
  pub full : room items ≡ false
  pub panicked : r ≡ panics out_of_memory

-- The vectors are as `m`, or one of them did not get room.
abbrev pub Scanned : (room : ℕ → Bool) → Madt → Run Madt (Unit {0}) → Type 0
Scanned room m r = (r ≡ ok tt m) ⊎ Refused room r

module _ (room : ℕ → Bool) where
  pushed :
      (items : List ℕ) (header : ℕ) (put : List ℕ → Madt → Madt) (m : Madt)
      → Scanned room (put (items ++ (header ∷ [])) m) (push_back room items header put m)
  pushed items header put m = elim (Bool-cases (room (length items))) [
    | inl enough ↦ inl (rw enough refl)
    | inr full ↦ inr (record { items = length items; full = full; panicked = rw full refl })
  ]

  either :
      (b : Bool) (c d : Cmd Madt (Unit {0})) {x y m : Madt}
      → Scanned room x (c m)
      → Scanned room y (d m)
      → Scanned room (if b then x else y) ((if b then c else d) m)
  either true c d p q = p
  either false c d p q = q

  collect-stored :
      (x2apic_mode : Bool) (id header : ℕ) (m : Madt)
      → Scanned room (stored x2apic_mode id header m) (collect room x2apic_mode id header m)
  unfolding collect
  collect-stored x2apic_mode id header m =
      either (id == 0) _ _ (pushed m.madt_lapics header (λ l m. record m { madt_lapics = l }) m) (
        either (id == 9) _ _
          (either x2apic_mode _ _
            (pushed m.madt_x2apics header (λ l m. record m { madt_x2apics = l }) m) (inl refl))
          (either (id == 1) _ _
            (pushed m.madt_io_apics header (λ l m. record m { madt_io_apics = l }) m)
            (either (id == 2) _ _ (pushed m.madt_isos header (λ l m. record m { madt_isos = l }) m)
              (either (id == 4) _ _
                (pushed m.madt_nmis header (λ l m. record m { madt_nmis = l }) m) (inl refl)))))

  -- What comes after a header is stored
  after_one :
      (f : Cmd Madt (Unit {0})) (P : Run Madt (Unit {0}) → Type 0) {r : Run Madt (Unit {0})}
      {m : Madt}
      → Scanned room m r
      → P (f m)
      → (Refused room (and_then r (λ _. f)) → P (and_then r (λ _. f)))
      → P (and_then r (λ _. f))
  after_one f P (inl e) p q = subst (λ r. P (and_then r (λ _. f))) (sym e) p
  after_one f P (inr x) p q =
      q (record { items = x.items; full = x.full; panicked = rw x.panicked refl })

module _ (room : ℕ → Bool) (x2apic_mode : Bool) (bytes : ℕ → ℕ) (length : ℕ) where
  abbrev pub collected : Madt → List ℕ → Madt
  collected m hs = record {
    madt_lapics = m.madt_lapics ++ of_id bytes 0 hs;
    madt_x2apics = if x2apic_mode then m.madt_x2apics ++ of_id bytes 9 hs else m.madt_x2apics;
    madt_io_apics = m.madt_io_apics ++ of_id bytes 1 hs;
    madt_isos = m.madt_isos ++ of_id bytes 2 hs;
    madt_nmis = m.madt_nmis ++ of_id bytes 4 hs;
  }

  record_one :
      {m : Madt} {ls xs is os ns : List ℕ}
      → m.madt_lapics ≡ ls
      → m.madt_x2apics ≡ xs
      → m.madt_io_apics ≡ is
      → m.madt_isos ≡ os
      → m.madt_nmis ≡ ns
      → m ≡ record {
        madt_lapics = ls;
        madt_x2apics = xs;
        madt_io_apics = is;
        madt_isos = os;
        madt_nmis = ns;
      }
  record_one a b c d e = rw (sym a, sym b, sym c, sym d, sym e) refl

  nothing_more : (m : Madt) → m ≡ collected m []
  nothing_more m =
      record_one (sym (++-nil m.madt_lapics))
        (elim (Bool-cases x2apic_mode) [
          | inl on ↦ rw on (sym (++-nil m.madt_x2apics))
          | inr off ↦ rw off refl
        ])
        (sym (++-nil m.madt_io_apics)) (sym (++-nil m.madt_isos)) (sym (++-nil m.madt_nmis))

  stored-collected :
      (m : Madt) (h : ℕ) (hs : List ℕ)
      → collected (stored x2apic_mode (bytes h) h m) hs ≡ collected m (h ∷ hs)
  stored-collected m h hs = elim (ℕ_discrete (bytes h) 0) [
    | yes e ↦ rw e (record_one (++-one m.madt_lapics h (of_id bytes 0 hs)) refl refl refl refl)
    | no n0 ↦ elim (ℕ_discrete (bytes h) 9) [
      | yes e ↦ elim (Bool-cases x2apic_mode) [
        | inl on ↦
            rw (e, on) (record_one refl (++-one m.madt_x2apics h (of_id bytes 9 hs)) refl refl refl)
        | inr off ↦ rw (e, off) refl
      ]
      | no n9 ↦ elim (ℕ_discrete (bytes h) 1) [
        | yes e ↦
            rw e (record_one refl refl (++-one m.madt_io_apics h (of_id bytes 1 hs)) refl refl)
        | no n1 ↦ elim (ℕ_discrete (bytes h) 2) [
          | yes e ↦ rw e (record_one refl refl refl (++-one m.madt_isos h (of_id bytes 2 hs)) refl)
          | no n2 ↦ elim (ℕ_discrete (bytes h) 4) [
            | yes e ↦
                rw e (record_one refl refl refl refl (++-one m.madt_nmis h (of_id bytes 4 hs)))
            | no n4 ↦
                rw
                  (
                    ==_false (bytes h) 0 n0,
                    ==_false (bytes h) 9 n9,
                    ==_false (bytes h) 1 n1,
                    ==_false (bytes h) 2 n2,
                    ==_false (bytes h) 4 n4,
                  )
                  refl
          ]
        ]
      ]
    ]
  ]

  -- On a table shorter than 2 ^ 32 bytes whose entries follow each other with positive lengths to
  -- its end, the loop of `madt_init` ends within as many rounds as there are bytes left: either it
  -- returns, and the five vectors have got the entries of their kinds in order, the x2APIC ones
  -- only in x2APIC mode, or it panics as a vector that must grow gets no memory.
  pub scan_entries-collects :
      (fuel : ℕ) {offset : ℕ} {hs : List ℕ} (m : Madt)
      → Chain bytes length offset hs
      → length < 2 ^ 32
      → ((i : ℕ) → bytes i < 256)
      → offset < 2 ^ 33
      → 0 < fuel
      → length < offset + fuel + madt_size
      → Scanned room (collected m hs) (scan_entries room x2apic_mode bytes length fuel offset m)
  unfolding scan_entries
  scan_entries-collects zero m c small byte near pos enough = absurd (omega arith)
  scan_entries-collects (suc fuel) {offset} m (ends le) small byte near pos enough =
      let done : leb length (add64 offset madt_size) ≡ true = ground arith in
      rw done (inl (ap (ok tt) (nothing_more m)))
  scan_entries-collects (suc fuel) {offset} m (entry {rest = rest} lt some_bytes c) small byte near
        pos enough =
      let more : leb length (add64 offset madt_size) ≡ false = ground arith in
      let next : add64 offset (bytes (offset + 1)) ≡ offset + bytes (offset + 1) =
        omega (arith, byte (offset + 1)) in
      rw (more, next)
        (after_one room _ (Scanned room (collected m (offset ∷ rest)))
          (collect-stored room x2apic_mode (bytes offset) offset m)
          (subst
            (λ to. Scanned room to (
              scan_entries room x2apic_mode bytes length fuel (offset + bytes (offset + 1))
                (stored x2apic_mode (bytes offset) offset m)))
            (stored-collected m offset rest)
            (scan_entries-collects fuel (stored x2apic_mode (bytes offset) offset m) c small byte
              (omega (arith, byte (offset + 1))) (omega arith) (omega arith)))
          inr)

  -- At an entry of length 0 before the end of a table shorter than 2 ^ 32 bytes, the loop of
  -- `madt_init` does not return: whatever the number of rounds, it goes on, or it panics as a
  -- vector that must grow gets no memory.
  pub scan_entries-stuck :
      (fuel offset : ℕ) (m : Madt)
      → offset + madt_size < length
      → length < 2 ^ 32
      → bytes (offset + 1) ≡ 0
      → (scan_entries room x2apic_mode bytes length fuel offset m ≡ spins)
        ⊎ Refused room (scan_entries room x2apic_mode bytes length fuel offset m)
  unfolding scan_entries
  scan_entries-stuck zero offset m lt small e = inl refl
  scan_entries-stuck (suc fuel) offset m lt small e =
      let more : leb length (add64 offset madt_size) ≡ false = ground arith in
      let same : add64 offset 0 ≡ offset = omega arith in
      rw (more, e, same)
        (after_one room _ (λ r. (r ≡ spins) ⊎ Refused room r)
          (collect-stored room x2apic_mode (bytes offset) offset m)
          (scan_entries-stuck fuel offset (stored x2apic_mode (bytes offset) offset m) lt small e)
          inr)
