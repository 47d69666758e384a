-- ===== src/Main/Start.antt =====
-- What `kmain` comes to, and the memory that it starts.
use cynix.Base.{
  ℕ, ◌+◌, ◌*◌, ◌%◌, ◌≤◌, ◌<◌, ◌≡◌, refl, sym, ap, ◌∙◌, ◌⊎◌, inl, inr, true, false, Option, none,
  some, List, word_mod,
}
use cynix.Base.Run.{Reason, ok, panics, out_of_memory, no_hhdm, no_memmap, zoom-ok, zoom-panics}
use cynix.Base.Outcome.{Outcome, returned, failed, Outcome-after}
use cynix.Generic.{BootInfo, mm_init}
use cynix.Machine.{Machine, page_size}
use cynix.Main.{start_memory}
use cynix.Memmap.{MemmapEntry}
use cynix.Misc.{Bytes}
use cynix.Misc.Bitmap.{IsBytes}
use cynix.Pmm.Init.{avl_page_count, bitmap_size, place_bitmap, set_up, pmm_init}
use cynix.Pmm.Init.Marks.{AreAligned}
use cynix.Pmm.Init.Result.{set_up-IsValid}
use cynix.Slab.{Slabs, slab_init}
use cynix.Slab.Calls.{IsSlabs}
use cynix.Slab.Create.{block_size}
use cynix.Slab.Init.{IsBooted, SetUp, made, no_memory, slab_init-SetUp}

-- The statics of the page allocator and the lock as the kernel's image has them, interrupts off
pub record IsUntouched (s : Slabs) : Type 0 where
  pub quiet : s.machine.interrupts ≡ false
  pub not_mm : s.machine.mm_init_done ≡ false
  pub not_pmm : s.machine.pmm_init_done ≡ false
  pub unlocked : s.machine.pmm_lock ≡ false
  pub unused : s.machine.pmm_last_used_index ≡ 0
  pub table : s.slabs_at < word_mod

-- What the bootloader answers can be used: the entries of the memory map start and end at pages, one
-- of them has room for the bitmap, and the direct map holds all pages and starts at a multiple of
-- 2 ^ 18.
pub record IsUsable (hhdm : ℕ) (entries : List MemmapEntry) : Type 0 where
  pub entries_aligned : AreAligned entries
  pub bitmap : ℕ
  pub placed : place_bitmap hhdm (bitmap_size (avl_page_count entries)) entries ≡ some bitmap
  pub aligned : hhdm % block_size ≡ 0
  pub small : hhdm < word_mod
  pub mapped : avl_page_count entries * page_size + hhdm ≤ word_mod

-- Memory has run out, or the bootloader does not answer.
abbrev pub Fails : Reason → Type 0
Fails reason = (reason ≡ out_of_memory) ⊎ (reason ≡ no_hhdm) ⊎ (reason ≡ no_memmap)

-- The slabs are set up, nobody holds an entry, and the machine has what the bootloader says.
pub record IsStarted (info : BootInfo) (t : Slabs) : Type 0 where
  pub slabs : IsSlabs 12 t (λ _. none)
  pub informed : info.hhdm_offset ≡ some t.machine.hhdm
  pub mapped : info.memmap_entries ≡ some t.machine.memmap
  pub counted : t.machine.pmm_avl_page_count ≡ avl_page_count t.machine.memmap

module _ (memory : ℕ → Bytes) (bytes : (a : ℕ) → IsBytes (memory a)) {s : Slabs}
    (untouched : IsUntouched s) where
  abbrev informed : (hhdm : ℕ) → List MemmapEntry → Machine
  informed hhdm entries = record s.machine { hhdm = hhdm; memmap = entries; mm_init_done = true }

  abbrev info_of : Option ℕ → Option (List MemmapEntry) → BootInfo
  info_of hhdm_offset memmap_entries = record {
    hhdm_offset = hhdm_offset;
    memmap_entries = memmap_entries;
  }

  booted :
      (hhdm : ℕ) (entries : List MemmapEntry)
      → IsUsable hhdm entries
      → IsBooted (record s { machine = set_up memory (informed hhdm entries) })
  booted hhdm entries u = record {
    valid =
        set_up-IsValid memory (informed hhdm entries) u.bitmap u.small u.entries_aligned
          (bytes u.bitmap) u.placed untouched.unlocked untouched.unused u.mapped;
    quiet = unfold set_up in untouched.quiet;
    aligned = unfold set_up in u.aligned;
    table = untouched.table;
  }

  slabs_set_up :
      (hhdm : ℕ) (entries : List MemmapEntry) (t : Slabs)
      → SetUp 12 (set_up memory (informed hhdm entries)) (λ _. none) (slab_init t)
      → Outcome Fails (λ _. IsStarted (info_of (some hhdm) (some entries))) (slab_init t)
  unfolding set_up
  slabs_set_up hhdm entries _ (made t e kept slabs _) = returned tt t e (record {
    slabs = slabs;
    informed = ap some (sym kept.same_hhdm);
    mapped = ap some (sym kept.same_memmap);
    counted = kept.same_count ∙ ap avl_page_count (sym kept.same_memmap);
  })
  slabs_set_up hhdm entries _ (no_memory e) = failed out_of_memory (inl refl) e

  pmm_init-set_up :
      (hhdm : ℕ) (entries : List MemmapEntry)
      → pmm_init (info_of (some hhdm) (some entries)) memory s.machine
        ≡ ok tt (set_up memory (informed hhdm entries))
  unfolding pmm_init mm_init
  pmm_init-set_up hhdm entries = rw (untouched.not_pmm, untouched.not_mm) refl

  pmm_init-none :
      (memmap_entries : Option (List MemmapEntry))
      → pmm_init (info_of none memmap_entries) memory s.machine ≡ panics no_hhdm
  unfolding pmm_init mm_init
  pmm_init-none memmap_entries = rw (untouched.not_pmm, untouched.not_mm) refl

  pmm_init-some :
      (hhdm : ℕ) → pmm_init (info_of (some hhdm) none) memory s.machine ≡ panics no_memmap
  unfolding pmm_init mm_init
  pmm_init-some hhdm = rw (untouched.not_pmm, untouched.not_mm) refl

  start_from :
      (hhdm_offset : Option ℕ) (memmap_entries : Option (List MemmapEntry))
      → ((hhdm : ℕ) (entries : List MemmapEntry)
          → hhdm_offset ≡ some hhdm
          → memmap_entries ≡ some entries
          → IsUsable hhdm entries)
      → Outcome Fails
          (λ _. IsStarted (info_of hhdm_offset memmap_entries))
          (start_memory (info_of hhdm_offset memmap_entries) memory s)
  unfolding start_memory
  start_from none memmap_entries usable = failed no_hhdm (inr (inl refl)) (
      rw
        (zoom-panics (λ (s : Slabs). s.machine) (λ m s. record s { machine = m })
          (pmm_init (info_of none memmap_entries) memory) {s = s} (pmm_init-none memmap_entries))
        refl)
  start_from (some hhdm) none usable = failed no_memmap (inr (inr refl)) (
      rw
        (zoom-panics (λ (s : Slabs). s.machine) (λ m s. record s { machine = m })
          (pmm_init (info_of (some hhdm) none) memory) {s = s} (pmm_init-some hhdm))
        refl)
  start_from (some hhdm) (some entries) usable =
      let u = usable hhdm entries refl refl in
      Outcome-after _
        (zoom-ok (λ (s : Slabs). s.machine) (λ m s. record s { machine = m })
          (pmm_init (info_of (some hhdm) (some entries)) memory) {s = s}
          (pmm_init-set_up hhdm entries))
        (slabs_set_up hhdm entries _ (slab_init-SetUp (booted hhdm entries u)))

  -- With usable answers of the bootloader, `pmm_init` and `slab_init` together leave the slabs set up,
  -- or panic as memory has run out or the bootloader does not answer.
  pub start_memory-IsStarted :
      (info : BootInfo)
      → ((hhdm : ℕ) (entries : List MemmapEntry)
          → info.hhdm_offset ≡ some hhdm
          → info.memmap_entries ≡ some entries
          → IsUsable hhdm entries)
      → Outcome Fails (λ _. IsStarted info) (start_memory info memory s)
  start_memory-IsStarted info usable = start_from info.hhdm_offset info.memmap_entries usable
