-- ===== src/Vmm/Booted.antt =====
-- The kernel's page tables as `vmm_init` leaves them.
use cynix.Base.{
  ℕ, zero, suc, ◌/◌, ◌%◌, ◌^◌, ◌+◌, ◌-◌, ◌*◌, ◌≤◌, ◌<◌, ◌≡◌, refl, sym, subst, ap, ◌∙◌, ◌⊎◌, inl,
  inr, Bool, true, false, Option, none, some, List, [], ◌∷◌, length, ◌==◌, if◌then◌else◌, add64,
  sub64, arith,
}
use cynix.Base.Outcome.{Outcome, returned, failed, Outcome-then_at}
use cynix.Base.Run.{
  Reason, Run, Cmd, pure, fail, zoom-ok, zoom-panics, out_of_memory, vmm_init_failure,
  no_exec_address,
}
use cynix.Machine.{Machine, page_size}
use cynix.Memmap.{MemmapEntry, MemmapType}
use cynix.Misc.{align_up, align_down}
use cynix.Vmm.{
  align_up_signed, Vmm, on_machine, map_kernel_span, map_pages, page_rounds, get_next_level,
}
use cynix.Vmm.Init.{
  ProgramHeader, share_higher_half, segment_flags, map_segments, is_mapped, direct_flags,
  map_entries, pt_load,
}
use cynix.Vmm.Flags.{permissions, segment_flags-permissions, direct, direct_lem, rounds_signed}
use cynix.Vmm.Level.{Next, reaches, runs_out, get_next_level-Next}
use cynix.Vmm.Map.{levels, IsPagemap}
use cynix.Vmm.Span.{
  Translation, with_pages, Spanned, spanned, ran_out, map_pages-Spanned, with_pages-cong,
}
use cynix.Vmm.Tables.{walk, Prefix, AreIndices, SameBoot, SameBoot-trans}

-- Memory has run out, a table has the address 0, or the bootloader does not say where the kernel is.
abbrev pub Fails : Reason → Type 0
Fails reason = (reason ≡ out_of_memory) ⊎ (reason ≡ vmm_init_failure) ⊎ (reason ≡ no_exec_address)

-- A pagemap below `root` that translates as `f` does, with the machine's other statics as in `v`
pub record Translates (v : Vmm) (root : ℕ) (f : Translation) (m : Machine) : Type 0 where
  pub label : ℕ → Option Prefix
  pub pagemap : IsPagemap (record v { machine = m }) root label
  pub boot : SameBoot v.machine m
  pub walks : (is : List ℕ) → length is ≡ levels v.vmm_la57 → AreIndices is → walk m root is ≡ f is

-- A command on the tables takes the translation from one to the other.
abbrev pub Turns : (v : Vmm) (root : ℕ) (g : Translation) → Run Vmm (Unit {0}) → Type 0
Turns v root g r =
    Outcome Fails (λ _ v'. (m : Machine) × (v' ≡ record v { machine = m }) × Translates v root g m)
      r

-- What `map_pages` does to a translation that is known
pages_turn :
    (v : Vmm) (root : ℕ) (f : Translation) (m : Machine) (virt phys flags n : ℕ)
    → Translates v root f m
    → Turns v root
        (with_pages v.vmm_la57 virt phys flags 0 n f)
        (map_pages virt phys flags 0 n (record v { machine = m }))
pages_turn v root f m virt phys flags n t =
    go (map_pages-Spanned virt phys flags n 0 (record v { machine = m }) root t.label t.pagemap)
  where
    go :
        Spanned
          (record v { machine = m })
          root
          (with_pages v.vmm_la57 virt phys flags 0 n (walk m root))
          (map_pages virt phys flags 0 n (record v { machine = m }))
        → Turns v root
            (with_pages v.vmm_la57 virt phys flags 0 n f)
            (map_pages virt phys flags 0 n (record v { machine = m }))
    go (spanned m' label' e pm' _ boot all) =
        returned tt (record v { machine = m' }) e
          (
            m',
            refl,
            record {
              label = label';
              pagemap = pm';
              boot = SameBoot-trans t.boot boot;
              walks = λ is len ok'.
                  all is len ok'
                  ∙ with_pages-cong v.vmm_la57 virt phys flags 0 n (walk m root) f is
                      (t.walks is len ok');
            },
          )
    go (ran_out e) = failed out_of_memory (inl refl) e

-- No segment is so long that its length, as a signed number, is negative once it is rounded.
abbrev pub AreShort : List ProgramHeader → Type 0
AreShort [] = Unit {0}
AreShort (h ∷ hs) = (h.p_memsz + 4095 < 2 ^ 63) × AreShort hs

-- The translation that the program headers ask for
abbrev pub with_segments :
    (la57 : Bool) (physical_base virtual_base : ℕ) → List ProgramHeader → Translation → Translation
with_segments la57 physical_base virtual_base [] f = f
with_segments la57 physical_base virtual_base (h ∷ hs) f =
    with_segments la57 physical_base virtual_base hs (
      if h.p_type == pt_load
      then with_pages la57 h.p_vaddr (add64 (sub64 h.p_vaddr virtual_base) physical_base)
          (permissions (h.p_flags % 2 == 1) (h.p_flags / 2 % 2 == 1)) 0 ((h.p_memsz + 4095) / 4096)
          f
      else f)

-- A run of pages, unless it has no flags
abbrev pub with_run :
    (la57 : Bool) (virt phys n : ℕ) → (flags : Option ℕ) → Translation → Translation
with_run la57 virt phys n none f = f
with_run la57 virt phys n (some flags) f = with_pages la57 virt phys flags 0 n f

-- The direct map of the entries of the memory map
abbrev pub with_entries : (la57 : Bool) (hhdm : ℕ) → List MemmapEntry → Translation → Translation
with_entries la57 hhdm [] f = f
with_entries la57 hhdm (e ∷ es) f =
    let base = align_down e.base page_size in
    let top = align_up (add64 e.base e.length) page_size in
    with_entries la57 hhdm es
      (with_run la57 (add64 base hhdm) base (page_rounds (top - base)) (direct e.kind) f)

with_run-direct :
    (la57 : Bool) (virt phys n : ℕ) (kind : MemmapType) (f : Translation)
    → (if is_mapped kind then with_pages la57 virt phys (direct_flags kind) 0 n f else f)
      ≡ with_run la57 virt phys n (direct kind) f
with_run-direct la57 virt phys n kind f =
    chosen (is_mapped kind) (direct_flags kind)
    ∙ ap (λ (o : Option ℕ). with_run la57 virt phys n o f) (sym (direct_lem kind))
  where
    chosen :
        (b : Bool) (flags : ℕ)
        → (if b then with_pages la57 virt phys flags 0 n f else f)
          ≡ with_run la57 virt phys n (if b then some flags else none) f
    chosen true flags = refl
    chosen false flags = refl

module _ (v : Vmm) (root : ℕ) where
  abbrev pub at : Machine → Vmm
  at m = record v { machine = m }

  -- A step that is taken on a test
  turn_if :
      (b : Bool) (c : Cmd Vmm (Unit {0})) (f g : Translation) (m : Machine)
      → Translates v root f m
      → Turns v root g (c (at m))
      → Turns v root (if b then g else f) ((if b then c else pure tt) (at m))
  turn_if true c f g m t turns = turns
  turn_if false c f g m t turns = returned tt (at m) refl (m, refl, t)

  pub segments_turn :
      (physical_base virtual_base : ℕ) (hs : List ProgramHeader) (f : Translation) (m : Machine)
      → AreShort hs
      → Translates v root f m
      → Turns v root
          (with_segments v.vmm_la57 physical_base virtual_base hs f)
          (map_segments physical_base virtual_base hs (at m))
  unfolding map_segments map_kernel_span
  segments_turn physical_base virtual_base [] f m short t = returned tt (at m) refl (m, refl, t)
  segments_turn physical_base virtual_base (h ∷ hs) f m (small, short) t =
      let phys = add64 (sub64 h.p_vaddr virtual_base) physical_base in
      let flags = segment_flags h.p_flags in
      let n = page_rounds (align_up_signed h.p_memsz) in
      let run : ℕ → ℕ → Translation = λ flags n. with_pages v.vmm_la57 h.p_vaddr phys flags 0 n f in
      let same : run flags n
          ≡ run (permissions (h.p_flags % 2 == 1) (h.p_flags / 2 % 2 == 1))
              ((h.p_memsz + 4095) / 4096) =
        ap (λ (x : ℕ). run x n) (segment_flags-permissions h.p_flags)
        ∙ ap (run (permissions (h.p_flags % 2 == 1) (h.p_flags / 2 % 2 == 1)))
            (rounds_signed h.p_memsz small) in
      Outcome-then_at _
        (turn_if (h.p_type == pt_load) (map_pages h.p_vaddr phys flags 0 n) f _ m t
          (pages_turn v root f m h.p_vaddr phys flags n t))
        λ _ m' t'.
          segments_turn physical_base virtual_base hs _ m' short
            (subst (λ g. Translates v root (if h.p_type == pt_load then g else f) m') same t')

  pub entries_turn :
      (es : List MemmapEntry) (f : Translation) (m : Machine)
      → Translates v root f m
      → Turns v root (with_entries v.vmm_la57 v.machine.hhdm es f) (map_entries es (at m))
  unfolding map_entries
  entries_turn [] f m t = returned tt (at m) refl (m, refl, t)
  entries_turn (e ∷ es) f m t =
      let base = align_down e.base page_size in
      let n = page_rounds (align_up (add64 e.base e.length) page_size - base) in
      let flags = direct_flags e.kind in
      let mapping : Cmd Vmm (Unit {0}) =
        λ v. map_pages (add64 base v.machine.hhdm) base flags 0 n v in
      Outcome-then_at _
        (turn_if (is_mapped e.kind) mapping f _ m t (
          subst
            (λ (h : ℕ).
              Turns v root (with_pages v.vmm_la57 (add64 base h) base flags 0 n f) (mapping (at m)))
            t.boot.same_hhdm (pages_turn v root f m (add64 base m.hhdm) base flags n t)))
        λ _ m' t'. entries_turn es _ m' (
          subst (λ g. Translates v root g m')
            (with_run-direct v.vmm_la57 (add64 base v.machine.hhdm) base n e.kind f) t')

  -- The entry that `share_higher_half` fills changes no translation.
  share_step :
      (f : Translation) (m : Machine) (i : ℕ)
      → i < 512
      → Translates v root f m
      → Outcome Fails
          (λ _ v'. (m' : Machine) × (v' ≡ at m') × Translates v root f m')
          (on_machine (get_next_level v.top_level i true) (at m))
  share_step f m i lt t =
      subst
        (λ top.
          Outcome Fails (λ _ v'. (m' : Machine) × (v' ≡ at m') × Translates v root f m')
            (on_machine (get_next_level top i true) (at m)))
        (sym t.pagemap.at_root)
        (go (get_next_level-Next t.pagemap.ready t.pagemap.ready.tree.top deep lt))
    where
      deep : 0 + 1 < levels v.vmm_la57
      deep = ground arith

      go :
          Next m
            (levels v.vmm_la57)
            root
            t.label
            (i ∷ [])
            (get_next_level (root * page_size) i true m)
          → Outcome Fails
              (λ _ v'. (m' : Machine) × (v' ≡ at m') × Translates v root f m')
              (on_machine (get_next_level (root * page_size) i true) (at m))
      go (reaches q m' label' b e) =
          returned (q * page_size) (at m')
            (zoom-ok (λ (v : Vmm). v.machine) (λ m v. record v { machine = m })
              (get_next_level (root * page_size) i true) {s = at m} e)
            (
              m',
              refl,
              record {
                label = label';
                pagemap = record {
                  ready = b.ready;
                  at_root = t.pagemap.at_root;
                  unlocked = t.pagemap.unlocked;
                };
                boot = SameBoot-trans t.boot b.boot;
                walks = λ is len ok'. b.same is len ok' ∙ t.walks is len ok';
              },
            )
      go (runs_out e) = failed out_of_memory (inl refl) (
          zoom-panics (λ (v : Vmm). v.machine) (λ m v. record v { machine = m })
            (get_next_level (root * page_size) i true) {s = at m} e)

  pub share_turn :
      (n i : ℕ) (f : Translation) (m : Machine)
      → i + n ≤ 512
      → Translates v root f m
      → Turns v root f (share_higher_half i n (at m))
  unfolding share_higher_half
  share_turn zero i f m le t = returned tt (at m) refl (m, refl, t)
  share_turn (suc n) i f m le t =
      Outcome-then_at _ (share_step f m i (omega arith) t)
        λ next m' t'. checked (next == 0) m' (share_turn n (i + 1) f m' (omega arith) t')
    where
      checked :
          (b : Bool) (m' : Machine)
          → Turns v root f (share_higher_half (i + 1) n (at m'))
          → Turns v root f
              ((if b then fail vmm_init_failure else share_higher_half (i + 1) n) (at m'))
      checked true m' rest = failed vmm_init_failure (inr (inl refl)) refl
      checked false m' rest = rest
