-- ===== src/Mp/Started.antt =====
-- What one round of `mp_init` keeps and adds.
use cynix.Base.{
  ℕ, ◌+◌, ◌*◌, ◌<◌, ◌≡◌, sym, ap, subst, ◌∙◌, ◌≢◌, true, false, ◌==◌, add64, update, update_self,
  update_ne, arith,
}
use cynix.Machine.{Machine, page_size}
use cynix.Misc.{bit_test}
use cynix.Alloc.Fresh.{Later, Later-trans, IsFresh}
use cynix.Mp.Boot.{MpInfo}
use cynix.Mp.Kernel.{Core, Kernel}
use cynix.Mp.Local.{CpuLocal, idle_thread_offset, zeroed}
use cynix.Mp.Start.{IsReady}
use cynix.Mp.Up.{IsUp}
use cynix.Vector.{Vector, Realloc}
use cynix.Vector.Items.{IsTight, IsPushed}

-- CPU `i` runs with its struct `l` at `address`: its segment base leads to the thread that holds
-- the number.
pub record IsRunning (top_level bsp_lapic_id i : ℕ) (info : MpInfo) (address : ℕ) (l : CpuLocal)
    (c : Core) : Type 0 where
  pub number : l.cpu_number ≡ i
  pub id : l.lapic_id ≡ info.lapic_id
  pub bsp : l.is_bsp ≡ (info.lapic_id == bsp_lapic_id)
  pub online : l.online ≡ true
  pub int_stack : l.tss.rsp0 ≡ l.common_int_stack.top
  pub abort_stack : l.tss.ist1 ≡ l.abort_stack.top
  pub self : l.idle_thread.self ≡ add64 address idle_thread_offset
  pub running_on : l.idle_thread.running_on ≡ i
  pub gs_base : c.registers.msr 0xc0000101 ≡ l.idle_thread.self
  pub cr3 : c.registers.cr3 ≡ top_level

-- The struct is the one that `cpu_locals` lists, behind a page that is in use.
pub record IsStarted (bsp_lapic_id : ℕ) (k : Kernel) (i : ℕ) (info : MpInfo) : Type 0 where
  pub address : ℕ
  pub page : ℕ
  pub listed : k.cpu_locals.items i ≡ address
  pub placed : address ≡ page * page_size + k.machine.hhdm + page_size
  pub in_use : bit_test k.machine.pmm_bitmap page ≡ true
  pub runs : IsRunning k.top_level bsp_lapic_id i info address (k.locals address) (k.cores i)

-- Between two rounds, with `n` CPUs started
pub record IsBetween (k : Kernel) (n : ℕ) : Type 0 where
  pub ready : IsReady k.machine
  pub off : k.machine.interrupts ≡ false
  pub unlocked : k.gdt_lock ≡ false
  pub tight : IsTight k.cpu_locals
  pub length : k.cpu_locals.length ≡ n

module _ (bsp_lapic_id : ℕ) where
  abbrev pub Keeps : (n : ℕ) → Kernel → Kernel → Type 0
  Keeps n k k' =
      (j : ℕ)
      → j < n
      → (info : MpInfo) → IsStarted bsp_lapic_id k j info
      → IsStarted bsp_lapic_id k' j info

  -- A round: the block for the struct, the vector with its address, and the CPU brought up.
  module _ (k : Kernel) (i : ℕ) (info : MpInfo) (between : IsBetween k i) (ptr : ℕ) (m : Machine)
      (later : Later k.machine m) (fresh : IsFresh k.machine ptr m) (r : Realloc ℕ) (v : Vector ℕ)
      (pushed : IsPushed r k.cpu_locals ptr v) where
    abbrev pub begun : Kernel
    begun = record k {
      machine = m;
      cpu_locals = v;
      core = info.core;
      local = record zeroed { cpu_number = i; is_bsp = info.lapic_id == bsp_lapic_id };
    }

    abbrev pub entered : Kernel → Kernel
    entered k' = record k' {
      locals = update k'.locals ptr k'.local;
      cores = update k'.cores i k'.core;
    }

    module _ (k' : Kernel) (up : IsUp info.lapic_id ptr begun k') where
      all_later : Later k.machine k'.machine
      all_later = Later-trans later up.later

      items_of : (j : ℕ) → k'.cpu_locals.items j ≡ v.items j
      items_of j = ap (λ (v : Vector ℕ). v.items j) up.same_vector

      pub entered-IsBetween : IsBetween (entered k') (i + 1)
      entered-IsBetween = record {
        ready = record { valid = up.later.valid; below = up.later.below };
        off = all_later.same_flag ∙ between.off;
        unlocked = up.unlocked;
        tight = subst IsTight (sym up.same_vector) pushed.still_tight;
        length =
            ap (λ (v : Vector ℕ). v.length) up.same_vector
            ∙ pushed.length
            ∙ ap (λ (n : ℕ). n + 1) between.length;
      }

      pub entered-IsStarted : IsStarted bsp_lapic_id (entered k') i info
      entered-IsStarted = record {
        address = ptr;
        page = fresh.page;
        listed = items_of i ∙ subst (λ n. v.items n ≡ ptr) between.length pushed.last;
        placed =
            fresh.address
            ∙ ap (λ (h : ℕ). fresh.page * page_size + h + page_size) (sym all_later.same_hhdm);
        in_use = up.later.in_use fresh.page fresh.taken;
        runs =
            subst
              (λ l. IsRunning k'.top_level bsp_lapic_id i info ptr l (update k'.cores i k'.core i))
              (sym (update_self k'.locals ptr k'.local))
              (subst (IsRunning k'.top_level bsp_lapic_id i info ptr k'.local)
                (sym (update_self k'.cores i k'.core))
                (record {
                  number = up.same_number;
                  id = up.id;
                  bsp = up.same_bsp;
                  online = up.online;
                  int_stack = up.int_stack;
                  abort_stack = up.abort_stack;
                  self = up.self;
                  running_on = up.running_on;
                  gs_base = up.gs_base;
                  cr3 = up.cr3 ∙ sym up.same_top;
                }));
      }

      pub entered-Keeps : Keeps i k (entered k')
      entered-Keeps j lt info' s =
          let other_page : s.page ≢ fresh.page = λ e.
            let used = subst (λ p. bit_test k.machine.pmm_bitmap p ≡ true) e s.in_use in
            absurd (let free = fresh.was_free in cc) in
          let other : ptr ≢ s.address = λ e. other_page (omega (arith, fresh.address, s.placed)) in
          let local : (entered k').locals s.address ≡ k.locals s.address =
            update_ne k'.locals k'.local other
            ∙ ap (λ (f : ℕ → CpuLocal). f s.address) up.same_locals in
          let core : (entered k').cores j ≡ k.cores j =
            update_ne k'.cores {i = i} {j = j} k'.core (λ e. absurd (omega arith))
            ∙ ap (λ (f : ℕ → Core). f j) up.same_cores in
          record {
            address = s.address;
            page = s.page;
            listed = items_of j ∙ pushed.others j (omega (arith, between.length)) ∙ s.listed;
            placed =
                s.placed
                ∙ ap (λ (h : ℕ). s.page * page_size + h + page_size) (sym all_later.same_hhdm);
            in_use = all_later.in_use s.page s.in_use;
            runs =
                subst
                  (λ l.
                    IsRunning k'.top_level bsp_lapic_id j info' s.address l ((entered k').cores j))
                  (sym local)
                  (subst
                    (IsRunning k'.top_level bsp_lapic_id j info' s.address (k.locals s.address))
                    (sym core)
                    (subst
                      (λ t.
                        IsRunning t bsp_lapic_id j info' s.address (k.locals s.address) (k.cores j))
                      (sym up.same_top) s.runs));
          }
