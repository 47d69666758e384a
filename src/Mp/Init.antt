-- ===== src/Mp/Init.antt =====
-- What `mp_init` comes to: every CPU is started, with a struct and a number of its own.
use cynix.Base.{ℕ, ◌+◌, List, [], ◌∷◌}
use cynix.Base.Outcome.{Outcome}
use cynix.Mp.Boot.{MpInfo}
use cynix.Mp.Kernel.{Kernel}
use cynix.Mp.Start.{Reports}
use cynix.Mp.Started.{IsStarted, IsBetween, Keeps}

-- Each CPU reports the frequency of its timer.
abbrev pub AllReport : List MpInfo → Type 0
AllReport [] = Unit
AllReport (info ∷ rest) = Reports info.core × AllReport rest

module _ (bsp_lapic_id : ℕ) where
  abbrev Round : Kernel → ℕ → MpInfo → Kernel → Type 0
  Round k i info k' =
      IsBetween k' (i + 1) × IsStarted bsp_lapic_id k' i info × Keeps bsp_lapic_id i k k'

  -- Each CPU of the list, from number `i` on
  abbrev pub AllStarted : Kernel → ℕ → List MpInfo → Type 0
  AllStarted k i [] = Unit
  AllStarted k i (info ∷ rest) = IsStarted bsp_lapic_id k i info × AllStarted k (i + 1) rest
