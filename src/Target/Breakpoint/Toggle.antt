-- ===== src/Target/Breakpoint/Toggle.antt =====
-- Which sites are enabled once a breakpoint has been enabled or disabled.
use kdebugger.Common.{ℕ, ◌≡◌, Bool, List, [], ◌∷◌, Option, none, some, ◌==◌, if◌then◌else◌}
use kdebugger.Process.Tracee.{Tracee}
use kdebugger.Process.State.{Site, Process}
use kdebugger.Target.Breakpoint.{Breakpoint, holds_site}

-- Whether the site at an address, if there is one, is enabled.
abbrev pub enabled_at : ℕ → List Site → Option Bool
enabled_at x [] = none
enabled_at x (s ∷ sites) =
    let later = enabled_at x sites in if s.address == x then some s.is_enabled else later

module _ (t : Tracee) where
  -- The site at an address is in the state `on`, and the others are as they were.
  abbrev Turned : Bool → ℕ → Process t → Process t → Type 0
  Turned on a p p' =
      (x : ℕ) → enabled_at x p'.sites ≡ (if a == x then some on else enabled_at x p.sites)

  -- The same of all addresses of a breakpoint.
  abbrev pub AllTurned : Bool → List ℕ → Process t → Process t → Type 0
  AllTurned on addresses p p' =
      (x : ℕ)
      → enabled_at x p'.sites ≡ (if holds_site x addresses then some on else enabled_at x p.sites)
