-- ===== src/Dm/Child/Revival.antt =====
-- What should always run comes up again, on a host where forks and servers succeed.
use xdm.Base.{ℕ, true, false, List, [], ◌∷◌, none, ◌≡◌, ◌⊎◌}
use xdm.Display.{Display, new_entry, old_entry}
use xdm.Dpylist.{is_xdmcp}
use xdm.Dm.Start.{is_permanent}
use xdm.Dm.Child.{Round}

-- A display of the servers file that should always run.
pub record IsResident (d : Display) : Type 0 where
  pub from_file : is_xdmcp d.display_type.origin ≡ false
  pub permanent : is_permanent d.display_type.lifetime ≡ true
  pub listed : (d.state ≡ new_entry) ⊎ (d.state ≡ old_entry)

abbrev one_round : ℕ → ℕ → ℕ → List Round
one_round now val pid = (none, now, val, pid) ∷ []
