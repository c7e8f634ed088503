-- ===== src/Safe/Full.antt =====
-- The guard that the writing methods of SafeStrStr and SafeStrMap share, and its error.
use openlan.Base.{ℕ, ◌≢◌, ◌≤◌, Bool, ◌&&◌, not, leb, ◌==◌, List, String, length, string_eq}
use openlan.Base.Assoc.{Distinct}

pub data Err : Type 0 where
  already_full : Err

-- `sm.size != 0 && len(sm.data) >= sm.size`
abbrev pub is_full {ℓ} : {A : Type ℓ} → ℕ → List A → Bool
is_full size entries = not (size == 0) && leb size (length entries)

-- What every method keeps: no key twice, and no more entries than the bound allows.
pub record IsValid {V : Type 0} (size : ℕ) (entries : List (String × V)) : Type 0 where
  pub distinct : Distinct entries
  pub bounded : size ≢ 0 → length entries ≤ size
