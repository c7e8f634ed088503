-- ===== src/Safe/Var.antt =====
-- SafeVar of pkg/libol/safe.go: `none` is nil.
use openlan.Base.{Option, none}

pub record SafeVar (V : Type 0) : Type 0 where
  pub value : Option V

module _ {V : Type 0} where
  unfoldable pub new : SafeVar V
  new = record { value = none }

  unfoldable pub set : Option V → SafeVar V → SafeVar V
  set v sv = record sv { value = v }

  unfoldable pub get : SafeVar V → Option V
  get sv = sv.value
