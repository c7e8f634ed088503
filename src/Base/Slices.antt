-- ===== src/Base/Slices.antt =====
-- Go's slices of bytes, as an Option: `none` is the panic of an index out of range.
use openlan.Base.Tests.{leb, if◌then◌else◌}
use openlan.Base.Lists.{length, take, drop, get_or}
use Prim.Native.Nat.{ℕ, ◌+◌, ◌*◌}
use mathlib.Core.Option.{Option, none, some}
use mathlib.Core.List.{List, ◌++◌}

infixl 5 ◌>>=◌
abbrev pub ◌>>=◌ {ℓ κ} : {A : Type ℓ} {B : Type κ} → Option A → (A → Option B) → Option B
none >>= f = none
some a >>= f = f a

-- `xs[i]`
abbrev pub byte_at : ℕ → List ℕ → Option ℕ
byte_at i xs = if leb (i + 1) (length xs) then some (get_or xs i 0) else none

-- `xs[:n]` and `xs[n:]`
abbrev pub upto : ℕ → List ℕ → Option (List ℕ)
upto n xs = if leb n (length xs) then some (take n xs) else none

abbrev pub from : ℕ → List ℕ → Option (List ℕ)
from n xs = if leb n (length xs) then some (drop n xs) else none

-- `xs[i : i + n]`
abbrev pub part : ℕ → ℕ → List ℕ → Option (List ℕ)
part i n xs = if leb (i + n) (length xs) then some (take n (drop i xs)) else none

-- `binary.BigEndian.Uint16(xs[i : i + 2])` and `Uint32(xs[i : i + 4])`
abbrev pub u16_part : ℕ → List ℕ → Option ℕ
u16_part i xs =
    if leb (i + 2) (length xs) then some (get_or xs i 0 * 256 + get_or xs (i + 1) 0) else none

abbrev pub u32_part : ℕ → List ℕ → Option ℕ
u32_part i xs =
    if leb (i + 4) (length xs)
    then some (
        get_or xs i 0 * 16777216
        + get_or xs (i + 1) 0 * 65536
        + get_or xs (i + 2) 0 * 256
        + get_or xs (i + 3) 0)
    else none

-- `copy(dst[:n], src)` for a `src` of n bytes
abbrev pub copy_to : ℕ → List ℕ → List ℕ → Option (List ℕ)
copy_to n dst src = if leb n (length dst) then some (src ++ drop n dst) else none
