-- ===== src/Base/Arrays.antt =====
-- C arrays and memory as functions of an index or an address.
use Prim.Native.Nat.{ℕ}
use mathlib.Core.Path.{◌≡◌, fun_ext}
use native.Mathlib.Omega.{arith}
use zncache.Base.Tests.{◌==◌, if◌then◌else◌}

-- `a[i] = v`
abbrev pub update {ℓ} : {A : Type ℓ} → (ℕ → A) → ℕ → A → ℕ → A
update a i v j = if i == j then v else a j

pub update-update {ℓ} :
    {A : Type ℓ} (a : ℕ → A) (i : ℕ) (v w : A) → update (update a i v) i w ≡ update a i w
update-update a i v w = fun_ext λ j. ground arith
