-- ===== src/Prelude/Maps.antt =====
-- Maps from addresses as functions.
use Prim.Native.Nat.{ℕ}
use mathlib.Core.Path.{◌≡◌, fun_ext}
use native.Mathlib.Omega.{arith}
use cpp_backend.Prelude.Tests.{◌==◌, if◌then◌else◌}

abbrev pub update {ℓ} : {A : Type ℓ} → (ℕ → A) → ℕ → A → ℕ → A
update f k v q = if k == q then v else f q

pub update-update {ℓ} :
    {A : Type ℓ} (f : ℕ → A) (k : ℕ) (u v : A) → update (update f k u) k v ≡ update f k v
update-update f k u v = fun_ext λ q. ground arith
