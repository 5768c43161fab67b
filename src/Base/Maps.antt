-- ===== src/Base/Maps.antt =====
-- Maps from addresses or indices, changed at one place.
use Prim.Native.Nat.{ℕ}
use mathlib.Core.Option.{Option, none, some}
use libhermit.Base.Tests.{◌==◌, if◌then◌else◌}

abbrev pub update {ℓ} : {A : Type ℓ} → (ℕ → A) → ℕ → A → ℕ → A
update f i v j = if i == j then v else f j

-- A write through a pointer that the code has tested: at NULL there is none.
abbrev pub update_at {ℓ} : {A : Type ℓ} → (ℕ → A) → Option ℕ → A → ℕ → A
update_at f none v = f
update_at f (some i) v = update f i v
