-- ===== src/Base/Rings.antt =====
-- Ring buffers: the slots of a list of `n` slots, taken from a slot on and going round.
use Prim.Native.Nat.{ℕ, zero, suc, ◌+◌, ◌-◌, ◌%◌, ◌≤◌, ◌<◌}
use native.Mathlib.Nat.{mod-eq_of_lt, mod-eq-sub-mod}
use native.Mathlib.Decide.{dec_lt}
use mathlib.Core.Path.{◌≡◌, refl, ap, ap₂, ◌∙◌, sym}
use mathlib.Core.Logic.{◌≢◌}
use mathlib.Core.List.{List, [], ◌∷◌, ◌++◌}
use native.Mathlib.Omega.{arith}
use libhermit.Base.Tests.{ltb, if◌then◌else◌}
use libhermit.Base.Lists.{length, get_or, set, get_or-set_self, get_or-set_ne}

-- The slot after slot `i`.
abbrev pub ring_step : ℕ → ℕ → ℕ
ring_step n i = if ltb (i + 1) n then i + 1 else 0

-- The `k` elements from slot `i` on, going round at `n`.
abbrev pub window : List ℕ → ℕ → ℕ → ℕ → List ℕ
window buffer n i zero = []
window buffer n i (suc k) = get_or buffer i 0 ∷ window buffer n (ring_step n i) k

-- The slot that is `k` steps behind `i`.
abbrev pub ahead : ℕ → ℕ → ℕ → ℕ
ahead n i zero = i
ahead n i (suc k) = ahead n (ring_step n i) k

-- In closed form.
pub ahead-eq :
    (n i k : ℕ) → i < n → k < n → ahead n i k ≡ (if ltb (i + k) n then i + k else i + k - n)
ahead-eq n i zero h l = ground arith
ahead-eq n i (suc k) h l = ground (arith, ahead-eq n (ring_step n i) k)

pub window-cons :
    (buffer : List ℕ) (n i k : ℕ)
    → 0 < k
    → window buffer n i k ≡ get_or buffer i 0 ∷ window buffer n (ring_step n i) (k - 1)
window-cons buffer n i zero h = absurd (omega arith)
window-cons buffer n i (suc k) h = ap (λ m. window buffer n i (suc m)) (omega arith)

pub length-window : (buffer : List ℕ) (n i k : ℕ) → length (window buffer n i k) ≡ k
length-window buffer n i zero = refl
length-window buffer n i (suc k) = ap suc (length-window buffer n (ring_step n i) k)

-- Writing outside a window leaves it.
window-frame :
    (buffer : List ℕ) (n x j i k : ℕ)
    → ((m : ℕ) → m < k → ahead n i m ≢ j)
    → window (set buffer j x) n i k ≡ window buffer n i k
window-frame buffer n x j i zero h = refl
window-frame buffer n x j i (suc k) h =
    ap₂ ◌∷◌ (get_or-set_ne buffer x 0 (λ e. h 0 (omega arith) (sym e)))
      (window-frame buffer n x j (ring_step n i) k (λ m l. h (suc m) (omega arith)))

-- Writing into a window.
pub window-set :
    (buffer : List ℕ) (n x i m k : ℕ)
    → n ≤ length buffer
    → i < n
    → m ≤ n
    → k < m
    → window (set buffer (ahead n i k) x) n i m ≡ set (window buffer n i m) k x
window-set buffer n x i zero k b h l g = absurd (omega arith)
window-set buffer n x i (suc m) zero b h l g =
    ap₂ ◌∷◌ (get_or-set_self buffer i x 0 (omega arith))
      (window-frame buffer n x i (ring_step n i) m (λ q p. ground (arith, ahead-eq n i (suc q) h)))
window-set buffer n x i (suc m) (suc k) b h l g =
    ap₂ ◌∷◌ (get_or-set_ne buffer x 0 (ground (arith, ahead-eq n i (suc k) h)))
      (window-set buffer n x (ring_step n i) m k b (ground arith) (omega arith) (omega arith))

-- A window of one more slot.
pub window-snoc :
    (buffer : List ℕ) (n i k : ℕ)
    → window buffer n i (suc k) ≡ window buffer n i k ++ get_or buffer (ahead n i k) 0 ∷ []
window-snoc buffer n i zero = refl
window-snoc buffer n i (suc k) =
    ap (λ xs. get_or buffer i 0 ∷ xs) (window-snoc buffer n (ring_step n i) k)

-- Writing behind a window extends it.
pub window-push :
    (buffer : List ℕ) (n x i k : ℕ)
    → n ≤ length buffer
    → i < n
    → k < n
    → window (set buffer (ahead n i k) x) n i (suc k) ≡ window buffer n i k ++ x ∷ []
window-push buffer n x i k b h l =
    window-snoc (set buffer (ahead n i k) x) n i k
    ∙ ap₂ (λ xs y. xs ++ y ∷ [])
        (window-frame buffer n x (ahead n i k) i k
          (λ m g. ground (arith, ahead-eq n i m h, ahead-eq n i k h)))
        (get_or-set_self buffer (ahead n i k) x 0 (ground (arith, ahead-eq n i k h)))

-- One step round the ring, as a remainder.
pub mod-ring_step : (n i : ℕ) → i < n → (i + 1) % n ≡ ring_step n i
mod-ring_step n i h = elim (dec_lt (i + 1) n) [
  | yes p ↦ ground (arith, mod-eq_of_lt p)
  | no p ↦ ground (
    arith,
    mod-eq-sub-mod {n = i + 1} {m = n} (omega arith),
    mod-eq_of_lt {n = i + 1 - n} {m = n} (omega arith),
  )
]
