-- ===== src/Signals/Copy.antt =====
-- What `copy_words` reads and writes, and what `sighandler_epilog` restores.
use libhermit.Base.{ℕ, zero, suc, ◌+◌, ◌≤◌, ◌<◌, ◌≡◌, ◌⊎◌, refl, true, List, [], ◌∷◌, arith, mem}
use libhermit.Signals.Frame.{Words, field, copy_words, sighandler_epilog, exec, rsp}

pub copy-inside :
    (n dst src : ℕ) (m : Words) (i : ℕ)
    → i < n
    → copy_words n dst src m (field dst i) ≡ m (field src i)
unfolding copy_words
copy-inside zero dst src m i h = absurd (omega arith)
copy-inside (suc n) dst src m i h = ground (arith, copy-inside n dst src m i)

pub copy-outside :
    (n dst src : ℕ) (m : Words) (a : ℕ)
    → (a < dst) ⊎ (field dst n ≤ a)
    → copy_words n dst src m a ≡ m a
unfolding copy_words
copy-outside zero dst src m a h = refl
copy-outside (suc n) dst src m a h = ground (arith, copy-outside n dst src m a)

-- The registers that `sighandler_epilog` takes from the saved state.
abbrev pub restored : List ℕ
restored = 2 ∷ 3 ∷ 4 ∷ 5 ∷ 6 ∷ 7 ∷ 8 ∷ 9 ∷ 10 ∷ 11 ∷ 12 ∷ 14 ∷ 15 ∷ 16 ∷ 17 ∷ 20 ∷ 22 ∷ []

pub exec-restored :
    (m cpu : Words) (i : ℕ)
    → mem i restored ≡ true
    → exec sighandler_epilog m cpu i ≡ m (field (cpu rsp) i)
unfolding exec sighandler_epilog
exec-restored m cpu i h = ground arith

pub exec-rsp : (m cpu : Words) → exec sighandler_epilog m cpu rsp ≡ cpu rsp + 200
unfolding exec sighandler_epilog
exec-rsp m cpu = ground arith
