-- ===== src/Strings/Results.antt =====
-- What the string functions return and write.
use libhermit.Base.{
  ℕ, zero, suc, ◌+◌, ◌%◌, ◌<◌, ◌≡◌, ◌≢◌, refl, Bool, true, some, arith, ◌∙◌, subst, ltb, leb, ◌==◌,
  if◌then◌else◌, ◌&&◌, update,
}
use libhermit.Strings.Defs.{Bytes, fill, memset, memcmp, scan, strlen}

fill-at :
    (n dest byte a : ℕ) (m : Bytes)
    → fill n dest byte m a ≡ (if leb dest a && ltb a (dest + n) then byte else m a)
unfolding fill
fill-at zero dest byte a m = ground arith
fill-at (suc n) dest byte a m = fill-at n (dest + 1) byte a (update m dest byte) ∙ ground arith

-- `memset` writes the low byte of the value to the `count` bytes from `dest` on, and no other byte.
pub memset-at :
    (dest val count a : ℕ) (m : Bytes)
    → dest ≢ 0
    → memset dest val count m a ≡ (if leb dest a && ltb a (dest + count) then val % 256 else m a)
unfolding memset
memset-at dest val count a m h = ground (arith, fill-at count dest (val % 256) a m)

-- The bytes from `str` on differ from 0, up to the one at `str + k`, which is 0.
abbrev pub IsString : Bytes → ℕ → ℕ → Type 0
IsString m str zero = m str ≡ 0
IsString m str (suc k) = (m str ≢ 0) × IsString m (str + 1) k

scan-length :
    (fuel str len k : ℕ) (m : Bytes)
    → IsString m (str + len) k
    → k < fuel
    → scan fuel str len m ≡ some (len + k)
unfolding scan
scan-length zero str len k m h l = absurd (omega arith)
scan-length (suc fuel) str len zero m h l = ground (arith, h)
scan-length (suc fuel) str len (suc k) m h l = ground (
  arith,
  h.0,
  scan-length fuel str (len + 1) k m (subst (λ a. IsString m a k) (omega arith) h.1) (omega arith),
)

-- The length of a string is the number of bytes in front of its first 0.
pub strlen-IsString :
    (fuel str k : ℕ) (m : Bytes)
    → IsString m str k
    → str ≢ 0
    → k < fuel
    → strlen fuel str m ≡ some k
unfolding strlen
strlen-IsString fuel str k m h p l =
    ground (arith, scan-length fuel str 0 k m (subst (λ a. IsString m a k) (omega arith) h) l)

-- The `n` bytes from `s1` and from `s2` on are the same.
abbrev pub same_bytes : Bytes → ℕ → ℕ → ℕ → Bool
same_bytes m s1 s2 zero = true
same_bytes m s1 s2 (suc n) = (m s1 == m s2) && same_bytes m (s1 + 1) (s2 + 1) n

-- The difference that `memcmp` returns is 0 if and only if all bytes are the same.
pub memcmp-same :
    (s1 s2 n : ℕ) (m : Bytes) → let (a, b) = memcmp s1 s2 n m in (a == b) ≡ same_bytes m s1 s2 n
unfolding memcmp
memcmp-same s1 s2 zero m = refl
memcmp-same s1 s2 (suc n) m = ground (arith, memcmp-same (s1 + 1) (s2 + 1) n m)
