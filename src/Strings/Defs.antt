-- ===== src/Strings/Defs.antt =====
-- libkern/string.c. Memory is a function from addresses to bytes, 0 is NULL, and addresses do not
-- wrap around. A difference of two bytes is returned as the pair of the bytes. Loops without a
-- count have fuel; `none` is a loop that runs out of it.
use libhermit.Base.{
  ℕ, zero, suc, ◌+◌, ◌%◌, ◌-◌, true, false, Option, none, some, ltb, ◌==◌, if◌then◌else◌, ◌&&◌,
  ◌||◌, not, update,
}

abbrev pub Bytes : Type 0
Bytes = ℕ → ℕ

-- The loop of `_memset` over `n` bytes from `dest` on.
unfoldable pub fill : ℕ → ℕ → ℕ → Bytes → Bytes
fill zero dest byte m = m
fill (suc n) dest byte m = fill n (dest + 1) byte (update m dest byte)

unfoldable pub memset : ℕ → ℕ → ℕ → Bytes → Bytes
unfolding fill
memset dest val count m = if dest == 0 then m else fill count dest (val % 256) m

unfoldable pub memcmp : ℕ → ℕ → ℕ → Bytes → ℕ × ℕ
memcmp s1 s2 zero m = (0, 0)
memcmp s1 s2 (suc n) m =
    let rest = memcmp (s1 + 1) (s2 + 1) n m in if m s1 == m s2 then rest else (m s1, m s2)

-- The loop of `_strlen` from `len` on.
unfoldable pub scan : ℕ → ℕ → ℕ → Bytes → Option ℕ
scan zero str len m = none
scan (suc fuel) str len m = elim (m (str + len) == 0) [
  | true ↦ some len
  | false ↦ scan fuel str (len + 1) m
]

unfoldable pub strlen : ℕ → ℕ → Bytes → Option ℕ
unfolding scan
strlen fuel str m = if str == 0 then some 0 else scan fuel str 0 m

-- The loop of `_strncpy` from index `i` on, with `n` bytes left; the index where it stops.
unfoldable pub copy_n : ℕ → ℕ → ℕ → ℕ → Bytes → ℕ × Bytes
copy_n zero dest src i m = (i, m)
copy_n (suc n) dest src i m =
    let rest = copy_n n dest src (i + 1) (update m (dest + i) (m (src + i))) in
    if m (src + i) == 0 then (i, m) else rest

unfoldable pub strncpy : ℕ → ℕ → ℕ → Bytes → Bytes
unfolding copy_n
strncpy dest src n m =
    if dest == 0 || src == 0
    then m
    else let (i, m') = copy_n n dest src 0 m in
      if ltb i n then update m' (dest + i) 0 else update m' (dest + n - 1) 0

-- The loop of `_strcpy` from index `i` on, and the final 0.
unfoldable pub copy : ℕ → ℕ → ℕ → ℕ → Bytes → Option Bytes
copy zero dest src i m = none
copy (suc fuel) dest src i m = elim (m (src + i) == 0) [
  | true ↦ some (update m (dest + i) 0)
  | false ↦ copy fuel dest src (i + 1) (update m (dest + i) (m (src + i)))
]

unfoldable pub strcpy : ℕ → ℕ → ℕ → Bytes → Option Bytes
unfolding copy
strcpy fuel dest src m = if dest == 0 || src == 0 then some m else copy fuel dest src 0 m

unfoldable pub strcmp : ℕ → ℕ → ℕ → Bytes → Option (ℕ × ℕ)
strcmp zero s1 s2 m = none
strcmp (suc fuel) s1 s2 m = elim (not (m s1 == 0) && m s1 == m s2) [
  | true ↦ strcmp fuel (s1 + 1) (s2 + 1) m
  | false ↦ some (m s1, m s2)
]

-- The loop of `_strncmp`, with `n` bytes left.
unfoldable pub compare_n : ℕ → ℕ → ℕ → Bytes → ℕ × ℕ
compare_n zero s1 s2 m = (m s1, m s2)
compare_n (suc n) s1 s2 m =
    let rest = compare_n n (s1 + 1) (s2 + 1) m in
    if m s1 == m s2 && not (n == 0 || m s1 == 0) then rest else (m s1, m s2)

unfoldable pub strncmp : ℕ → ℕ → ℕ → Bytes → ℕ × ℕ
unfolding compare_n
strncmp s1 s2 n m = if n == 0 then (0, 0) else compare_n n s1 s2 m
