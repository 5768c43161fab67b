-- ===== src/Vma/Areas.antt =====
-- The list of areas as a set of addresses.
use libhermit.Base.{
  ℕ, ◌≤◌, ◌<◌, ◌≡◌, refl, Bool, false, Option, none, some, List, [], ◌∷◌, ◌++◌, arith, ltb, leb,
  ◌==◌, ==-refl, ◌&&◌, ◌||◌, mem, IsDistinct, update,
}
use libhermit.Vma.Defs.{Area, Vmas, vma_max}

-- From `p` on, the `next` links lead through `ids`.
abbrev pub Leads : (ℕ → Option ℕ) → Option ℕ → List ℕ → Type 0
Leads next p [] = p ≡ none
Leads next p (x ∷ xs) = (p ≡ some x) × Leads next (next x) xs

-- The `prev` links lead back from every node to the one in front of it, from the first to `before`.
abbrev pub Backs : (ℕ → Option ℕ) → Option ℕ → List ℕ → Type 0
Backs prev before [] = Unit
Backs prev before (x ∷ xs) = (prev x ≡ before) × Backs prev (some x) xs

-- The areas lie behind `lo` and below `hi`, ordered and apart.
abbrev pub Fits : (ℕ → Area) → ℕ → ℕ → List ℕ → Type 0
Fits areas lo hi [] = lo ≤ hi
Fits areas lo hi (x ∷ xs) =
    (lo ≤ (areas x).start) × ((areas x).start ≤ (areas x).stop) × Fits areas (areas x).stop hi xs

-- The address `b` lies in one of the areas.
abbrev pub covered : (ℕ → Area) → List ℕ → ℕ → Bool
covered areas [] b = false
covered areas (x ∷ xs) b = (leb (areas x).start b && ltb b (areas x).stop) || covered areas xs b

-- The address `b` lies between `start` and `end`.
abbrev pub within : ℕ → ℕ → ℕ → Bool
within start end b = leb start b && ltb b end

-- The list of the nodes `ids`, and the areas in the order of their addresses.
pub record IsValid (s : Vmas) (ids : List ℕ) : Type 0 where
  pub path : Leads s.links.next s.list ids
  pub distinct : IsDistinct ids
  pub fits : Fits s.areas 0 vma_max ids

abbrev pub last_of : Option ℕ → List ℕ → Option ℕ
last_of b [] = b
last_of b (x ∷ xs) = last_of (some x) xs

abbrev pub first_of : List ℕ → Option ℕ
first_of [] = none
first_of (x ∷ xs) = some x

-- The bounds of the gap behind `pre` and in front of `post`.
abbrev pub last_stop : (ℕ → Area) → ℕ → List ℕ → ℕ
last_stop areas lo [] = lo
last_stop areas lo (x ∷ xs) = last_stop areas (areas x).stop xs

abbrev pub first_start : (ℕ → Area) → ℕ → List ℕ → ℕ
first_start areas hi [] = hi
first_start areas hi (x ∷ xs) = (areas x).start

-- An area that is in no node of the list changes nothing.
pub Fits-frame :
    (areas : ℕ → Area) (n : ℕ) (a : Area) (lo hi : ℕ) (ids : List ℕ)
    → mem n ids ≡ false
    → Fits areas lo hi ids
    → Fits (update areas n a) lo hi ids
Fits-frame areas n a lo hi [] m h = h
Fits-frame areas n a lo hi (x ∷ xs) m h =
    let apart : (n == x) ≡ false = ground arith in
    rw apart (h.0, h.1, Fits-frame areas n a (areas x).stop hi xs (ground arith) h.2)

pub covered-frame :
    (areas : ℕ → Area) (n : ℕ) (a : Area) (ids : List ℕ) (b : ℕ)
    → mem n ids ≡ false
    → covered (update areas n a) ids b ≡ covered areas ids b
covered-frame areas n a [] b m = refl
covered-frame areas n a (x ∷ xs) b m = ground (arith, covered-frame areas n a xs b)

pub Fits-lower :
    (areas : ℕ → Area) (lo lo' hi : ℕ) (ids : List ℕ)
    → Fits areas lo hi ids
    → lo' ≤ first_start areas hi ids
    → Fits areas lo' hi ids
Fits-lower areas lo lo' hi [] h l = l
Fits-lower areas lo lo' hi (x ∷ xs) h l = (l, h.1, h.2)

module _ (areas : ℕ → Area) (hi n : ℕ) (a : Area) (post : List ℕ) where
  -- A new node in a gap.
  pub insert-Fits :
      (lo : ℕ) (pre : List ℕ)
      → mem n (pre ++ post) ≡ false
      → Fits areas lo hi (pre ++ post)
      → last_stop areas lo pre ≤ a.start
      → a.start ≤ a.stop
      → a.stop ≤ first_start areas hi post
      → Fits (update areas n a) lo hi (pre ++ n ∷ post)
  insert-Fits lo [] m h l s e =
      rw (==-refl n)
        (l, s, Fits-frame areas n a a.stop hi post m (Fits-lower areas lo a.stop hi post h e))
  insert-Fits lo (x ∷ xs) m h l s e =
      let apart : (n == x) ≡ false = ground arith in
      rw apart (h.0, h.1, insert-Fits (areas x).stop xs (ground arith) h.2 l s e)

  pub insert-covered :
      (pre : List ℕ) (b : ℕ)
      → mem n (pre ++ post) ≡ false
      → covered (update areas n a) (pre ++ n ∷ post) b
        ≡ (covered areas (pre ++ post) b || within a.start a.stop b)
  insert-covered [] b m = ground (arith, covered-frame areas n a post b)
  insert-covered (x ∷ xs) b m = ground (arith, insert-covered xs b)

module _ (areas : ℕ → Area) (hi : ℕ) (post : List ℕ) where
  covered-above :
      (lo b : ℕ) (ids : List ℕ) → Fits areas lo hi ids → b < lo → covered areas ids b ≡ false
  covered-above lo b [] h l = refl
  covered-above lo b (x ∷ xs) h l = ground (arith, covered-above (areas x).stop b xs h.2)

  covered-below :
      (b : ℕ) (ids : List ℕ) (lo : ℕ)
      → Fits areas lo hi ids
      → b < first_start areas hi ids
      → covered areas ids b ≡ false
  covered-below b [] lo h l = refl
  covered-below b (x ∷ xs) lo h l = ground (arith, covered-above (areas x).stop b xs h.2)

  pub last_stop-le :
      (lo : ℕ) (pre : List ℕ) → Fits areas lo hi (pre ++ post) → lo ≤ last_stop areas lo pre
  last_stop-le lo [] h = omega arith
  last_stop-le lo (x ∷ xs) h = omega (arith, last_stop-le (areas x).stop xs h.2, h.0, h.1)

  -- No address of a gap is covered.
  pub gap-covered :
      (lo b : ℕ) (pre : List ℕ)
      → Fits areas lo hi (pre ++ post)
      → last_stop areas lo pre ≤ b
      → b < first_start areas hi post
      → covered areas (pre ++ post) b ≡ false
  gap-covered lo b [] h l g = covered-below b post lo h g
  gap-covered lo b (x ∷ xs) h l g =
      ground (arith, gap-covered (areas x).stop b xs h.2 l g, last_stop-le (areas x).stop xs h.2)
