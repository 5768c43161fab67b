-- ===== src/Vma/Gap.antt =====
-- A gap of the list: growing the area in front of it, linking a new node into it, and finding it.
use libhermit.Base.{
  ℕ, zero, suc, ◌≤◌, ◌<◌, ◌≡◌, refl, Bool, true, false, Option, none, some, List, [], ◌∷◌, ◌++◌,
  arith, ap, ◌∙◌, sym, subst, ptr_eq, ◌==◌, ==-refl, ◌||◌, if◌then◌else◌, mem, IsDistinct, update,
  update_at, mem-append, is_some, length, Bool-cases, inl, inr, ◌⊎◌,
}
use libhermit.Vma.Defs.{
  Area, Vmas, gap_start, gap_end, gap_fits, next_of, vma_min, vma_max, find_gap,
}
use libhermit.Vma.Areas.{
  Leads, Fits, covered, within, last_of, first_of, last_stop, first_start, Fits-frame,
  covered-frame, Fits-lower,
}

some-eq : (a b : ℕ) → some a ≡ some b → a ≡ b
some-eq a b e = ground (arith, e)

pub last_of-mem : (y p : ℕ) (ys : List ℕ) → last_of (some y) ys ≡ some p → mem p (y ∷ ys) ≡ true
last_of-mem y p [] e = ground (arith, some-eq y p e)
last_of-mem y p (z ∷ zs) e = ground (arith, last_of-mem z p zs e)

pub last_of-some :
    (y : ℕ) (ys : List ℕ) → (z : ℕ) × (last_of (some y) ys ≡ some z) × (mem z (y ∷ ys) ≡ true)
last_of-some y [] = (y, refl, ground arith)
last_of-some y (x ∷ xs) = let (z, e, m) = last_of-some x xs in (z, e, ground arith)

module _ (areas : ℕ → Area) (hi p e : ℕ) (post : List ℕ) where
  abbrev grown : ℕ → Area
  grown = update areas p (record (areas p) { stop = e })

  grow-Fits :
      (lo : ℕ)
      → mem p post ≡ false
      → Fits areas lo hi (p ∷ post)
      → (areas p).stop ≤ e
      → e ≤ first_start areas hi post
      → Fits grown lo hi (p ∷ post)
  grow-Fits lo m h l g = rw (==-refl p) (
    h.0,
    omega (arith, h.1, l),
    Fits-frame areas p (record (areas p) { stop = e }) e hi post m
        (Fits-lower areas (areas p).stop e hi post h.2 g),
  )

  pub resize-Fits :
      (lo x : ℕ) (pre : List ℕ)
      → last_of (some x) pre ≡ some p
      → IsDistinct (x ∷ pre ++ post)
      → Fits areas lo hi (x ∷ pre ++ post)
      → last_stop areas lo (x ∷ pre) ≤ e
      → e ≤ first_start areas hi post
      → Fits grown lo hi (x ∷ pre ++ post)
  resize-Fits lo x [] q d h l g =
      let same : p ≡ x = sym (some-eq x p q) in
      subst (λ z. Fits grown lo hi (z ∷ post)) same
        (grow-Fits lo (subst (λ z. mem z post ≡ false) (sym same) d.0)
          (subst (λ z. Fits areas lo hi (z ∷ post)) (sym same) h)
          (subst (λ z. (areas z).stop ≤ e) (sym same) l) g)
  resize-Fits lo x (y ∷ ys) q d h l g =
      let apart : (p == x) ≡ false =
        ground (arith, last_of-mem y p ys q, d.0, mem-append p (y ∷ ys) post) in
      rw apart (h.0, h.1, resize-Fits (areas x).stop y ys q d.1 h.2 l g)

  pub resize-covered :
      (lo x : ℕ) (pre : List ℕ) (b : ℕ)
      → last_of (some x) pre ≡ some p
      → IsDistinct (x ∷ pre ++ post)
      → Fits areas lo hi (x ∷ pre ++ post)
      → last_stop areas lo (x ∷ pre) ≤ e
      → covered grown (x ∷ pre ++ post) b
        ≡ (covered areas (x ∷ pre ++ post) b || within (last_stop areas lo (x ∷ pre)) e b)
  resize-covered lo x [] b q d h l =
      ground (arith, some-eq x p q, covered-frame areas p (record (areas p) { stop = e }) post b)
  resize-covered lo x (y ∷ ys) b q d h l = ground (
    arith,
    last_of-mem y p ys q,
    d.0,
    mem-append p (y ∷ ys) post,
    resize-covered (areas x).stop y ys b q d.1 h.2 l,
  )

pub Leads-first :
    (next : ℕ → Option ℕ) (p : Option ℕ) (ids : List ℕ) → Leads next p ids → p ≡ first_of ids
Leads-first next p [] h = h
Leads-first next p (x ∷ xs) h = h.0

pub Leads-frame :
    (next next' : ℕ → Option ℕ) (p : Option ℕ) (ids : List ℕ)
    → ((a : ℕ) → mem a ids ≡ true → next' a ≡ next a)
    → Leads next p ids
    → Leads next' p ids
Leads-frame next next' p [] f h = h
Leads-frame next next' p (x ∷ xs) f h = (
  h.0,
  subst (λ q. Leads next' q xs) (sym (f x (ground arith)))
      (Leads-frame next next' (next x) xs (λ a m. f a (ground arith)) h.1),
)

module _ (next : ℕ → Option ℕ) (n : ℕ) (post : List ℕ) where
  -- The links after the node `n` is put behind `pred`.
  abbrev pub linked : Option ℕ → ℕ → Option ℕ
  linked pred = update_at (update next n (first_of post)) pred (some n)

  insert-Leads_front :
      (pred : Option ℕ)
      → mem n post ≡ false
      → ((a : ℕ) → mem a (n ∷ post) ≡ true → ptr_eq pred (some a) ≡ false)
      → Leads next (first_of post) post
      → Leads (linked pred) (some n) (n ∷ post)
  insert-Leads_front none m out h = (
    refl,
    rw (==-refl n) (Leads-frame next (linked none) (first_of post) post (λ a k. ground arith) h),
  )
  insert-Leads_front (some y) m out h =
      let apart : (y == n) ≡ false = ground (arith, out n) in
      (
        refl,
        rw (apart, ==-refl n)
            (Leads-frame next (linked (some y)) (first_of post) post (λ a k. ground (arith, out a))
              h),
      )

  -- Behind `x`, the new node stands between `pre` and `post`.
  pub insert-Leads :
      (x : ℕ) (pre : List ℕ)
      → mem n (x ∷ pre ++ post) ≡ false
      → IsDistinct (x ∷ pre ++ post)
      → Leads next (some x) (x ∷ pre ++ post)
      → Leads (linked (last_of (some x) pre)) (some x) (x ∷ pre ++ n ∷ post)
  insert-Leads x [] m d h = (
    refl,
    subst (λ q. Leads (linked (some x)) q (n ∷ post)) (rw (==-refl x) refl)
        (insert-Leads_front (some x) (ground arith) (λ a k. ground (arith, d.0))
          (subst (λ q. Leads next q post) (Leads-first next (next x) post h.1) h.1)),
  )
  insert-Leads x (y ∷ ys) m d h =
      let (z, e, k) = last_of-some y ys in
      let apart : (n == x) ≡ false = ground (arith, m) in
      let other : (z == x) ≡ false = ground (arith, d.0, mem-append z (y ∷ ys) post) in
      (
        refl,
        (rw (e, other, apart) h.1.0, (insert-Leads y ys (ground (arith, m)) d.1 (refl, h.1.1)).1),
      )

  -- The new node stands in the gap, at the head of the list if nothing is in front of it.
  pub insert-Leads_gap :
      (list : Option ℕ) (pre : List ℕ)
      → mem n (pre ++ post) ≡ false
      → IsDistinct (pre ++ post)
      → Leads next list (pre ++ post)
      → Leads
          (linked (last_of none pre))
          (if is_some (last_of none pre) then list else some n)
          (pre ++ n ∷ post)
  insert-Leads_gap list [] m d h =
      insert-Leads_front none m (λ a k. refl)
        (subst (λ q. Leads next q post) (Leads-first next list post h) h)
  insert-Leads_gap list (x ∷ xs) m d h =
      let (z, e, _) = last_of-some x xs in
      let same : (if is_some (last_of (some x) xs) then list else some n) ≡ some x = rw e h.0 in
      subst (λ q. Leads (linked (last_of (some x) xs)) q (x ∷ xs ++ n ∷ post)) (sym same)
        (insert-Leads x xs m d (refl, h.1))

  pub insert-IsDistinct :
      (pre : List ℕ)
      → mem n (pre ++ post) ≡ false
      → IsDistinct (pre ++ post)
      → IsDistinct (pre ++ n ∷ post)
  insert-IsDistinct [] m d = (m, d)
  insert-IsDistinct (x ∷ xs) m d = (
    ground (arith, d.0, mem-append x xs (n ∷ post), mem-append x xs post),
    insert-IsDistinct xs (ground (arith, m)) d.1,
  )

-- What the search of `vma_alloc` finds: the nodes before and behind the gap, and the room in it.
pub record Gap (s : Vmas) (size : ℕ) (x : Option ℕ) (ids : List ℕ) (pred succ : Option ℕ)
    : Type 0 where
  pub pre : List ℕ
  pub post : List ℕ
  pub parts : ids ≡ pre ++ post
  pub before : pred ≡ last_of x pre
  pub behind : succ ≡ first_of post
  pub room : gap_fits size (gap_start s.areas pred vma_min) (gap_end s.areas succ vma_max) ≡ true

-- What the search has come to.
abbrev pub Found : Option (Option (Option ℕ × Option ℕ)) → Vmas → ℕ → Option ℕ → List ℕ → Type 0
Found r s size x ids =
    (r ≡ some none)
    ⊎ ((pred : Option ℕ) × (succ : Option ℕ) × (r ≡ some (some (pred, succ)))
        × Gap s size x ids pred succ)

Gap-cons :
    (s : Vmas) (size : ℕ) (x : Option ℕ) (y : ℕ) (ys : List ℕ)
    (r r' : Option (Option (Option ℕ × Option ℕ)))
    → r' ≡ r
    → Found r s size (some y) ys
    → Found r' s size x (y ∷ ys)
Gap-cons s size x y ys r r' e (inl h) = inl (e ∙ h)
Gap-cons s size x y ys r r' e (inr (pred, succ, h, g)) = inr (
  pred,
  succ,
  e ∙ h,
  record {
    pre = y ∷ g.pre;
    post = g.post;
    parts = ap (λ l. y ∷ l) g.parts;
    before = g.before;
    behind = g.behind;
    room = g.room;
  },
)

module _ (fuel size : ℕ) (s : Vmas) (x p : Option ℕ) (ids : List ℕ) where
  -- One step of the search, from the result of its test.
  abbrev search_step : Bool → Option (Option (Option ℕ × Option ℕ))
  search_step b = elim b [
    | true ↦ some (some (x, p))
    | false ↦ elim (is_some p) [
      | true ↦ find_gap fuel size s p (next_of s.links p)
      | false ↦ some none
    ]
  ]

  find_gap-eq :
      (b : Bool)
      → gap_fits size (gap_start s.areas x vma_min) (gap_end s.areas p vma_max) ≡ b
      → find_gap (suc fuel) size s x p ≡ search_step b
  unfolding find_gap
  find_gap-eq b e = ap search_step e

  gap_here :
      Leads s.links.next p ids
      → gap_fits size (gap_start s.areas x vma_min) (gap_end s.areas p vma_max) ≡ true
      → Found (find_gap (suc fuel) size s x p) s size x ids
  gap_here h fits = inr (
    x,
    p,
    find_gap-eq true fits,
    record {
      pre = [];
      post = ids;
      parts = refl;
      before = refl;
      behind = Leads-first s.links.next p ids h;
      room = fits;
    },
  )

-- With more fuel than nodes, the search ends, and finds a gap if it finds anything.
pub find_gap-Found :
    (fuel size : ℕ) (s : Vmas) (x p : Option ℕ) (ids : List ℕ)
    → Leads s.links.next p ids
    → length ids < fuel
    → Found (find_gap fuel size s x p) s size x ids
unfolding find_gap
find_gap-Found zero size s x p ids h l = absurd (omega arith)
find_gap-Found (suc fuel) size s x p [] h l =
    elim (Bool-cases (gap_fits size (gap_start s.areas x vma_min) (gap_end s.areas p vma_max))) [
      | inl fits ↦ gap_here fuel size s x p [] h fits
      | inr full ↦ inl (find_gap-eq fuel size s x p [] false full ∙ rw h refl)
    ]
find_gap-Found (suc fuel) size s x p (y ∷ ys) h l =
    elim (Bool-cases (gap_fits size (gap_start s.areas x vma_min) (gap_end s.areas p vma_max))) [
      | inl fits ↦ gap_here fuel size s x p (y ∷ ys) h fits
      | inr full ↦
          Gap-cons s size x y ys (find_gap fuel size s (some y) (s.links.next y))
            (find_gap (suc fuel) size s x p)
            (find_gap-eq fuel size s x p (y ∷ ys) false full ∙ rw h.0 refl)
            (find_gap-Found fuel size s (some y) (s.links.next y) ys h.1 (omega arith))
    ]
