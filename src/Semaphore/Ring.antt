-- ===== src/Semaphore/Ring.antt =====
-- The ring of a semaphore as a list of waiting tasks.
use libhermit.Base.{
  append_assoc, ℕ, zero, suc, ◌+◌, ◌-◌, ◌%◌, ◌^◌, ◌≤◌, ◌<◌, ◌≡◌, refl, List, [], ◌∷◌, ◌++◌, arith,
  ap, ap₂, sym, ◌∙◌, ltb, if◌then◌else◌, length, length-append, length-set, get_or, set, ring_step,
  mod-ring_step, window, ahead, ahead-eq, window-set, window-cons, window-push,
}
use libhermit.Semaphore.Defs.{Sem, replicate, step_pos, enqueue, sem_init}

-- All are task ids.
abbrev pub IsBelow : ℕ → List ℕ → Type 0
IsBelow n [] = Unit
IsBelow n (x ∷ xs) = (x < n) × IsBelow n xs

-- From `rpos` on, the slots hold the waiting tasks `ws`, oldest first, and then the mark `n` of an
-- empty slot; `wpos` is behind the tasks.
pub record IsValid (n : ℕ) (s : Sem) (ws : List ℕ) : Type 0 where
  pub small : n < 2 ^ 32
  pub slots : length s.queue ≡ n
  pub rpos_in : s.rpos < n
  pub fits : length ws ≤ n
  pub ids : IsBelow n ws
  pub ring : window s.queue n s.rpos n ≡ ws ++ replicate (n - length ws) n
  pub wpos_at :
      s.wpos ≡ (if ltb (s.rpos + length ws) n then s.rpos + length ws else s.rpos + length ws - n)
  pub counts : s.value < 2 ^ 32

pub step_pos-eq : (n i : ℕ) → i < n → n < 2 ^ 32 → step_pos n i ≡ ring_step n i
step_pos-eq n i h s =
    let wrap : (i + 1) % 2 ^ 32 ≡ i + 1 = omega arith in ap (λ k. k % n) wrap ∙ mod-ring_step n i h

length-replicate : (n x : ℕ) → length (replicate n x) ≡ n
length-replicate zero x = refl
length-replicate (suc n) x = ap suc (length-replicate n x)

replicate-snoc : (n x : ℕ) → replicate n x ++ x ∷ [] ≡ replicate (suc n) x
replicate-snoc zero x = refl
replicate-snoc (suc n) x = ap (λ xs. x ∷ xs) (replicate-snoc n x)

pub IsBelow-snoc : (n x : ℕ) (xs : List ℕ) → IsBelow n xs → x < n → IsBelow n (xs ++ x ∷ [])
IsBelow-snoc n x [] b h = ground arith
IsBelow-snoc n x (y ∷ ys) b h = (b.0, IsBelow-snoc n x ys b.1 h)

set-append : (xs ys : List ℕ) (x y : ℕ) → set (xs ++ y ∷ ys) (length xs) x ≡ (xs ++ x ∷ []) ++ ys
set-append [] ys x y = refl
set-append (z ∷ zs) ys x y = ap (λ l. z ∷ l) (set-append zs ys x y)

replicate-pos : (n x : ℕ) → 0 < n → replicate n x ≡ x ∷ replicate (n - 1) x
replicate-pos zero x h = absurd (omega arith)
replicate-pos (suc n) x h = ap (λ m. x ∷ replicate m x) (omega arith)

-- The value does not matter to the ring.
pub value-IsValid :
    {n : ℕ} {s : Sem} {ws : List ℕ} (v : ℕ)
    → v < 2 ^ 32
    → IsValid n s ws
    → IsValid n (record s { value = v }) ws
value-IsValid v h r = record {
  small = r.small;
  slots = r.slots;
  rpos_in = r.rpos_in;
  fits = r.fits;
  ids = r.ids;
  ring = r.ring;
  wpos_at = r.wpos_at;
  counts = h;
}

module _ {n : ℕ} {s : Sem} {ws : List ℕ} (v : IsValid n s ws) where
  pub wpos-ahead : length ws < n → s.wpos ≡ ahead n s.rpos (length ws)
  wpos-ahead h = ground (arith, v.wpos_at, ahead-eq n s.rpos (length ws) v.rpos_in h)

  pub wpos_in : s.wpos < n
  wpos_in = ground (arith, v.wpos_at, v.rpos_in, v.fits)

  ring-enqueue :
      (x : ℕ)
      → length ws < n
      → window (set s.queue s.wpos x) n s.rpos n ≡ (ws ++ x ∷ []) ++ replicate (n - length ws - 1) n
  ring-enqueue x h =
      ap (λ j. window (set s.queue j x) n s.rpos n) (wpos-ahead h)
      ∙ window-set s.queue n x s.rpos n (length ws) (omega (arith, v.slots)) v.rpos_in (omega arith)
          h
      ∙ ap (λ l. set l (length ws) x)
          (v.ring ∙ ap (λ l. ws ++ l) (replicate-pos (n - length ws) n (omega arith)))
      ∙ set-append ws (replicate (n - length ws - 1) n) x n

  pub enqueue-IsValid : (x : ℕ) → length ws < n → x < n → IsValid n (enqueue n x s) (ws ++ x ∷ [])
  enqueue-IsValid x h g = record {
    small = v.small;
    slots = length-set s.queue s.wpos x ∙ v.slots;
    rpos_in = v.rpos_in;
    fits = omega (arith, length-append ws (x ∷ []));
    ids = IsBelow-snoc n x ws v.ids g;
    ring =
        ring-enqueue x h
        ∙ ap (λ m. (ws ++ x ∷ []) ++ replicate m n) (omega (arith, length-append ws (x ∷ [])));
    wpos_at =
        step_pos-eq n s.wpos wpos_in v.small
        ∙ ground (arith, v.wpos_at, v.rpos_in, length-append ws (x ∷ []));
    counts = v.counts;
  }

head_or : List ℕ → ℕ
head_or [] = 0
head_or (x ∷ xs) = x

tail_of : List ℕ → List ℕ
tail_of [] = []
tail_of (x ∷ xs) = xs

module _ {n : ℕ} {s : Sem} {ws : List ℕ} (v : IsValid n s ws) where
  ring-cons :
      get_or s.queue s.rpos 0 ∷ window s.queue n (ring_step n s.rpos) (n - 1)
      ≡ ws ++ replicate (n - length ws) n
  ring-cons = sym (window-cons s.queue n s.rpos n (omega (arith, v.rpos_in))) ∙ v.ring

module _ {n : ℕ} {s : Sem} where
  -- The slot at `rpos` is marked empty if no task waits, and holds the oldest one otherwise.
  pub oldest-none : IsValid n s [] → get_or s.queue s.rpos 0 ≡ n
  unfolding head_or
  oldest-none v = ap head_or (
      ring-cons v
      ∙ ap (λ m. replicate m n) (omega arith)
      ∙ replicate-pos n n (omega (arith, v.rpos_in)))

  pub oldest-some : (t : ℕ) (rest : List ℕ) → IsValid n s (t ∷ rest) → get_or s.queue s.rpos 0 ≡ t
  unfolding head_or
  oldest-some t rest v = ap head_or (ring-cons v)

  ring-dequeue :
      (t : ℕ) (rest : List ℕ)
      → IsValid n s (t ∷ rest)
      → window (set s.queue s.rpos n) n (ring_step n s.rpos) n
        ≡ rest ++ replicate (n - length rest) n
  unfolding tail_of
  ring-dequeue t rest v =
      let i = ring_step n s.rpos in
      let whole : n ≡ suc (n - 1) = omega (arith, v.rpos_in) in
      let shorter : suc (n - suc (length rest)) ≡ n - length rest = omega (arith, v.fits) in
      let behind : s.rpos ≡ ahead n i (n - 1) = ground (arith, v.rpos_in, ahead-eq n i (n - 1)) in
      ap (λ m. window (set s.queue s.rpos n) n i m) whole
      ∙ ap (λ j. window (set s.queue j n) n i (suc (n - 1))) behind
      ∙ window-push s.queue n n i (n - 1) (omega (arith, v.slots)) (ground (arith, v.rpos_in))
          (omega (arith, v.rpos_in))
      ∙ ap (λ l. tail_of l ++ n ∷ []) (ring-cons v)
      ∙ append_assoc rest (replicate (n - suc (length rest)) n) (n ∷ [])
      ∙ ap (λ l. rest ++ l) (replicate-snoc (n - suc (length rest)) n)
      ∙ ap (λ m. rest ++ replicate m n) shorter

  pub dequeue-IsValid :
      (t : ℕ) (rest : List ℕ)
      → IsValid n s (t ∷ rest)
      → IsValid n (record s { queue = set s.queue s.rpos n; rpos = step_pos n s.rpos }) rest
  dequeue-IsValid t rest v = record {
    small = v.small;
    slots = length-set s.queue s.rpos n ∙ v.slots;
    rpos_in = ground (arith, step_pos-eq n s.rpos v.rpos_in v.small, v.rpos_in);
    fits = omega (arith, v.fits);
    ids = v.ids.1;
    ring =
        ap (λ i. window (set s.queue s.rpos n) n i n) (step_pos-eq n s.rpos v.rpos_in v.small)
        ∙ ring-dequeue t rest v;
    wpos_at = ground (arith, v.wpos_at, v.rpos_in, v.fits, step_pos-eq n s.rpos v.rpos_in v.small);
    counts = v.counts;
  }

get_or-replicate : (n x i : ℕ) → i < n → get_or (replicate n x) i 0 ≡ x
get_or-replicate zero x i h = absurd (omega arith)
get_or-replicate (suc n) x zero h = refl
get_or-replicate (suc n) x (suc i) h = get_or-replicate n x i (omega arith)

window-replicate : (n x i k : ℕ) → i < n → window (replicate n x) n i k ≡ replicate k x
window-replicate n x i zero h = refl
window-replicate n x i (suc k) h =
    ap₂ ◌∷◌ (get_or-replicate n x i h) (window-replicate n x (ring_step n i) k (ground arith))

-- A new semaphore is valid, and no task waits.
pub sem_init-IsValid : (n v : ℕ) → 0 < n → n < 2 ^ 32 → v < 2 ^ 32 → IsValid n (sem_init n v) []
unfolding sem_init
sem_init-IsValid n v p h g = record {
  small = h;
  slots = length-replicate n n;
  rpos_in = p;
  fits = omega arith;
  ids = ground arith;
  ring = window-replicate n n 0 n p ∙ ap (λ m. replicate m n) (omega arith);
  wpos_at = ground arith;
  counts = g;
}
