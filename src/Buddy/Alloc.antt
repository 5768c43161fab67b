-- ===== src/Buddy/Alloc.antt =====
-- `kmalloc` hands out blocks that are apart, and `kfree` takes them back.
use libhermit.Base.{
  ℕ, suc, ◌+◌, ◌-◌, ◌%◌, ◌^◌, ◌≤◌, ◌<◌, ◌≡◌, refl, ap, ◌∙◌, sym, subst, true, false, Option, none,
  some, List, ◌∷◌, ◌++◌, arith, ◌==◌, ==-refl, ==_iff, if◌then◌else◌, update, inl, inr, ◌⊎◌,
  Bool-cases, if-elim,
}
use native.Mathlib.Nat.{pow-le-pow_right}
use libhermit.Buddy.Defs.{
  Heap, exponent_of, magic_of, set_exponent, set_magic, buddy_magic, buddy_get, buddy_put,
  put_first, hand_out, buddy_exp, kmalloc, kfree,
}
use libhermit.Buddy.Size.{pow-pos, buddy_exp-bounds, prefix_lem}
use libhermit.Buddy.Pool.{
  Block, inside, used_count, IsValid, Marked, inside_self, at-pool, write-Chain, write-Marked,
  used_count-append, Marked-append, Marked-parts,
}
use libhermit.Buddy.Lists.{Fresh, Got, put_first-IsValid, put_first-Marked}
use libhermit.Buddy.Get.{buddy_get-outer, buddy_get-Got}

-- What `kmalloc` has come to: NULL, or the address behind the prefix of a block that has room for
-- the prefix and `sz` bytes, and that is apart from the blocks `used`.
pub record Handed (sz : ℕ) (used : List Block) (p : ℕ) (h' : Heap) (frees' : ℕ → List ℕ)
    : Type 0 where
  pub block : Block
  pub behind : p ≡ block.addr + 8
  pub room : p + sz ≤ block.addr + 2 ^ block.exp
  pub new : (b : ℕ) → inside block.addr block.exp b + used_count used b ≤ 1
  pub valid : IsValid h' frees' (block ∷ used)
  pub marked : Marked h'.memory (block ∷ used)

abbrev pub Allocated : ℕ → List Block → Option (ℕ × Heap) → Type 0
Allocated sz used r =
    (p : ℕ) × (h' : Heap) × (frees' : ℕ → List ℕ) × (r ≡ some (p, h'))
    × (((p ≡ 0) × IsValid h' frees' used × Marked h'.memory used) ⊎ Handed sz used p h' frees')

-- The prefix of the block is set up.
module _ (sz e : ℕ) (used : List Block) (low : 6 ≤ e) (high : e < 31) (room : sz + 8 ≤ 2 ^ e)
    (filled : 0 < sz) where
  hand_out-Allocated :
      (a : ℕ) (h : Heap) (frees : ℕ → List ℕ)
      → Marked h.memory used
      → 0 < a
      → a + 2 ^ e ≤ 2 ^ 64
      → IsValid h frees (record { addr = a; exp = e } ∷ used)
      → Allocated sz used (some (hand_out e (a, h)))
  hand_out-Allocated a h frees m p l v =
      if-elim (λ r. Allocated sz used (some r)) (a == 0) _ _ (λ c. absurd (ground arith))
        (λ c.
          let word = set_exponent e (set_magic buddy_magic (h.memory a)) in
          (
            (a + 8) % 2 ^ 64,
            record h { memory = update h.memory a word },
            frees,
            refl,
            inr (record {
              block = record { addr = a; exp = e };
              behind = omega (arith, room);
              room = omega (arith, room);
              new = λ b. omega (arith, v.apart b);
              valid = record {
                chains = λ k i j.
                    write-Chain h.memory a word k (h.lists (k - 6)) (frees k)
                      (omega (arith, v.apart a, at-pool frees k a j, inside_self a e))
                      (v.chains k i j);
                top = v.top;
                apart = v.apart;
              };
              marked = (
                (
                  p,
                  low,
                  high,
                  l,
                  rw (==-refl a) (prefix_lem e (h.memory a) (omega arith)).0,
                  rw (==-refl a) (prefix_lem e (h.memory a) (omega arith)).1,
                ),
                write-Marked h.memory a word used (omega (arith, v.apart a, inside_self a e)) m,
              );
            }),
          ))

  served-Allocated :
      (r : Option (ℕ × Heap))
      → Got used e r
      → Allocated sz used (elim r [ none ↦ none | some r ↦ some (hand_out e r) ])
  served-Allocated r (a, h, frees, q, m, inl (z, v)) =
      subst (λ r. Allocated sz used (elim r [ none ↦ none | some r ↦ some (hand_out e r) ])) (sym q)
        (if-elim (λ r. Allocated sz used (some r)) (a == 0) _ _
          (λ c. (0, h, frees, refl, inl (refl, v, m))) (λ c. absurd (ground arith)))
  served-Allocated r (a, h, frees, q, m, inr (p, l, v)) =
      subst (λ r. Allocated sz used (elim r [ none ↦ none | some r ↦ some (hand_out e r) ])) (sym q)
        (hand_out-Allocated a h frees m p l v)

module _ {h : Heap} {frees : ℕ → List ℕ} {used : List Block} (v : IsValid h frees used)
    (m : Marked h.memory used) where
  -- In a valid heap, for fewer than 2 ^ 30 - 7 bytes, enough fuel, and a `palloc` that returns
  -- memory outside of the heap, `kmalloc` returns. The result is NULL, or points behind the prefix
  -- of a block that has room for the bytes and has no address in common with a block that was
  -- handed out before. The heap stays valid, and every block that is handed out carries its prefix.
  pub kmalloc-Allocated :
      (fuel : ℕ) (pages : ℕ → ℕ) (sz : ℕ)
      → Fresh pages frees used
      → 30 < fuel
      → sz + 8 ≤ 2 ^ 30
      → Allocated sz used (kmalloc fuel pages sz h)
  unfolding kmalloc
  kmalloc-Allocated fuel pages sz fresh enough bound =
      if-elim (Allocated sz used) (sz == 0) _ _ (λ c. (0, h, frees, refl, inl (refl, v, m)))
        (λ c. sized (ground arith))
    where
      answer : Option ℕ → Option (ℕ × Heap)
      answer r = elim r [
        | none ↦ none
        | some exp ↦
            if exp == 0
            then some (0, h)
            else elim (buddy_get fuel pages exp h) [ none ↦ none | some r ↦ some (hand_out exp r) ]
      ]

      sized : 0 < sz → Allocated sz used (answer (buddy_exp fuel ((sz + 8) % 2 ^ 64)))
      sized filled =
          let same : (sz + 8) % 2 ^ 64 ≡ sz + 8 = omega arith in
          let (e, q, low, high, room, _) =
            buddy_exp-bounds fuel (sz + 8) (omega arith) bound enough in
          subst (Allocated sz used) (sym (ap (λ n. answer (buddy_exp fuel n)) same ∙ ap answer q)) (
            if-elim (Allocated sz used) (e == 0) _ _ (λ c. absurd (ground arith))
              (λ c.
                served-Allocated sz e used low (omega arith) room filled (buddy_get fuel pages e h)
                  (buddy_get-Got pages h frees used v m fresh fuel e low (omega arith)
                    (omega arith))))

-- A block with its prefix is put to the front of the list of its size.
kfree-put :
    (h : Heap) (x : Block)
    → x.addr + 2 ^ x.exp ≤ 2 ^ 64
    → exponent_of (h.memory x.addr) ≡ x.exp
    → magic_of (h.memory x.addr) ≡ buddy_magic
    → kfree (x.addr + 8) h ≡ put_first x.exp x.addr h
unfolding kfree
kfree-put h x l e g =
    let same : (x.addr + 8 + 2 ^ 64 - 8) % 2 ^ 64 ≡ x.addr = omega (arith, pow-pos x.exp) in
    let present : (x.addr + 8 == 0) ≡ false = ground arith in
    let marked : (magic_of (h.memory x.addr) == buddy_magic) ≡ true =
      ap (λ n. n == buddy_magic) g in
    ap (λ b. if b then h else freed ((x.addr + 8 + 2 ^ 64 - 8) % 2 ^ 64)) present
    ∙ ap freed same
    ∙ ap (λ b. if b then buddy_put x.addr h else h) marked
    ∙ ap (λ k. put_first k x.addr h) e
  where
    freed : ℕ → Heap
    freed n = if magic_of (h.memory n) == buddy_magic then buddy_put n h else h

-- What `kmalloc` makes of the result of `buddy_get`.
abbrev served : ℕ → Option (ℕ × Heap) → Option (ℕ × Heap)
served e r = elim r [ none ↦ none | some r ↦ some (hand_out e r) ]

kmalloc-sized :
    (fuel : ℕ) (pages : ℕ → ℕ) (sz : ℕ) (h : Heap) (e : ℕ)
    → 0 < sz
    → sz + 8 ≤ 2 ^ 30
    → 0 < e
    → buddy_exp (suc fuel) (sz + 8) ≡ some e
    → kmalloc (suc fuel) pages sz h ≡ served e (buddy_get (suc fuel) pages e h)
unfolding kmalloc
kmalloc-sized fuel pages sz h e filled bound p q =
    let same : (sz + 8) % 2 ^ 64 ≡ sz + 8 = omega arith in
    let some_bytes : (sz == 0) ≡ false = ground arith in
    let exponent : (e == 0) ≡ false = ground arith in
    ap (λ b. if b then some (0, h) else answer (buddy_exp (suc fuel) ((sz + 8) % 2 ^ 64)))
      some_bytes
    ∙ ap (λ n. answer (buddy_exp (suc fuel) n)) same
    ∙ ap answer q
    ∙ ap (λ b. if b then some (0, h) else served e (buddy_get (suc fuel) pages e h)) exponent
  where
    answer : Option ℕ → Option (ℕ × Heap)
    answer r = elim r [
      | none ↦ none
      | some exp ↦ if exp == 0 then some (0, h) else served exp (buddy_get (suc fuel) pages exp h)
    ]

module _ {h : Heap} {frees : ℕ → List ℕ} (pre post : List Block) (x : Block)
    (v : IsValid h frees (pre ++ x ∷ post)) (m : Marked h.memory (pre ++ x ∷ post)) where
  own : IsValid h frees (x ∷ (pre ++ post))
  own = record {
    chains = v.chains;
    top = v.top;
    apart = λ b.
        omega (arith, v.apart b, used_count-append pre (x ∷ post) b, used_count-append pre post b);
  }

  -- In a valid heap, `kfree` of a block that is handed out puts it to the front of the list of its
  -- size. The heap stays valid without the block among those that are handed out, and the others
  -- keep their prefixes.
  pub kfree-IsValid :
      IsValid (kfree (x.addr + 8) h) (update frees x.exp (x.addr ∷ frees x.exp)) (pre ++ post)
      × Marked (kfree (x.addr + 8) h).memory (pre ++ post)
  kfree-IsValid =
      let (k, ((p, low, high, l, e, g), n)) = Marked-parts h.memory pre (x ∷ post) m in
      subst
        (λ h'.
          IsValid h' (update frees x.exp (x.addr ∷ frees x.exp)) (pre ++ post)
          × Marked h'.memory (pre ++ post))
        (sym (kfree-put h x l e g))
        (
          put_first-IsValid h frees (pre ++ post) x.exp low high x.addr own p l,
          put_first-Marked h frees (pre ++ post) x.exp low high x.addr own
              (Marked-append h.memory pre post k n),
        )

  -- In a valid heap, a call of `kmalloc` for a size with the exponent of a block that is handed
  -- out, right after `kfree` of the block, gives the same block again. All lists and all other
  -- words of the heap are then what they were before `kfree`.
  pub kmalloc-kfree :
      (fuel : ℕ) (pages : ℕ → ℕ) (sz : ℕ)
      → 0 < sz
      → sz + 8 ≤ 2 ^ 30
      → buddy_exp (suc fuel) (sz + 8) ≡ some x.exp
      → (h' : Heap) × (kmalloc (suc fuel) pages sz (kfree (x.addr + 8) h) ≡ some (x.addr + 8, h'))
        × ((i : ℕ) → h'.lists i ≡ h.lists i)
        × ((b : ℕ) → (x.addr == b) ≡ false → h'.memory b ≡ h.memory b)
  kmalloc-kfree fuel pages sz filled bound q =
      let (k, ((p, low, high, l, e, g), n)) = Marked-parts h.memory pre (x ∷ post) m in
      let back = put_first x.exp x.addr h in
      let rest = record back { lists = update back.lists (x.exp - 6) (back.memory x.addr) } in
      let word = set_exponent x.exp (set_magic buddy_magic (rest.memory x.addr)) in
      let first : back.lists (x.exp - 6) ≡ x.addr = rw (==-refl (x.exp - 6)) refl in
      let found : (back.lists (x.exp - 6) == 0) ≡ false = ground arith in
      let nonnull : (x.addr == 0) ≡ false = ground arith in
      let behind : (x.addr + 8) % 2 ^ 64 ≡ x.addr + 8 = omega (arith, below low l) in
      (
        record rest { memory = update rest.memory x.addr word },
        ap (kmalloc (suc fuel) pages sz) (kfree-put h x l e g)
            ∙ kmalloc-sized fuel pages sz back x.exp filled bound (omega arith) q
            ∙ ap (served x.exp) (buddy_get-outer fuel pages x.exp back false found)
            ∙ ap
                (λ p. some (
                  hand_out x.exp
                    (p, record back { lists = update back.lists (x.exp - 6) (back.memory p) })))
                first
            ∙ ap
                (λ b. some (
                  if b then (0, rest) else (
                    (x.addr + 8) % 2 ^ 64,
                    record rest { memory = update rest.memory x.addr word },
                  )))
                nonnull
            ∙ ap (λ n. some (n, record rest { memory = update rest.memory x.addr word })) behind,
        λ i. elim (Bool-cases (x.exp - 6 == i)) [
          | inl same ↦ rw (same, ==-refl x.addr) (ap h.lists ((==_iff (x.exp - 6) i).0 same))
          | inr other ↦ rw other refl
        ],
        λ b other. rw other refl,
      )
    where
      below : 6 ≤ x.exp → x.addr + 2 ^ x.exp ≤ 2 ^ 64 → x.addr + 8 < 2 ^ 64
      below low l = omega (arith, pow-le-pow_right {n = 2} (omega arith) {i = 6} {j = x.exp} low)
