-- ===== src/Client/Text.antt =====
-- `make_random_string` of client/main.c.
use c8005_assn.Base.{
  length-append, ℕ, zero, suc, ◌+◌, ◌%◌, ◌≡◌, ◌≢◌, refl, ap, ◌∙◌, ◌<◌, ◌≤◌, ltb, true, ◌⊎◌, inl,
  inr, arith, List, [], ◌∷◌, ◌++◌, ne→==, none, some, length, get_elem?, Returns, Returns-ok,
  Option-cases,
}
use native.Mathlib.Nat.{mod-lt}
use c8005_assn.Os.{Os}
use c8005_assn.Client.{int_max, strlen, range, charset, random_chars, make_random_string}

length-range : (n first : ℕ) → length (range n first) ≡ n
unfolding range
length-range zero first = refl
length-range (suc n) first = ap suc (length-range n (first + 1))

-- The characters are no zeros.
abbrev AllText : List ℕ → Type 0
AllText [] = Unit
AllText (c ∷ cs) = (c ≢ 0) × AllText cs

AllText-range : (n first : ℕ) → first ≢ 0 → AllText (range n first)
unfolding range
AllText-range zero first h = tt
AllText-range (suc n) first h = (h, AllText-range n (first + 1) (omega arith))

AllText-append : (cs ds : List ℕ) → AllText cs → AllText ds → AllText (cs ++ ds)
AllText-append [] ds h k = k
AllText-append (c ∷ cs) ds h k = (h.0, AllText-append cs ds h.1 k)

AllText-charset : AllText charset
unfolding charset
AllText-charset = AllText-append (range 26 97) _ (AllText-range 26 97 (omega arith)) (
    AllText-append (range 26 65) _ (AllText-range 26 65 (omega arith))
      (AllText-range 10 48 (omega arith)))

pick :
    (cs : List ℕ) (i : ℕ)
    → i < length cs
    → AllText cs
    → (c : ℕ) × (get_elem? cs i ≡ some c) × (c ≢ 0)
pick [] i h t = elim h [ ]
pick (c ∷ cs) zero h t = (c, refl, t.0)
pick (c ∷ cs) (suc i) h t = pick cs i (omega arith) t.1

charset-length : length charset ≡ 62
unfolding charset
charset-length = rw (length-append, length-append, length-range, length-range, length-range)

strlen-text : (cs : List ℕ) → AllText cs → strlen (cs ++ 0 ∷ []) ≡ length cs
unfolding strlen
strlen-text [] t = refl
strlen-text (c ∷ cs) t = rw (ne→== c 0 t.0, strlen-text cs t.1) (omega arith)

module _ (os : Os) where
  abbrev IsText : ℕ → List ℕ × os.World → Type 0
  IsText n r = AllText r.0 × (length r.0 ≡ n)

  random_chars-IsText :
      (left n : ℕ) (w : os.World)
      → left + n ≤ int_max
      → Returns (IsText left) (random_chars os left n w)
  unfolding random_chars
  random_chars-IsText zero n w inside = (tt, refl)
  random_chars-IsText (suc left) n w inside =
      let (r, w') = os.rand w in
      let (c, q, nonzero) =
        pick charset (r % length charset) (mod-lt r (omega (arith, charset-length)))
          AllText-charset in
      let ((cs, v), e, (text, size)) =
        Returns-ok (IsText left) (random_chars os left (n + 1) w')
          (random_chars-IsText left (n + 1) w' (omega (arith, inside))) in
      let more : ltb n int_max ≡ true = ground (arith, inside) in
      rw (q, random_chars)
        (rw (more, random_chars) (rw (e, random_chars) ((nonzero, text), ap suc size)))

  -- For a length other than 0 that an `int` holds `make_random_string` returns: NULL only if `malloc`
  -- gives no block for it, or a string of that length.
  pub make_random_string_lem :
      (n : ℕ) (w : os.World)
      → 0 < n
      → n ≤ int_max
      → Returns
          (λ r.
            ((r.0 ≡ none) × ((os.malloc (n + 1) w).0 ≡ none))
            ⊎ ((s : List ℕ) × (r.0 ≡ some s) × (strlen s ≡ n)))
          (make_random_string os n w)
  unfolding make_random_string
  make_random_string_lem zero w pos small = elim pos [ ]
  make_random_string_lem (suc n) w pos small = elim (Option-cases (os.malloc (suc n + 1) w).0) [
    | inl refused ↦ rw (refused, make_random_string) (inl (refl, refl))
    | inr (bs, got) ↦
        let w' = (os.malloc (suc n + 1) w).1 in
        let ((cs, v), e, (text, size)) =
          Returns-ok (IsText (suc n)) (random_chars os (suc n) 0 w')
            (random_chars-IsText (suc n) 0 w' (omega (arith, small))) in
        rw (got, make_random_string)
          (rw (e, make_random_string) (inr (cs ++ 0 ∷ [], refl, strlen-text cs text ∙ size)))
  ]
