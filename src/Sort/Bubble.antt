-- ===== src/Sort/Bubble.antt =====
-- The two nested loops of `addCandidates` in dht/lookup.go, over any test: round `i` carries the
-- element at index `i` down past every neighbour that it belongs before.
use mathlib.Core.List.{Perm, perm_middle}
use mathlib.Core.List.Perm
use mesh_net.Base.{
  ℕ, zero, suc, ◌-◌, ◌≤◌, ◌≡◌, refl, ap, ap₂, sym, ◌∙◌, Bool, if◌then◌else◌, List, [], ◌∷◌, ◌++◌,
  length, All, arith, inl, inr, Bool-cases, append-nil,
}
use mesh_net.Sort.{IsSorted, IsBelow-trans, Compares}

module _ {A : Type 0} (less : A → A → Bool) where
  -- `if less(xs[j], xs[j-1]) { swap }` for `j` = `k` + 1.
  unfoldable pub swap_at : ℕ → List A → List A
  swap_at zero (x ∷ y ∷ xs) = if less y x then y ∷ x ∷ xs else x ∷ y ∷ xs
  swap_at (suc k) (x ∷ xs) = x ∷ swap_at k xs
  swap_at _ xs = xs

  -- `for j := i; j > 0; j--`
  unfoldable pub sift_down : ℕ → List A → List A
  sift_down zero xs = xs
  sift_down (suc j) xs = sift_down j (swap_at j xs)

  -- The rounds that are left, from round `i` on.
  unfoldable pub sort_rounds : ℕ → ℕ → List A → List A
  sort_rounds zero i xs = xs
  sort_rounds (suc n) i xs = sort_rounds n (suc i) (sift_down i xs)

  -- `for i := 1; i < len(xs); i++`
  unfoldable pub sort_in_place : List A → List A
  sort_in_place xs = sort_rounds (length xs - 1) 1 xs

  -- Insertion behind the elements that are not greater.
  insert_after : A → List A → List A
  insert_after e [] = e ∷ []
  insert_after e (x ∷ xs) = if less e x then e ∷ x ∷ xs else x ∷ insert_after e xs

  insert_all : List A → List A → List A
  insert_all done [] = done
  insert_all done (e ∷ xs) = insert_all (insert_after e done) xs

  sift_down-cons :
      (k : ℕ) (x : A) (xs : List A) → sift_down (suc k) (x ∷ xs) ≡ swap_at 0 (x ∷ sift_down k xs)
  unfolding sift_down swap_at
  sift_down-cons zero x xs = refl
  sift_down-cons (suc k) x xs = sift_down-cons k x (swap_at k xs)

  insert_after-perm : (e : A) (xs : List A) → Perm (insert_after e xs) (e ∷ xs)
  unfolding insert_after
  insert_after-perm e [] = Perm.rfl
  insert_after-perm e (x ∷ xs) = elim (Bool-cases (less e x)) [
    | inl before ↦ rw before Perm.rfl
    | inr after ↦ rw after (Perm.trans (Perm.cons x (insert_after-perm e xs)) (Perm.swap e x xs))
  ]

  length-insert_after : (e : A) (xs : List A) → length (insert_after e xs) ≡ suc (length xs)
  unfolding insert_after
  length-insert_after e [] = refl
  length-insert_after e (x ∷ xs) = ground (arith, length-insert_after e xs)

  insert_after-All {κ} :
      (P : A → Type κ) (e : A) (xs : List A) → P e → All P xs → All P (insert_after e xs)
  unfolding insert_after
  insert_after-All P e [] p h = (p, tt)
  insert_after-All P e (x ∷ xs) p h = elim (Bool-cases (less e x)) [
    | inl before ↦ rw before (p, h)
    | inr after ↦ rw after (h.0, insert_after-All P e xs p h.1)
  ]

  insert_all-cons :
      (done : List A) (e : A) (xs : List A)
      → insert_all done (e ∷ xs) ≡ insert_all (insert_after e done) xs
  unfolding insert_all
  insert_all-cons done e xs = refl

  sort_rounds-suc :
      (n i : ℕ) (xs : List A) → sort_rounds (suc n) i xs ≡ sort_rounds n (suc i) (sift_down i xs)
  unfolding sort_rounds
  sort_rounds-suc n i xs = refl

  insert_all-perm : (done xs : List A) → Perm (insert_all done xs) (done ++ xs)
  insert_all-perm done [] = unfold insert_all in rw (append-nil done) Perm.rfl
  insert_all-perm done (e ∷ xs) = rw (insert_all-cons done e xs) (
      Perm.trans (insert_all-perm (insert_after e done) xs) (
        Perm.trans (Perm.append_right xs (insert_after-perm e done))
          (Perm.symm (perm_middle done xs))))

module _ {κ} {A : Type 0} (P : A → Type κ) (key : A → ℕ) (less : A → A → Bool)
    (compares : Compares P key less) where
  -- The head of a sorted list stays in front of an insertion, or the new element passes it too.
  swap-insert_after :
      (e x : A) (pre post : List A)
      → P e
      → P x
      → All P pre
      → IsSorted key (x ∷ pre)
      → swap_at less 0 (x ∷ (insert_after less e pre ++ post))
        ≡ insert_after less e (x ∷ pre) ++ post
  unfolding swap_at insert_after
  swap-insert_after e x [] post pe px h s = ground arith
  swap-insert_after e x (z ∷ pre) post pe px h s =
      ground (arith, compares e x pe px, compares e z pe h.0, compares z x h.0 px, s.0.0)

  sift_down-insert_after :
      (e : A) (pre post : List A)
      → P e
      → All P pre
      → IsSorted key pre
      → sift_down less (length pre) (pre ++ e ∷ post) ≡ insert_after less e pre ++ post
  sift_down-insert_after e [] post pe h s = unfold sift_down insert_after in refl
  sift_down-insert_after e (x ∷ pre) post pe h s =
      sift_down-cons less (length pre) x (pre ++ e ∷ post)
      ∙ ap (λ ys. swap_at less 0 (x ∷ ys)) (sift_down-insert_after e pre post pe h.1 s.1)
      ∙ swap-insert_after e x pre post pe h.0 h.1 s

  insert_after-IsSorted :
      (e : A) (xs : List A)
      → P e
      → All P xs
      → IsSorted key xs
      → IsSorted key (insert_after less e xs)
  unfolding insert_after
  insert_after-IsSorted e [] p h s = (tt, tt)
  insert_after-IsSorted e (x ∷ xs) p h s = elim (Bool-cases (less e x)) [
    | inl before ↦
        let le : key e ≤ key x = ground (arith, compares e x p h.0) in
        rw before ((le, IsBelow-trans key e x xs le s.0), s)
    | inr after ↦
        let le : key x ≤ key e = ground (arith, compares e x p h.0) in
        rw after (
          insert_after-All less (λ z. key x ≤ key z) e xs le s.0,
          insert_after-IsSorted e xs p h.1 s.1,
        )
  ]

  insert_all-IsSorted :
      (done xs : List A)
      → All P done
      → All P xs
      → IsSorted key done
      → IsSorted key (insert_all less done xs)
  unfolding insert_all
  insert_all-IsSorted done [] hd h s = s
  insert_all-IsSorted done (e ∷ xs) hd h s =
      insert_all-IsSorted (insert_after less e done) xs (insert_after-All less P e done h.0 hd) h.1
        (insert_after-IsSorted e done h.0 hd s)

  sort_rounds-insert_all :
      (pre post : List A)
      → All P pre
      → All P post
      → IsSorted key pre
      → sort_rounds less (length post) (length pre) (pre ++ post) ≡ insert_all less pre post
  sort_rounds-insert_all pre [] hp h s = unfold sort_rounds insert_all in append-nil pre
  sort_rounds-insert_all pre (e ∷ post) hp h s =
      sort_rounds-suc less (length post) (length pre) (pre ++ e ∷ post)
      ∙ ap₂ (sort_rounds less (length post)) (sym (length-insert_after less e pre))
          (sift_down-insert_after e pre post h.0 hp s)
      ∙ sort_rounds-insert_all (insert_after less e pre) post (insert_after-All less P e pre h.0 hp)
          h.1 (insert_after-IsSorted e pre h.0 hp s)
      ∙ sym (insert_all-cons less pre e post)

  sort_in_place-insert_all :
      (xs : List A) → All P xs → sort_in_place less xs ≡ insert_all less [] xs
  unfolding sort_in_place
  sort_in_place-insert_all [] h = unfold sort_rounds insert_all in refl
  sort_in_place-insert_all (x ∷ xs) h =
      ap (λ n. sort_rounds less n 1 (x ∷ xs)) {x = suc (length xs) - 1} {y = length xs}
        (omega arith)
      ∙ sort_rounds-insert_all (x ∷ []) xs (h.0, tt) h.1 (tt, tt)
      ∙ (unfold insert_all insert_after in refl)

  -- The two nested loops of `addCandidates` sort, for a test that compares the keys of the elements
  -- at hand: the result is sorted by the key, and a rearrangement of the input.
  pub sort_in_place_sorts :
      (xs : List A)
      → All P xs
      → IsSorted key (sort_in_place less xs) × Perm (sort_in_place less xs) xs
  sort_in_place_sorts xs h =
      rw (sort_in_place-insert_all xs h)
        (insert_all-IsSorted [] xs tt h tt, insert_all-perm less [] xs)
