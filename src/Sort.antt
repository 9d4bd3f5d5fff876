-- ===== src/Sort.antt =====
-- `sort.Slice` of Go's library, and lists that a numeric key orders.
-- Its order of equal elements is not specified; here it is an insertion sort. The callers sort
-- contacts of distinct identifiers, which have distinct distances to a target.
pub mod Bubble
use mathlib.Core.List.{Perm}
use mathlib.Core.List.Perm
use mesh_net.Base.{
  ℕ, zero, suc, ◌+◌, ◌≤◌, ◌<◌, ◌≡◌, refl, ap, Bool, true, false, ltb, if◌then◌else◌, List, [], ◌∷◌,
  ◌++◌, length, take, drop, All, arith, inl, inr, Bool-cases,
}

module _ {A : Type 0} (less : A → A → Bool) where
  pub insert_sorted : A → List A → List A
  insert_sorted x [] = x ∷ []
  insert_sorted x (y ∷ ys) = if less y x then y ∷ insert_sorted x ys else x ∷ y ∷ ys

  unfoldable pub sort_slice : List A → List A
  unfolding insert_sorted
  sort_slice [] = []
  sort_slice (x ∷ xs) = insert_sorted x (sort_slice xs)

  insert_sorted-perm : (x : A) (ys : List A) → Perm (insert_sorted x ys) (x ∷ ys)
  unfolding insert_sorted
  insert_sorted-perm x [] = Perm.rfl
  insert_sorted-perm x (y ∷ ys) = elim (Bool-cases (less y x)) [
    | inl before ↦ rw before (Perm.trans (Perm.cons y (insert_sorted-perm x ys)) (Perm.swap x y ys))
    | inr after ↦ rw after Perm.rfl
  ]

  pub sort_slice-perm : (xs : List A) → Perm (sort_slice xs) xs
  sort_slice-perm [] = unfold sort_slice in Perm.rfl
  sort_slice-perm (x ∷ xs) = Perm.trans (step x xs) (Perm.cons x (sort_slice-perm xs))
    where
      step : (x : A) (xs : List A) → Perm (sort_slice (x ∷ xs)) (x ∷ sort_slice xs)
      step x xs = unfold sort_slice in insert_sorted-perm x (sort_slice xs)

  length-insert_sorted : (x : A) (ys : List A) → length (insert_sorted x ys) ≡ suc (length ys)
  unfolding insert_sorted
  length-insert_sorted x [] = refl
  length-insert_sorted x (y ∷ ys) = ground (arith, length-insert_sorted x ys)

  pub length-sort_slice : (xs : List A) → length (sort_slice xs) ≡ length xs
  unfolding sort_slice
  length-sort_slice [] = refl
  length-sort_slice (x ∷ xs) =
      omega (arith, length-insert_sorted x (sort_slice xs), length-sort_slice xs)

  module _ {κ} (P : A → Type κ) where
    insert_sorted-All : (x : A) (ys : List A) → P x → All P ys → All P (insert_sorted x ys)
    unfolding insert_sorted
    insert_sorted-All x [] p h = (p, tt)
    insert_sorted-All x (y ∷ ys) p h = elim (Bool-cases (less y x)) [
      | inl before ↦ rw before (h.0, insert_sorted-All x ys p h.1)
      | inr after ↦ rw after (p, h)
    ]

    pub sort_slice-All : (xs : List A) → All P xs → All P (sort_slice xs)
    unfolding sort_slice
    sort_slice-All [] h = tt
    sort_slice-All (x ∷ xs) h = insert_sorted-All x (sort_slice xs) h.0 (sort_slice-All xs h.1)

module _ {A : Type 0} (key : A → ℕ) where
  abbrev pub IsSorted : List A → Type 0
  IsSorted [] = Unit
  IsSorted (x ∷ xs) = All (λ y. key x ≤ key y) xs × IsSorted xs

  pub IsBelow-trans :
      (x y : A) (xs : List A)
      → key x ≤ key y
      → All (λ z. key y ≤ key z) xs
      → All (λ z. key x ≤ key z) xs
  IsBelow-trans x y [] h k = tt
  IsBelow-trans x y (z ∷ xs) h k = (omega arith, IsBelow-trans x y xs h k.1)

  pub IsSorted-take : (n : ℕ) (xs : List A) → IsSorted xs → IsSorted (take n xs)
  IsSorted-take zero xs h = tt
  IsSorted-take (suc n) [] h = tt
  IsSorted-take (suc n) (x ∷ xs) h = (below n xs h.0, IsSorted-take n xs h.1)
    where
      below :
          (n : ℕ) (xs : List A) → All (λ y. key x ≤ key y) xs → All (λ y. key x ≤ key y) (take n xs)
      below zero xs h = tt
      below (suc n) [] h = tt
      below (suc n) (y ∷ xs) h = (h.0, below n xs h.1)

  -- What is cut off is no nearer than what is kept.
  pub take-le-drop :
      (n : ℕ) (xs : List A)
      → IsSorted xs
      → All (λ x. All (λ y. key x ≤ key y) (drop n xs)) (take n xs)
  take-le-drop zero xs h = tt
  take-le-drop (suc n) [] h = tt
  take-le-drop (suc n) (x ∷ xs) h = (below n xs h.0, take-le-drop n xs h.1)
    where
      below :
          (n : ℕ) (xs : List A) → All (λ y. key x ≤ key y) xs → All (λ y. key x ≤ key y) (drop n xs)
      below zero xs h = h
      below (suc n) [] h = tt
      below (suc n) (y ∷ xs) h = below n xs h.1

-- A test that compares keys, on the elements that satisfy `P`.
abbrev pub Compares {κ} : {A : Type 0} → (A → Type κ) → (A → ℕ) → (A → A → Bool) → Type κ
Compares {A} P key less = (x y : A) → P x → P y → less x y ≡ ltb (key x) (key y)

module _ {κ} {A : Type 0} (P : A → Type κ) (key : A → ℕ) (less : A → A → Bool)
    (compares : Compares P key less) where
  insert_sorted-IsSorted :
      (x : A) (ys : List A)
      → P x
      → All P ys
      → IsSorted key ys
      → IsSorted key (insert_sorted less x ys)
  unfolding insert_sorted
  insert_sorted-IsSorted x [] p h s = (tt, tt)
  insert_sorted-IsSorted x (y ∷ ys) p h s = elim (Bool-cases (less y x)) [
    | inl before ↦ rw before (
      insert_sorted-All less (λ z. key y ≤ key z) x ys (ground (arith, compares y x h.0 p)) s.0,
      insert_sorted-IsSorted x ys p h.1 s.1,
    )
    | inr after ↦
        let le : key x ≤ key y = ground (arith, compares y x h.0 p) in
        rw after ((le, IsBelow-trans key x y ys le s.0), s)
  ]

  pub sort_slice-IsSorted : (xs : List A) → All P xs → IsSorted key (sort_slice less xs)
  unfolding sort_slice
  sort_slice-IsSorted [] h = tt
  sort_slice-IsSorted (x ∷ xs) h =
      insert_sorted-IsSorted x (sort_slice less xs) h.0 (sort_slice-All less P xs h.1)
        (sort_slice-IsSorted xs h.1)
