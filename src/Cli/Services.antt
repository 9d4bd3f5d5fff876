-- ===== src/Cli/Services.antt =====
-- The list of services of `cmdStart` in cli/cli.go.
use mesh_net.Base.{
  ℕ, suc, ◌≡◌, refl, sym, ap, ◌∙◌, true, false, ◌==◌, if◌then◌else◌, List, [], ◌∷◌, ◌++◌,
  append-nil, append_assoc, length, length-append, take, drop, get_or, Bytes, bytes_eq, arith,
  Bool-cases, inl, inr,
}
use mesh_net.Cli.{slice, append_service, services_loop, listed, service_list}

abbrev extend : ℕ → List Bytes → List Bytes
extend x [] = (x ∷ []) ∷ []
extend x (p ∷ ps) = (x ∷ p) ∷ ps

-- The pieces of a text between its commas, the empty ones included.
unfoldable pub pieces : Bytes → List Bytes
pieces [] = [] ∷ []
pieces (c ∷ s) = let rest = pieces s in if c == b',' then [] ∷ rest else extend c rest

-- The texts of a list that are not empty.
unfoldable pub nonempty : List Bytes → List Bytes
nonempty [] = []
nonempty ([] ∷ ps) = nonempty ps
nonempty ((x ∷ p) ∷ ps) = (x ∷ p) ∷ nonempty ps

-- A text in front of the first piece.
abbrev onto : Bytes → List Bytes → List Bytes
onto cur [] = cur ∷ []
onto cur (p ∷ ps) = (cur ++ p) ∷ ps

onto-nil : (s : Bytes) → onto [] (pieces s) ≡ pieces s
unfolding pieces
onto-nil [] = refl
onto-nil (c ∷ s) = go (pieces s)
  where
    go :
        (ps : List Bytes)
        → onto [] (if c == b',' then [] ∷ ps else extend c ps)
          ≡ (if c == b',' then [] ∷ ps else extend c ps)
    go [] = ground arith
    go (p ∷ ps) = ground arith

onto-extend :
    (cur : Bytes) (c : ℕ) (ps : List Bytes) → onto cur (extend c ps) ≡ onto (cur ++ c ∷ []) ps
onto-extend cur c [] = refl
onto-extend cur c (p ∷ ps) = ap (λ q. q ∷ ps) (sym (append_assoc cur (c ∷ []) p))

nonempty-cons :
    (acc : List Bytes) (cur : Bytes) (ps : List Bytes)
    → acc ++ nonempty (cur ∷ ps) ≡ append_service acc cur ++ nonempty ps
unfolding nonempty
nonempty-cons acc [] ps = refl
nonempty-cons acc (x ∷ cur) ps = sym (append_assoc acc ((x ∷ cur) ∷ []) (nonempty ps))

take-append : (xs ys : Bytes) → take (length xs) (xs ++ ys) ≡ xs
take-append [] ys = refl
take-append (x ∷ xs) ys = ap (◌∷◌ x) (take-append xs ys)

drop-append : (xs ys : Bytes) → drop (length xs) (xs ++ ys) ≡ ys
drop-append [] ys = refl
drop-append (x ∷ xs) ys = drop-append xs ys

get_or-append : (xs ys : Bytes) (y : ℕ) → get_or (xs ++ y ∷ ys) (length xs) 0 ≡ y
get_or-append [] ys y = refl
get_or-append (x ∷ xs) ys y = get_or-append xs ys y

slice-middle :
    (pre cur rest : Bytes) → slice ((pre ++ cur) ++ rest) (length pre) (length (pre ++ cur)) ≡ cur
slice-middle pre cur rest = rw (take-append (pre ++ cur) rest) (drop-append pre cur)

-- One turn of the loop, at the end of what was read so far.
turn-end :
    (pre cur : Bytes) (acc : List Bytes)
    → services_loop 1 ((pre ++ cur) ++ []) (length (pre ++ cur)) (length pre) acc
      ≡ append_service acc cur
unfolding services_loop
turn-end pre cur acc =
    let last : (length (pre ++ cur) == length ((pre ++ cur) ++ [])) ≡ true =
      ground (arith, length-append (pre ++ cur) []) in
    rw (last, slice-middle pre cur []) refl

turn-comma :
    (n : ℕ) (pre cur rest : Bytes) (acc : List Bytes)
    → services_loop (suc n) ((pre ++ cur) ++ b',' ∷ rest) (length (pre ++ cur)) (length pre) acc
      ≡ services_loop n
          ((pre ++ cur) ++ b',' ∷ rest)
          (suc (length (pre ++ cur)))
          (suc (length (pre ++ cur)))
          (append_service acc cur)
unfolding services_loop
turn-comma n pre cur rest acc =
    let inside : (length (pre ++ cur) == length ((pre ++ cur) ++ b',' ∷ rest)) ≡ false =
      ground (arith, length-append (pre ++ cur) (b',' ∷ rest)) in
    rw (inside, get_or-append (pre ++ cur) rest b',', slice-middle pre cur (b',' ∷ rest)) refl

turn-other :
    (n : ℕ) (pre cur rest : Bytes) (c : ℕ) (acc : List Bytes)
    → (c == b',') ≡ false
    → services_loop (suc n) ((pre ++ cur) ++ c ∷ rest) (length (pre ++ cur)) (length pre) acc
      ≡ services_loop n ((pre ++ cur) ++ c ∷ rest) (suc (length (pre ++ cur))) (length pre) acc
unfolding services_loop
turn-other n pre cur rest c acc other =
    let inside : (length (pre ++ cur) == length ((pre ++ cur) ++ c ∷ rest)) ≡ false =
      ground (arith, length-append (pre ++ cur) (c ∷ rest)) in
    rw (inside, get_or-append (pre ++ cur) rest c, other) refl

pieces-comma : (s : Bytes) → pieces (b',' ∷ s) ≡ [] ∷ pieces s
unfolding pieces
pieces-comma s = refl

pieces-other : (c : ℕ) (s : Bytes) → (c == b',') ≡ false → pieces (c ∷ s) ≡ extend c (pieces s)
unfolding pieces
pieces-other c s h = rw h refl

moved : (pre cur rest : Bytes) (c : ℕ) → (pre ++ cur) ++ c ∷ rest ≡ (pre ++ (cur ++ c ∷ [])) ++ rest
moved pre cur rest c =
    sym (append_assoc (pre ++ cur) (c ∷ []) rest)
    ∙ ap (λ q. q ++ rest) (append_assoc pre cur (c ∷ []))

longer : (pre cur : Bytes) (c : ℕ) → suc (length (pre ++ cur)) ≡ length (pre ++ (cur ++ c ∷ []))
longer pre cur c =
    omega
      (arith, length-append pre cur, length-append pre (cur ++ c ∷ []), length-append cur (c ∷ []))

last_piece :
    (acc : List Bytes) (cur : Bytes)
    → acc ++ nonempty (onto cur (pieces [])) ≡ append_service acc cur
unfolding pieces nonempty
last_piece acc cur =
    ap (λ q. acc ++ nonempty (q ∷ [])) (append-nil cur)
    ∙ nonempty-cons acc cur []
    ∙ append-nil (append_service acc cur)

-- The loop from a place on, where `cur` is what was read since the last comma.
services_loop-pieces :
    (rest pre cur : Bytes) (acc : List Bytes) (s : Bytes) (i start : ℕ)
    → s ≡ (pre ++ cur) ++ rest
    → i ≡ length (pre ++ cur)
    → start ≡ length pre
    → services_loop (suc (length rest)) s i start acc ≡ acc ++ nonempty (onto cur (pieces rest))
services_loop-pieces [] pre cur acc s i start e f g =
    rw (e, f, g) (turn-end pre cur acc) ∙ sym (last_piece acc cur)
services_loop-pieces (c ∷ rest) pre cur acc s i start e f g = elim (Bool-cases (c == b',')) [
  | inl comma ↦
      let same : c ≡ b',' = ground (arith, comma) in
      rw (e, f, g, same) (turn-comma (suc (length rest)) pre cur rest acc)
      ∙ services_loop-pieces rest (pre ++ (cur ++ b',' ∷ [])) [] (append_service acc cur)
          ((pre ++ cur) ++ b',' ∷ rest) (suc (length (pre ++ cur))) (suc (length (pre ++ cur)))
          (moved pre cur rest b',' ∙ ap (λ q. q ++ rest) (sym (append-nil _)))
          (longer pre cur b',' ∙ ap length (sym (append-nil (pre ++ (cur ++ b',' ∷ [])))))
          (longer pre cur b',')
      ∙ ap (λ ps. append_service acc cur ++ nonempty ps) (onto-nil rest)
      ∙ sym (nonempty-cons acc cur (pieces rest))
      ∙ ap (λ ps. acc ++ nonempty ps)
          (ap (λ q. q ∷ pieces rest) (sym (append-nil cur))
            ∙ ap (onto cur) (sym (ap (λ x. pieces (x ∷ rest)) same ∙ pieces-comma rest)))
  | inr other ↦
      rw (e, f, g) (turn-other (suc (length rest)) pre cur rest c acc other)
      ∙ services_loop-pieces rest pre (cur ++ c ∷ []) acc ((pre ++ cur) ++ c ∷ rest)
          (suc (length (pre ++ cur))) (length pre) (moved pre cur rest c) (longer pre cur c) refl
      ∙ ap (λ ps. acc ++ nonempty ps)
          (sym (onto-extend cur c (pieces rest)) ∙ ap (onto cur) (sym (pieces-other c rest other)))
]

-- `cmdStart` lists as services the pieces of its text between commas that are not empty, in their
-- order, and leaves the list nil if there is none.
pub service_list-pieces :
    (services : Bytes) → service_list services ≡ listed (nonempty (pieces services))
unfolding service_list bytes_eq
service_list-pieces [] = unfold pieces nonempty in refl
service_list-pieces (x ∷ s) =
    let services = x ∷ s in
    ap listed (
      services_loop-pieces services [] [] [] services 0 0 refl refl refl
      ∙ ap nonempty (onto-nil services))
