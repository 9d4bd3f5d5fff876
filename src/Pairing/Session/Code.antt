-- ===== src/Pairing/Session/Code.antt =====
-- The codes and keys of pairing/pairing.go.
use mesh_net.Base.{
  ℕ, zero, suc, ◌%◌, ◌<◌, ◌≡◌, ◌≢◌, refl, sym, ap, ap₂, ◌∙◌, ◌↔◌, Option, none, Bool, true, false,
  not, ◌&&◌, ◌||◌, ◌==◌, some, [], ◌∷◌, ◌++◌, map, length, get_or, Bytes, codes, All, arith,
  length-append,
}
use mesh_net.Outcome.{ok}
use mesh_net.Pairing.Session.{charset, code_char, generate_code, pairing_response_key}

abbrev is_member : ℕ → Bytes → Bool
is_member x [] = false
is_member x (y ∷ ys) = x == y || is_member x ys

abbrev is_distinct : Bytes → Bool
is_distinct [] = true
is_distinct (x ∷ xs) = not (is_member x xs) && is_distinct xs

head_eq : {x y : ℕ} (xs ys : Bytes) → x ∷ xs ≡ y ∷ ys → x ≡ y
head_eq xs ys e = cc

tail_eq : {x y : ℕ} (xs ys : Bytes) → x ∷ xs ≡ y ∷ ys → xs ≡ ys
tail_eq xs ys e = cc

is_member-get_or : (xs : Bytes) (i : ℕ) → i < length xs → is_member (get_or xs i 0) xs ≡ true
is_member-get_or [] i h = absurd (omega arith)
is_member-get_or (x ∷ xs) zero h = ground arith
is_member-get_or (x ∷ xs) (suc i) h = ground (arith, is_member-get_or xs i)

get_or-injective :
    (xs : Bytes) (i j : ℕ)
    → is_distinct xs ≡ true
    → i < length xs
    → j < length xs
    → get_or xs i 0 ≡ get_or xs j 0
    → i ≡ j
get_or-injective [] i j d h k e = absurd (omega arith)
get_or-injective (x ∷ xs) zero zero d h k e = refl
get_or-injective (x ∷ xs) zero (suc j) d h k e = absurd (ground (arith, is_member-get_or xs j))
get_or-injective (x ∷ xs) (suc i) zero d h k e = absurd (ground (arith, is_member-get_or xs i))
get_or-injective (x ∷ xs) (suc i) (suc j) d h k e =
    ap suc (get_or-injective xs i j (ground arith) (omega arith) (omega arith) e)

code_char-injective : (v w : ℕ) → code_char v ≡ code_char w → v % 32 ≡ w % 32
code_char-injective v w e =
    get_or-injective charset (v % 32) (w % 32) refl (omega arith) (omega arith) e

code_char-congruent : (v w : ℕ) → v % 32 ≡ w % 32 → code_char v ≡ code_char w
code_char-congruent v w e = ap (λ i. get_or charset i 0) e

chars-injective :
    (a b : Bytes) → map code_char a ≡ map code_char b → map (λ v. v % 32) a ≡ map (λ v. v % 32) b
chars-injective [] [] e = refl
chars-injective [] (w ∷ b) e = cc
chars-injective (v ∷ a) [] e = cc
chars-injective (v ∷ a) (w ∷ b) e =
    ap₂ ◌∷◌ (code_char-injective v w (head_eq _ _ e)) (chars-injective a b (tail_eq _ _ e))

chars-congruent :
    (a b : Bytes) → map (λ v. v % 32) a ≡ map (λ v. v % 32) b → map code_char a ≡ map code_char b
chars-congruent [] [] e = refl
chars-congruent [] (w ∷ b) e = cc
chars-congruent (v ∷ a) [] e = cc
chars-congruent (v ∷ a) (w ∷ b) e =
    ap₂ ◌∷◌ (code_char-congruent v w (head_eq _ _ e)) (chars-congruent a b (tail_eq _ _ e))

-- A character of a code: of the set, and no letter or digit that looks like another one.
abbrev pub IsCodeChar : ℕ → Type 0
IsCodeChar c = (is_member c charset ≡ true) × (c ≢ b'I') × (c ≢ b'O') × (c ≢ b'0') × (c ≢ b'1')

true_apart : true ≢ false
true_apart e = cc

code_char-IsCodeChar : (v : ℕ) → IsCodeChar (code_char v)
code_char-IsCodeChar v =
    let here : is_member (code_char v) charset ≡ true =
      is_member-get_or charset (v % 32) (omega arith) in
    (here, other b'I' refl here, other b'O' refl here, other b'0' refl here, other b'1' refl here)
  where
    other :
        (x : ℕ)
        → is_member x charset ≡ false
        → is_member (code_char v) charset ≡ true
        → code_char v ≢ x
    other x h here e = true_apart (sym here ∙ ap (λ y. is_member y charset) e ∙ h)

chars-IsCodeChar : (b : Bytes) → All IsCodeChar (map code_char b)
chars-IsCodeChar [] = tt
chars-IsCodeChar (v ∷ b) = (code_char-IsCodeChar v, chars-IsCodeChar b)

length-chars : (b : Bytes) → length (map code_char b) ≡ length b
length-chars [] = refl
length-chars (v ∷ b) = ap suc (length-chars b)

-- Whatever random bytes are read, `GenerateCode` returns "MESH-" and one character for each of
-- them, from its set and none of I, O, 0 and 1; and two readings give the same code exactly if they
-- agree byte by byte modulo 32, so that each character is the image of eight of the 256 bytes.
pub generate_code-IsCode :
    (a b : Bytes)
    → ((chars : Bytes) × (generate_code (some a) ≡ ok (codes "MESH-" ++ chars))
        × (length chars ≡ length a)
        × All IsCodeChar chars)
      × ((generate_code (some a) ≡ generate_code (some b))
          ↔ (map (λ v. v % 32) a ≡ map (λ v. v % 32) b))
unfolding generate_code
generate_code-IsCode a b = (
  (map code_char a, refl, length-chars a, chars-IsCodeChar a),
  (
    λ e. chars-injective a b (codes_eq _ _ e),
    λ same. ap (λ cs. ok (codes "MESH-" ++ cs)) (chars-congruent a b same),
  ),
)
  where
    codes_eq : (xs ys : Bytes) → ok (codes "MESH-" ++ xs) ≡ ok (codes "MESH-" ++ ys) → xs ≡ ys
    codes_eq xs ys e = cc

append-injective : (xs ys zs ws : Bytes) → length xs ≡ length ys → xs ++ zs ≡ ys ++ ws → xs ≡ ys
append-injective [] [] zs ws h e = refl
append-injective [] (y ∷ ys) zs ws h e = absurd (omega (arith, h))
append-injective (x ∷ xs) [] zs ws h e = absurd (omega (arith, h))
append-injective (x ∷ xs) (y ∷ ys) zs ws h e =
    ap₂ ◌∷◌ (head_eq _ _ e) (append-injective xs ys zs ws (omega (arith, h)) (tail_eq _ _ e))

-- The key of a response tells the code that it answers, and is never a code of `GenerateCode`
-- itself, so that the record of the response does not stand under the name of the record that it
-- answers, nor under that of another session.
pub pairing_response_key_apart :
    (random : Option Bytes) (code other : Bytes)
    → generate_code random ≡ ok code
    → (pairing_response_key other ≢ code)
      × (pairing_response_key other ≡ pairing_response_key code → other ≡ code)
unfolding generate_code pairing_response_key
pairing_response_key_apart none code other h = cc
pairing_response_key_apart (some b) code other h =
    (λ e. apart (e ∙ code_eq _ _ (sym h)), λ e. same_code other code (cc))
  where
    code_eq : (xs ys : Bytes) → ok xs ≡ ok ys → xs ≡ ys
    code_eq xs ys e = cc

    apart : {xs ys : Bytes} → codes "pair:" ++ xs ≢ codes "MESH-" ++ ys
    apart e = absurd (omega (arith, head_eq _ _ e))

    same_code : (xs ys : Bytes) → xs ++ codes ":response" ≡ ys ++ codes ":response" → xs ≡ ys
    same_code xs ys e =
        append-injective xs ys (codes ":response") (codes ":response")
          (omega (
            arith,
            ap length e,
            length-append xs (codes ":response"),
            length-append ys (codes ":response"),
          ))
          e
