-- ===== src/Dht/Contact/Rearranged.antt =====
-- What a rearrangement of a list of contacts keeps: its identifiers, and that they are distinct.
use mathlib.Core.List.{Perm, Permᴰ}
use mathlib.Core.Logic.{∥∥₁_elim}
use mathlib.Core.Bool.{Bool-set}
use mathlib.Core.Path.{subst, subst₂}
use mesh_net.Base.{◌≡◌, refl, ap, sym, ◌∙◌, List, [], ◌∷◌, All, bytes_eq, bytes_eq_sym, arith}
use mesh_net.Dht.NodeId.{NodeId}
use mesh_net.Dht.Contact.{Contact, has_id, HasDistinctIds}

has_id-permᴰ : (q : NodeId) {xs ys : List Contact} → Permᴰ xs ys → has_id q xs ≡ has_id q ys
unfolding has_id
has_id-permᴰ q Permᴰ.nil = refl
has_id-permᴰ q (Permᴰ.cons {a} {b} {l₁} {l₂} e p) =
    ground (arith, has_id-permᴰ q p, ap (λ (c : Contact). bytes_eq c.id q) e)
has_id-permᴰ q (Permᴰ.swap {a} {b} {a'} {b'} {l} e f) =
    ground (arith, ap (λ (c : Contact). bytes_eq c.id q) e, ap (λ (c : Contact). bytes_eq c.id q) f)
has_id-permᴰ q (Permᴰ.trans p r) = has_id-permᴰ q p ∙ has_id-permᴰ q r

swapped :
    (a b : Contact) (l : List Contact) → HasDistinctIds (a ∷ b ∷ l) → HasDistinctIds (b ∷ a ∷ l)
unfolding has_id
swapped a b l h = (ground (arith, h.0, h.1.0, bytes_eq_sym a.id b.id), (ground (arith, h.0), h.1.1))

HasDistinctIds-permᴰ : {xs ys : List Contact} → Permᴰ xs ys → HasDistinctIds xs → HasDistinctIds ys
HasDistinctIds-permᴰ Permᴰ.nil h = h
HasDistinctIds-permᴰ (Permᴰ.cons {a} {b} {l₁} {l₂} e p) h = (
  ap (λ (c : Contact). has_id c.id l₂) (sym e) ∙ sym (has_id-permᴰ a.id p) ∙ h.0,
  HasDistinctIds-permᴰ p h.1,
)
HasDistinctIds-permᴰ (Permᴰ.swap {a} {b} {a'} {b'} {l} e f) h =
    subst₂ (λ x y. HasDistinctIds (x ∷ y ∷ l)) f e (swapped a b l h)
HasDistinctIds-permᴰ (Permᴰ.trans p r) h = HasDistinctIds-permᴰ r (HasDistinctIds-permᴰ p h)

pub All-permᴰ {κ} :
    {A : Type 0} (P : A → Type κ) {xs ys : List A} → Permᴰ xs ys → All P xs → All P ys
All-permᴰ P Permᴰ.nil h = h
All-permᴰ P (Permᴰ.cons e p) h = (subst P e h.0, All-permᴰ P p h.1)
All-permᴰ P (Permᴰ.swap e f) h = (subst P f h.1.0, (subst P e h.0, h.1.1))
All-permᴰ P (Permᴰ.trans p r) h = All-permᴰ P r (All-permᴰ P p h)

pub has_id-perm : (q : NodeId) (xs ys : List Contact) → Perm xs ys → has_id q xs ≡ has_id q ys
has_id-perm q xs ys p = ∥∥₁_elim p (Bool-set _ _) (λ d. has_id-permᴰ q d)

HasDistinctIds-prop : (xs : List Contact) → IsProp (HasDistinctIds xs)
HasDistinctIds-prop [] = hlevel
HasDistinctIds-prop (x ∷ xs) = hlevel (HasDistinctIds-prop xs)

pub HasDistinctIds-perm :
    (xs ys : List Contact) → Perm xs ys → HasDistinctIds xs → HasDistinctIds ys
HasDistinctIds-perm xs ys p h = ∥∥₁_elim p (HasDistinctIds-prop ys) (λ d. HasDistinctIds-permᴰ d h)

All-prop {κ} :
    (P : Contact → Type κ)
    → ((c : Contact) → IsProp (P c))
    → (xs : List Contact) → IsProp (All P xs)
All-prop P h [] = hlevel
All-prop P h (x ∷ xs) = hlevel (h x, All-prop P h xs)

pub All-perm {κ} :
    (P : Contact → Type κ) (xs ys : List Contact)
    → ((c : Contact) → IsProp (P c))
    → Perm xs ys
    → All P xs
    → All P ys
All-perm P xs ys prop p h = ∥∥₁_elim p (All-prop P prop ys) (λ d. All-permᴰ P d h)
