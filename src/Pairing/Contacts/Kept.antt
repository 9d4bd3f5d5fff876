-- ===== src/Pairing/Contacts/Kept.antt =====
-- The contact book of pairing/contacts.go as a map: what `Add` and `LoadContacts` keep, and what the
-- searches find, whatever the order of a `range` loop.
use mathlib.Core.List.{Permᴰ}
use mathlib.Core.Path.{subst, subst₂}
use mesh_net.Base.{
  ◌≡◌, refl, sym, ap, ap₂, ◌∙◌, Bool, true, false, ◌||◌, if◌then◌else◌, some, inl, inr, List, [],
  ◌∷◌, Bytes, bytes_eq, bytes_eq_iff, bytes_eq_sym, lookup, insert, lookup-insert, All, arith,
  Bool-cases,
}
use mesh_net.Pairing.Contacts.{Contact, ContactBook, Range, add, fill}

abbrev pub Entries : Type 0
Entries = List (Bytes × Contact)

unfoldable pub has_key : Bytes → Entries → Bool
has_key k [] = false
has_key k ((j, c) ∷ m) = bytes_eq j k || has_key k m

abbrev pub HasDistinctKeys : Entries → Type 0
HasDistinctKeys [] = Unit
HasDistinctKeys ((k, c) ∷ m) = (has_key k m ≡ false) × HasDistinctKeys m

abbrev pub IsKeyed : (Bytes × Contact) → Type 0
IsKeyed e = e.1.public_key ≡ e.0

-- Each entry stands under the public key of its contact, one for each key.
pub record IsBook (m : Entries) : Type 0 where
  pub keyed : All IsKeyed m
  pub distinct : HasDistinctKeys m

-- A `range` loop visits each entry once.
abbrev pub Visits : Range → Type 0
Visits range = (m : Entries) → Permᴰ m (range m)

has_key-insert :
    (k j : Bytes) (c : Contact) (m : Entries)
    → has_key j (insert k c m) ≡ (bytes_eq k j || has_key j m)
unfolding has_key insert
has_key-insert k j c [] = refl
has_key-insert k j c ((i, d) ∷ m) =
    ground (arith, bytes_eq_iff k j, bytes_eq_iff i k, bytes_eq_iff i j, has_key-insert k j c m)

insert-IsKeyed : (c : Contact) (m : Entries) → All IsKeyed m → All IsKeyed (insert c.public_key c m)
unfolding insert
insert-IsKeyed c [] h = (refl, tt)
insert-IsKeyed c ((j, d) ∷ m) h = elim (Bool-cases (bytes_eq j c.public_key)) [
  | inl same ↦ rw same (refl, h.1)
  | inr other ↦ rw other (h.0, insert-IsKeyed c m h.1)
]

insert-HasDistinctKeys :
    (k : Bytes) (c : Contact) (m : Entries) → HasDistinctKeys m → HasDistinctKeys (insert k c m)
unfolding insert has_key
insert-HasDistinctKeys k c [] h = (refl, tt)
insert-HasDistinctKeys k c ((j, d) ∷ m) h = elim (Bool-cases (bytes_eq j k)) [
  | inl same ↦ rw same (ground (arith, h.0, bytes_eq_iff j k, same), h.1)
  | inr other ↦ rw other (
    ground (arith, h.0, has_key-insert k j c m, other, bytes_eq_sym j k),
    insert-HasDistinctKeys k c m h.1,
  )
]

-- `Add` keeps a book that holds each contact under its own public key, one for each key, such a
-- book; the contact that was added is found under its key, where it replaces what was there, and no
-- other key changes.
pub add-IsBook :
    (b : ContactBook) (c : Contact)
    → IsBook b.contacts
    → IsBook (add b c).contacts
      × ((k : Bytes)
          → lookup k (add b c).contacts
            ≡ (if bytes_eq c.public_key k then some c else lookup k b.contacts))
unfolding add
add-IsBook b c v = (
  record {
    keyed = insert-IsKeyed c b.contacts v.keyed;
    distinct = insert-HasDistinctKeys c.public_key c b.contacts v.distinct;
  },
  λ k. lookup-insert c.public_key k c b.contacts,
)

pub lookup-has_key :
    (k : Bytes) (m : Entries) (c : Contact) → lookup k m ≡ some c → has_key k m ≡ true
unfolding lookup has_key
lookup-has_key k [] c h = cc
lookup-has_key k ((j, d) ∷ m) c h = ground (arith, lookup-has_key k m c)

pub fill-IsBook : (m : Entries) (cs : List Contact) → IsBook m → IsBook (fill m cs)
unfolding fill
fill-IsBook m [] v = v
fill-IsBook m (c ∷ cs) v = fill-IsBook (insert c.public_key c m) cs (record {
  keyed = insert-IsKeyed c m v.keyed;
  distinct = insert-HasDistinctKeys c.public_key c m v.distinct;
})

has_key-permᴰ : (k : Bytes) {m n : Entries} → Permᴰ m n → has_key k m ≡ has_key k n
unfolding has_key
has_key-permᴰ k Permᴰ.nil = refl
has_key-permᴰ k (Permᴰ.cons e p) =
    ground (arith, has_key-permᴰ k p, ap (λ (x : Bytes × Contact). bytes_eq x.0 k) e)
has_key-permᴰ k (Permᴰ.swap e f) = ground (
  arith,
  ap (λ (x : Bytes × Contact). bytes_eq x.0 k) e,
  ap (λ (x : Bytes × Contact). bytes_eq x.0 k) f,
)
has_key-permᴰ k (Permᴰ.trans p q) = has_key-permᴰ k p ∙ has_key-permᴰ k q

swapped_keys :
    (a b : Bytes × Contact) (m : Entries)
    → HasDistinctKeys (a ∷ b ∷ m)
    → HasDistinctKeys (b ∷ a ∷ m)
unfolding has_key
swapped_keys a b m h =
    (ground (arith, h.0, h.1.0, bytes_eq_sym a.0 b.0), (ground (arith, h.0), h.1.1))

pub HasDistinctKeys-permᴰ : {m n : Entries} → Permᴰ m n → HasDistinctKeys m → HasDistinctKeys n
HasDistinctKeys-permᴰ Permᴰ.nil h = h
HasDistinctKeys-permᴰ (Permᴰ.cons {a} {b} {l₁} {l₂} e p) h = (
  ap (λ (x : Bytes × Contact). has_key x.0 l₂) (sym e) ∙ sym (has_key-permᴰ a.0 p) ∙ h.0,
  HasDistinctKeys-permᴰ p h.1,
)
HasDistinctKeys-permᴰ (Permᴰ.swap {a} {b} {a'} {b'} {l} e f) h =
    subst₂ (λ x y. HasDistinctKeys (x ∷ y ∷ l)) f e (swapped_keys a b l h)
HasDistinctKeys-permᴰ (Permᴰ.trans p q) h = HasDistinctKeys-permᴰ q (HasDistinctKeys-permᴰ p h)

lookup-swap :
    (k : Bytes) (a b : Bytes × Contact) (m : Entries)
    → HasDistinctKeys (a ∷ b ∷ m)
    → lookup k (a ∷ b ∷ m) ≡ lookup k (b ∷ a ∷ m)
unfolding lookup has_key
lookup-swap k a b m h =
    ground (arith, h.0, bytes_eq_iff a.0 k, bytes_eq_iff b.0 k, bytes_eq_iff b.0 a.0)

lookup-cons :
    (k : Bytes) (a b : Bytes × Contact) (m n : Entries)
    → a ≡ b
    → lookup k m ≡ lookup k n
    → lookup k (a ∷ m) ≡ lookup k (b ∷ n)
unfolding lookup
lookup-cons k a b m n e tails =
    subst (λ x. lookup k (a ∷ m) ≡ lookup k (x ∷ n)) e (ground (arith, tails))

-- A lookup does not depend on the order of the entries.
pub lookup-permᴰ :
    (k : Bytes) {m n : Entries} → Permᴰ m n → HasDistinctKeys m → lookup k m ≡ lookup k n
lookup-permᴰ k Permᴰ.nil h = refl
lookup-permᴰ k (Permᴰ.cons {a} {b} {l₁} {l₂} e p) h =
    lookup-cons k a b l₁ l₂ e (lookup-permᴰ k p h.1)
lookup-permᴰ k (Permᴰ.swap {a} {b} {a'} {b'} {l} e f) h =
    lookup-swap k a b l h ∙ ap₂ (λ x y. lookup k (x ∷ y ∷ l)) f e
lookup-permᴰ k (Permᴰ.trans p q) h =
    lookup-permᴰ k p h ∙ lookup-permᴰ k q (HasDistinctKeys-permᴰ p h)
