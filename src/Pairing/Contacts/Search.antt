-- ===== src/Pairing/Contacts/Search.antt =====
-- `FindByName` and `FindByAddress` of pairing/contacts.go.
use mathlib.Core.List.{Permᴰ}
use mathlib.Core.List.Permᴰ
use mesh_net.Base.{
  ◌≡◌, refl, ◌∙◌, Option, none, some, inl, inr, ◌⊎◌, [], ◌∷◌, Bytes, bytes_eq, bytes_eq_iff, lookup,
  All, arith, Bool-cases,
}
use mesh_net.Dht.Contact.Rearranged.{All-permᴰ}
use mesh_net.Pairing.Contacts.{
  Contact, ContactBook, Range, first_named, first_at, find_by_name, find_by_address,
}
use mesh_net.Pairing.Contacts.Kept.{
  Entries, HasDistinctKeys, IsKeyed, IsBook, Visits, lookup-has_key, lookup-permᴰ,
  HasDistinctKeys-permᴰ,
}

-- A search by a test returns a contact of the book that passes it, or the book has none.
abbrev pub IsSearch : (Contact → Type 0) → Entries → Option Contact → Type 0
IsSearch P m o =
    ((o ≡ none) × All (λ e. ¬ P e.1) m)
    ⊎ ((c : Contact) × (o ≡ some c) × P c × (lookup c.public_key m ≡ some c))

IsSearch-here :
    (P : Contact → Type 0) (e : Bytes × Contact) (m : Entries)
    → All IsKeyed (e ∷ m)
    → P e.1
    → IsSearch P (e ∷ m) (some e.1)
unfolding lookup
IsSearch-here P e m v h = inr (e.1, refl, h, ground (arith, v.0, bytes_eq_iff e.0 e.1.public_key))

IsSearch-there :
    (P : Contact → Type 0) (e : Bytes × Contact) (m : Entries) (o : Option Contact)
    → All IsKeyed (e ∷ m)
    → HasDistinctKeys (e ∷ m)
    → ¬ P e.1
    → IsSearch P m o
    → IsSearch P (e ∷ m) o
unfolding lookup
IsSearch-there P e m o v d h s = elim s [
  | inl (nothing, others) ↦ inl (nothing, (h, others))
  | inr (c, e', p, found) ↦ inr (
    c,
    e',
    p,
    ground
        (arith, found, d.0, bytes_eq_iff e.0 c.public_key, lookup-has_key c.public_key m c found),
  )
]

first_named-IsSearch :
    (name : Bytes) (m : Entries)
    → All IsKeyed m
    → HasDistinctKeys m
    → IsSearch (λ c. c.name ≡ name) m (first_named name m)
unfolding first_named
first_named-IsSearch name [] v d = inl (refl, tt)
first_named-IsSearch name ((k, c) ∷ m) v d = elim (Bool-cases (bytes_eq c.name name)) [
  | inl same ↦
      rw same (IsSearch-here (λ c. c.name ≡ name) (k, c) m v ((bytes_eq_iff c.name name).0 same))
  | inr other ↦ rw other (
      IsSearch-there (λ c. c.name ≡ name) (k, c) m _ v d
        (λ e. ground (arith, e, other, bytes_eq_iff c.name name))
        (first_named-IsSearch name m v.1 d.1))
]

first_at-IsSearch :
    (addr : Bytes) (m : Entries)
    → All IsKeyed m
    → HasDistinctKeys m
    → IsSearch (λ c. c.address ≡ addr) m (first_at addr m)
unfolding first_at
first_at-IsSearch addr [] v d = inl (refl, tt)
first_at-IsSearch addr ((k, c) ∷ m) v d = elim (Bool-cases (bytes_eq c.address addr)) [
  | inl same ↦
      rw same
        (IsSearch-here (λ c. c.address ≡ addr) (k, c) m v ((bytes_eq_iff c.address addr).0 same))
  | inr other ↦ rw other (
      IsSearch-there (λ c. c.address ≡ addr) (k, c) m _ v d
        (λ e. ground (arith, e, other, bytes_eq_iff c.address addr))
        (first_at-IsSearch addr m v.1 d.1))
]

IsSearch-visited :
    (P : Contact → Type 0) (m n : Entries) (o : Option Contact)
    → IsBook m
    → Permᴰ m n
    → (All IsKeyed n → HasDistinctKeys n → IsSearch P n o)
    → IsSearch P m o
IsSearch-visited P m n o v p h =
    elim (h (All-permᴰ IsKeyed p v.keyed) (HasDistinctKeys-permᴰ p v.distinct)) [
      | inl (nothing, others) ↦ inl (nothing, All-permᴰ (λ e. ¬ P e.1) (Permᴰ.symm p) others)
      | inr (c, e, q, found) ↦ inr (c, e, q, lookup-permᴰ c.public_key p v.distinct ∙ found)
    ]

-- Whatever the order in which the map of a book is visited that stores each contact under its own
-- key, one for each key, `FindByName` returns a contact of that name, which the book holds under
-- its public key, or nothing, and then no contact has that name; and `FindByAddress` does so for an
-- address.
pub find-IsSearch :
    (range : Range) (b : ContactBook) (name addr : Bytes)
    → Visits range
    → IsBook b.contacts
    → IsSearch (λ c. c.name ≡ name) b.contacts (find_by_name range b name)
      × IsSearch (λ c. c.address ≡ addr) b.contacts (find_by_address range b addr)
unfolding find_by_name find_by_address
find-IsSearch range b name addr visits v = (
  IsSearch-visited _ b.contacts (range b.contacts) _ v (visits b.contacts)
      (first_named-IsSearch name (range b.contacts)),
  IsSearch-visited _ b.contacts (range b.contacts) _ v (visits b.contacts)
      (first_at-IsSearch addr (range b.contacts)),
)
