-- ===== src/Pairing/Contacts.antt =====
-- The contact book of pairing/contacts.go. Each operation holds the book's lock throughout, so it is
-- one step. `range` is the order in which a `range` loop visits the entries of the map, which Go
-- leaves open. `contacts.json` is a parameter: what `os.ReadFile` gives, and how `os.WriteFile` ends.
pub mod Kept
pub mod Stored
pub mod Search
use mesh_net.Base.{
  ℕ, ◌≡◌, Bool, true, false, if◌then◌else◌, Option, none, some, List, [], ◌∷◌, map, Bytes, bytes_eq,
  lookup, insert,
}
use mesh_net.Outcome.{
  FileRead, content, missing, unreadable, Outcome, ok, err, contacts_not_read, contacts_not_parsed,
  contacts_not_written,
}
use mesh_net.Dht.Env.{Codec}

-- `paired_at` is a reading of the clock.
pub record Contact : Type 0 where
  pub name : Bytes
  pub address : Bytes
  pub public_key : Bytes
  pub paired_at : ℕ

pub record ContactBook : Type 0 where
  pub contacts : List (Bytes × Contact)

-- `range` over the map, for its values.
abbrev pub Range : Type 0
Range = List (Bytes × Contact) → List (Bytes × Contact)

-- The entries that `append` collects in a nil slice: none of them leave it nil.
abbrev pub appended : List Contact → Option (List Contact)
appended [] = none
appended (c ∷ cs) = some (c ∷ cs)

abbrev pub listed : Option (List Contact) → List Contact
listed none = []
listed (some cs) = cs

unfoldable pub add : ContactBook → Contact → ContactBook
add b c = record b { contacts = insert c.public_key c b.contacts }

-- The loop of `LoadContacts`.
unfoldable pub fill : List (Bytes × Contact) → List Contact → List (Bytes × Contact)
fill m [] = m
fill m (c ∷ cs) = fill (insert c.public_key c m) cs

unfoldable pub load_contacts : Codec (Option (List Contact)) → FileRead → Outcome ContactBook
load_contacts json missing = ok (record { contacts = [] })
load_contacts json unreadable = err contacts_not_read
load_contacts json (content text) = elim (json.unmarshal text) [
  | none ↦ err contacts_not_parsed
  | some cs ↦ ok (record { contacts = fill [] (listed cs) })
]

-- The loop of `FindByName`.
unfoldable pub first_named : Bytes → List (Bytes × Contact) → Option Contact
first_named name [] = none
first_named name ((k, c) ∷ m) = if bytes_eq c.name name then some c else first_named name m

-- The loop of `FindByAddress`.
unfoldable pub first_at : Bytes → List (Bytes × Contact) → Option Contact
first_at addr [] = none
first_at addr ((k, c) ∷ m) = if bytes_eq c.address addr then some c else first_at addr m

module _ (range : Range) where
  unfoldable pub all : ContactBook → Option (List Contact)
  all b = appended (map (λ e. e.1) (range b.contacts))

  -- The bytes that are written, and the result. `written` tells whether `os.WriteFile` succeeds.
  unfoldable pub save :
      Codec (Option (List Contact)) → Bool → ContactBook → Bytes × Outcome (Unit {0})
  save json written b = (
    json.marshal (appended (map (λ e. e.1) (range b.contacts))),
    if written then ok tt else err contacts_not_written,
  )

  unfoldable pub find_by_name : ContactBook → Bytes → Option Contact
  find_by_name b name = first_named name (range b.contacts)

  unfoldable pub find_by_address : ContactBook → Bytes → Option Contact
  find_by_address b addr = first_at addr (range b.contacts)
