-- ===== src/Pairing/Contacts/Stored.antt =====
-- `Save` and `LoadContacts` of pairing/contacts.go.
use mesh_net.Base.{
  ◌≡◌, refl, sym, ◌∙◌, Bool, false, if◌then◌else◌, Option, none, some, List, [], ◌∷◌, map, Bytes,
  bytes_eq_iff, lookup, insert, lookup-insert, All, arith,
}
use mesh_net.Outcome.{content, ok}
use mesh_net.Dht.Env.{Codec}
use mesh_net.Dht.Contact.Rearranged.{All-permᴰ}
use mesh_net.Pairing.Contacts.{
  Contact, ContactBook, Range, appended, listed, fill, save, load_contacts,
}
use mesh_net.Pairing.Contacts.Kept.{
  Entries, has_key, HasDistinctKeys, IsKeyed, IsBook, Visits, fill-IsBook, lookup-permᴰ,
  HasDistinctKeys-permᴰ,
}

abbrev pub contacts_of : Entries → List Contact
contacts_of m = map (λ e. e.1) m

lookup-missing : (k : Bytes) (m : Entries) → has_key k m ≡ false → lookup k m ≡ none
unfolding lookup has_key
lookup-missing k [] h = refl
lookup-missing k ((j, c) ∷ m) h = ground (arith, lookup-missing k m)

lookup-fill :
    (k : Bytes) (acc m : Entries)
    → All IsKeyed m
    → HasDistinctKeys m
    → lookup k (fill acc (contacts_of m)) ≡ (if has_key k m then lookup k m else lookup k acc)
unfolding lookup fill has_key
lookup-fill k acc [] v d = refl
lookup-fill k acc ((j, c) ∷ m) v d = ground (
  arith,
  v.0,
  d.0,
  lookup-fill k (insert c.public_key c acc) m v.1 d.1,
  lookup-insert c.public_key k c acc,
  bytes_eq_iff j k,
  bytes_eq_iff c.public_key k,
)

lookup-contacts :
    (k : Bytes) (m : Entries)
    → All IsKeyed m
    → HasDistinctKeys m
    → lookup k (fill [] (contacts_of m)) ≡ lookup k m
unfolding lookup
lookup-contacts k m v d = ground (arith, lookup-fill k [] m v d, lookup-missing k m)

listed-appended : (cs : List Contact) → listed (appended cs) ≡ cs
listed-appended [] = refl
listed-appended (c ∷ cs) = refl

load_contacts-ok :
    (json : Codec (Option (List Contact))) (text : Bytes) (cs : Option (List Contact))
    → json.unmarshal text ≡ some cs
    → load_contacts json (content text) ≡ ok (record { contacts = fill [] (listed cs) })
unfolding load_contacts
load_contacts-ok json text cs e = ground (arith, e)

-- Whatever the order in which `Save` visits the map, `LoadContacts` reads from the file that it
-- wrote a book that finds the same contact under each public key, for a book that stores each
-- contact under its own key, one for each key, where `encoding/json` reads back the list of these
-- contacts as it was written.
pub load_contacts-save :
    (range : Range) (json : Codec (Option (List Contact))) (written : Bool) (b : ContactBook)
    → Visits range
    → IsBook b.contacts
    → json.unmarshal (json.marshal (appended (contacts_of (range b.contacts))))
      ≡ some (appended (contacts_of (range b.contacts)))
    → (b' : ContactBook) × (load_contacts json (content (save range json written b).0) ≡ ok b')
      × IsBook b'.contacts
      × ((k : Bytes) → lookup k b'.contacts ≡ lookup k b.contacts)
unfolding save
load_contacts-save range json written b visits v same =
    let m = range b.contacts in
    let p = visits b.contacts in
    let distinct = HasDistinctKeys-permᴰ p v.distinct in
    let keyed = All-permᴰ IsKeyed p v.keyed in
    (
      record { contacts = fill [] (contacts_of m) },
      load_contacts-ok json _ _ same ∙ rw (listed-appended (contacts_of m)) refl,
      fill-IsBook [] (contacts_of m) (record { keyed = tt; distinct = tt }),
      λ k. lookup-contacts k m keyed distinct ∙ sym (lookup-permᴰ k p v.distinct),
    )
