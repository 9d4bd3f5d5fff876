-- ===== src/Pairing/Tests/Books.antt =====
-- The contact book, with two contacts.
use mathlib.Core.List.{Permᴰ}
use mesh_net.Base.{◌≡◌, refl, true, Option, some, List, [], ◌∷◌, Bytes, bytes_eq, codes, lookup}
use mesh_net.Outcome.{content, ok}
use mesh_net.Dht.Env.{Codec}
use mesh_net.Pairing.Contacts.{Contact, ContactBook, Range, save, load_contacts}
use mesh_net.Pairing.Contacts.Kept.{Entries, has_key, IsBook}
use mesh_net.Pairing.Contacts.Stored.{load_contacts-save}

abbrev alice : Contact
alice = record {
  name = codes "alice";
  address = codes "200::1";
  public_key = codes "aa";
  paired_at = 3;
}

abbrev bob : Contact
bob = record {
  name = codes "bob";
  address = codes "200::2";
  public_key = codes "bb";
  paired_at = 4;
}

abbrev two_contacts : ContactBook
two_contacts = record { contacts = (codes "aa", alice) ∷ (codes "bb", bob) ∷ [] }

two_contacts-IsBook : IsBook two_contacts.contacts
unfolding has_key bytes_eq
two_contacts-IsBook = record { keyed = (refl, (refl, tt)); distinct = (refl, (refl, tt)) }

-- The entries of the map in the order in which they were added.
abbrev in_order : Range
in_order m = m

same_order : (m : Entries) → Permᴰ m m
same_order [] = Permᴰ.nil
same_order (e ∷ m) = Permᴰ.cons refl (same_order m)

-- A file format that holds these two contacts.
abbrev book_json : Codec (Option (List Contact))
book_json = record {
  marshal = λ cs. codes "[alice, bob]";
  unmarshal = λ text. some (some (alice ∷ bob ∷ []));
}

load_contacts-save_example :
    (b' : ContactBook) × (load_contacts book_json
        (content (save in_order book_json true two_contacts).0)
      ≡ ok b')
    × IsBook b'.contacts
    × ((k : Bytes) → lookup k b'.contacts ≡ lookup k two_contacts.contacts)
load_contacts-save_example =
    load_contacts-save in_order book_json true two_contacts same_order two_contacts-IsBook refl
