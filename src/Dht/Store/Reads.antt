-- ===== src/Dht/Store/Reads.antt =====
-- `Get`, `GetPublic` and `GetForGroup` of dht/store.go.
use mesh_net.Base.{
  ℕ, ◌≤◌, ◌≡◌, ◌↔◌, true, false, some, [], Bytes, bytes_eq_iff, lookup, arith, Option-cases, inl,
  inr,
}
use mesh_net.Dht.Store.{Record, Store, is_expired, is_public, get, get_public, get_for_group}

-- A read returns a record exactly if the store holds it under the name and it has not expired.
pub get_iff :
    (now : ℕ) (s : Store) (name : Bytes) (r : Record)
    → (get now s name ≡ some r) ↔ ((lookup name s.records ≡ some r) × (is_expired now r ≡ false))
unfolding get
get_iff now s name r = ground arith

-- `GetPublic` returns exactly the records of `Get` that have no group key, and `GetForGroup`
-- exactly those whose group key is the given one.
pub get_group_iff :
    (now : ℕ) (s : Store) (name group_key : Bytes) (r : Record)
    → ((get_public now s name ≡ some r) ↔ ((get now s name ≡ some r) × (r.group_key ≡ [])))
      × ((get_for_group now s name group_key ≡ some r)
          ↔ ((get now s name ≡ some r) × (r.group_key ≡ group_key)))
unfolding get_public get_for_group is_public
get_group_iff now s name group_key r = elim (Option-cases (get now s name)) [
  | inl nothing ↦ ground arith
  | inr (q, e) ↦ ground (arith, bytes_eq_iff q.group_key [], bytes_eq_iff q.group_key group_key)
]

-- A record that has expired stays expired.
pub is_expired_mono :
    (now later : ℕ) (r : Record) → now ≤ later → is_expired now r ≡ true → is_expired later r ≡ true
unfolding is_expired
is_expired_mono now later r h e = ground arith
