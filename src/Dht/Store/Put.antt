-- ===== src/Dht/Store/Put.antt =====
-- `Put` of dht/store.go: which records it takes, what it stores, and who owns a name.
use mesh_net.Base.{
  ℕ, ◌≡◌, refl, ap, sym, ◌∙◌, ◌↔◌, Bool, true, false, not, ◌&&◌, if◌then◌else◌, none, some, Bytes,
  bytes_eq, bytes_eq_iff, lookup, insert, lookup-insert, arith, Bool-cases, inl, inr,
}
use mesh_net.Outcome.{Outcome, ok, err, panics, owned_by_other_key}
use mesh_net.Crypto.{Crypto}
use mesh_net.Dht.Store.{Record, Store, is_expired, verify, put, put_locked}

-- Whether the name is free for the record's key: nobody holds it, or a record of the same key does.
unfoldable pub is_free : Store → Record → Bool
is_free s r = elim (lookup r.name s.records) [
  | none ↦ true
  | some existing ↦ bytes_eq existing.public_key r.public_key
]

is_ok : Outcome (Unit {0}) → Bool
is_ok (ok _) = true
is_ok (err _) = false
is_ok panics = false

put_locked_lem :
    (s : Store) (r : Record)
    → put_locked s r ≡ (
        if is_free s r
        then (record s { records = insert r.name r s.records }, ok tt)
        else (s, err owned_by_other_key))
unfolding put_locked is_free
put_locked_lem s r = ground arith

free_key :
    (s : Store) (r held : Record)
    → lookup r.name s.records ≡ some held
    → is_free s r ≡ true
    → held.public_key ≡ r.public_key
unfolding is_free
free_key s r held h free = ground (arith, bytes_eq_iff held.public_key r.public_key)

module _ (crypto : Crypto) where
  -- What `Put` accepts: a record that has not expired, that verifies, and whose name is free.
  unfoldable pub accepts : ℕ → Store → Record → Bool
  unfolding is_ok
  accepts now s r = not (is_expired now r) && is_ok (verify crypto r) && is_free s r

  -- `Put` succeeds exactly on the records that have not expired, that verify, and whose name is
  -- free or held by the same public key.
  pub put_accepts :
      (now : ℕ) (s : Store) (r : Record)
      → ((put crypto now s r).1 ≡ ok tt) ↔ (accepts now s r ≡ true)
  unfolding put accepts
  put_accepts now s r = ground (arith, put_locked_lem s r)

  -- After `Put` an accepted record stands under its name; every other name, and every name after a
  -- record that is not accepted, gives what it gave before.
  pub lookup-put :
      (now : ℕ) (s : Store) (r : Record) (name : Bytes)
      → lookup name (put crypto now s r).0.records
        ≡ (if accepts now s r && bytes_eq r.name name then some r else lookup name s.records)
  unfolding put accepts
  lookup-put now s r name =
      ground (arith, put_locked_lem s r, lookup-insert r.name name r s.records)

  accepts-is_free : (now : ℕ) (s : Store) (r : Record) → accepts now s r ≡ true → is_free s r ≡ true
  unfolding accepts
  accepts-is_free now s r h = ground arith

  pub accepts-fresh :
      (now : ℕ) (s : Store) (r : Record)
      → is_expired now r ≡ false
      → verify crypto r ≡ ok tt
      → is_free s r ≡ true
      → accepts now s r ≡ true
  unfolding accepts
  accepts-fresh now s r fresh good free = ground (arith, fresh, good, free)

  pub accepts-verify :
      (now : ℕ) (s : Store) (r : Record) → accepts now s r ≡ true → verify crypto r ≡ ok tt
  unfolding accepts
  accepts-verify now s r h = ground arith

  pub put_rejects :
      (now : ℕ) (s : Store) (r : Record) → accepts now s r ≡ false → (put crypto now s r).0 ≡ s
  unfolding accepts put
  put_rejects now s r h = ground (arith, put_locked_lem s r)

  pub put_stores :
      (now : ℕ) (s : Store) (r : Record)
      → accepts now s r ≡ true
      → (put crypto now s r).0.records ≡ insert r.name r s.records
  unfolding accepts put
  put_stores now s r h = ground (arith, put_locked_lem s r)

  -- `Put` never takes a name away from its key: a name that the store holds is held by a record of
  -- the same public key afterwards.
  pub put-owner :
      (now : ℕ) (s : Store) (r held : Record) (name : Bytes)
      → lookup name s.records ≡ some held
      → (held' : Record) × (lookup name (put crypto now s r).0.records ≡ some held')
        × (held'.public_key ≡ held.public_key)
  put-owner now s r held name h = elim (Bool-cases (accepts now s r && bytes_eq r.name name)) [
    | inl taken ↦ (r, lookup-put now s r name ∙ rw taken, sym (same_key taken))
    | inr kept ↦ (held, lookup-put now s r name ∙ rw kept h, refl)
  ]
    where
      own_name : accepts now s r && bytes_eq r.name name ≡ true → r.name ≡ name
      own_name taken = (bytes_eq_iff r.name name).0 (ground arith)

      same_key : accepts now s r && bytes_eq r.name name ≡ true → held.public_key ≡ r.public_key
      same_key taken =
          free_key s r held (ap (λ n. lookup n s.records) (own_name taken) ∙ h)
            (accepts-is_free now s r (ground arith))
