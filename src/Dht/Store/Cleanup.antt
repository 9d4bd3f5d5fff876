-- ===== src/Dht/Store/Cleanup.antt =====
-- `cleanup` and `All` of dht/store.go, which read the clock once for each record.
use mesh_net.Base.{
  ℕ, suc, ◌≤◌, ◌≡◌, refl, false, if◌then◌else◌, Option, none, some, List, [], ◌∷◌, Bytes,
  bytes_eq_iff, lookup, All, arith, Bool-cases, inl, inr, map,
}
use mesh_net.Dht.Store.{Record, Store, is_expired, cleanup, cleanup_from, get, all, all_from}
use mesh_net.Dht.Store.Reads.{is_expired_mono}
use mesh_net.Dht.Store.Valid.{HasDistinctKeys, lookup-cleanup_from}

abbrev IsFresh : ℕ → Bytes × Record → Type 0
IsFresh now e = is_expired now e.1 ≡ false

fresh_before :
    (now later : ℕ) (r : Record)
    → now ≤ later
    → is_expired later r ≡ false
    → is_expired now r ≡ false
fresh_before now later r h e = ground (arith, is_expired_mono now later r h)

module _ (clock : ℕ → ℕ) where
  cleanup_from-IsFresh :
      (start i : ℕ) (m : List (Bytes × Record))
      → ((j : ℕ) → start ≤ clock j)
      → All (IsFresh start) (cleanup_from clock i m)
  unfolding cleanup_from
  cleanup_from-IsFresh start i [] h = tt
  cleanup_from-IsFresh start i ((k, r) ∷ m) h = elim (Bool-cases (is_expired (clock i) r)) [
    | inl old ↦ rw old (cleanup_from-IsFresh start (suc i) m h)
    | inr fresh ↦
        rw fresh
          (fresh_before start (clock i) r (h i) fresh, cleanup_from-IsFresh start (suc i) m h)
  ]

  read : ℕ → Bytes → List (Bytes × Record) → Option Record
  read now k m = elim (lookup k m) [
    | none ↦ none
    | some r ↦ if is_expired now r then none else some r
  ]

  read-cleanup_from :
      (later i : ℕ) (k : Bytes) (m : List (Bytes × Record))
      → ((j : ℕ) → clock j ≤ later)
      → HasDistinctKeys m
      → read later k (cleanup_from clock i m) ≡ read later k m
  unfolding read cleanup_from lookup
  read-cleanup_from later i k [] h d = refl
  read-cleanup_from later i k ((j, r) ∷ m) h d = ground (
    arith,
    read-cleanup_from later (suc i) k m h d.1,
    is_expired_mono (clock i) later r (h i),
    bytes_eq_iff j k,
    lookup-cleanup_from j clock (suc i) m d.0,
  )

  -- A round of the cleanup loop, on a store that holds each name once, leaves no record that had
  -- expired when it started, and no `Get` after its end can tell that it ran.
  pub cleanup_reads :
      (start later : ℕ) (s : Store) (name : Bytes)
      → ((i : ℕ) → start ≤ clock i)
      → ((i : ℕ) → clock i ≤ later)
      → HasDistinctKeys s.records
      → All (λ e. is_expired start e.1 ≡ false) (cleanup clock s).records
        × (get later (cleanup clock s) name ≡ get later s name)
  unfolding cleanup get read
  cleanup_reads start later s name h k d =
      (cleanup_from-IsFresh start 0 s.records h, read-cleanup_from later 0 name s.records k d)

  all_from-cleanup_from :
      (i : ℕ) (m : List (Bytes × Record))
      → all_from clock i m ≡ map (λ e. e.1) (cleanup_from clock i m)
  unfolding all_from cleanup_from
  all_from-cleanup_from i [] = refl
  all_from-cleanup_from i ((k, r) ∷ m) = ground (arith, all_from-cleanup_from (suc i) m)

  -- `All` of the store lists exactly the records that a cleanup with the same readings of the clock
  -- keeps.
  pub all-cleanup : (s : Store) → all clock s ≡ map (λ e. e.1) (cleanup clock s).records
  unfolding all cleanup
  all-cleanup s = all_from-cleanup_from 0 s.records
