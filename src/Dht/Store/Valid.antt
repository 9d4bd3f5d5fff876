-- ===== src/Dht/Store/Valid.antt =====
-- What holds of every store that the operations of dht/store.go lead to.
use mathlib.Core.Path.{subst₂}
use mesh_net.Base.{
  ℕ, suc, ◌≡◌, refl, ap, sym, ◌∙◌, true, false, none, some, List, [], ◌∷◌, Bytes, bytes_eq,
  bytes_eq_iff, lookup, insert, erase, lookup-insert, lookup-erase, All, arith, Bool-cases, inl,
  inr,
}
use mesh_net.Outcome.{ok}
use mesh_net.Crypto.{Crypto}
use mesh_net.Dht.Store.{
  Record, Store, is_expired, verify, put, new_store, delete, cleanup, cleanup_from, get,
}
use mesh_net.Dht.Store.Put.{accepts, accepts-verify, put_stores, put_rejects}
use mesh_net.Dht.Store.Reads.{get_iff}

module _ (P : Bytes × Record → Type 0) where
  insert-All :
      (k : Bytes) (r : Record) (m : List (Bytes × Record))
      → P (k, r)
      → All P m
      → All P (insert k r m)
  unfolding insert
  insert-All k r [] p h = (p, tt)
  insert-All k r ((j, w) ∷ m) p h = elim (Bool-cases (bytes_eq j k)) [
    | inl same ↦ rw same (p, h.1)
    | inr other ↦ rw other (h.0, insert-All k r m p h.1)
  ]

  erase-All : (k : Bytes) (m : List (Bytes × Record)) → All P m → All P (erase k m)
  unfolding erase
  erase-All k [] h = tt
  erase-All k ((j, w) ∷ m) h = elim (Bool-cases (bytes_eq j k)) [
    | inl same ↦ rw same (erase-All k m h.1)
    | inr other ↦ rw other (h.0, erase-All k m h.1)
  ]

  cleanup_from-All :
      (clock : ℕ → ℕ) (i : ℕ) (m : List (Bytes × Record)) → All P m → All P (cleanup_from clock i m)
  unfolding cleanup_from
  cleanup_from-All clock i [] h = tt
  cleanup_from-All clock i ((j, w) ∷ m) h = elim (Bool-cases (is_expired (clock i) w)) [
    | inl old ↦ rw old (cleanup_from-All clock (suc i) m h.1)
    | inr fresh ↦ rw fresh (h.0, cleanup_from-All clock (suc i) m h.1)
  ]

  lookup-All :
      (k : Bytes) (r : Record) (m : List (Bytes × Record))
      → All P m
      → lookup k m ≡ some r
      → P (k, r)
  lookup-All k r [] h e = absurd (unfold lookup in cc)
  lookup-All k r ((j, w) ∷ m) h e = elim (Bool-cases (bytes_eq j k)) [
    | inl same ↦ subst₂ (λ j r. P (j, r)) ((bytes_eq_iff j k).0 same) (held same) h.0
    | inr other ↦ lookup-All k r m h.1 (unfold lookup in ground arith)
  ]
    where
      held : bytes_eq j k ≡ true → w ≡ r
      held same = unfold lookup in ground arith

-- No name stands twice in the list, as in a Go map.
abbrev pub HasDistinctKeys : List (Bytes × Record) → Type 0
HasDistinctKeys [] = Unit
HasDistinctKeys ((k, r) ∷ m) = (lookup k m ≡ none) × HasDistinctKeys m

insert-HasDistinctKeys :
    (k : Bytes) (r : Record) (m : List (Bytes × Record))
    → HasDistinctKeys m
    → HasDistinctKeys (insert k r m)
unfolding insert
insert-HasDistinctKeys k r [] h = (unfold lookup in refl, tt)
insert-HasDistinctKeys k r ((j, w) ∷ m) h = elim (Bool-cases (bytes_eq j k)) [
  | inl same ↦ rw same (ap (λ n. lookup n m) (sym ((bytes_eq_iff j k).0 same)) ∙ h.0, h.1)
  | inr other ↦ rw other (
    ground (arith, lookup-insert k j r m, bytes_eq_iff k j, bytes_eq_iff j k, h.0),
    insert-HasDistinctKeys k r m h.1,
  )
]

pub lookup-cleanup_from :
    (k : Bytes) (clock : ℕ → ℕ) (i : ℕ) (m : List (Bytes × Record))
    → lookup k m ≡ none
    → lookup k (cleanup_from clock i m) ≡ none
unfolding lookup cleanup_from
lookup-cleanup_from k clock i [] h = refl
lookup-cleanup_from k clock i ((j, w) ∷ m) h = ground (arith, lookup-cleanup_from k clock (suc i) m)

cleanup_from-HasDistinctKeys :
    (clock : ℕ → ℕ) (i : ℕ) (m : List (Bytes × Record))
    → HasDistinctKeys m
    → HasDistinctKeys (cleanup_from clock i m)
unfolding cleanup_from
cleanup_from-HasDistinctKeys clock i [] h = tt
cleanup_from-HasDistinctKeys clock i ((j, w) ∷ m) h = elim (Bool-cases (is_expired (clock i) w)) [
  | inl old ↦ rw old (cleanup_from-HasDistinctKeys clock (suc i) m h.1)
  | inr fresh ↦
      rw fresh (
        lookup-cleanup_from j clock (suc i) m h.0,
        cleanup_from-HasDistinctKeys clock (suc i) m h.1,
      )
]

erase-HasDistinctKeys :
    (k : Bytes) (m : List (Bytes × Record)) → HasDistinctKeys m → HasDistinctKeys (erase k m)
unfolding erase
erase-HasDistinctKeys k [] h = tt
erase-HasDistinctKeys k ((j, w) ∷ m) h = elim (Bool-cases (bytes_eq j k)) [
  | inl same ↦ rw same (erase-HasDistinctKeys k m h.1)
  | inr other ↦ rw other (
    ground (arith, lookup-erase k j m, bytes_eq_iff k j, bytes_eq_iff j k, h.0),
    erase-HasDistinctKeys k m h.1,
  )
]

module _ (crypto : Crypto) where
  -- An entry of the map: a record under its own name, with a valid signature.
  pub record IsEntry (e : Bytes × Record) : Type 0 where
    pub named : e.0 ≡ e.1.name
    pub signed : verify crypto e.1 ≡ ok tt

  pub record IsStore (s : Store) : Type 0 where
    pub entries : All IsEntry s.records
    pub distinct : HasDistinctKeys s.records

  -- The operations that change a store: `Put`, `Delete` and a round of the cleanup loop.
  pub data StoreStep : Store → Store → Type 0 where
    putting : (now : ℕ) (s : Store) (r : Record) → StoreStep s (put crypto now s r).0
    deleting : (s : Store) (name : Bytes) → StoreStep s (delete s name)
    cleaning : (clock : ℕ → ℕ) (s : Store) → StoreStep s (cleanup clock s)

  pub data StoreReach (s : Store) : Store → Type 0 where
    here : StoreReach s s
    next : {t u : Store} → StoreReach s t → StoreStep t u → StoreReach s u

  pub put-IsStore : (now : ℕ) (s : Store) (r : Record) → IsStore s → IsStore (put crypto now s r).0
  put-IsStore now s r h = elim (Bool-cases (accepts crypto now s r)) [
    | inl taken ↦
        let new : IsEntry (r.name, r) = record {
          named = refl;
          signed = accepts-verify crypto now s r taken;
        } in
        let stored = put_stores crypto now s r taken in
        record {
          entries = rw stored (insert-All IsEntry r.name r s.records new h.entries);
          distinct = rw stored (insert-HasDistinctKeys r.name r s.records h.distinct);
        }
    | inr refused ↦ rw (put_rejects crypto now s r refused) h
  ]

  pub StoreStep-IsStore : {s t : Store} → StoreStep s t → IsStore s → IsStore t
  unfolding delete cleanup
  StoreStep-IsStore (putting now s r) h = put-IsStore now s r h
  StoreStep-IsStore (deleting s name) h = record {
    entries = erase-All IsEntry name s.records h.entries;
    distinct = erase-HasDistinctKeys name s.records h.distinct;
  }
  StoreStep-IsStore (cleaning clock s) h = record {
    entries = cleanup_from-All IsEntry clock 0 s.records h.entries;
    distinct = cleanup_from-HasDistinctKeys clock 0 s.records h.distinct;
  }

  StoreReach-IsStore : {s t : Store} → IsStore s → StoreReach s t → IsStore t
  StoreReach-IsStore h here = h
  StoreReach-IsStore h (next r st) = StoreStep-IsStore st (StoreReach-IsStore h r)

  pub StoreReach-new_store : {s : Store} → StoreReach new_store s → IsStore s
  StoreReach-new_store reach = StoreReach-IsStore {s = new_store} start reach
    where
      start : IsStore new_store
      start = unfold new_store in record { entries = tt; distinct = tt }

  -- What the store holds under a name.
  pub held-IsEntry :
      (s : Store) (name : Bytes) (r : Record)
      → IsStore s
      → lookup name s.records ≡ some r
      → IsEntry (name, r)
  held-IsEntry s name r h e = lookup-All IsEntry name r s.records h.entries e

  -- Whatever sequence of `Put`, `Delete` and cleanup rounds a new store went through, and whoever
  -- sent the records: what `Get` returns under a name is a record of that name whose signature
  -- verifies, and which has not expired.
  pub get_authentic :
      (s : Store) (now : ℕ) (name : Bytes) (r : Record)
      → StoreReach new_store s
      → get now s name ≡ some r
      → (r.name ≡ name) × (verify crypto r ≡ ok tt) × (is_expired now r ≡ false)
  get_authentic s now name r reach e =
      let (held, fresh) = (get_iff now s name r).0 e in
      let entry = lookup-All IsEntry name r s.records (StoreReach-new_store reach).entries held in
      (sym entry.named, entry.signed, fresh)
