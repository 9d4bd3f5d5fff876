-- ===== src/Dht/Walk/Open.antt =====
-- What a lookup of dht/lookup.go has still to contact, within a set of identifiers.
use mesh_net.Base.{
  ℕ, suc, ◌≤◌, ◌<◌, ◌≡◌, refl, Bool, true, false, ◌||◌, if◌then◌else◌, List, [], ◌∷◌, bytes_eq,
  bytes_eq_iff, arith,
}
use mesh_net.Dht.NodeId.{NodeId}
use mesh_net.Dht.Contact.{Contact}
use mesh_net.Dht.Lookup.{LookupState, is_contacted, mark_contacted}
use mesh_net.Dht.Lookup.Adding.{is_contacted-eq}
use mesh_net.Dht.Lookup.Batch.{is_contacted-mark_contacted}
use mesh_net.Dht.Walk.{mark_all}

-- A set of identifiers as a list.
unfoldable pub contains : NodeId → List NodeId → Bool
contains q [] = false
contains q (u ∷ us) = bytes_eq u q || contains q us

-- The identifiers of the set that were not contacted yet.
unfoldable pub open_count : List NodeId → LookupState → ℕ
open_count [] ls = 0
open_count (u ∷ us) ls = if is_contacted ls u then open_count us ls else suc (open_count us ls)

pub open_count-mark-le :
    (us : List NodeId) (ls : LookupState) (id : NodeId)
    → open_count us (mark_contacted ls id) ≤ open_count us ls
unfolding open_count
open_count-mark-le [] ls id = omega arith
open_count-mark-le (u ∷ us) ls id =
    ground (arith, open_count-mark-le us ls id, is_contacted-mark_contacted ls id u)

pub open_count-mark-lt :
    (us : List NodeId) (ls : LookupState) (id : NodeId)
    → contains id us ≡ true
    → is_contacted ls id ≡ false
    → open_count us (mark_contacted ls id) < open_count us ls
unfolding open_count contains
open_count-mark-lt [] ls id h new = cc
open_count-mark-lt (u ∷ us) ls id h new = ground (
  arith,
  open_count-mark-lt us ls id,
  open_count-mark-le us ls id,
  is_contacted-mark_contacted ls id u,
  bytes_eq_iff u id,
  bytes_eq_iff id u,
)

pub open_count-eq :
    (us : List NodeId) (ls ms : LookupState)
    → ls.contacted ≡ ms.contacted
    → open_count us ls ≡ open_count us ms
unfolding open_count
open_count-eq [] ls ms e = refl
open_count-eq (u ∷ us) ls ms e = ground (arith, open_count-eq us ls ms e, is_contacted-eq ls ms u e)

pub open_count-mark_all-le :
    (us : List NodeId) (ls : LookupState) (cs : List Contact)
    → open_count us (mark_all ls cs) ≤ open_count us ls
unfolding mark_all
open_count-mark_all-le us ls [] = omega arith
open_count-mark_all-le us ls (c ∷ cs) =
    omega
      (arith, open_count-mark_all-le us (mark_contacted ls c.id) cs, open_count-mark-le us ls c.id)

pub open_count-mark_all-lt :
    (us : List NodeId) (ls : LookupState) (c : Contact) (cs : List Contact)
    → contains c.id us ≡ true
    → is_contacted ls c.id ≡ false
    → open_count us (mark_all ls (c ∷ cs)) < open_count us ls
unfolding mark_all
open_count-mark_all-lt us ls c cs h new = omega (
  arith,
  open_count-mark_all-le us (mark_contacted ls c.id) cs,
  open_count-mark-lt us ls c.id h new,
)
