-- ===== src/Dht/ValueLookup/Pending.antt =====
-- What the goroutines of `LookupValue` of dht/lookup.go have still to do.
use mesh_net.Base.{
  ℕ, ◌+◌, ◌*◌, ◌<◌, ◌≡◌, refl, ap, ◌||◌, List, [], ◌∷◌, ◌++◌, map, length, All, arith,
}
use mesh_net.Dht.NodeId.{NodeId}
use mesh_net.Dht.Contact.{Contact, has_id}
use mesh_net.Dht.Lookup.{LookupState, is_contacted, next_batch, mark_contacted}
use mesh_net.Dht.Lookup.Adding.{is_contacted-eq}
use mesh_net.Dht.Lookup.Batch.{next_batch-head, is_contacted-mark_contacted}
use mesh_net.Dht.Walk.{mark_all}
use mesh_net.Dht.Walk.Open.{open_count, open_count-mark_all-lt}
use mesh_net.Dht.ValueLookup.{ValueLookup, Worker, starting, asking, finished, choosing, IsFinished}
use mesh_net.Dht.ValueLookup.Valid.{IsValid}

-- The contacts whose goroutines have still to mark them.
unfoldable pub pending : List Worker → List Contact
pending [] = []
pending (starting c ∷ ws) = c ∷ pending ws
pending (asking c ∷ ws) = pending ws
pending (finished ∷ ws) = pending ws

unfoldable pub work : List Worker → ℕ
work [] = 0
work (starting c ∷ ws) = 2 + work ws
work (asking c ∷ ws) = 1 + work ws
work (finished ∷ ws) = work ws

-- The identifiers of a set that are not contacted and will not be by a goroutine that runs.
unfoldable pub open_work : List NodeId → LookupState → List Worker → ℕ
open_work us ls ws = open_count us (mark_all ls (pending ws))

is_contacted-mark_all :
    (ls : LookupState) (cs : List Contact) (q : NodeId)
    → is_contacted (mark_all ls cs) q ≡ (is_contacted ls q || has_id q cs)
unfolding mark_all has_id
is_contacted-mark_all ls [] q = ground arith
is_contacted-mark_all ls (c ∷ cs) q = ground (
  arith,
  is_contacted-mark_all (mark_contacted ls c.id) cs q,
  is_contacted-mark_contacted ls c.id q,
)

open_count-ext :
    (us : List NodeId) (ls ms : LookupState)
    → ((q : NodeId) → is_contacted ls q ≡ is_contacted ms q)
    → open_count us ls ≡ open_count us ms
unfolding open_count
open_count-ext [] ls ms e = refl
open_count-ext (u ∷ us) ls ms e = ground (arith, open_count-ext us ls ms e, e u)

pub pending-starting : (cs : List Contact) → pending (map starting cs) ≡ cs
unfolding pending
pending-starting [] = refl
pending-starting (c ∷ cs) = ap (◌∷◌ c) (pending-starting cs)

pub pending-finished : (ws : List Worker) → All IsFinished ws → pending ws ≡ []
unfolding pending
pending-finished [] h = refl
pending-finished (starting c ∷ ws) h = cc (h.0)
pending-finished (asking c ∷ ws) h = cc (h.0)
pending-finished (finished ∷ ws) h = pending-finished ws h.1

pub work-starting : (cs : List Contact) → work (map starting cs) ≡ 2 * length cs
unfolding work
work-starting [] = refl
work-starting (c ∷ cs) = omega (arith, work-starting cs)

has_pending :
    (q : NodeId) (before after : List Worker) (w : Worker)
    → has_id q (pending (before ++ w ∷ after))
      ≡ (has_id q (pending (w ∷ [])) || has_id q (pending (before ++ finished ∷ after)))
unfolding pending has_id
has_pending q [] after (starting c) = ground arith
has_pending q [] after (asking c) = ground arith
has_pending q [] after finished = ground arith
has_pending q (starting c ∷ before) after w = ground (arith, has_pending q before after w)
has_pending q (asking c ∷ before) after w = has_pending q before after w
has_pending q (finished ∷ before) after w = has_pending q before after w

pub work-replace :
    (before after : List Worker) (w : Worker)
    → work (before ++ w ∷ after) ≡ work (w ∷ []) + work (before ++ finished ∷ after)
unfolding work
work-replace [] after (starting c) = omega arith
work-replace [] after (asking c) = omega arith
work-replace [] after finished = omega arith
work-replace (starting c ∷ before) after w = omega (arith, work-replace before after w)
work-replace (asking c ∷ before) after w = omega (arith, work-replace before after w)
work-replace (finished ∷ before) after w = work-replace before after w

-- Marking a contact, as its goroutine does, only makes true what was pending.
pub open_work-mark :
    (us : List NodeId) (ls : LookupState) (before after : List Worker) (c : Contact)
    → open_work us (mark_contacted ls c.id) (before ++ asking c ∷ after)
      ≡ open_work us ls (before ++ starting c ∷ after)
unfolding open_work pending has_id
open_work-mark us ls before after c = open_count-ext us _ _ (λ q. marked q)
  where
    marked :
        (q : NodeId)
        → is_contacted (mark_all (mark_contacted ls c.id) (pending (before ++ asking c ∷ after))) q
          ≡ is_contacted (mark_all ls (pending (before ++ starting c ∷ after))) q
    marked q = ground (
      arith,
      is_contacted-mark_all (mark_contacted ls c.id) (pending (before ++ asking c ∷ after)) q,
      is_contacted-mark_all ls (pending (before ++ starting c ∷ after)) q,
      has_pending q before after (starting c),
      has_pending q before after (asking c),
      is_contacted-mark_contacted ls c.id q,
    )

pub open_work-answer :
    (us : List NodeId) (ls ms : LookupState) (before after : List Worker) (c : Contact)
    → ls.contacted ≡ ms.contacted
    → open_work us ls (before ++ finished ∷ after) ≡ open_work us ms (before ++ asking c ∷ after)
unfolding open_work pending has_id
open_work-answer us ls ms before after c same = open_count-ext us _ _ (λ q. marked q)
  where
    marked :
        (q : NodeId)
        → is_contacted (mark_all ls (pending (before ++ finished ∷ after))) q
          ≡ is_contacted (mark_all ms (pending (before ++ asking c ∷ after))) q
    marked q = ground (
      arith,
      is_contacted-mark_all ls (pending (before ++ finished ∷ after)) q,
      is_contacted-mark_all ms (pending (before ++ asking c ∷ after)) q,
      has_pending q before after (asking c),
      is_contacted-eq ls ms q same,
    )

-- A launch makes pending one identifier of the set at least that was not contacted.
pub open_work-launch :
    (us : List NodeId) (s : ValueLookup) (c : Contact) (cs : List Contact)
    → IsValid us s
    → s.phase ≡ choosing
    → next_batch s.lookup ≡ c ∷ cs
    → open_work us s.lookup (map starting (c ∷ cs)) < open_work us s.lookup s.workers
unfolding open_work
open_work-launch us s c cs v p b =
    let (new, known) = next_batch-head s.lookup c cs b in
    let fewer = open_count-mark_all-lt us s.lookup c cs (v.among c.id known) new in
    rw (pending-starting (c ∷ cs), pending-finished s.workers (v.idle p)) (unfold mark_all in fewer)
