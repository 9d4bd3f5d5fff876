-- ===== src/Dht/Walk/Round.antt =====
-- One round of `LookupNode` of dht/lookup.go: what it keeps, and what it brings nearer to the end.
use mathlib.Core.List.{Permᴰ}
use mathlib.Core.Path.{subst}
use mesh_net.Dht.Client.{send_find_node}
use mesh_net.Base.{
  ℕ, ◌<◌, ◌≡◌, refl, ◌∙◌, true, false, Option, none, some, List, [], ◌∷◌, Bytes, arith, All,
}
use mesh_net.Outcome.{Outcome, ok, err, panics}
use mesh_net.Dht.NodeId.{NodeId, node_id_from_hex}
use mesh_net.Dht.NodeId.Hex.{node_id_from_hex-IsNodeId}
use mesh_net.Dht.Contact.{Contact, HasNodeId, has_id}
use mesh_net.Dht.Contact.Rearranged.{All-permᴰ}
use mesh_net.Dht.Table.{RoutingTable, add}
use mesh_net.Dht.Table.Valid.{IsTable, add-IsTable}
use mesh_net.Dht.Lookup.{LookupState, is_contacted, add_candidates}
use mesh_net.Dht.Lookup.Adding.{IsLookup, has_id-add_candidates, add_candidates-frame}
use mesh_net.Dht.Rpc.{ContactInfo}
use mesh_net.Dht.Env.{Env, Network, addr}
use mesh_net.Dht.Walk.Extended.{
  Extends, Extends-refl, Extends-trans, mark_all-Extends, mark_all-candidates,
  add_candidates-Extends,
}
use mesh_net.Dht.Walk.Open.{contains, open_count, open_count-eq, open_count-mark_all-lt}
use mesh_net.Dht.Walk.{
  sent, infos_of, contact_of, decode_infos, mark_all, add_all, deliver_all, ask, ask_all,
  lookup_round,
}

abbrev pub AreAmong : List NodeId → List Contact → Type 0
AreAmong universe cs = (q : NodeId) → has_id q cs ≡ true → contains q universe ≡ true

contact_of-HasNodeId :
    (s : Bytes) (ip : Option Bytes) (ci : ContactInfo) (rest : List Contact)
    → All HasNodeId rest
    → All HasNodeId (contact_of (node_id_from_hex s) ip ci rest)
contact_of-HasNodeId s ip ci rest h = go (node_id_from_hex s) ip refl
  where
    go :
        (o : Outcome NodeId) (ip : Option Bytes)
        → node_id_from_hex s ≡ o
        → All HasNodeId (contact_of o ip ci rest)
    go (ok id) (some a) e = (node_id_from_hex-IsNodeId s id e, h)
    go (ok id) none e = h
    go (err x) ip e = h
    go panics ip e = h

-- Whatever a peer answers, the contacts that are taken from it have identifiers of 32 bytes.
pub decode_infos-HasNodeId :
    (env : Env) (infos : List ContactInfo) → All HasNodeId (decode_infos env infos)
unfolding decode_infos
decode_infos-HasNodeId env [] = tt
decode_infos-HasNodeId env (ci ∷ cis) =
    contact_of-HasNodeId ci.id (env.parse_ip ci.addr) ci _ (decode_infos-HasNodeId env cis)

pub add_all-IsTable :
    (t : RoutingTable) (cs : List Contact) → IsTable t → All HasNodeId cs → IsTable (add_all t cs)
unfolding add_all
add_all-IsTable t [] v h = v
add_all-IsTable t (c ∷ cs) v h = add_all-IsTable (add t c) cs (add-IsTable t c v h.0) h.1

-- An answer of well-formed contacts from the set.
abbrev pub IsAnswer : List NodeId → List Contact → Type 0
IsAnswer universe cs = All HasNodeId cs × AreAmong universe cs

pub add_candidates-AreAmong :
    (universe : List NodeId) (ls : LookupState) (cs : List Contact)
    → IsLookup ls
    → IsAnswer universe cs
    → AreAmong universe ls.candidates
    → AreAmong universe (add_candidates ls cs).candidates
add_candidates-AreAmong universe ls cs v (h, among) old q new =
    ground (arith, has_id-add_candidates ls cs q v h, among q, old q)

-- Delivering answers extends the state, within the set, and contacts nobody.
record Delivers (universe : List NodeId) (ls ms : LookupState) (t : RoutingTable) : Type 0 where
  extends : Extends ls ms
  among : AreAmong universe ms.candidates
  same : ms.contacted ≡ ls.contacted
  table : IsTable t

deliver_all-Delivers :
    (universe : List NodeId) (ls : LookupState) (t : RoutingTable) (results : List (List Contact))
    → IsLookup ls
    → AreAmong universe ls.candidates
    → IsTable t
    → All (IsAnswer universe) results
    → Delivers universe ls (deliver_all ls t results).0 (deliver_all ls t results).1
unfolding deliver_all
deliver_all-Delivers universe ls t [] v a vt h = record {
  extends = Extends-refl ls v;
  among = a;
  same = refl;
  table = vt;
}
deliver_all-Delivers universe ls t (cs ∷ results) v a vt h =
    let first = add_candidates-Extends ls cs v h.0.0 in
    let rest =
      deliver_all-Delivers universe (add_candidates ls cs) (add_all t cs) results first.valid
        (add_candidates-AreAmong universe ls cs v h.0 a) (add_all-IsTable t cs vt h.0.0) h.1 in
    record {
      extends = Extends-trans first rest.extends;
      among = rest.among;
      same = rest.same ∙ (add_candidates-frame ls cs).2;
      table = rest.table;
    }

sent-All :
    (P : List Contact → Type 0) (o : Option (List Contact)) (rest : List (List Contact))
    → ((cs : List Contact) → o ≡ some cs → P cs)
    → All P rest
    → All P (sent o rest)
sent-All P none rest h k = k
sent-All P (some cs) rest h k = (h cs refl, k)

-- The channel hands over the answers that were sent, each once, in some order.
abbrev pub Arrives : (ℕ → List (List Contact) → List (List Contact)) → Type 0
Arrives arrive = (n : ℕ) (results : List (List Contact)) → Permᴰ results (arrive n results)

module _ (env : Env) (net : ℕ → Network) where
  -- Every answer of the network stays within the set.
  abbrev pub Answers : List NodeId → NodeId → NodeId → Type 0
  Answers universe self target =
      (n : ℕ) (c : Contact) (cs : List Contact)
      → ask env net n self target c ≡ some cs
      → AreAmong universe cs

  ask-HasNodeId :
      (n : ℕ) (self target : NodeId) (c : Contact) (cs : List Contact)
      → ask env net n self target c ≡ some cs
      → All HasNodeId cs
  unfolding ask
  ask-HasNodeId n self target c cs e = go (send_find_node env (net n) (addr env c) self target) refl
    where
      go :
          (o : Outcome (Option (List ContactInfo)))
          → send_find_node env (net n) (addr env c) self target ≡ o
          → All HasNodeId cs
      go (ok infos) f =
          subst (All HasNodeId) (ground arith) (decode_infos-HasNodeId env (infos_of infos))
      go (err x) f = absurd (ground arith)
      go panics f = absurd (ground arith)

  ask_all-IsAnswer :
      (universe : List NodeId) (n : ℕ) (self target : NodeId) (batch : List Contact)
      → Answers universe self target
      → All (IsAnswer universe) (ask_all env net n self target batch)
  unfolding ask_all
  ask_all-IsAnswer universe n self target [] h = tt
  ask_all-IsAnswer universe n self target (c ∷ cs) h =
      sent-All (IsAnswer universe) (ask env net n self target c) _
        (λ found e. (ask-HasNodeId n self target c found e, h n c found e))
        (ask_all-IsAnswer universe n self target cs h)

-- A round whose batch begins with a candidate that was not contacted leaves fewer of the set to be
-- contacted, and keeps all else.
pub record Advances (universe : List NodeId) (ls ms : LookupState) (t : RoutingTable) : Type 0 where
  pub extends : Extends ls ms
  pub among : AreAmong universe ms.candidates
  pub fewer : open_count universe ms < open_count universe ls
  pub table : IsTable t

mark_all-Advances :
    (universe : List NodeId) (ls ms : LookupState) (t : RoutingTable) (c : Contact)
    (cs : List Contact)
    → Extends ls (mark_all ls (c ∷ cs))
    → Delivers universe (mark_all ls (c ∷ cs)) ms t
    → contains c.id universe ≡ true
    → is_contacted ls c.id ≡ false
    → Advances universe ls ms t
mark_all-Advances universe ls ms t c cs marks d here new = record {
  extends = Extends-trans marks d.extends;
  among = d.among;
  fewer = omega (
    arith,
    open_count-eq universe ms (mark_all ls (c ∷ cs)) d.same,
    open_count-mark_all-lt universe ls c cs here new,
  );
  table = d.table;
}

module _ (env : Env) (net : ℕ → Network)
    (arrive : ℕ → List (List Contact) → List (List Contact)) where
  pub lookup_round-Advances :
      (universe : List NodeId) (n : ℕ) (self : NodeId) (ls : LookupState) (t : RoutingTable)
      (c : Contact) (cs : List Contact)
      → Arrives arrive
      → Answers env net universe self ls.target
      → IsLookup ls
      → AreAmong universe ls.candidates
      → IsTable t
      → (is_contacted ls c.id ≡ false) × (has_id c.id ls.candidates ≡ true)
      → Advances universe ls
          (lookup_round env net arrive n self ls t (c ∷ cs)).0
          (lookup_round env net arrive n self ls t (c ∷ cs)).1
  unfolding lookup_round
  lookup_round-Advances universe n self ls t c cs arrives answers v a vt (new, here) =
      let marked = mark_all ls (c ∷ cs) in
      let marks = mark_all-Extends ls (c ∷ cs) v in
      let results = ask_all env net n self ls.target (c ∷ cs) in
      let good =
        All-permᴰ (IsAnswer universe) (arrives n results)
          (ask_all-IsAnswer env net universe n self ls.target (c ∷ cs) answers) in
      let among : AreAmong universe marked.candidates = rw (mark_all-candidates ls (c ∷ cs)) a in
      mark_all-Advances universe ls _ _ c cs marks
        (deliver_all-Delivers universe marked t (arrive n results) marks.valid among vt good)
        (a c.id here) new
