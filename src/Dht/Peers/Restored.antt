-- ===== src/Dht/Peers/Restored.antt =====
-- What the pings of dht/peers.go leave.
use mesh_net.Base.{
  ◌≢◌, sym, ap, ◌∙◌, Bool, true, false, if◌then◌else◌, arith, ◌≤◌, ◌≡◌, ◌*◌, refl, ltb, Option,
  none, some, List, [], ◌∷◌, map, Bytes, Bool-cases, inl, inr,
}
use mesh_net.Dht.Contact.{Contact}
use mesh_net.Dht.Table.{all_contacts, size, bucket_size}
use mesh_net.Dht.Table.Contents.{size-all_contacts}
use mesh_net.Dht.Env.{Env, Network, addr}
use mesh_net.Dht.Node.{Dht}
use mesh_net.Dht.Node.Valid.{IsNode}
use mesh_net.Dht.Announce.{ping_peer}
use mesh_net.Dht.Announce.Pinging.{ping_peer-IsNode}
use mesh_net.Outcome.{Outcome, ok, err, FileRead, content, missing, unreadable, peers_not_saved}
use mesh_net.Core.Identity.{Disk, write_file, read-write_file}
use mesh_net.Dht.Peers.{
  peers_file, save_to, save_text, SavedPeer, peer_addr, saved_peer, save_peers, ping_each,
  load_peers, bootstrap_dht,
}

saved-addr : (env : Env) (c : Contact) → peer_addr (saved_peer env c) ≡ addr env c
unfolding peer_addr saved_peer addr
saved-addr env c = refl

-- The addresses that `LoadPeers` makes of the peers that `SavePeers` writes are those of the
-- contacts of the table, in their order.
pub save_peers-addr :
    (env : Env) (d : Dht) → map peer_addr (save_peers env d) ≡ map (addr env) (all_contacts d.table)
unfolding save_peers
save_peers-addr env d = go (all_contacts d.table)
  where
    go : (cs : List Contact) → map peer_addr (map (saved_peer env) cs) ≡ map (addr env) cs
    go [] = refl
    go (c ∷ cs) = cc (saved-addr env c, go cs)

module _ (env : Env) (net : Network) where
  ping_each-IsNode :
      (d : Dht) (addrs : List Bytes) → IsNode env d → IsNode env (ping_each env net d addrs).0
  unfolding ping_each
  ping_each-IsNode d [] v = v
  ping_each-IsNode d (a ∷ addrs) v =
      ping_each-IsNode (ping_peer env net d a).0 addrs
        (ping_peer-IsNode env net d (ping_peer env net d a).0 a (ping_peer env net d a).1 refl v)

  module _ (arrive : List Bytes → List Bytes) (decode : Bytes → Option (List SavedPeer)) where
    load_peers-IsNode :
        (d : Dht) (file : Option Bytes)
        → IsNode env d
        → IsNode env (load_peers env net arrive decode d file).0
    unfolding load_peers
    load_peers-IsNode d none v = v
    load_peers-IsNode d (some text) v = go (decode text) refl
      where
        go :
            (peers : Option (List SavedPeer))
            → decode text ≡ peers
            → IsNode env (load_peers env net arrive decode d (some text)).0
        go none e = rw (e, load_peers) v
        go (some peers) e = rw (e, load_peers) (ping_each-IsNode d (arrive (map peer_addr peers)) v)

    -- `BootstrapDHT` on a valid node leaves it valid, whatever the file of saved peers holds,
    -- whatever answers the pings, and in whatever order; the number of contacts that it returns is
    -- at most 256 times `K`.
    pub bootstrap_dht-IsNode :
        (d : Dht) (file : Option Bytes) (well_known : List Bytes)
        → IsNode env d
        → IsNode env (bootstrap_dht env net arrive decode d file well_known).0
          × ((bootstrap_dht env net arrive decode d file well_known).1 ≤ 256 * bucket_size)
    unfolding bootstrap_dht
    bootstrap_dht-IsNode d file well_known v =
        let restored = (load_peers env net arrive decode d file).0 in
        let started = (ping_each env net restored (arrive well_known)).0 in
        let vr = load_peers-IsNode d file v in
        let vs = ping_each-IsNode restored (arrive well_known) vr in
        elim (Bool-cases (ltb 0 (size restored.table))) [
          | inl some_peer ↦ rw some_peer (vr, (size-all_contacts restored.table vr.table).1)
          | inr no_peer ↦ rw no_peer (vs, (size-all_contacts started.table vs.table).1)
        ]

-- The text of a file for `LoadPeers`.
abbrev pub file_text : FileRead → Option Bytes
file_text (content text) = some text
file_text missing = none
file_text unreadable = none

save_text-ok :
    (disk disk' : Disk) (o : Option Bytes)
    → save_text disk o ≡ (ok tt, disk')
    → (text : Bytes) × (o ≡ some text) × (disk'.read peers_file ≡ content text)
unfolding save_text
save_text-ok disk disk' none h = ground arith
save_text-ok disk disk' (some text) h = (text, refl, kept (disk.writable peers_file) h)
  where
    kept :
        (b : Bool)
        → ◌≡◌ {A = Outcome (Unit {0}) × Disk}
            (if b then (ok tt, write_file disk peers_file text) else (err peers_not_saved, disk))
            (ok tt, disk')
        → disk'.read peers_file ≡ content text
    kept true q =
        ap (λ (r : Outcome (Unit {0}) × Disk). r.1.read peers_file) (sym q)
        ∙ read-write_file disk peers_file text
    kept false q = ground arith

module _ (env : Env) (encode : List SavedPeer → Option Bytes) where
  save_to-nonempty :
      (d : Dht) (disk : Disk)
      → all_contacts d.table ≢ []
      → save_to env encode disk d ≡ save_text disk (encode (save_peers env d))
  unfolding save_to save_peers
  save_to-nonempty d disk h = some_peers (all_contacts d.table) h
    where
      some_peers :
          (cs : List Contact)
          → cs ≢ []
          → ◌≡◌ {A = Outcome (Unit {0}) × Disk}
              (elim (map (saved_peer env) cs) [
                | [] ↦ (ok tt, disk)
                | p ∷ ps ↦ save_text disk (encode (p ∷ ps))
              ])
              (save_text disk (encode (map (saved_peer env) cs)))
      some_peers [] h' = absurd (h' refl)
      some_peers (c ∷ cs) h' = refl

  load_peers-some :
      (net : Network) (arrive : List Bytes → List Bytes) (decode : Bytes → Option (List SavedPeer))
      (later : Dht) (text : Bytes) (peers : List SavedPeer)
      → decode text ≡ some peers
      → load_peers env net arrive decode later (some text)
        ≡ ping_each env net later (arrive (map peer_addr peers))
  unfolding load_peers
  load_peers-some net arrive decode later text peers h = ground (arith, h)

  -- What `SavePeers` writes of a table with a contact, `LoadPeers` of any later node reads: it
  -- pings the addresses of exactly these contacts, in the order `arrive` of its goroutines, where
  -- `encoding/json` reads back what it wrote.
  pub load_peers-save_to :
      (net : Network) (arrive : List Bytes → List Bytes) (decode : Bytes → Option (List SavedPeer))
      (d later : Dht) (disk disk' : Disk)
      → all_contacts d.table ≢ []
      → ((text : Bytes)
          → encode (save_peers env d) ≡ some text
          → decode text ≡ some (save_peers env d))
      → save_to env encode disk d ≡ (ok tt, disk')
      → load_peers env net arrive decode later (file_text (disk'.read peers_file))
        ≡ ping_each env net later (arrive (map (addr env) (all_contacts d.table)))
  load_peers-save_to net arrive decode d later disk disk' some_peer reads saved =
      let (text, encoded, kept) =
        save_text-ok disk disk' (encode (save_peers env d))
          (sym (save_to-nonempty d disk some_peer) ∙ saved) in
      ap (λ (f : FileRead). load_peers env net arrive decode later (file_text f)) kept
      ∙ load_peers-some net arrive decode later text (save_peers env d) (reads text encoded)
      ∙ ap (λ (addrs : List Bytes). ping_each env net later (arrive addrs)) (save_peers-addr env d)
