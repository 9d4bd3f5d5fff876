-- ===== src/Cli/Commands/Adding.antt =====
-- `meshnet peer add` of cli/cli.go against the handler of dht/api.go that serves it.
use mathlib.Core.Path.{subst}
use mesh_net.Base.{
  ℕ, [], ◌≡◌, ◌≢◌, refl, sym, ap, ◌∙◌, Bool, true, false, ◌==◌, if◌then◌else◌, Option, none, some,
  List, ◌∷◌, Bytes, bytes_eq, codes, arith, inl, inr, ◌⊎◌,
}
use mesh_net.Outcome.{Error, ok, err}
use mesh_net.Dht.Announce.{ping_peer}
use mesh_net.Dht.Env.{Env, Network}
use mesh_net.Dht.Node.{Dht}
use mesh_net.Dht.Announce.Pinging.{Ponged, ping_peer-no_panic}
use mesh_net.Dht.Peers.{SavedPeer, save_peers}
use mesh_net.Dht.Api.{Response, handle_peer}
use mesh_net.Dht.Api.Peering.{IsRefused, IsPeered, IsReply, handle_peer-IsReply}
use mesh_net.Core.Identity.{Disk}
use mesh_net.Cli.Commands.{
  PeerReport, added, refused, add_peer, cmd_peer, peer_url, is_node_running, exit_code,
}

-- The answer that arrives: none where the node panics.
abbrev pub arrives : Option (Dht × Option (List SavedPeer) × Response) → Option Response
arrives none = none
arrives (some (d, saved, resp)) = some resp

module _ (env : Env) (net : Network) (d : Dht) (query : Bytes → Bytes) where
  -- The node behind the local interface; `query` gives the value of `addr` in the address of a request.
  abbrev pub served : Bytes → Option (Dht × Option (List SavedPeer) × Response)
  served url = handle_peer env net d (codes "POST") (query url)

  abbrev pub post : Bytes → Option Response
  post url = arrives (served url)

  -- The node's answer to the request, what it did to the node and saved, and what the command prints.
  abbrev pub IsAdded : Bytes → PeerReport → Type 0
  IsAdded address report =
      (d' : Dht) × (saved : Option (List SavedPeer)) × (resp : Response) × (served
          (peer_url address)
        ≡ some (d', saved, resp))
      × (((report ≡ added)
            × (exit_code report ≡ 0)
            × ((ping_peer env net d address).1 ≡ ok tt)
            × Ponged env net d d' address
            × (saved ≡ some (save_peers env d')))
          ⊎ ((report ≡ refused resp.code)
              × (exit_code report ≡ 1)
              × (((resp.code ≡ 400) × (address ≡ []))
                  ⊎ ((resp.code ≡ 502) × (e : Error) × ((ping_peer env net d address).1 ≡ err e)))
              × (d' ≡ d)
              × (saved ≡ none)))

  -- A request with the method of the command is not refused for its method.
  refused_post :
      (address : Bytes) (code : ℕ)
      → IsRefused env net d (codes "POST") address code
      → ((code ≡ 400) × (address ≡ []))
        ⊎ ((code ≡ 502) × (e : Error) × ((ping_peer env net d address).1 ≡ err e))
  refused_post address code (inl (_, other)) = absurd (other refl)
  refused_post address code (inr cause) = cause

  module _ (first : Response) (removes : Bool) (disk : Disk) (address : Bytes)
      (rest : List Bytes) where
    abbrev printed : PeerReport
    printed = (cmd_peer (some first) post removes disk (codes "add" ∷ address ∷ rest)).1

    printed-add_peer : printed ≡ add_peer (some first) post address
    unfolding cmd_peer bytes_eq
    printed-add_peer = refl

    module _ (d' : Dht) (saved : Option (List SavedPeer)) (resp : Response)
        (e : served (peer_url address) ≡ some (d', saved, resp)) where
      arrived :
          (b : Bool) → (resp.code == 200) ≡ b → printed ≡ (if b then added else refused resp.code)
      unfolding add_peer is_node_running
      arrived b h = printed-add_peer ∙ ground (arith, e, h)

      arrived-added : resp.code ≡ 200 → printed ≡ added
      arrived-added h = arrived true (ground (arith, h))

      arrived-refused : resp.code ≢ 200 → printed ≡ refused resp.code
      arrived-refused h = arrived false (ground (arith, h))

      answered :
          query (peer_url address) ≡ address
          → IsPeered env net d (codes "POST") address (d', saved, resp)
      answered plain =
          subst (IsReply env net d (codes "POST") address)
            (sym (ap (λ (a : Bytes). handle_peer env net d (codes "POST") a) plain) ∙ e)
            (handle_peer-IsReply env net d (codes "POST") address)

    reported :
        (o : Option (Dht × Option (List SavedPeer) × Response))
        → served (peer_url address) ≡ o
        → query (peer_url address) ≡ address
        → IsAdded address printed
    unfolding exit_code
    reported none e plain = absurd (
        ping_peer-no_panic env net d address (
          subst (IsReply env net d (codes "POST") address)
            (sym (ap (λ (a : Bytes). handle_peer env net d (codes "POST") a) plain) ∙ e)
            (handle_peer-IsReply env net d (codes "POST") address)))
    reported (some (d', saved, resp)) e plain = (
      d',
      saved,
      resp,
      e,
      elim (answered d' saved resp e plain) [
        | inl (bad, why, same, unsaved) ↦
            let p = arrived-refused d' saved resp e bad in
            inr (p, ap exit_code p, refused_post address resp.code why, same, unsaved)
        | inr (good, _, _, fine, ponged, kept) ↦
            let p = arrived-added d' saved resp e good in
            inl (p, ap exit_code p, fine, ponged, kept)
      ],
    )

    -- `meshnet peer add` with an address, at a running node, gets an answer, prints that the peer
    -- was added, and exits with 0, exactly if `PingPeer` of the running node with that address
    -- succeeds: then the sender of the pong went into the table as `Add` decides, and the peers of
    -- the table are saved. Else it prints the status of the answer, 400 for an empty address and
    -- 502 where the ping returned an error, and exits with 1, and the node is as it was and saved
    -- nothing. The address is taken to be one that the query of a URL gives back as it stands, and
    -- the answer to arrive as it was sent.
    pub cmd_peer-IsAdded :
        query (peer_url address) ≡ address
        → IsAdded address (cmd_peer (some first) post removes disk (codes "add" ∷ address ∷ rest)).1
    cmd_peer-IsAdded plain = reported (served (peer_url address)) refl plain
