-- ===== src/Dht/Api/Peering.antt =====
-- `POST /peer` of dht/api.go.
use mesh_net.Base.{
  ℕ, ◌≡◌, ◌≢◌, refl, sym, ◌∙◌, true, false, Option, none, some, List, [], Bytes, bytes_eq,
  bytes_eq_iff, codes, arith, Bool-cases, inl, inr, ◌⊎◌,
}
use mesh_net.Outcome.{Outcome, Error, ok, err, panics}
use mesh_net.Dht.Env.{Env, Network}
use mesh_net.Dht.Node.{Dht}
use mesh_net.Dht.Announce.{ping_peer}
use mesh_net.Dht.Announce.Ends.{err_apart}
use mesh_net.Dht.Announce.Pinging.{Ponged, ping_peer-cases}
use mesh_net.Dht.Peers.{SavedPeer, save_peers}
use mesh_net.Dht.Api.{Response, message, failure, handle_peer}

-- Why the handler refuses: another method, no address, or a ping that failed.
abbrev pub IsRefused : Env → Network → Dht → Bytes → Bytes → ℕ → Type 0
IsRefused env net d method address code =
    ((code ≡ 405) × (method ≢ codes "POST"))
    ⊎ ((code ≡ 400) × (address ≡ []))
    ⊎ ((code ≡ 502) × (e : Error) × ((ping_peer env net d address).1 ≡ err e))

-- What the handler leaves: a response of success, after a pong whose sender is in the table and
-- saved, or an error, with the node as it was and nothing saved.
abbrev pub IsPeered :
    Env → Network → Dht → Bytes → Bytes → Dht × Option (List SavedPeer) × Response → Type 0
IsPeered env net d method address (d', saved, resp) =
    ((resp.code ≢ 200) × IsRefused env net d method address resp.code × (d' ≡ d) × (saved ≡ none))
    ⊎ ((resp.code ≡ 200)
        × (method ≡ codes "POST")
        × (address ≢ [])
        × ((ping_peer env net d address).1 ≡ ok tt)
        × Ponged env net d d' address
        × (saved ≡ some (save_peers env d')))

module _ (env : Env) (net : Network) (d : Dht) (method address : Bytes) where
  abbrev pub IsReply : Option (Dht × Option (List SavedPeer) × Response) → Type 0
  IsReply none = (ping_peer env net d address).1 ≡ panics
  IsReply (some reply) = IsPeered env net d method address reply

  refused_method :
      bytes_eq method (codes "POST") ≡ false
      → handle_peer env net d method address
        ≡ some (d, none, record { code = 405; body = message (codes "POST required") })
  unfolding handle_peer
  refused_method h = ground (arith, h)

  refused_address :
      bytes_eq method (codes "POST") ≡ true
      → bytes_eq address [] ≡ true
      → handle_peer env net d method address
        ≡ some (d, none, record { code = 400; body = message (codes "addr required") })
  unfolding handle_peer
  refused_address h k = ground (arith, h, k)

  pinged :
      bytes_eq method (codes "POST") ≡ true
      → bytes_eq address [] ≡ false
      → handle_peer env net d method address ≡ (elim (ping_peer env net d address).1 [
        | ok _ ↦ some (
          (ping_peer env net d address).0,
          some (save_peers env (ping_peer env net d address).0),
          record { code = 200; body = message (codes "ok") },
        )
        | err e ↦
            some ((ping_peer env net d address).0, none, record { code = 502; body = failure })
        | panics ↦ none
      ])
  unfolding handle_peer
  pinged h k = ground (arith, h, k)

  -- What the handler makes of the result of the ping.
  replied :
      (o : Outcome (Unit {0}))
      → (ping_peer env net d address).1 ≡ o
      → method ≡ codes "POST"
      → address ≢ []
      → IsReply (elim o [
        | ok _ ↦ some (
          (ping_peer env net d address).0,
          some (save_peers env (ping_peer env net d address).0),
          record { code = 200; body = message (codes "ok") },
        )
        | err e ↦
            some ((ping_peer env net d address).0, none, record { code = 502; body = failure })
        | panics ↦ none
      ])
  replied (ok tt) e post given = elim (ping_peer-cases env net d _ address _ refl) [
    | inl (failed, _) ↦ absurd (failed e)
    | inr (_, ponged) ↦ inr (refl, post, given, e, ponged, refl)
  ]
  replied (err x) e post given = elim (ping_peer-cases env net d _ address _ refl) [
    | inl (_, same) ↦ inl (λ f. absurd (omega (arith, f)), inr (inr (refl, x, e)), same, refl)
    | inr (fine, _) ↦ absurd (err_apart (sym e ∙ fine))
  ]
  replied panics e post given = e

  -- `POST /peer` answers with 200 exactly if the method is POST, an address is given, and its node
  -- answers the ping: then the sender of the pong went into the table as `Add` decides, and the
  -- peers of the table are saved. Any other answer leaves the node as it was and saves nothing. The
  -- handler panics only where `PingPeer` does.
  pub handle_peer-IsReply : IsReply (handle_peer env net d method address)
  handle_peer-IsReply = elim (Bool-cases (bytes_eq method (codes "POST"))) [
    | inr other ↦ rw (refused_method other) (
        inl (
          λ f. absurd (omega (arith, f)),
          inl (refl, λ f. ground (arith, f, other, bytes_eq_iff method (codes "POST"))),
          refl,
          refl,
        ))
    | inl post ↦ elim (Bool-cases (bytes_eq address [])) [
      | inl empty ↦ rw (refused_address post empty) (
          inl (
            λ f. absurd (omega (arith, f)),
            inr (inl (refl, (bytes_eq_iff address []).0 empty)),
            refl,
            refl,
          ))
      | inr given ↦ rw (pinged post given) (
          replied (ping_peer env net d address).1 refl ((bytes_eq_iff method (codes "POST")).0 post)
            (λ f. ground (arith, f, given, bytes_eq_iff address [])))
    ]
  ]
