-- ===== src/Dht/Node/Publishing.antt =====
-- A record on its way from one peer to another: `SendStore` and `SendFindValue` of dht/rpc.go against
-- the handlers of dht/dht.go.
use mesh_net.Base.{
  ℕ, ◌≡◌, refl, ap, ◌∙◌, true, false, none, some, [], Bytes, bytes_eq_refl, lookup, arith,
}
use mesh_net.Outcome.{ok}
use mesh_net.Dht.NodeId.{NodeId, to_string}
use mesh_net.Dht.Store.{Record, Store, is_expired, is_public, get, get_public, get_for_group, put}
use mesh_net.Dht.Store.Put.{accepts, put_accepts, lookup-put}
use mesh_net.Dht.Rpc.{
  Message, FindValueBody, frame, read_message, msg_store, msg_find_value, msg_found_value,
}
use mesh_net.Dht.Env.{Env, Network}
use mesh_net.Dht.Client.{write_request, send_store, send_find_value, read_value, found}
use mesh_net.Dht.Node.{
  Dht, local_value, handle_store, handle_find_value, handle_message, handle_connection,
}
use mesh_net.Dht.Node.Exchange.{
  IsCarried, IsServing, read_message-frame_alone, write_message-frame, exchange-ok,
}

-- A record that a store holds is found under its name and group key, until it expires.
local_value-held :
    (now : ℕ) (s : Store) (r : Record)
    → lookup r.name s.records ≡ some r
    → is_expired now r ≡ false
    → local_value now s r.name r.group_key ≡ some r
unfolding local_value get_public get_for_group get is_public
local_value-held now s r held fresh = ground (arith, held, fresh, bytes_eq_refl r.group_key)

module _ (env : Env) where
  -- The node once it has stored a record.
  abbrev pub stocked : ℕ → Dht → Record → Dht
  stocked now d r = record d { store = (put env.crypto now d.store r).0 }

  serve_store :
      (now : ℕ) (d : Dht) (conn : Bytes) (r : Record) (msg : Message)
      → read_message conn ≡ ok (msg, [])
      → msg.type ≡ msg_store
      → env.store.unmarshal msg.body ≡ some (record { stored = r })
      → (put env.crypto now d.store r).1 ≡ ok tt
      → handle_connection env now d conn ≡ ok (stocked now d r, none)
  unfolding handle_connection handle_message handle_store
  serve_store now d conn r msg read type decoded stored = ground (arith, stored)

  serve_find_value :
      (now : ℕ) (d : Dht) (conn : Bytes) (req : FindValueBody) (r : Record) (msg : Message)
      → read_message conn ≡ ok (msg, [])
      → msg.type ≡ msg_find_value
      → env.find_value.unmarshal msg.body ≡ some req
      → local_value now d.store req.name req.group_key ≡ some r
      → handle_connection env now d conn
        ≡ ok (
          d,
          some (record {
            type = msg_found_value;
            body = env.found_value.marshal (record { found = r });
          }),
        )
  unfolding handle_connection handle_message handle_find_value
  serve_find_value now d conn req r msg read type decoded held = ground (arith, held)

  -- A request for a value that a serving node holds brings back that record.
  send_find_value-held :
      (net : Network) (address : Bytes) (now : ℕ) (d : Dht) (sender : NodeId) (r : Record)
      → IsServing env net address now d
      → local_value now d.store r.name r.group_key ≡ some r
      → IsCarried env env.find_value
          (record { sender_id = to_string sender; name = r.name; group_key = r.group_key })
      → IsCarried env env.found_value (record { found = r })
      → send_find_value env net address sender r.name r.group_key ≡ ok (found r)
  send_find_value-held net address now d sender r serving held request response =
      let body =
        env.find_value.marshal
          (record { sender_id = to_string sender; name = r.name; group_key = r.group_key }) in
      let answer = env.found_value.marshal (record { found = r }) in
      let sent : write_request env net address (record { type = msg_find_value; body = body })
          ≡ ok (frame msg_find_value body) =
        unfold write_request in
        rw serving.reachable (
          write_message-frame env (net.accepts address) msg_find_value body serving.taken
            request.raw) in
      let served =
        serve_find_value now d (frame msg_find_value body) _ r _
          (read_message-frame_alone msg_find_value body request.short) refl request.decoded held in
      let received : net.response address (frame msg_find_value body)
          ≡ frame msg_found_value answer =
        serving.answered (frame msg_find_value body) (frame msg_found_value answer) d _ served
          (write_message-frame env (λ b. true) msg_found_value answer (λ b. refl) response.raw) in
      let replied = exchange-ok env net address (frame msg_find_value body) _ _ sent (
        ap read_message received
        ∙ read_message-frame_alone msg_found_value answer response.short) in
      unfold send_find_value read_value in ground (arith, replied, response.decoded)

  -- What one peer stores on a node, another one finds there: `SendStore` of a record that the
  -- node's `Put` accepts writes a request that the node's handler serves by storing it, and from
  -- then on, until the record expires, `SendFindValue` with the name and the group key of the
  -- record brings it back, from a node whose handler answers on the address, over a network that
  -- takes the request, where the requests and the answer are encoded as JSON that decodes to them
  -- and have at most one MiB.
  pub send_find_value-send_store :
      (store_net find_net : Network) (store_address find_address : Bytes) (stored_at now : ℕ)
      (d : Dht) (sender : NodeId) (r : Record)
      → store_net.reachable store_address ≡ true
      → ((sent : Bytes) → store_net.accepts store_address sent ≡ true)
      → accepts env.crypto stored_at d.store r ≡ true
      → is_expired now r ≡ false
      → IsServing env find_net find_address now (stocked stored_at d r)
      → IsCarried env env.store (record { stored = r })
      → IsCarried env env.find_value
          (record { sender_id = to_string sender; name = r.name; group_key = r.group_key })
      → IsCarried env env.found_value (record { found = r })
      → (sent : Bytes) × (send_store env store_net store_address r ≡ ok sent)
        × (handle_connection env stored_at d sent ≡ ok (stocked stored_at d r, none))
        × (send_find_value env find_net find_address sender r.name r.group_key ≡ ok (found r))
  unfolding send_store write_request
  send_find_value-send_store store_net find_net store_address find_address stored_at now d sender r
        reachable taken taken_in fresh serving stored request response =
      let body = env.store.marshal (record { stored = r }) in
      let held : lookup r.name (put env.crypto stored_at d.store r).0.records ≡ some r =
        lookup-put env.crypto stored_at d.store r r.name
        ∙ rw (taken_in, bytes_eq_refl r.name) refl in
      (
        frame msg_store body,
        rw reachable (
            write_message-frame env (store_net.accepts store_address) msg_store body taken
              stored.raw),
        serve_store stored_at d (frame msg_store body) r _
            (read_message-frame_alone msg_store body stored.short) refl stored.decoded
            ((put_accepts env.crypto stored_at d.store r).1 taken_in),
        send_find_value-held find_net find_address now (stocked stored_at d r) sender r serving
            (local_value-held now (put env.crypto stored_at d.store r).0 r held fresh) request
            response,
      )
