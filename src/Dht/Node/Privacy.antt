-- ===== src/Dht/Node/Privacy.antt =====
-- Which records `handleFindValue` of dht/dht.go gives away.
use mesh_net.Base.{
  ℕ, ◌≡◌, ◌↔◌, false, ◌==◌, some, [], Bytes, bytes_eq_iff, arith, lookup, Option-cases, inl, inr,
}
use mesh_net.Dht.Store.{Record, Store, is_expired}
use mesh_net.Dht.Store.Reads.{get_iff, get_group_iff}
use mesh_net.Dht.Rpc.{Message, FindValueBody, msg_found_value}
use mesh_net.Dht.Env.{Env}
use mesh_net.Dht.Node.{Dht, local_value, found_nodes_message, not_found_reply, handle_find_value}

-- A request reads the record of its name whose group key is that of the request; the empty key
-- stands for the public records.
pub local_value_iff :
    (now : ℕ) (s : Store) (name group_key : Bytes) (r : Record)
    → (local_value now s name group_key ≡ some r)
      ↔ ((lookup name s.records ≡ some r) × (is_expired now r ≡ false) × (r.group_key ≡ group_key))
unfolding local_value
local_value_iff now s name group_key r =
    ground
      (arith, get_iff now s name r, get_group_iff now s name group_key r, bytes_eq_iff group_key [])

module _ (env : Env) where
  found_value_message : Record → Message
  found_value_message r = record {
    type = msg_found_value;
    body = env.found_value.marshal (record { found = r });
  }

  not_found_reply-ne :
      (d d' : Dht) (name : Bytes) (msg : Message)
      → not_found_reply env d name ≡ (d', some msg)
      → (msg.type == msg_found_value) ≡ false
  unfolding not_found_reply found_nodes_message
  not_found_reply-ne d d' name msg e = ground arith

  -- A peer that asks with a group key gets a record of that group only, and a peer that asks
  -- without one gets a public record only: if `handleFindValue` replies with a record, the reply
  -- carries one that the store holds under the name of the request, that has not expired, and whose
  -- group key is that of the request.
  pub handle_find_value_private :
      (now : ℕ) (d d' : Dht) (msg reply : Message)
      → handle_find_value env now d msg ≡ (d', some reply)
      → reply.type ≡ msg_found_value
      → (req : FindValueBody) × (r : Record) × (env.find_value.unmarshal msg.body ≡ some req)
        × (reply.body ≡ env.found_value.marshal (record { found = r }))
        × (lookup req.name d.store.records ≡ some r)
        × (is_expired now r ≡ false)
        × (r.group_key ≡ req.group_key)
  unfolding handle_find_value
  handle_find_value_private now d d' msg reply h t =
      elim (Option-cases (env.find_value.unmarshal msg.body)) [
        | inl bad ↦ absurd (ground arith)
        | inr (req, e) ↦ elim (Option-cases (local_value now d.store req.name req.group_key)) [
          | inl nothing ↦ absurd (ground (arith, not_found_reply-ne d d' req.name reply))
          | inr (r, f) ↦
              let (held, fresh, group) =
                (local_value_iff now d.store req.name req.group_key r).0 f in
              (req, r, e, ground arith, held, fresh, group)
        ]
      ]
