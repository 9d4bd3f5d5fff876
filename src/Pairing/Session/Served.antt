-- ===== src/Pairing/Session/Served.antt =====
-- The records of pairing/pairing.go in the store of a node of the package `dht`.
use mesh_net.Base.{
  ℕ, ◌+◌, ◌*◌, ◌^◌, ◌<◌, ◌≤◌, ◌≡◌, ◌≢◌, sym, ◌∙◌, Bool, true, none, some, [], Bytes, length, All,
  IsByte,
}
use mesh_net.Outcome.{ok}
use mesh_net.Crypto.{IsCrypto}
use mesh_net.Dht.NodeId.{NodeId, to_string}
use mesh_net.Dht.Store.{Record, verify}
use mesh_net.Dht.Store.Put.{is_free, accepts-fresh}
use mesh_net.Dht.Env.{Codec, Env, Network}
use mesh_net.Dht.Client.{send_store, send_find_value, found}
use mesh_net.Dht.Node.{Dht, handle_connection}
use mesh_net.Dht.Node.Exchange.{IsCarried, IsServing}
use mesh_net.Dht.Node.Publishing.{stocked, send_find_value-send_store}
use mesh_net.Pairing.Session.{PairingRecord, create_pairing_record, parse_pairing_response}
use mesh_net.Pairing.Session.Records.{offer, contact_from, ok_eq, parse_pairing_response-create}

module _ (env : Env) (json : Codec PairingRecord) where
  -- The record of a device in a session, once it is sent to a node on which its name is free, is
  -- stored there, and for 599 seconds from its making `SendFindValue` with its name brings it back,
  -- and `parsePairingResponse` reads from it the name, the address and the public key of the
  -- device: for a record made before the year 2262, keys generated from 32 random bytes, a name of
  -- the record and an address that are not empty, a node that answers on the address, networks that
  -- take the requests, and bodies that are encoded as JSON that decodes to them and have at most
  -- one MiB.
  pub send_find_value-create_pairing_record :
      (store_net find_net : Network) (store_address find_address : Bytes)
      (now stored_at found_at : ℕ) (d : Dht) (sender : NodeId)
      (name address seed record_name : Bytes) (is_response : Bool) (r : Record)
      → IsCrypto env.crypto
      → (length seed ≡ 32) × All IsByte seed
      → record_name ≢ []
      → address ≢ []
      → json.unmarshal
          (json.marshal (offer env.crypto json name address seed record_name is_response))
        ≡ some (offer env.crypto json name address seed record_name is_response)
      → create_pairing_record env.crypto json now name address
          (env.crypto.new_key seed)
          record_name
          is_response
        ≡ ok r
      → stored_at ≤ now + 599 * 1_000_000_000
      → found_at ≤ now + 599 * 1_000_000_000
      → now < 2 ^ 63
      → is_free d.store r ≡ true
      → store_net.reachable store_address ≡ true
      → ((sent : Bytes) → store_net.accepts store_address sent ≡ true)
      → IsServing env find_net find_address found_at (stocked env stored_at d r)
      → IsCarried env env.store (record { stored = r })
      → IsCarried env env.find_value
          (record { sender_id = to_string sender; name = record_name; group_key = [] })
      → IsCarried env env.found_value (record { found = r })
      → (sent : Bytes) × (send_store env store_net store_address r ≡ ok sent)
        × (handle_connection env stored_at d sent ≡ ok (stocked env stored_at d r, none))
        × (send_find_value env find_net find_address sender record_name [] ≡ ok (found r))
        × (parse_pairing_response env.crypto json found_at r
            ≡ ok (
                contact_from found_at
                  (offer env.crypto json name address seed record_name is_response)))
  send_find_value-create_pairing_record store_net find_net store_address find_address now stored_at
        found_at d sender name address seed record_name is_response r laws secret n a same made soon
        later dated free reachable taken serving stored request response =
      let (q, made_q, good_q, named_q, group_q, fresh_q, parsed_q) =
        parse_pairing_response-create env.crypto json now found_at name address seed record_name
          is_response laws secret n a same later dated in
      let (p, made_p, _, _, _, fresh_p, _) =
        parse_pairing_response-create env.crypto json now stored_at name address seed record_name
          is_response laws secret n a same soon dated in
      let q_eq : q ≡ r = ok_eq (sym made_q ∙ made) in
      let p_eq : p ≡ r = ok_eq (sym made_p ∙ made) in
      let good : verify env.crypto r ≡ ok tt = rw⁻¹ q_eq good_q in
      let named : record_name ≡ r.name = sym (rw⁻¹ q_eq named_q) in
      let group : [] ≡ r.group_key = sym (rw⁻¹ q_eq group_q) in
      let taken_in = accepts-fresh env.crypto stored_at d.store r (rw⁻¹ p_eq fresh_p) good free in
      let (sent, written, served, brought) =
        send_find_value-send_store env store_net find_net store_address find_address stored_at
          found_at d sender r reachable taken taken_in (rw⁻¹ q_eq fresh_q) serving stored
          (rw⁻¹ (named, group) request) response in
      (sent, written, served, rw (named, group) brought, rw⁻¹ q_eq parsed_q)
