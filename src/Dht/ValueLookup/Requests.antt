-- ===== src/Dht/ValueLookup/Requests.antt =====
-- The requests of `LookupValue` of dht/lookup.go: they do not panic, whatever is answered.
use mesh_net.Base.{◌≢◌, refl, Bytes, arith}
use mesh_net.Outcome.{Outcome, ok, err, panics, ◌>>=◌}
use mesh_net.Dht.NodeId.{NodeId}
use mesh_net.Dht.Rpc.{Message, write_message, read_message, read_body}
use mesh_net.Dht.Env.{Env, Network}
use mesh_net.Dht.Client.{write_request, exchange, read_value, send_find_value}

pub bind-no_panic {ℓ κ} :
    {A : Type ℓ} {B : Type κ} (o : Outcome A) (f : A → Outcome B)
    → o ≢ panics
    → ((a : A) → f a ≢ panics)
    → (o >>= f) ≢ panics
bind-no_panic (ok a) f h k = k a
bind-no_panic (err e) f h k = λ e'. cc
bind-no_panic panics f h k = absurd (h refl)

ok-no_panic {ℓ} : {A : Type ℓ} (a : A) → ok a ≢ panics
ok-no_panic a e = cc

module _ (env : Env) (net : Network) where
  write_request-no_panic :
      (address : Bytes) (msg : Message) → write_request env net address msg ≢ panics
  unfolding write_request write_message
  write_request-no_panic address msg h = ground (arith, h)

  read_message-no_panic : (conn : Bytes) → read_message conn ≢ panics
  unfolding read_message read_body
  read_message-no_panic conn h = ground (arith, h)

  pub exchange-no_panic : (address : Bytes) (msg : Message) → exchange env net address msg ≢ panics
  unfolding exchange
  exchange-no_panic address msg =
      bind-no_panic (write_request env net address msg) _ (write_request-no_panic address msg)
        (λ sent.
          bind-no_panic (read_message (net.response address sent)) _
            (read_message-no_panic (net.response address sent)) (λ r. ok-no_panic r.0))

  read_value-no_panic : (response : Message) → read_value env net response ≢ panics
  unfolding read_value
  read_value-no_panic response h = ground (arith, h)

  -- Whatever a contact answers, `SendFindValue` returns a result or an error.
  pub send_find_value-no_panic :
      (address : Bytes) (sender : NodeId) (name group_key : Bytes)
      → send_find_value env net address sender name group_key ≢ panics
  unfolding send_find_value
  send_find_value-no_panic address sender name group_key =
      bind-no_panic (exchange env net address _) _ (exchange-no_panic address _) read_value-no_panic
