-- ===== src/Dht/Tests/Reannouncing.antt =====
-- The re-announcer, with a record of an hour.
use mesh_net.Base.{
  ℕ, ◌*◌, ◌≡◌, ◌≢◌, ◌⊎◌, refl, none, some, codes, replicate, arith, bytes_eq, [], ◌+◌,
}
use mesh_net.Outcome.{ok, err, already_expired}
use mesh_net.Crypto.{public, ed25519_sign, ed25519_verify}
use mesh_net.Dht.NodeId.{pos, hex_encode, hex_decode, copy_32}
use mesh_net.Dht.Store.{Record, is_expired, verify, verify_decoded, put}
use mesh_net.Dht.Register.{
  RegisterOptions, create_record, sign_record, unsigned, chosen_ttl, time_add, unix,
}
use mesh_net.Dht.Announce.{Announced, announce}
use mesh_net.Dht.Reannounce.{Reannouncer, Step, Steps, tick, here, next, start, reannounce_interval}
use mesh_net.Dht.Reannounce.Expired.{reannounce_fails}
use mesh_net.Dht.Tests.Samples.{toy, toy_env}
use mesh_net.Dht.Tests.Walks.{small_node, nine_net, in_order}

abbrev web_options : RegisterOptions
web_options = record {
  name = codes "web";
  address = codes "200::1";
  services = none;
  group_key = [];
  private_key = some (toy.new_key (replicate 32 1));
  ttl = pos 0;
}

abbrev web_record : Record
web_record = record {
  name = codes "web";
  address = codes "200::1";
  public_key = hex_encode (replicate 32 1);
  services = none;
  group_key = [];
  signature = hex_encode (replicate 64 1);
  expires = pos 3_600;
}

web_created : create_record toy 0 web_options ≡ ok web_record
unfolding create_record sign_record unsigned chosen_ttl time_add unix public ed25519_sign copy_32
    bytes_eq hex_encode
web_created = refl

abbrev refused : Announced
refused = record { node = small_node; stored = 0; result = err already_expired }

web_verifies : verify toy web_record ≡ ok tt
unfolding verify verify_decoded ed25519_verify hex_decode hex_encode
web_verifies = refl

web_refused :
    (n : ℕ)
    → announce toy_env nine_net in_order
        (nine_net 0)
        3
        ((n + 3) * reannounce_interval)
        small_node
        web_record
      ≡ some refused
unfolding announce put is_expired
web_refused n = ground (arith, web_verifies)

abbrev ticked : ℕ → Reannouncer
ticked n = record (start 0 small_node web_record) {
  due = (2 + n) * reannounce_interval;
  now = (n + 3) * reannounce_interval;
  last = some (err already_expired);
}

first_tick : Steps toy_env (start 0 small_node web_record) (ticked 0)
unfolding start
first_tick = next here (
    tick nine_net in_order (nine_net 0) 3 (3 * reannounce_interval) refused refl (omega arith)
      (omega arith) (web_refused 0) refl)

second_tick : Step toy_env (ticked 0) (ticked 1)
unfolding start
second_tick =
    tick nine_net in_order (nine_net 0) 3 (4 * reannounce_interval) refused refl (omega arith)
      (omega arith) (web_refused 1) refl

reannounce_fails_example :
    ((ticked 1).node ≡ (ticked 0).node)
    × (((ticked 1).last ≡ (ticked 0).last) ⊎ ((ticked 1).last ≢ some (ok tt)))
reannounce_fails_example =
    reannounce_fails toy_env 0 0 web_options web_record small_node (ticked 0) (ticked 1) web_created
      refl (omega arith) first_tick (λ e. cc) second_tick
