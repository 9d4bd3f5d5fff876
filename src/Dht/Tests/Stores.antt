-- ===== src/Dht/Tests/Stores.antt =====
-- The record store and the records of `CreateRecord`, at concrete values.
use mesh_net.Base.{
  ℕ, ◌≡◌, ◌↔◌, refl, true, false, ◌&&◌, if◌then◌else◌, some, none, [], ◌++◌, replicate, bytes_eq,
  codes, lookup, insert,
}
use mesh_net.Outcome.{ok, panics}
use mesh_net.Crypto.{public, ed25519_sign, ed25519_verify}
use mesh_net.Dht.NodeId.{copy_32, hex_decode, hex_encode, pos}
use mesh_net.Dht.Store.{
  Record, Store, new_store, is_expired, verify, verify_decoded, put, put_locked, get,
}
use mesh_net.Dht.Store.Put.{accepts, lookup-put}
use mesh_net.Dht.Store.Valid.{StoreReach, StoreStep, get_authentic, HasDistinctKeys}
use mesh_net.Dht.Store.Faults.{HasBadKey, put_panics_iff}
use mesh_net.Dht.Register.{
  RegisterOptions, create_record, sign_record, unsigned, unix, time_add, chosen_ttl,
}
use mesh_net.Dht.Tests.Samples.{toy, sample_record, sample_store}

lookup-put_example : lookup (codes "web") (put toy 0 new_store sample_record).0.records ≡ (
    if accepts toy 0 new_store sample_record && bytes_eq sample_record.name (codes "web")
    then some sample_record
    else lookup (codes "web") new_store.records)
lookup-put_example = lookup-put toy 0 new_store sample_record (codes "web")

held : lookup (codes "web") sample_store.records ≡ some sample_record
unfolding lookup bytes_eq
held = refl

old : is_expired 6_000_000_000 sample_record ≡ true
unfolding is_expired
old = refl

abbrev put_once : Store
put_once = (put toy 0 new_store sample_record).0

got : get 0 put_once (codes "web") ≡ some sample_record
unfolding get put new_store lookup is_expired verify hex_decode hex_encode verify_decoded
    ed25519_verify put_locked insert bytes_eq
got = refl

get_authentic_example :
    (sample_record.name ≡ codes "web")
    × (verify toy sample_record ≡ ok tt)
    × (is_expired 0 sample_record ≡ false)
get_authentic_example =
    get_authentic toy put_once 0 (codes "web") sample_record
      (StoreReach.next StoreReach.here (StoreStep.putting 0 new_store sample_record)) got

distinct_keys : HasDistinctKeys sample_store.records
distinct_keys = (unfold lookup in refl, tt)

abbrev steady : ℕ → ℕ
steady i = 6_000_000_000

-- The key of this record is one byte long.
abbrev short_key : Record
short_key = record sample_record { public_key = codes "07" }

put_panics_iff_example :
    ((put toy 0 new_store short_key).1 ≡ panics)
    ↔ ((is_expired 0 short_key ≡ false) × HasBadKey toy short_key)
put_panics_iff_example = put_panics_iff toy 0 new_store short_key

abbrev sample_options : RegisterOptions
sample_options = record {
  name = codes "web";
  address = codes "200::1";
  services = none;
  group_key = [];
  private_key = some (replicate 32 3 ++ replicate 32 3);
  ttl = pos 2_500_000_000;
}

abbrev sample_created : Record
sample_created = record {
  name = codes "web";
  address = codes "200::1";
  public_key = hex_encode (replicate 32 3);
  services = none;
  group_key = [];
  signature = hex_encode (replicate 32 3 ++ replicate 32 3);
  expires = pos 2;
}

created : create_record toy 0 sample_options ≡ ok sample_created
unfolding create_record bytes_eq public sign_record ed25519_sign copy_32 unsigned unix time_add
    chosen_ttl
created = refl
