-- ===== src/Cli/Tests/Starts.antt =====
-- `cmdStart` of cli/cli.go in a sample world.
use mathlib.Core.Path.{subst}
use mesh_net.Base.{
  Option, List, false, ◌≡◌, refl, sym, ap, ◌∙◌, none, some, [], ◌∷◌, Bytes, bytes_eq, codes, lookup,
  All, IsByte, arith,
}
use mesh_net.Outcome.{Outcome, ok, ok_injective}
use mesh_net.Dht.NodeId.{pos, hex_encode, to_string, bucket_index}
use mesh_net.Dht.Table.{
  add, all_contacts, new_routing_table, add_to_bucket, index_of, size, total_from,
}
use mesh_net.Dht.Store.{record_id, new_store}
use mesh_net.Dht.Node.{Dht, new}
use mesh_net.Dht.Node.Valid.{IsNode}
use mesh_net.Dht.Walk.Round.{AreAmong}
use mesh_net.Dht.Peers.{bootstrap_dht, load_peers, ping_each}
use mesh_net.Dht.Tests.Samples.{toy, toy-IsCrypto, sample_contact, is_bytes-IsByte}
use mesh_net.Dht.Tests.Walks.{in_order-Arrives, universe, nine_net-Answers, five_among}
use mesh_net.Core.Identity.{Keys, Disk, load_or_create_identity}
use mesh_net.Core.Node.Started.{IsRunning, start-IsRunning}
use mesh_net.Cli.{node_name, prefix_of}
use mesh_net.Cli.Start.{Running, join, run_node, cmd_start}
use mesh_net.Dht.Reannounce
use mesh_net.Dht.Peers.{SavedPeer}
use mesh_net.Dht.Tests.Servers.{stopped_server, drained}
use mesh_net.Cli.Start.{Stopped, shut_down}
use mesh_net.Cli.Start.Shutdown.{IsEnded, shut_down-IsEnded}
use mesh_net.Cli.Start.Publishing.{IsRegistered}
use mesh_net.Cli.Start.Launched.{run_node-IsRegistered}
use mesh_net.Cli.Start.Identified.{IsIdentified, cmd_start-IsIdentified}
use mesh_net.Cli.Tests.Worlds.{
  sample_ygg, sample_ygg-IsYggdrasil, sample_x509, sample_x509-IsX509, sample_world, sample_flags,
  sample_json, sample_keys, sample_disk, sample_node, seed, empty_disk, identity_made, node_started,
  meet_five-IsNode,
}

abbrev own_name : Bytes
own_name = codes "node-01010101"

abbrev fresh : Dht
fresh = new (codes "200::1") seed (pos 0)

joins : join sample_world sample_flags fresh ≡ ok fresh
unfolding join bootstrap_dht load_peers ping_each bytes_eq size total_from new new_routing_table
joins = refl

named : node_name [] (to_string seed) ≡ ok own_name
unfolding node_name prefix_of to_string hex_encode bytes_eq
named = refl

knows_five : all_contacts (sample_world.served_then fresh).table ≡ sample_contact 5 ∷ []
unfolding all_contacts add bytes_eq new_routing_table bucket_index add_to_bucket index_of new
knows_five = refl

unknown : lookup own_name (sample_world.served_then fresh).store.records ≡ none
unfolding new lookup new_store
unknown = refl

runs : IsRunning sample_node sample_keys
runs =
    let (keys, made, v) =
      start-IsRunning sample_ygg sample_x509 sample_ygg-IsYggdrasil sample_x509-IsX509 toy
        sample_json (λ b. b) 7 (codes "identity.json") (some seed) empty_disk _ sample_node
        sample_disk node_started in
    subst (IsRunning sample_node)
      (sym (ok_injective (ap (λ (r : Outcome Keys × Disk). r.0) (sym identity_made ∙ made)))) v

key_bytes :
    (keys : Keys) (disk : Disk)
    → load_or_create_identity toy sample_json
        (λ b. b)
        (codes "identity.json")
        (some seed)
        empty_disk
      ≡ (ok keys, disk)
    → All IsByte keys.priv_key
key_bytes keys disk h =
    subst (λ (k : Keys). All IsByte k.priv_key)
      (ok_injective (ap (λ (r : Outcome Keys × Disk). r.0) (sym identity_made ∙ h)))
      (toy-IsCrypto.key_bytes seed (is_bytes-IsByte seed refl))

secret : All IsByte seed
secret = is_bytes-IsByte seed refl

unknown_after :
    (d : Dht)
    → join sample_world sample_flags fresh ≡ ok d
    → lookup own_name (sample_world.served_then d).store.records ≡ none
unknown_after d h =
    subst (λ (e : Dht). lookup own_name (sample_world.served_then e).store.records ≡ none)
      (ok_injective (sym joins ∙ h)) unknown

among_after :
    (d : Dht)
    → join sample_world sample_flags fresh ≡ ok d
    → AreAmong universe (all_contacts (sample_world.served_then d).table)
among_after d h =
    subst (λ (e : Dht). AreAmong universe (all_contacts (sample_world.served_then e).table))
      (ok_injective (sym joins ∙ h)) (rw knows_five five_among)

brought_up :
    (joined : Dht) × (join sample_world sample_flags fresh ≡ ok joined)
    × IsNode sample_world.env joined
    × (run : Running) × (run_node sample_world sample_flags sample_node sample_disk ≡ ok (some run))
    × (run.node ≡ sample_node)
    × (run.self_id ≡ seed)
    × IsRegistered sample_world sample_flags own_name (codes "200::1") run.registered
brought_up =
    run_node-IsRegistered sample_world sample_flags sample_node sample_disk seed sample_keys
      own_name universe toy-IsCrypto (refl, secret) refl runs (λ e. cc) refl refl named
      (omega arith) (omega arith) (λ d v. v) meet_five-IsNode unknown_after in_order-Arrives
      (λ d h. nine_net-Answers (sample_world.served_then d).table.self (record_id toy own_name))
      among_after (omega arith)

run_node-IsRegistered_example :
    (joined : Dht) × (join sample_world sample_flags fresh ≡ ok joined)
    × IsNode sample_world.env joined
    × (run : Running) × (run_node sample_world sample_flags sample_node sample_disk ≡ ok (some run))
    × (run.node ≡ sample_node)
    × (run.self_id ≡ seed)
    × IsRegistered sample_world sample_flags own_name (codes "200::1") run.registered
run_node-IsRegistered_example =
    run_node-IsRegistered sample_world sample_flags sample_node sample_disk seed sample_keys
      own_name universe toy-IsCrypto (refl, secret) refl runs (λ e. cc) refl refl named
      (omega arith) (omega arith) (λ d v. v) meet_five-IsNode unknown_after in_order-Arrives
      (λ d h. nine_net-Answers (sample_world.served_then d).table.self (record_id toy own_name))
      among_after (omega arith)

abbrev sample_run : Running
sample_run = brought_up.3

commanded : cmd_start sample_world sample_flags ≡ ok (some sample_run)
unfolding cmd_start
commanded = rw node_started brought_up.4

cmd_start-IsIdentified_example :
    (keys : Keys) × (disk : Disk) × (load_or_create_identity toy sample_json
        (λ b. b)
        (codes "identity.json")
        (some seed)
        empty_disk
      ≡ (ok keys, disk))
    × IsIdentified sample_world sample_flags disk keys sample_run
cmd_start-IsIdentified_example =
    cmd_start-IsIdentified sample_world sample_flags sample_run sample_ygg-IsYggdrasil
      sample_x509-IsX509 key_bytes commanded

abbrev encode_peers : List SavedPeer → Option Bytes
encode_peers peers = some (codes "[]")

unstopped : (Reannounce.start 9 fresh sample_run.registered.own).closed ≡ false
unfolding Reannounce.start
unstopped = refl

shut_down-IsEnded_example :
    (st : Stopped) × (shut_down sample_world encode_peers sample_run
        (Reannounce.start 9 fresh sample_run.registered.own)
        fresh
        stopped_server
      ≡ ok st)
    × IsEnded sample_world encode_peers sample_run fresh stopped_server st
shut_down-IsEnded_example =
    shut_down-IsEnded sample_world sample_flags encode_peers sample_run
      (Reannounce.start 9 fresh sample_run.registered.own) fresh stopped_server
      sample_ygg-IsYggdrasil sample_x509-IsX509 key_bytes commanded unstopped drained
