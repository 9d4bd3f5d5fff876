-- ===== src/Cli/Start/Publishing.antt =====
-- The registration of a name by `cmdStart` of cli/cli.go, down to the store of the node.
use mathlib.Core.Path.{subst}
use mesh_net.Base.{
  ◌+◌, ◌*◌, ◌^◌, ◌<◌, ◌≤◌, ◌≡◌, ◌≢◌, refl, sym, ap, ◌∙◌, true, false, none, some, List, [], length,
  Bytes, bytes_eq, bytes_eq_refl, bytes_eq_iff, lookup, All, IsByte, arith, Bool-cases, inl, inr,
  ltb,
}
use mesh_net.Outcome.{ok}
use mesh_net.Crypto.{IsCrypto}
use mesh_net.Dht.NodeId.{NodeId, pos}
use mesh_net.Dht.Table.{all_contacts}
use mesh_net.Dht.Store.{Record, Store, is_expired, verify, put, record_id}
use mesh_net.Dht.Store.Put.{accepts, accepts-fresh, is_free, lookup-put}
use mesh_net.Dht.Node.{Dht}
use mesh_net.Dht.Node.Valid.{IsNode}
use mesh_net.Dht.Register.{RegisterOptions, create_record}
use mesh_net.Dht.Register.Signed.{create_record-verify}
use mesh_net.Dht.Register.Lifetime.{create_record_lasts}
use mesh_net.Dht.Walk.Round.{AreAmong, Arrives, Answers}
use mesh_net.Dht.Announce.{Announced, announce}
use mesh_net.Dht.Announce.Ends.{announce-Ends}
use mesh_net.Dht.Reannounce.{start}
use mesh_net.Cli.{prefix_of, node_name, start_options, service_list}
use mesh_net.Cli.Start.{World, Flags, Registered, after_announce, register}

-- The name is in use by the node: its own record, which verifies, stands under it in its store, and the
-- announcement reported success.
pub record IsRegistered (w : World) (flags : Flags) (name address : Bytes) (reg : Registered)
    : Type 0 where
  pub signed : verify w.env.crypto reg.own ≡ ok tt
  pub named : reg.own.name ≡ name
  pub placed : reg.own.address ≡ address
  pub services : reg.own.services ≡ service_list flags.services
  pub success : reg.announcement.result ≡ ok tt
  pub stored : lookup name reg.announcement.node.store.records ≡ some reg.own
  pub valid : IsNode w.env reg.announcement.node
  pub again : reg.reannouncer ≡ start w.announced reg.announcement.node reg.own

node_name-nonempty : (name key chosen : Bytes) → node_name name key ≡ ok chosen → chosen ≢ []
unfolding node_name prefix_of
node_name-nonempty name key chosen h = elim (Bool-cases (bytes_eq name [])) [
  | inl empty ↦ elim (Bool-cases (ltb (length key) 8)) [
    | inl short ↦ absurd (ground (arith, empty, short, h))
    | inr long ↦ λ e. ground (arith, empty, long, h, e)
  ]
  | inr given ↦ λ e. ground (arith, given, h, e, bytes_eq_iff name [])
]

module _ (w : World) (flags : Flags) (address key seed : Bytes) (name : Bytes) where
  -- The options of the record.
  abbrev options : RegisterOptions
  options = record {
    name = name;
    address = address;
    services = service_list flags.services;
    group_key = [];
    private_key = some (w.env.crypto.new_key seed);
    ttl = pos 0;
  }

  chosen-options :
      node_name flags.name key ≡ ok name
      → start_options flags.name flags.services address key (w.env.crypto.new_key seed) ≡ ok options
  unfolding start_options
  chosen-options h = rw h

  fresh_for_an_hour :
      (r : Record)
      → create_record w.env.crypto w.created options ≡ ok r
      → w.announced ≤ w.created + 3_599 * 1_000_000_000
      → w.created < 2 ^ 63
      → is_expired w.announced r ≡ false
  fresh_for_an_hour r made soon dated = elim (Bool-cases (is_expired w.announced r)) [
    | inl old ↦ absurd (
        omega (
          arith,
          (create_record_lasts w.env.crypto w.created 0 w.announced options r refl dated
                (omega arith) made).0
              old,
          soon,
        ))
    | inr fresh ↦ fresh
  ]

  after_announce-ok :
      (r : Record) (a : Announced)
      → a.result ≡ ok tt
      → after_announce w r (some a)
        ≡ ok (some (record { own = r; announcement = a; reannouncer = start w.announced a.node r }))
  unfolding after_announce
  after_announce-ok r a h = ground (arith, h)

  register-steps :
      (d : Dht) (r : Record) (a : Announced)
      → node_name flags.name key ≡ ok name
      → create_record w.env.crypto w.created options ≡ ok r
      → announce w.env w.walk_net w.walk_order w.store_net w.fuel w.announced d r ≡ some a
      → register w flags address key (w.env.crypto.new_key seed) d ≡ after_announce w r (some a)
  unfolding register
  register-steps d r a chosen made ran = simp (chosen-options chosen, made, ran)

  is_free-unknown : (s : Store) (r : Record) → lookup r.name s.records ≡ none → is_free s r ≡ true
  unfolding is_free
  is_free-unknown s r h = ground (arith, h)

  stored_own :
      (d : Dht) (r : Record)
      → accepts w.env.crypto w.announced d.store r ≡ true
      → lookup r.name (put w.env.crypto w.announced d.store r).0.records ≡ some r
  stored_own d r taken =
      lookup-put w.env.crypto w.announced d.store r r.name ∙ (rw (taken, bytes_eq_refl r.name))

  -- `cmdStart` with the keys of 32 random bytes registers its name: on a valid node whose store does
  -- not hold the name yet, with an address, within 3,599 seconds between the two readings of the
  -- clock, before the year 2262, the record is made and verifies, `Announce` ends and reports success, the node is valid and
  -- its store holds the record under the name, and the re-announcer starts with that record. As for
  -- `Announce`, the identifiers of the table and of all answers lie in a finite set, the fuel exceeds
  -- its size, and each answer of a round arrives once.
  pub register-IsRegistered :
      (universe : List NodeId) (d : Dht)
      → IsCrypto w.env.crypto
      → (length seed ≡ 32) × All IsByte seed
      → node_name flags.name key ≡ ok name
      → address ≢ []
      → w.announced ≤ w.created + 3_599 * 1_000_000_000
      → w.created < 2 ^ 63
      → IsNode w.env d
      → lookup name d.store.records ≡ none
      → Arrives w.walk_order
      → Answers w.env w.walk_net universe d.table.self (record_id w.env.crypto name)
      → AreAmong universe (all_contacts d.table)
      → length universe < w.fuel
      → (reg : Registered) × (register w flags address key (w.env.crypto.new_key seed) d
          ≡ ok (some reg))
        × IsRegistered w flags name address reg
  register-IsRegistered universe d laws secret chosen placed soon dated v unknown arrives answers
        among enough =
      let (r, made, good, named, at, _, services) =
        create_record-verify w.env.crypto w.created options seed laws secret refl
          (node_name-nonempty flags.name key name chosen) placed in
      let taken =
        accepts-fresh w.env.crypto w.announced d.store r (fresh_for_an_hour r made soon dated) good
          (is_free-unknown d.store r (ap (λ n. lookup n d.store.records) named ∙ unknown)) in
      let (a, ran, is) =
        announce-Ends w.env w.walk_net w.walk_order w.store_net universe w.fuel w.announced d r laws
          arrives
          (subst (λ n. Answers w.env w.walk_net universe d.table.self (record_id w.env.crypto n))
            (sym named) answers)
          v among enough in
      let reg : Registered = record {
        own = r;
        announcement = a;
        reannouncer = start w.announced a.node r;
      } in
      (
        reg,
        register-steps d r a chosen made ran ∙ after_announce-ok r a (is.success.1 taken),
        record {
          signed = good;
          named = named;
          placed = at;
          services = services;
          success = is.success.1 taken;
          stored =
              ap (λ n. lookup n a.node.store.records) (sym named)
              ∙ ap (λ (s : Store). lookup r.name s.records) is.store
              ∙ stored_own d r taken;
          valid = is.node;
          again = refl;
        },
      )
