-- ===== src/Pairing/Tests/Sessions.antt =====
-- A session of two devices.
use mesh_net.Base.{
  ℕ, zero, suc, ◌+◌, ◌*◌, ◌≡◌, ◌≢◌, refl, true, false, Bool, ◌==◌, if◌then◌else◌, Option, none,
  some, [], ◌∷◌, drop, replicate, Bytes, codes, arith,
}
use mesh_net.Outcome.{Outcome, ok}
use mesh_net.Dht.NodeId.{hex_encode}
use mesh_net.Dht.Store.{Record}
use mesh_net.Dht.Env.{Codec}
use mesh_net.Dht.Tests.Samples.{toy, toy-IsCrypto, is_bytes-IsByte}
use mesh_net.Pairing.Contacts.{Contact}
use mesh_net.Base.{lookup}
use mesh_net.Dht.NodeId.{to_string}
use mesh_net.Dht.Store.{new_store}
use mesh_net.Dht.Store.Put.{is_free}
use mesh_net.Dht.Env.{Env, Network}
use mesh_net.Dht.Client.{send_store, send_find_value, found}
use mesh_net.Dht.Node.{Dht, new, handle_connection}
use mesh_net.Dht.Node.Exchange.{IsServing}
use mesh_net.Dht.Node.Publishing.{stocked}
use mesh_net.Dht.Tests.Samples.{toy_env, sample_id}
use mesh_net.Dht.Tests.Nodes.{answer_of, newborn}
use mesh_net.Pairing.Session.Served.{send_find_value-create_pairing_record}
use mesh_net.Pairing.Session.{
  PairingRecord, polled, Mesh, pairing_timeout, poll_interval, generate_code, pairing_response_key,
  parse_pairing_response, begin_session, initiate, join,
}
use mesh_net.Pairing.Session.Records.{contact_from, parse_pairing_response-create}
use mesh_net.Pairing.Session.Polling.{Sleeps, IsInitiated, initiate-Ends}
use mesh_net.Pairing.Session.Exchange.{
  Device, IsDevice, made_by, offered_by, NothingBefore, pairing_exchange,
}

abbrev drawn : Bytes
drawn = 7 ∷ 40 ∷ 255 ∷ 0 ∷ []

abbrev code : Bytes
code = codes "MESH-HJ9A"

coded : generate_code (some drawn) ≡ ok code
unfolding generate_code
coded = refl

-- Two devices, and a session in which the second poll of the initiator finds the response.
abbrev phone : Device
phone = record { name = codes "phone"; address = codes "200::1"; seed = replicate 32 1 }

abbrev laptop : Device
laptop = record { name = codes "laptop"; address = codes "200::2"; seed = replicate 32 2 }

phone-IsDevice : IsDevice phone
phone-IsDevice = record {
  located = λ e. cc;
  secret = (refl, is_bytes-IsByte (replicate 32 1) refl);
}

laptop-IsDevice : IsDevice laptop
laptop-IsDevice = record {
  located = λ e. cc;
  secret = (refl, is_bytes-IsByte (replicate 32 2) refl);
}

abbrev offered : Device → Bytes → Bool → PairingRecord
offered d record_name is_response = record {
  name = d.name;
  address = d.address;
  public_key = hex_encode (drop 32 (toy.new_key d.seed));
  code = record_name;
  is_response = is_response;
}

abbrev key : Bytes
key = pairing_response_key code

-- A text format that tells the two offers of this session apart.
abbrev decoded : Bytes → Option PairingRecord
decoded [] = none
decoded (x ∷ b) = if x == 1 then some (offered laptop key true) else some (offered phone code false)

abbrev session_json : Codec PairingRecord
session_json = record {
  marshal = λ pr. (if pr.is_response then 1 else 0) ∷ [];
  unmarshal = decoded;
}

code_nonempty : code ≢ []
code_nonempty e = cc

abbrev ticks : ℕ → ℕ
ticks i = i * poll_interval + 5

ticks-Sleeps : Sleeps ticks
ticks-Sleeps i = omega arith

abbrev phone_made : (r : Record) × (made_by toy session_json 0 phone code false ≡ ok r)
phone_made =
    let (r, made, _, _, _, _, _) =
      parse_pairing_response-create toy session_json 0 9 phone.name phone.address phone.seed code
        false toy-IsCrypto phone-IsDevice.secret code_nonempty phone-IsDevice.located refl
        (omega arith) (omega arith) in
    (r, made)

key_nonempty : key ≢ []
unfolding pairing_response_key
key_nonempty e = cc

abbrev laptop_made : (s : Record) × (made_by toy session_json 0 laptop key true ≡ ok s)
laptop_made =
    let (s, made, _, _, _, _, _) =
      parse_pairing_response-create toy session_json 0 9 laptop.name laptop.address laptop.seed key
        true toy-IsCrypto laptop-IsDevice.secret key_nonempty laptop-IsDevice.located refl
        (omega arith) (omega arith) in
    (s, made)

abbrev second : ℕ → Outcome (Option Record)
second zero = ok none
second (suc i) = ok (some laptop_made.0)

abbrev phone_mesh : Mesh
phone_mesh = record { announce = λ r. ok tt; lookup_value = λ i name group_key. second i }

abbrev laptop_mesh : Mesh
laptop_mesh = record {
  announce = λ r. ok tt;
  lookup_value = λ i name group_key. ok (some phone_made.0);
}

first_nothing : NothingBefore toy session_json phone_mesh ticks ticks 1 key
unfolding polled
first_nothing zero h = refl
first_nothing (suc j) h = absurd (omega (arith, h))

initiate-Ends_example :
    (o : Outcome Contact) × (initiate toy session_json phone_mesh ticks ticks 151
        (some drawn)
        0
        5
        phone.name
        phone.address
        (toy.new_key phone.seed)
      ≡ some o)
    × IsInitiated toy session_json phone_mesh ticks ticks
        (5 + pairing_timeout)
        (begin_session toy session_json phone_mesh
          (some drawn)
          0
          phone.name
          phone.address
          (toy.new_key phone.seed))
        o
initiate-Ends_example =
    initiate-Ends toy session_json phone_mesh ticks ticks (some drawn) 0 5 phone.name phone.address
      (toy.new_key phone.seed) ticks-Sleeps (omega arith)

pairing_exchange_example :
    (join toy session_json laptop_mesh 8 0 laptop.name laptop.address (toy.new_key laptop.seed) code
      ≡ ok (contact_from 8 (offered_by toy session_json phone code false)))
    × (initiate toy session_json phone_mesh ticks ticks 151
          (some drawn)
          0
          5
          phone.name
          phone.address
          (toy.new_key phone.seed)
        ≡ some (ok (contact_from (ticks 1) (offered_by toy session_json laptop key true))))
pairing_exchange_example =
    pairing_exchange toy session_json phone_mesh laptop_mesh ticks ticks (some drawn) code 0 0 5 8 1
      phone laptop phone_made.0 laptop_made.0 toy-IsCrypto phone-IsDevice laptop-IsDevice refl refl
      coded phone_made.1 laptop_made.1 refl refl refl ticks-Sleeps (omega arith) (omega arith)
      first_nothing refl

-- Text formats that hold the record of the phone.
abbrev session_env : Env
session_env = record toy_env {
  store = record {
    marshal = λ b. codes "r";
    unmarshal = λ text. some (record { stored = phone_made.0 });
  };
  find_value = record {
    marshal = λ b. b.name;
    unmarshal =
        λ text. some (record { sender_id = to_string (sample_id 1); name = text; group_key = [] });
  };
  found_value = record {
    marshal = λ b. codes "r";
    unmarshal = λ text. some (record { found = phone_made.0 });
  };
}

abbrev holder : Dht
holder = stocked session_env 3 newborn phone_made.0

abbrev holder_net : Network
holder_net = record {
  reachable = λ address. true;
  accepts = λ address sent. true;
  response = λ address sent. answer_of (handle_connection session_env 9 holder sent);
}

holder_net-IsServing : IsServing session_env holder_net (codes "a") 9 holder
holder_net-IsServing = record {
  reachable = refl;
  taken = λ sent. refl;
  answered = λ sent bytes d' reply h k. ground (arith, h, k);
}

free_code : is_free newborn.store phone_made.0 ≡ true
unfolding is_free new new_store lookup
free_code = refl

send_find_value-create_pairing_record_example :
    (sent : Bytes) × (send_store session_env holder_net (codes "a") phone_made.0 ≡ ok sent)
    × (handle_connection session_env 3 newborn sent ≡ ok (holder, none))
    × (send_find_value session_env holder_net (codes "a") (sample_id 1) code []
        ≡ ok (found phone_made.0))
    × (parse_pairing_response toy session_json 9 phone_made.0
        ≡ ok (contact_from 9 (offered_by toy session_json phone code false)))
send_find_value-create_pairing_record_example =
    send_find_value-create_pairing_record session_env session_json holder_net holder_net (codes "a")
      (codes "a") 0 3 9 newborn (sample_id 1) phone.name phone.address phone.seed code false
      phone_made.0 toy-IsCrypto phone-IsDevice.secret code_nonempty phone-IsDevice.located refl
      phone_made.1 (omega arith) (omega arith) (omega arith) free_code refl (λ sent. refl)
      holder_net-IsServing (record { raw = refl; short = omega arith; decoded = refl })
      (record { raw = refl; short = omega arith; decoded = refl })
      (record { raw = refl; short = omega arith; decoded = refl })
