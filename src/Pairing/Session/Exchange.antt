-- ===== src/Pairing/Session/Exchange.antt =====
-- A session of pairing/pairing.go on both sides: `Initiate` on one device, `Join` on another.
use mesh_net.Base.{
  ℕ, zero, suc, ◌+◌, ◌*◌, ◌<◌, ◌≤◌, ◌≡◌, ◌≢◌, refl, ap, ◌∙◌, Bool, true, false, Option, none, some,
  [], Bytes, length, All, IsByte, arith,
}
use mesh_net.Outcome.{Outcome, ok}
use mesh_net.Crypto.{Crypto, IsCrypto}
use mesh_net.Dht.Store.{Record}
use mesh_net.Dht.Env.{Codec}
use mesh_net.Pairing.Contacts.{Contact}
use mesh_net.Pairing.Session.{
  PairingRecord, Mesh, pairing_timeout, poll_interval, generate_code, pairing_response_key,
  create_pairing_record, parse_pairing_response, polled, poll_loop, begin_session, initiate, join,
}
use mesh_net.Pairing.Session.Records.{contact_from, offer, parse-created}
use mesh_net.Pairing.Session.Polling.{Sleeps, poll_loop-nothing, poll_loop-something}

-- A device: its name and address, and the random bytes of which its key was made.
pub record Device : Type 0 where
  pub name : Bytes
  pub address : Bytes
  pub seed : Bytes

pub record IsDevice (d : Device) : Type 0 where
  pub located : d.address ≢ []
  pub secret : (length d.seed ≡ 32) × All IsByte d.seed

code-nonempty : (random : Option Bytes) (code : Bytes) → generate_code random ≡ ok code → code ≢ []
unfolding generate_code
code-nonempty none code h = cc
code-nonempty (some b) code h = λ e. cc

key-nonempty : (code : Bytes) → pairing_response_key code ≢ []
unfolding pairing_response_key
key-nonempty code e = cc

module _ (crypto : Crypto) (json : Codec PairingRecord) where
  module _ (mesh : Mesh) (clock parsed_at : ℕ → ℕ) where
    -- The polls before one that is answered bring nothing.
    abbrev pub NothingBefore : ℕ → Bytes → Type 0
    NothingBefore t key =
        (j : ℕ) → j < t → polled crypto json (parsed_at j) (mesh.lookup_value j key []) ≡ ok none

    clock-ge : Sleeps clock → (i n t : ℕ) → t ≡ i + n → clock i + n * poll_interval ≤ clock t
    clock-ge sleeps i zero t e = let here : t ≡ i = omega (arith, e) in omega (arith, ap clock here)
    clock-ge sleeps i (suc n) t e =
        omega (arith, sleeps i, clock-ge sleeps (suc i) n t (omega (arith, e)))

    poll_loop-found :
        (n i t fuel deadline : ℕ) (key : Bytes) (c : Contact)
        → Sleeps clock
        → t ≡ i + n
        → n < fuel
        → NothingBefore t key
        → clock t < deadline
        → polled crypto json (parsed_at t) (mesh.lookup_value t key []) ≡ ok (some c)
        → poll_loop crypto json mesh clock parsed_at fuel i deadline key ≡ some (ok c)
    poll_loop-found n i t zero deadline key c sleeps e enough before early found =
        absurd (omega (arith, enough))
    poll_loop-found zero i t (suc fuel) deadline key c sleeps e enough before early found =
        let here : t ≡ i = omega (arith, e) in
        poll_loop-something crypto json mesh clock parsed_at fuel i deadline key c
          (ground (arith, rw here at early)) (rw here at found)
    poll_loop-found (suc n) i t (suc fuel) deadline key c sleeps e enough before early found =
        poll_loop-nothing crypto json mesh clock parsed_at fuel i deadline key
          (ground (arith, early, clock-ge sleeps i (suc n) t e)) (before i (omega (arith, e)))
        ∙ poll_loop-found n (suc i) t fuel deadline key c sleeps (omega (arith, e))
            (omega (arith, enough)) before early found

  polled-ok :
      (now : ℕ) (o : Outcome (Option Record)) (r : Record) (c : Contact)
      → o ≡ ok (some r)
      → parse_pairing_response crypto json now r ≡ ok c
      → polled crypto json now o ≡ ok (some c)
  unfolding polled
  polled-ok now o r c h e = ground (arith, h, e)

  begin_session-ok :
      (mesh : Mesh) (random : Option Bytes) (created : ℕ) (name address priv_key code : Bytes)
      (r : Record)
      → generate_code random ≡ ok code
      → create_pairing_record crypto json created name address priv_key code false ≡ ok r
      → mesh.announce r ≡ ok tt
      → begin_session crypto json mesh random created name address priv_key ≡ ok code
  unfolding begin_session
  begin_session-ok mesh random created name address priv_key code r g m a = rw (g, m, a) refl

  initiate-ok :
      (mesh : Mesh) (clock parsed_at : ℕ → ℕ) (fuel : ℕ) (random : Option Bytes) (created began : ℕ)
      (name address priv_key code : Bytes)
      → begin_session crypto json mesh random created name address priv_key ≡ ok code
      → initiate crypto json mesh clock parsed_at fuel random created began name address priv_key
        ≡ poll_loop crypto json mesh clock parsed_at fuel 0
            (began + pairing_timeout)
            (pairing_response_key code)
  unfolding initiate
  initiate-ok mesh clock parsed_at fuel random created began name address priv_key code h =
      ground (arith, h)

  join-ok :
      (mesh : Mesh) (parsed_at created : ℕ) (name address priv_key code : Bytes) (r s : Record)
      (c : Contact)
      → mesh.lookup_value 0 code [] ≡ ok (some r)
      → parse_pairing_response crypto json parsed_at r ≡ ok c
      → create_pairing_record crypto json created name address priv_key
          (pairing_response_key code)
          true
        ≡ ok s
      → mesh.announce s ≡ ok tt
      → join crypto json mesh parsed_at created name address priv_key code ≡ ok c
  unfolding join
  join-ok mesh parsed_at created name address priv_key code r s c l p m a = rw (l, p, m, a) refl

  -- The record of a device, and what `encoding/json` has to read back.
  abbrev pub made_by : ℕ → Device → Bytes → Bool → Outcome Record
  made_by now d record_name is_response =
      create_pairing_record crypto json now d.name d.address (crypto.new_key d.seed) record_name
        is_response

  abbrev pub offered_by : Device → Bytes → Bool → PairingRecord
  offered_by d record_name is_response =
      offer crypto json d.name d.address d.seed record_name is_response

  abbrev pub ReadsBack : PairingRecord → Type 0
  ReadsBack pr = json.unmarshal (json.marshal pr) ≡ some pr

  -- Two devices that pair end up with each other's name, address and public key: if the initiator
  -- announces its record, `Join` with its code finds that record and announces the response, and a
  -- poll of `Initiate` within the five minutes finds the response, after polls that found nothing,
  -- then `Join` returns the contact of the initiator and `Initiate` that of the joiner, for keys
  -- generated from 32 random bytes, addresses that are not empty, and offers that `encoding/json`
  -- reads back.
  pub pairing_exchange :
      (mesh_i mesh_j : Mesh) (clock parsed_at : ℕ → ℕ) (random : Option Bytes) (code : Bytes)
      (created_i created_j began joined t : ℕ) (i j : Device) (r s : Record)
      → IsCrypto crypto
      → IsDevice i
      → IsDevice j
      → ReadsBack (offered_by i code false)
      → ReadsBack (offered_by j (pairing_response_key code) true)
      → generate_code random ≡ ok code
      → made_by created_i i code false ≡ ok r
      → made_by created_j j (pairing_response_key code) true ≡ ok s
      → mesh_i.announce r ≡ ok tt
      → mesh_j.announce s ≡ ok tt
      → mesh_j.lookup_value 0 code [] ≡ ok (some r)
      → Sleeps clock
      → began ≤ clock 0
      → clock t < began + pairing_timeout
      → NothingBefore mesh_i clock parsed_at t (pairing_response_key code)
      → mesh_i.lookup_value t (pairing_response_key code) [] ≡ ok (some s)
      → (join crypto json mesh_j joined created_j j.name j.address (crypto.new_key j.seed) code
          ≡ ok (contact_from joined (offered_by i code false)))
        × (initiate crypto json mesh_i clock parsed_at 151 random created_i began i.name i.address
              (crypto.new_key i.seed)
            ≡ some
                (ok (contact_from (parsed_at t) (offered_by j (pairing_response_key code) true))))
  pairing_exchange mesh_i mesh_j clock parsed_at random code created_i created_j began joined t i j
        r s laws vi vj back_i back_j coded made_i made_j told_i told_j found_i sleeps reached early
        before found_j =
      let key = pairing_response_key code in
      let read_i =
        parse-created crypto json created_i joined i.name i.address i.seed code false r laws
          vi.secret (code-nonempty random code coded) vi.located back_i made_i in
      let read_j =
        parse-created crypto json created_j (parsed_at t) j.name j.address j.seed key true s laws
          vj.secret (key-nonempty code) vj.located back_j made_j in
      let ready =
        begin_session-ok mesh_i random created_i i.name i.address (crypto.new_key i.seed) code r
          coded made_i told_i in
      (
        join-ok mesh_j joined created_j j.name j.address (crypto.new_key j.seed) code r s _ found_i
            read_i made_j told_j,
        initiate-ok mesh_i clock parsed_at 151 random created_i began i.name i.address
              (crypto.new_key i.seed) code ready
            ∙ (poll_loop-found mesh_i clock parsed_at t 0 t 151 (began + pairing_timeout) key _
                sleeps (omega arith)
                (omega (
                  arith,
                  reached,
                  early,
                  clock-ge mesh_i clock parsed_at sleeps 0 t t (omega arith),
                ))
                before early (polled-ok (parsed_at t) _ s _ found_j read_j)),
      )
