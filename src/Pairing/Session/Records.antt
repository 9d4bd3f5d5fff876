-- ===== src/Pairing/Session/Records.antt =====
-- The records of a session of pairing/pairing.go, and what is read from them.
use mesh_net.Base.{
  ℕ, ◌+◌, ◌*◌, ◌^◌, ◌<◌, ◌≤◌, ◌≡◌, ◌≢◌, refl, sym, ap, ◌∙◌, Bool, true, false, ltb, none, some,
  List, [], ◌∷◌, ◌++◌, length, drop, Bytes, codes, All, IsByte, arith, inl, inr, ◌⊎◌, Option-cases,
  Bool-cases, length-append,
}
use mesh_net.Outcome.{ok, err, invalid_pairing_service}
use mesh_net.Crypto.{Crypto, IsCrypto}
use mesh_net.Dht.NodeId.{pos, hex_encode}
use mesh_net.Dht.Store.{Record, verify, is_expired}
use mesh_net.Dht.Register.{RegisterOptions, create_record}
use mesh_net.Dht.Register.Signed.{create_record-verify, public-ok}
use mesh_net.Dht.Register.Lifetime.{create_record_lasts}
use mesh_net.Dht.Env.{Codec}
use mesh_net.Pairing.Contacts.{Contact}
use mesh_net.Pairing.Session.{
  PairingRecord, pairing_ttl, first_service, raw_contact, create_pairing_record,
  parse_pairing_response,
}

-- The contact that a `PairingRecord` gives.
abbrev pub contact_from : ℕ → PairingRecord → Contact
contact_from now pr = record {
  name = pr.name;
  address = pr.address;
  public_key = pr.public_key;
  paired_at = now;
}

pub ok_eq : {r s : Record} → ok r ≡ ok s → r ≡ s
ok_eq e = cc

drop-append : (xs ys : Bytes) → drop (length xs) (xs ++ ys) ≡ ys
drop-append [] ys = refl
drop-append (x ∷ xs) ys = drop-append xs ys

module _ (crypto : Crypto) (json : Codec PairingRecord) where
  parse-long :
      (now : ℕ) (r : Record) (svc text : Bytes)
      → first_service r.services ≡ some svc
      → 8 ≤ length svc
      → drop 8 svc ≡ text
      → parse_pairing_response crypto json now r ≡ elim (json.unmarshal text) [
        | none ↦ ok (raw_contact now r)
        | some pr ↦ ok (contact_from now pr)
      ]
  unfolding parse_pairing_response
  parse-long now r svc text h long e = ground (arith, h, long, e)

  parse-bare :
      (now : ℕ) (r : Record)
      → first_service r.services ≡ none
      → parse_pairing_response crypto json now r ≡ ok (raw_contact now r)
  unfolding parse_pairing_response
  parse-bare now r h = ground (arith, h)

  parse-short :
      (now : ℕ) (r : Record) (svc : Bytes)
      → first_service r.services ≡ some svc
      → ltb (length svc) 8 ≡ true
      → parse_pairing_response crypto json now r ≡ err invalid_pairing_service
  unfolding parse_pairing_response
  parse-short now r svc h short = ground (arith, h, short)

  -- `parsePairingResponse` takes the contact from any record whose first service is any eight bytes
  -- and then the text of a `PairingRecord`: the public key of the contact is the one in that text,
  -- whatever key the record has and was signed with, and neither the prefix nor the code nor the
  -- kind of the `PairingRecord` is looked at.
  parse_pairing_response_unchecked :
      (now : ℕ) (r : Record) (prefix text : Bytes) (rest : List Bytes) (pr : PairingRecord)
      → length prefix ≡ 8
      → r.services ≡ some ((prefix ++ text) ∷ rest)
      → json.unmarshal text ≡ some pr
      → parse_pairing_response crypto json now r ≡ ok (contact_from now pr)
  parse_pairing_response_unchecked now r prefix text rest pr size h e =
      parse-long now r (prefix ++ text) text (ap first_service h)
        (omega (arith, size, length-append prefix text))
        (ap (λ n. drop n (prefix ++ text)) (sym size) ∙ drop-append prefix text)
      ∙ rw e refl

  -- What `parsePairingResponse` makes of a record: an error, exactly if the first service is shorter
  -- than its prefix; else a contact, from the fields of the record where there is no service or its
  -- text is no `PairingRecord`, and from that `PairingRecord` otherwise.
  pub parse_pairing_response-cases :
      (now : ℕ) (r : Record)
      → ((svc : Bytes) × (first_service r.services ≡ some svc)
          × (length svc < 8)
          × (parse_pairing_response crypto json now r ≡ err invalid_pairing_service))
        ⊎ ((first_service r.services ≡ none)
            × (parse_pairing_response crypto json now r ≡ ok (raw_contact now r)))
        ⊎ ((svc : Bytes) × (first_service r.services ≡ some svc)
            × (8 ≤ length svc)
            × (((json.unmarshal (drop 8 svc) ≡ none)
                  × (parse_pairing_response crypto json now r ≡ ok (raw_contact now r)))
                ⊎ ((pr : PairingRecord) × (json.unmarshal (drop 8 svc) ≡ some pr)
                    × (parse_pairing_response crypto json now r ≡ ok (contact_from now pr)))))
  parse_pairing_response-cases now r = elim (Option-cases (first_service r.services)) [
    | inl bare ↦ inr (inl (bare, parse-bare now r bare))
    | inr (svc, h) ↦ elim (Bool-cases (ltb (length svc) 8)) [
      | inl short ↦ inl (svc, h, ground arith, parse-short now r svc h short)
      | inr long ↦
          let parse = parse-long now r svc (drop 8 svc) h (ground arith) refl in
          inr (
            inr (
              svc,
              h,
              ground arith,
              elim (Option-cases (json.unmarshal (drop 8 svc))) [
                | inl e ↦ inl (e, parse ∙ rw e refl)
                | inr (pr, e) ↦ inr (pr, e, parse ∙ rw e refl)
              ],
            ))
    ]
  ]

  -- What `createPairingRecord` encodes, for the key made of 32 random bytes.
  abbrev pub offer : Bytes → Bytes → Bytes → Bytes → Bool → PairingRecord
  offer name address seed record_name is_response = record {
    name = name;
    address = address;
    public_key = hex_encode (drop 32 (crypto.new_key seed));
    code = record_name;
    is_response = is_response;
  }

  abbrev options : Bytes → Bytes → Bytes → Bytes → Bool → RegisterOptions
  options name address seed record_name is_response = record {
    name = record_name;
    address = address;
    services =
        some (
          (codes "pairing:" ++ json.marshal (offer name address seed record_name is_response))
          ∷ []);
    group_key = [];
    private_key = some (crypto.new_key seed);
    ttl = pos pairing_ttl;
  }

  create_pairing_record-ok :
      (now : ℕ) (name address seed record_name : Bytes) (is_response : Bool)
      → length (crypto.new_key seed) ≡ 64
      → create_pairing_record crypto json now name address
          (crypto.new_key seed)
          record_name
          is_response
        ≡ create_record crypto now (options name address seed record_name is_response)
  unfolding create_pairing_record
  create_pairing_record-ok now name address seed record_name is_response long =
      rw (public-ok (crypto.new_key seed) long) refl

  -- The record that is made of an offer is read as that offer.
  pub parse-created :
      (now later : ℕ) (name address seed record_name : Bytes) (is_response : Bool) (r : Record)
      → IsCrypto crypto
      → (length seed ≡ 32) × All IsByte seed
      → record_name ≢ []
      → address ≢ []
      → json.unmarshal (json.marshal (offer name address seed record_name is_response))
        ≡ some (offer name address seed record_name is_response)
      → create_pairing_record crypto json now name address
          (crypto.new_key seed)
          record_name
          is_response
        ≡ ok r
      → parse_pairing_response crypto json later r
        ≡ ok (contact_from later (offer name address seed record_name is_response))
  parse-created now later name address seed record_name is_response r laws secret n a same made =
      let opts = options name address seed record_name is_response in
      let (s, made', _, _, _, _, services) =
        create_record-verify crypto now opts seed laws secret refl n a in
      let one : s ≡ r = ok_eq (
        sym made'
        ∙ sym (
            create_pairing_record-ok now name address seed record_name is_response
              (laws.key_length seed secret.0))
        ∙ made) in
      parse_pairing_response_unchecked later r (codes "pairing:")
        (json.marshal (offer name address seed record_name is_response)) []
        (offer name address seed record_name is_response) refl
        (ap (λ (q : Record). q.services) (sym one) ∙ services) same

  -- With the key generated from 32 random bytes, a name for the record and an address,
  -- `createPairingRecord` makes a public record of that name that passes `Verify` and has not
  -- expired within 599 seconds, and from which `parsePairingResponse` takes the name, the address
  -- and the public key of its maker, where `encoding/json` reads back what it wrote of them.
  pub parse_pairing_response-create :
      (now later : ℕ) (name address seed record_name : Bytes) (is_response : Bool)
      → IsCrypto crypto
      → (length seed ≡ 32) × All IsByte seed
      → record_name ≢ []
      → address ≢ []
      → json.unmarshal (json.marshal (offer name address seed record_name is_response))
        ≡ some (offer name address seed record_name is_response)
      → later ≤ now + 599 * 1_000_000_000
      → now < 2 ^ 63
      → (r : Record) × (create_pairing_record crypto json now name address
            (crypto.new_key seed)
            record_name
            is_response
          ≡ ok r)
        × (verify crypto r ≡ ok tt)
        × (r.name ≡ record_name)
        × (r.group_key ≡ [])
        × (is_expired later r ≡ false)
        × (parse_pairing_response crypto json later r
            ≡ ok (contact_from later (offer name address seed record_name is_response)))
  parse_pairing_response-create now later name address seed record_name is_response laws secret n a
        same soon dated =
      let opts = options name address seed record_name is_response in
      let (r, made, good, named, _, group, _) =
        create_record-verify crypto now opts seed laws secret refl n a in
      let created =
        create_pairing_record-ok now name address seed record_name is_response
          (laws.key_length seed secret.0)
        ∙ made in
      (
        r,
        created,
        good,
        named,
        group,
        ground (
          arith,
          soon,
          create_record_lasts crypto now pairing_ttl later opts r refl dated (omega arith) made,
        ),
        parse-created now later name address seed record_name is_response r laws secret n a same
            created,
      )
