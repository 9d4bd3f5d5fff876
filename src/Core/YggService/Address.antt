-- ===== src/Core/YggService/Address.antt =====
-- `GetAddress` of core/yggservice.go.
use mesh_net.Base.{
  ◌≡◌, refl, if◌then◌else◌, Option, none, some, Bytes, bytes_eq, codes, arith, inl, inr, ◌⊎◌,
}
use mesh_net.Outcome.{
  Outcome, ok, err, admin_not_reached, admin_not_read, admin_not_parsed, address_not_found,
}

-- A value that `encoding/json` reads into an `interface{}`, and the fields of an object, one for each
-- of its keys.
mutual
  pub data Json : Type 0 where
    string : Bytes → Json
    object : Fields → Json
    other : Json

  pub data Fields : Type 0 where
    nil : Fields
    field : Bytes → Json → Fields → Fields

unfoldable pub field_of : Fields → Bytes → Option Json
field_of nil k = none
field_of (field j v fs) k = let rest = field_of fs k in if bytes_eq j k then some v else rest

-- An admin socket: it cannot be dialled, its answer cannot be read, or the bytes of the first read.
pub data Socket : Type 0 where
  closed : Socket
  silent : Socket
  answers : Bytes → Socket

abbrev pub status_address : Option Json → Outcome Bytes
status_address (some (string a)) = ok a
status_address _ = err address_not_found

abbrev pub response_address : Option Json → Outcome Bytes
response_address (some (object status)) = status_address (field_of status (codes "address"))
response_address _ = err address_not_found

-- `decode` is `json.Unmarshal` into a map; `none` is its error.
unfoldable pub address_of : (Bytes → Option Fields) → Socket → Outcome Bytes
address_of decode closed = err admin_not_reached
address_of decode silent = err admin_not_read
address_of decode (answers text) = elim (decode text) [
  | none ↦ err admin_not_parsed
  | some resp ↦ response_address (field_of resp (codes "response"))
]

-- `GetAddress`, from the sockets of the subprocess and of the installed service.
unfoldable pub get_address : (Bytes → Option Fields) → Socket → Socket → Outcome Bytes
get_address decode closed installed = address_of decode installed
get_address decode subprocess installed = address_of decode subprocess

status_address-ok :
    (o : Option Json) (address : Bytes) → status_address o ≡ ok address → o ≡ some (string address)
status_address-ok none a h = cc
status_address-ok (some (string b)) a h = cc
status_address-ok (some (object fs)) a h = cc
status_address-ok (some other) a h = cc

response_address-ok :
    (o : Option Json) (address : Bytes)
    → response_address o ≡ ok address
    → (status : Fields) × (o ≡ some (object status))
      × (field_of status (codes "address") ≡ some (string address))
response_address-ok none a h = cc
response_address-ok (some (string b)) a h = cc
response_address-ok (some (object fs)) a h =
    (fs, refl, status_address-ok (field_of fs (codes "address")) a h)
response_address-ok (some other) a h = cc

-- The text of an answer gives an address: the object under `response` has it under `address`.
pub record Gives (decode : Bytes → Option Fields) (text address : Bytes) : Type 0 where
  pub resp : Fields
  pub status : Fields
  pub decoded : decode text ≡ some resp
  pub response : field_of resp (codes "response") ≡ some (object status)
  pub found : field_of status (codes "address") ≡ some (string address)

address_of-Gives :
    (decode : Bytes → Option Fields) (s : Socket) (address : Bytes)
    → address_of decode s ≡ ok address
    → (text : Bytes) × (s ≡ answers text) × Gives decode text address
unfolding address_of
address_of-Gives decode closed a h = cc
address_of-Gives decode silent a h = cc
address_of-Gives decode (answers text) a h = parsed (decode text) refl h
  where
    parsed :
        (o : Option Fields)
        → decode text ≡ o
        → (elim o [
          | none ↦ err admin_not_parsed
          | some resp ↦ response_address (field_of resp (codes "response"))
        ])
          ≡ ok a
        → (t : Bytes) × (answers text ≡ answers t) × Gives decode t a
    parsed none e h' = ground arith
    parsed (some resp) e h' =
        let (status, response, found) = response_address-ok _ a h' in
        (
          text,
          refl,
          record { resp = resp; status = status; decoded = e; response = response; found = found },
        )

-- An address that `GetAddress` returns was given by the socket of the subprocess, or, where that one
-- cannot be dialled, by the socket of the installed service.
pub get_address-Gives :
    (decode : Bytes → Option Fields) (subprocess installed : Socket) (address : Bytes)
    → get_address decode subprocess installed ≡ ok address
    → (text : Bytes) × ((subprocess ≡ answers text)
        ⊎ ((subprocess ≡ closed) × (installed ≡ answers text)))
      × Gives decode text address
unfolding get_address
get_address-Gives decode closed installed a h =
    let (text, e, given) = address_of-Gives decode installed a h in (text, inr (refl, e), given)
get_address-Gives decode silent installed a h =
    let (text, e, given) = address_of-Gives decode silent a h in (text, inl e, given)
get_address-Gives decode (answers t) installed a h =
    let (text, e, given) = address_of-Gives decode (answers t) a h in (text, inl e, given)
