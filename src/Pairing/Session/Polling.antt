-- ===== src/Pairing/Session/Polling.antt =====
-- The loop of `Initiate` of pairing/pairing.go.
use mesh_net.Base.{
  ℕ, zero, suc, ◌+◌, ◌*◌, ◌<◌, ◌≤◌, ◌≡◌, ◌≢◌, refl, sym, ◌∙◌, true, false, ltb, Option, none, some,
  [], Bytes, arith, inl, inr, ◌⊎◌, Bool-cases,
}
use mesh_net.Outcome.{Outcome, Error, ok, err, panics, pairing_timed_out}
use mesh_net.Crypto.{Crypto}
use mesh_net.Dht.Store.{Record}
use mesh_net.Dht.Env.{Codec}
use mesh_net.Pairing.Contacts.{Contact}
use mesh_net.Pairing.Session.Records.{parse_pairing_response-cases}
use mesh_net.Pairing.Session.{
  PairingRecord, Mesh, pairing_timeout, poll_interval, pairing_response_key, parse_pairing_response,
  polled, poll_loop, begin_session, initiate,
}

-- `time.Sleep` returns after the interval at the earliest.
abbrev pub Sleeps : (ℕ → ℕ) → Type 0
Sleeps clock = (i : ℕ) → clock i + poll_interval ≤ clock (suc i)

differ_ok : {c : Contact} → ok c ≢ panics
differ_ok e = cc

differ_err : {e : Error} → ¬ (◌≡◌ {A = Outcome Contact} (err e) panics)
differ_err e = cc

Outcome-cases :
    (o : Outcome (Option Contact))
    → ((o ≡ ok none) ⊎ ((c : Contact) × (o ≡ ok (some c))))
      ⊎ ((e : Error) × (o ≡ err e))
      ⊎ (o ≡ panics)
Outcome-cases (ok none) = inl (inl refl)
Outcome-cases (ok (some c)) = inl (inr (c, refl))
Outcome-cases (err e) = inr (inl (e, refl))
Outcome-cases panics = inr (inr refl)

module _ (crypto : Crypto) (json : Codec PairingRecord) (mesh : Mesh)
    (clock parsed_at : ℕ → ℕ) where
  -- A poll before the deadline was answered with a record that gives this contact.
  abbrev pub IsPolled : ℕ → Bytes → Contact → Type 0
  IsPolled deadline key c =
      (i : ℕ) × (r : Record) × (clock i < deadline)
      × (mesh.lookup_value i key [] ≡ ok (some r))
      × (parse_pairing_response crypto json (parsed_at i) r ≡ ok c)

  polled-some :
      (now : ℕ) (o : Outcome (Option Record)) (c : Contact)
      → polled crypto json now o ≡ ok (some c)
      → (r : Record) × (o ≡ ok (some r)) × (parse_pairing_response crypto json now r ≡ ok c)
  unfolding polled
  polled-some now (err e) c h = cc
  polled-some now panics c h = cc
  polled-some now (ok none) c h = cc
  polled-some now (ok (some r)) c h = (r, refl, ground (arith, h))

  -- What one test of the loop does.
  poll_loop_late :
      (fuel i deadline : ℕ) (key : Bytes)
      → ltb (clock i) deadline ≡ false
      → poll_loop crypto json mesh clock parsed_at (suc fuel) i deadline key
        ≡ some (err pairing_timed_out)
  unfolding poll_loop
  poll_loop_late fuel i deadline key late = ground (arith, late)

  polled-err :
      (now : ℕ) (o : Outcome (Option Record)) (e : Error) → polled crypto json now o ≢ err e
  unfolding polled
  polled-err now (err x) e h = cc
  polled-err now panics e h = cc
  polled-err now (ok none) e h = cc
  polled-err now (ok (some r)) e h = ground (arith, h)

  parse-no_panic : (now : ℕ) (r : Record) → parse_pairing_response crypto json now r ≢ panics
  parse-no_panic now r h = elim (parse_pairing_response-cases crypto json now r) [
    | inl (svc, _, _, e) ↦ differ_err (sym e ∙ h)
    | inr (inl (_, e)) ↦ differ_ok (sym e ∙ h)
    | inr (inr (svc, _, _, inl (_, e))) ↦ differ_ok (sym e ∙ h)
    | inr (inr (svc, _, _, inr (pr, _, e))) ↦ differ_ok (sym e ∙ h)
  ]

  polled-panics :
      (now : ℕ) (o : Outcome (Option Record)) → polled crypto json now o ≡ panics → o ≡ panics
  unfolding polled
  polled-panics now (err x) h = cc
  polled-panics now panics h = refl
  polled-panics now (ok none) h = cc
  polled-panics now (ok (some r)) h = absurd (parse-no_panic now r (ground (arith, h)))

  -- The poll in which `LookupValue` panics, or which gives the contact, or the error.
  abbrev pub IsResult : ℕ → Bytes → Outcome Contact → Type 0
  IsResult deadline key (ok c) = IsPolled deadline key c
  IsResult deadline key (err e) = e ≡ pairing_timed_out
  IsResult deadline key panics = (i : ℕ) × (mesh.lookup_value i key [] ≡ panics)

  pub poll_loop-nothing :
      (fuel i deadline : ℕ) (key : Bytes)
      → ltb (clock i) deadline ≡ true
      → polled crypto json (parsed_at i) (mesh.lookup_value i key []) ≡ ok none
      → poll_loop crypto json mesh clock parsed_at (suc fuel) i deadline key
        ≡ poll_loop crypto json mesh clock parsed_at fuel (suc i) deadline key
  unfolding poll_loop
  poll_loop-nothing fuel i deadline key early e = ground (arith, early, e)

  pub poll_loop-something :
      (fuel i deadline : ℕ) (key : Bytes) (c : Contact)
      → ltb (clock i) deadline ≡ true
      → polled crypto json (parsed_at i) (mesh.lookup_value i key []) ≡ ok (some c)
      → poll_loop crypto json mesh clock parsed_at (suc fuel) i deadline key ≡ some (ok c)
  unfolding poll_loop
  poll_loop-something fuel i deadline key c early e = ground (arith, early, e)

  poll_loop-panics :
      (fuel i deadline : ℕ) (key : Bytes)
      → ltb (clock i) deadline ≡ true
      → polled crypto json (parsed_at i) (mesh.lookup_value i key []) ≡ panics
      → poll_loop crypto json mesh clock parsed_at (suc fuel) i deadline key ≡ some panics
  unfolding poll_loop
  poll_loop-panics fuel i deadline key early e = ground (arith, early, e)

  poll_loop-Ends :
      (fuel i deadline : ℕ) (key : Bytes)
      → Sleeps clock
      → deadline ≤ clock i + fuel * poll_interval
      → (o : Outcome Contact) × (poll_loop crypto json mesh clock parsed_at
            (suc fuel)
            i
            deadline
            key
          ≡ some o)
        × IsResult deadline key o
  poll_loop-Ends zero i deadline key sleeps enough =
      (err pairing_timed_out, poll_loop_late zero i deadline key (ground (arith, enough)), refl)
  poll_loop-Ends (suc fuel) i deadline key sleeps enough =
      elim (Bool-cases (ltb (clock i) deadline)) [
        | inr late ↦ (err pairing_timed_out, poll_loop_late (suc fuel) i deadline key late, refl)
        | inl early ↦
            elim (Outcome-cases (polled crypto json (parsed_at i) (mesh.lookup_value i key []))) [
              | inl (inl e) ↦
                  let (o, run, result) =
                    poll_loop-Ends fuel (suc i) deadline key sleeps
                      (omega (arith, enough, sleeps i)) in
                  (o, poll_loop-nothing (suc fuel) i deadline key early e ∙ run, result)
              | inl (inr (c, e)) ↦
                  let (r, answer, parsed) =
                    polled-some (parsed_at i) (mesh.lookup_value i key []) c e in
                  (
                    ok c,
                    poll_loop-something (suc fuel) i deadline key c early e,
                    (i, r, ground (arith, early), answer, parsed),
                  )
              | inr (inl (x, e)) ↦
                  absurd (polled-err (parsed_at i) (mesh.lookup_value i key []) x e)
              | inr (inr e) ↦ (
                panics,
                poll_loop-panics (suc fuel) i deadline key early e,
                (i, polled-panics (parsed_at i) (mesh.lookup_value i key []) e),
              )
            ]
      ]

  -- The result of `Initiate`: what stopped it before its loop, or what its loop came to.
  abbrev pub IsInitiated : ℕ → Outcome Bytes → Outcome Contact → Type 0
  IsInitiated deadline (ok code) o = IsResult deadline (pairing_response_key code) o
  IsInitiated deadline (err e) o = o ≡ err e
  IsInitiated deadline panics o = o ≡ panics

  -- `Initiate` ends, after 151 tests of its loop at most, as each poll sleeps for two seconds and
  -- the deadline is five minutes after a time that the clock has reached: with the error or the
  -- panic of what comes before the loop, with the contact of a record that a poll before the
  -- deadline was answered with, with the panic of `LookupValue`, or with the error of a timeout.
  pub initiate-Ends :
      (random : Option Bytes) (created began : ℕ) (name address priv_key : Bytes)
      → Sleeps clock
      → began ≤ clock 0
      → (o : Outcome Contact) × (initiate crypto json mesh clock parsed_at 151 random created began
            name address priv_key
          ≡ some o)
        × IsInitiated
            (began + pairing_timeout)
            (begin_session crypto json mesh random created name address priv_key)
            o
  unfolding initiate
  initiate-Ends random created began name address priv_key sleeps reached =
      go (begin_session crypto json mesh random created name address priv_key)
    where
      go :
          (b : Outcome Bytes)
          → (o : Outcome Contact) × ((elim b [
            | ok code ↦
                poll_loop crypto json mesh clock parsed_at 151 0
                  (began + pairing_timeout)
                  (pairing_response_key code)
            | err e ↦ some (err e)
            | panics ↦ some panics
          ])
              ≡ some o)
            × IsInitiated (began + pairing_timeout) b o
      go (ok code) =
          poll_loop-Ends 150 0 (began + pairing_timeout) (pairing_response_key code) sleeps
            (omega (arith, reached))
      go (err e) = (err e, refl, refl)
      go panics = (panics, refl, refl)
