-- ===== src/Dht/Register/Lifetime.antt =====
-- How long the records of `CreateRecord` last.
use mesh_net.Base.{
  ℕ, ◌+◌, ◌*◌, ◌/◌, ◌^◌, ◌<◌, ◌≡◌, ◌↔◌, refl, ◌∙◌, ◌==◌, true, ltb, if◌then◌else◌, some, length,
  drop, Bytes, arith, Option-cases, Bool-cases, inl, inr,
}
use mesh_net.Outcome.{ok}
use mesh_net.Crypto.{Crypto, public, ed25519_sign}
use mesh_net.Dht.NodeId.{copy_32, pos}
use mesh_net.Dht.Store.{Record, is_expired}
use mesh_net.Dht.Register.{
  RegisterOptions, record_ttl, time_add, unix, chosen_ttl, unsigned, sign_record, create_record,
}

module _ (crypto : Crypto) where
  sign_record-expires :
      (key : Bytes) (draft r : Record)
      → sign_record crypto key draft ≡ ok r
      → r.expires ≡ draft.expires
  unfolding sign_record ed25519_sign
  sign_record-expires key draft r h = ground arith

  draft_of :
      (now : ℕ) (opts : RegisterOptions) (key : Bytes) (r : Record)
      → create_record crypto now opts ≡ ok r
      → opts.private_key ≡ some key
      → (pub_key : Bytes) × (sign_record crypto key (unsigned now opts pub_key) ≡ ok r)
  unfolding create_record public
  draft_of now opts key r h e = elim (Bool-cases (ltb (length key) 32)) [
    | inl short ↦ absurd (ground arith)
    | inr enough ↦ (copy_32 (drop 32 key), ground arith)
  ]

  create_record-expires :
      (now : ℕ) (opts : RegisterOptions) (r : Record)
      → create_record crypto now opts ≡ ok r
      → r.expires ≡ unix (time_add now (chosen_ttl opts.ttl))
  create_record-expires now opts r h = elim (Option-cases opts.private_key) [
    | inl no_key ↦ absurd (unfold create_record in ground arith)
    | inr (key, e) ↦
        let (pub_key, signed) = draft_of now opts key r h e in
        sign_record-expires key (unsigned now opts pub_key) r signed ∙ (unfold unsigned in refl)
  ]

  -- A record of `CreateRecord` with a lifetime that is not negative is expired exactly after its
  -- last full second: `ttl` nanoseconds after it was made, or an hour for a lifetime of zero,
  -- rounded down to seconds since 1970. It is made before the year 2262, where the nanoseconds since
  -- 1970 are an int64, as is the lifetime.
  pub create_record_lasts :
      (now ttl later : ℕ) (opts : RegisterOptions) (r : Record)
      → opts.ttl ≡ pos ttl
      → now < 2 ^ 63
      → ttl < 2 ^ 63
      → create_record crypto now opts ≡ ok r
      → (is_expired later r ≡ true)
        ↔ ((now + (if ttl == 0 then record_ttl else ttl)) / 1_000_000_000 * 1_000_000_000 < later)
  unfolding is_expired chosen_ttl time_add unix
  create_record_lasts now ttl later opts r t dated long h =
      let e = create_record-expires now opts r h in ground (arith, e)

  -- After its last full second such a record is expired, whenever it was made.
  pub create_record-ended :
      (now ttl later : ℕ) (opts : RegisterOptions) (r : Record)
      → opts.ttl ≡ pos ttl
      → create_record crypto now opts ≡ ok r
      → (now + (if ttl == 0 then record_ttl else ttl)) / 1_000_000_000 * 1_000_000_000 < later
      → is_expired later r ≡ true
  unfolding is_expired chosen_ttl time_add unix
  create_record-ended now ttl later opts r t h past =
      let e = create_record-expires now opts r h in ground (arith, e)
