-- ===== src/Dht/Rpc/Frames.antt =====
-- `writeMessage` and `readMessage` of dht/rpc.go against each other.
use mesh_net.Base.{
  ℕ, ◌+◌, ◌%◌, ◌^◌, ◌≤◌, ◌<◌, ◌≡◌, refl, ap, ◌∙◌, ltb, if◌then◌else◌, some, [], ◌∷◌, ◌++◌, length,
  take, drop, append_assoc, length-take, length-drop, length-append, Bytes, big_endian, arith,
  Option-cases, inl, inr,
}
use mesh_net.Outcome.{ok, err, message_too_large}
use mesh_net.Dht.Rpc.{Message, max_body, put_uint_32, read_full, read_body, read_message, frame}

-- The length is read back modulo 2^32.
pub big_endian-put_uint_32 : (n : ℕ) → big_endian (put_uint_32 n) ≡ n % 2 ^ 32
unfolding big_endian put_uint_32
big_endian-put_uint_32 n = omega arith

take-append_self : (a rest : Bytes) → take (length a) (a ++ rest) ≡ a
take-append_self [] rest = refl
take-append_self (x ∷ a) rest = ap (◌∷◌ x) (take-append_self a rest)

drop-append_self : (a rest : Bytes) → drop (length a) (a ++ rest) ≡ rest
drop-append_self [] rest = refl
drop-append_self (x ∷ a) rest = drop-append_self a rest

read_full-append : (a rest : Bytes) → read_full (length a) (a ++ rest) ≡ some (a, rest)
unfolding read_full
read_full-append a rest =
    ground (arith, take-append_self a rest, drop-append_self a rest, length-append a rest)

one_byte : (t : ℕ) → big_endian (t ∷ []) ≡ t
unfolding big_endian
one_byte t = omega arith

read_message-header :
    (t : ℕ) (size conn : Bytes)
    → length size ≡ 4
    → read_message (t ∷ size ++ conn) ≡ read_body t (big_endian size) conn
unfolding read_message
read_message-header t size conn h = rw (
  read_full-append (t ∷ []) (size ++ conn),
  read_message,
  ← h,
  read_full-append size conn,
  one_byte t,
)

length-put_uint_32 : (n : ℕ) → length (put_uint_32 n) ≡ 4
unfolding put_uint_32
length-put_uint_32 n = refl

read_message-frame_lem :
    (type : ℕ) (body rest : Bytes)
    → read_message (frame type body ++ rest) ≡ read_body type (length body % 2 ^ 32) (body ++ rest)
unfolding frame
read_message-frame_lem type body rest =
    ap (λ k. read_message (type ∷ k)) (append_assoc (put_uint_32 (length body)) body rest)
    ∙ read_message-header type (put_uint_32 (length body)) (body ++ rest) (length-put_uint_32 _)
    ∙ ap (λ n. read_body type n (body ++ rest)) (big_endian-put_uint_32 (length body))

-- `readMessage` of a frame of `writeMessage` whose body has less than 4 GiB, with further bytes
-- behind it: a body of at most one MiB is read back, and the further bytes are left; a longer one
-- is refused as too large.
pub read_message-frame :
    (type : ℕ) (body rest : Bytes)
    → length body < 2 ^ 32
    → read_message (frame type body ++ rest) ≡ (
        if ltb max_body (length body)
        then err message_too_large
        else ok (record { type = type; body = body }, rest))
unfolding read_body
read_message-frame type body rest h =
    read_message-frame_lem type body rest
    ∙ ground (
      arith,
      read_full-append body rest,
      ap (λ n. read_full n (body ++ rest)) {x = length body % 2 ^ 32} {y = length body}
          (omega arith),
    )

read_full-some :
    (n : ℕ) (conn a rest : Bytes)
    → read_full n conn ≡ some (a, rest)
    → (length a ≡ n) × (length conn ≡ n + length rest)
unfolding read_full
read_full-some n conn a rest e = ground (arith, length-take n conn, length-drop n conn)

read_body_takes :
    (type n : ℕ) (conn : Bytes) (msg : Message) (rest : Bytes)
    → read_body type n conn ≡ ok (msg, rest)
    → (length msg.body ≤ max_body) × (length conn ≡ length msg.body + length rest)
unfolding read_body
read_body_takes type n conn msg rest e = elim (Option-cases (read_full n conn)) [
  | inl none_there ↦ absurd (ground arith)
  | inr ((b, r), f) ↦ ground (arith, read_full-some n conn b r f)
]

-- A message that `readMessage` returns has a body of at most one MiB, and takes five bytes and its
-- body off the connection.
pub read_message_takes :
    (conn : Bytes) (msg : Message) (rest : Bytes)
    → read_message conn ≡ ok (msg, rest)
    → (length msg.body ≤ max_body) × (length conn ≡ 5 + length msg.body + length rest)
read_message_takes conn msg rest e = elim (Option-cases (read_full 1 conn)) [
  | inl none_there ↦ absurd (unfold read_message in ground arith)
  | inr ((t, r), f) ↦ elim (Option-cases (read_full 4 r)) [
    | inl none_there ↦ absurd (unfold read_message in ground arith)
    | inr ((l, r'), g) ↦
        let tail : read_body (big_endian t) (big_endian l) r' ≡ ok (msg, rest) =
          unfold read_message in ground arith in
        let (small, taken) = read_body_takes (big_endian t) (big_endian l) r' msg rest tail in
        (small, omega (arith, read_full-some 1 conn t r f, read_full-some 4 r l r' g))
  ]
]
