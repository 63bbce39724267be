-- ===== src/Rtmp/RoundTrip.antt =====
-- A sequence of encoded messages is cut into these messages.
use p2p_livestreaming.Prelude.{
  ℕ, zero, suc, ◌+◌, ◌≤◌, ◌≡◌, refl, ap, ◌∙◌, ◌⊎◌, inl, inr, true, Option, none, some, List, [],
  ◌∷◌, ◌++◌, arith, ltb, Bool-cases, length, Bytes, All, append_nil, length-append,
  take-append_length, drop-append_length,
}
use p2p_livestreaming.Rtmp.{
  RtmpControlPacket, cut_payload, parse_packet, packets, push, parse_loop, parse_all,
}
use p2p_livestreaming.Rtmp.Wire.{
  Header, full, no_stream_id, only_timestamp, bare, kind, encode_header, encode_basic, encode,
  fields, parse_packet-encode,
}

-- A message whose header announces the length of its body.
pub record Message : Type 0 where
  pub stream_id : ℕ
  pub header : Header
  pub body : Bytes

abbrev pub announced : Header → Option ℕ
announced (full _ n _ _) = some n
announced (no_stream_id _ n _) = some n
announced (only_timestamp _) = none
announced bare = none

pub record IsMessage (m : Message) : Type 0 where
  pub stream_id_ge : 2 ≤ m.stream_id
  pub length_is : announced m.header ≡ some (length m.body)

unfoldable pub encode_all : List Message → Bytes
unfolding encode
encode_all [] = []
encode_all (m ∷ ms) = encode m.stream_id m.header (m.body ++ encode_all ms)

-- The packet that the parser makes of a message with the bytes `rest` behind it.
unfoldable pub decoded : Message → Bytes → RtmpControlPacket
unfolding fields
decoded m rest = record (fields m.stream_id m.header) {
  payload = some m.body;
  parsed = true;
  remain = rest;
}

unfoldable pub decoded_all : List Message → List RtmpControlPacket
unfolding decoded
decoded_all [] = []
decoded_all (m ∷ ms) = decoded m (encode_all ms) ∷ decoded_all ms

msg_length-fields : (id : ℕ) (h : Header) → (fields id h).msg_length ≡ announced h
unfolding fields
msg_length-fields id (full _ _ _ _) = refl
msg_length-fields id _ = refl

remain-fields : (id : ℕ) (h : Header) → (fields id h).remain ≡ []
unfolding fields
remain-fields id (full _ _ _ _) = refl
remain-fields id _ = refl

cut_payload-append :
    (q : RtmpControlPacket) (body rest : Bytes)
    → q.remain ≡ []
    → (rest ≡ []) ⊎ (2 ≤ length rest)
    → cut_payload q (some (length body)) (body ++ rest)
      ≡ record q { payload = some body; parsed = true; remain = rest }
unfolding cut_payload
cut_payload-append q body rest fresh (inl e) = ground (arith, append_nil body)
cut_payload-append q body rest fresh (inr two) =
    ground
      (arith, length-append body rest, take-append_length body rest, drop-append_length body rest)

basic_pos : (k id : ℕ) → 1 ≤ length (encode_basic k id)
basic_pos k id = elim (Bool-cases (ltb id 64)) [
  | inl one ↦ rw one (omega arith)
  | inr more ↦ elim (Bool-cases (ltb id 320)) [
    | inl two ↦ rw (more, two) (omega arith)
    | inr three ↦ rw (more, three) (omega arith)
  ]
]

encode-length :
    (id : ℕ) (h : Header) (s : Bytes) {n : ℕ} → announced h ≡ some n → 8 ≤ length (encode id h s)
unfolding encode
encode-length id (full t n ty sid) s e =
    omega (arith, length-append (encode_basic 0 id) (encode_header (full t n ty sid) ++ s))
encode-length id (no_stream_id t n ty) s e = omega (
  arith,
  length-append (encode_basic 1 id) (encode_header (no_stream_id t n ty) ++ s),
  basic_pos 1 id,
)
encode-length id (only_timestamp t) s e = cc
encode-length id bare s e = cc

encode-longer :
    (m : Message) (rest : Bytes)
    → 1 + length rest ≤ length (encode m.stream_id m.header (m.body ++ rest))
unfolding encode
encode-longer m rest = omega (
  arith,
  basic_pos (kind m.header) m.stream_id,
  length-append (encode_basic (kind m.header) m.stream_id)
      (encode_header m.header ++ (m.body ++ rest)),
  length-append (encode_header m.header) (m.body ++ rest),
  length-append m.body rest,
)

encode_all-length :
    (ms : List Message) → All IsMessage ms → (encode_all ms ≡ []) ⊎ (2 ≤ length (encode_all ms))
unfolding encode_all
encode_all-length [] h = inl refl
encode_all-length (m ∷ ms) h =
    inr (omega (arith, encode-length m.stream_id m.header (m.body ++ encode_all ms) h.0.length_is))

decoded-encode :
    (m : Message) (rest : Bytes)
    → IsMessage m
    → (rest ≡ []) ⊎ (2 ≤ length rest)
    → parse_packet (encode m.stream_id m.header (m.body ++ rest)) ≡ decoded m rest
unfolding decoded
decoded-encode m rest h room =
    parse_packet-encode m.stream_id m.header (m.body ++ rest) h.stream_id_ge
    ∙ ap (λ o. cut_payload (fields m.stream_id m.header) o (m.body ++ rest))
        (msg_length-fields m.stream_id m.header ∙ h.length_is)
    ∙ cut_payload-append (fields m.stream_id m.header) m.body rest
        (remain-fields m.stream_id m.header) room

parse_loop-cons :
    (fuel : ℕ) (c : Bytes) (q : RtmpControlPacket)
    → 8 ≤ length c
    → parse_packet c ≡ q
    → q.parsed ≡ true
    → parse_loop (suc fuel) c ≡ push q (parse_loop fuel q.remain)
unfolding parse_loop
parse_loop-cons fuel [] q le e ok = absurd (omega arith)
parse_loop-cons fuel (b ∷ s) q le e ok = simp (e, ok)

parse_loop-encode_all :
    (fuel : ℕ) (ms : List Message)
    → All IsMessage ms
    → length (encode_all ms) ≤ fuel
    → parse_loop fuel (encode_all ms) ≡ packets (decoded_all ms)
unfolding encode_all decoded_all
parse_loop-encode_all zero [] h le = unfold parse_loop in refl
parse_loop-encode_all (suc fuel) [] h le = unfold parse_loop in refl
parse_loop-encode_all zero (m ∷ ms) h le =
    absurd
      (omega (arith, encode-length m.stream_id m.header (m.body ++ encode_all ms) h.0.length_is))
parse_loop-encode_all (suc fuel) (m ∷ ms) h le =
    parse_loop-cons fuel (encode m.stream_id m.header (m.body ++ encode_all ms))
      (decoded m (encode_all ms))
      (encode-length m.stream_id m.header (m.body ++ encode_all ms) h.0.length_is)
      (decoded-encode m (encode_all ms) h.0 (encode_all-length ms h.1)) refl
    ∙ ap (push (decoded m (encode_all ms)))
        (parse_loop-encode_all fuel ms h.1 (omega (arith, encode-longer m (encode_all ms))))

-- A TCP payload that is a sequence of messages, each with a chunk stream id of 2 or more and with the
-- length of its body in its header, is cut into exactly these messages, in order, with their fields and
-- bodies; only a chunk stream id of 320 or more, which takes three bytes, is read with the last two of
-- them swapped.
pub parse_all-encode_all :
    (ms : List Message) → All IsMessage ms → parse_all (encode_all ms) ≡ packets (decoded_all ms)
unfolding parse_all
parse_all-encode_all ms h = parse_loop-encode_all (length (encode_all ms)) ms h (omega arith)
