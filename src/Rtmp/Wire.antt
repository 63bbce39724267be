-- ===== src/Rtmp/Wire.antt =====
-- An encoder of RTMP chunks, written from the wire format, and how the parser reads its headers.
use p2p_livestreaming.Prelude.{
  ℕ, ◌+◌, ◌-◌, ◌*◌, ◌/◌, ◌%◌, ◌≤◌, ◌<◌, ◌≡◌, refl, sym, ap, ◌∙◌, inl, inr, some, [], ◌∷◌, ◌++◌,
  arith, ltb, Bool-cases, length, Bytes, if◌then◌else◌, drop-append_twice,
}
use p2p_livestreaming.Rtmp.{
  RtmpControlPacket, blank, Parse, Parsing, going, stopped, ◌>>=◌, read_basic_header,
  read_extended_id, read_message_header, with_attribute, read_header, cut_payload, parse_packet,
}

-- The four message headers, by the fields that each carries.
pub data Header : Type 0 where
  full : (timestamp msg_length msg_type msg_stream_id : ℕ) → Header
  no_stream_id : (timestamp msg_length msg_type : ℕ) → Header
  only_timestamp : (timestamp : ℕ) → Header
  bare : Header

abbrev pub kind : Header → ℕ
kind (full _ _ _ _) = 0
kind (no_stream_id _ _ _) = 1
kind (only_timestamp _) = 2
kind bare = 3

abbrev pub be24 : ℕ → Bytes
be24 n = n / 65536 ∷ n / 256 % 256 ∷ n % 256 ∷ []

abbrev pub le32 : ℕ → Bytes
le32 n = n % 256 ∷ n / 256 % 256 ∷ n / 65536 % 256 ∷ n / 16777216 ∷ []

abbrev pub encode_header : Header → Bytes
encode_header (full t n ty sid) = be24 t ++ be24 n ++ (ty ∷ []) ++ le32 sid
encode_header (no_stream_id t n ty) = be24 t ++ be24 n ++ (ty ∷ [])
encode_header (only_timestamp t) = be24 t
encode_header bare = []

-- The chunk stream id in one, two or three bytes; in three, the third byte counts 256.
abbrev pub encode_basic : ℕ → ℕ → Bytes
encode_basic k id =
    if ltb id 64
    then (k * 64 + id) ∷ []
    else if ltb id 320
    then k * 64 ∷ (id - 64) ∷ []
    else (k * 64 + 1) ∷ (id - 64) % 256 ∷ (id - 64) / 256 ∷ []

-- The id that the parser reads: in the form of three bytes it takes the second for the higher one.
abbrev pub id_read : ℕ → ℕ
id_read id = if ltb id 320 then id else 64 + ((id - 64) % 256 * 256 + (id - 64) / 256)

abbrev pub set_header : Header → RtmpControlPacket → RtmpControlPacket
set_header (full t n ty sid) q = record q {
  timestamp = some t;
  msg_length = some n;
  msg_type = some ty;
  msg_stream_id = some sid;
}
set_header (no_stream_id t n ty) q = record q {
  timestamp = some t;
  msg_length = some n;
  msg_type = some ty;
}
set_header (only_timestamp t) q = record q { timestamp = some t }
set_header bare q = q

read_message_header-encode :
    (h : Header) (q : RtmpControlPacket) (s : Bytes) (n : ℕ)
    → read_message_header (kind h) (record { packet = q; cg = encode_header h ++ s; curr_pos = n })
      ≡ going (record { packet = set_header h q; cg = s; curr_pos = n + length (encode_header h) })
unfolding read_message_header
read_message_header-encode (full t m ty sid) q s n = ground arith
read_message_header-encode (no_stream_id t m ty) q s n = ground arith
read_message_header-encode (only_timestamp t) q s n = ground arith
read_message_header-encode bare q s n = ground arith

-- The first two steps of the parser, on an encoded chunk stream id.
abbrev pub start : Bytes → Parse
start s = record { packet = blank; cg = s; curr_pos = 0 }

abbrev pub ids : ℕ → ℕ → RtmpControlPacket
ids k id = record blank { chunk_header_type = some k; chunk_stream_id = some id }

abbrev read_ids : Parse → Parsing
read_ids p = read_basic_header p >>= λ q. with_attribute q.packet.chunk_stream_id read_extended_id q

read_ids-encode :
    (k id : ℕ) (s : Bytes)
    → k < 4
    → 2 ≤ id
    → read_ids (start (encode_basic k id ++ s))
      ≡ going
          (record { packet = ids k (id_read id); cg = s; curr_pos = length (encode_basic k id) })
unfolding read_basic_header with_attribute read_extended_id
read_ids-encode k id s hk hid = elim (Bool-cases (ltb id 64)) [
  | inl one ↦ rw one (ground arith)
  | inr more ↦ elim (Bool-cases (ltb id 320)) [
    | inl two ↦ rw (more, two) (ground arith)
    | inr three ↦ rw (more, three) (ground arith)
  ]
]

unfoldable pub encode : ℕ → Header → Bytes → Bytes
encode id h body = encode_basic (kind h) id ++ (encode_header h ++ body)

kind-lt : (h : Header) → kind h < 4
kind-lt (full _ _ _ _) = omega arith
kind-lt (no_stream_id _ _ _) = omega arith
kind-lt (only_timestamp _) = omega arith
kind-lt bare = omega arith

unfoldable pub fields : ℕ → Header → RtmpControlPacket
fields id h = set_header h (ids (kind h) (id_read id))

bind_assoc : (m : Parsing) (f g : Parse → Parsing) → (m >>= f >>= g) ≡ (m >>= λ p. f p >>= g)
bind_assoc (going p) f g = refl
bind_assoc (stopped q) f g = refl

read_header-encode :
    (id : ℕ) (h : Header) (s : Bytes)
    → 2 ≤ id
    → read_header (encode id h s)
      ≡ going (record {
        packet = fields id h;
        cg = s;
        curr_pos = length (encode_basic (kind h) id) + length (encode_header h);
      })
unfolding read_header with_attribute encode fields
read_header-encode id h s hid =
    sym (bind_assoc (read_basic_header (start (encode id h s))) _ _)
    ∙ ap (λ m. m >>= λ q. with_attribute q.packet.chunk_header_type read_message_header q)
        (read_ids-encode (kind h) id (encode_header h ++ s) (kind-lt h) hid)
    ∙ read_message_header-encode h (ids (kind h) (id_read id)) s (length (encode_basic (kind h) id))

-- Every header form is read back, with every stream id from 2 to 319 and with the bytes of a larger
-- one swapped; the payload is cut from what follows the header.
pub parse_packet-encode :
    (id : ℕ) (h : Header) (s : Bytes)
    → 2 ≤ id
    → parse_packet (encode id h s) ≡ cut_payload (fields id h) (fields id h).msg_length s
unfolding parse_packet encode
parse_packet-encode id h s hid = rw (read_header-encode id h s hid) (
    ap (cut_payload (fields id h) (fields id h).msg_length)
      (drop-append_twice (encode_basic (kind h) id) (encode_header h) s))
