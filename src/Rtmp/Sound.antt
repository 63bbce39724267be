-- ===== src/Rtmp/Sound.antt =====
-- What a parsed packet says of the bytes that it was parsed from: `curr_pos` counts the bytes that
-- the generator gave, and header, payload and remainder make up the content.
use p2p_livestreaming.Prelude.{
  ℕ, ◌+◌, ◌≤◌, ◌<◌, ◌≡◌, refl, sym, ap, ◌∙◌, ◌≢◌, inl, inr, true, Option, none, some, [], ◌∷◌, ◌++◌,
  arith, Bool-cases, length, take, drop, length-take, length-append, ltb, take-append-drop,
  append_nil, Bytes,
}
use p2p_livestreaming.Rtmp.{
  RtmpControlPacket, Parsing, going, stopped, cut_payload, read_header, finish, parse_packet,
  is_stream_begin,
}
use p2p_livestreaming.Rtmp.HeaderSize.{header_size, Holds-both, read_header-size}
use p2p_livestreaming.Rtmp.Position.{Holds, goes, Lag, read_header-Lag}

-- Where the payload and the remainder of a packet come from.
record Cuts (q : RtmpControlPacket) (body : Bytes) : Type 0 where
  kept : Bytes
  payload_kept : q.payload ≡ some kept
  splits : body ≡ kept ++ q.remain
  covers : (m : ℕ) → q.msg_length ≡ some m → m ≤ length kept
  rests : q.remain ≢ [] → q.msg_length ≡ some (length kept)

cut_payload-Cuts :
    (q : RtmpControlPacket) (m : Option ℕ) (body : Bytes)
    → q.msg_length ≡ m
    → q.remain ≡ []
    → (cut_payload q m body).parsed ≡ true
    → Cuts (cut_payload q m body) body
unfolding cut_payload
cut_payload-Cuts q none body len fresh ok = record {
  kept = body;
  payload_kept = refl;
  splits = rw fresh (sym (append_nil body));
  covers = λ m e. cc;
  rests = λ ne. absurd (ne fresh);
}
cut_payload-Cuts q (some m) body len fresh ok = elim (Bool-cases (ltb (m + 1) (length body))) [
  | inl long ↦ record {
    kept = take m body;
    payload_kept = rw long;
    splits = rw long (sym (take-append-drop m body));
    covers = λ k e. ground (arith, length-take m body);
    rests = λ ne. ground (arith, length-take m body);
  }
  | inr short ↦ record {
    kept = body;
    payload_kept = ground arith;
    splits = ground (arith, append_nil body);
    covers = λ k e. ground arith;
    rests = λ ne. absurd (ne (ground arith));
  }
]

-- The parts of a content that parses: a header of one byte at least, the payload, and what is left
-- for the next packet, which follows a payload of the announced length.
pub record Splits (content : Bytes) (q : RtmpControlPacket) : Type 0 where
  pub header_length : ℕ
  pub body : Bytes
  pub header_is : header_length ≡ header_size content
  pub header_fits : header_length ≤ length content
  pub header_pos : 1 ≤ header_length
  pub payload_is : q.payload ≡ some body
  pub splits : content ≡ take header_length content ++ (body ++ q.remain)
  pub covers : (m : ℕ) → q.msg_length ≡ some m → m ≤ length body
  pub rests : q.remain ≢ [] → q.msg_length ≡ some (length body)

finish-Splits :
    (content : Bytes) (m : Parsing)
    → Holds
        (λ p.
          Lag content 0 p × ((p.curr_pos ≡ header_size content) × (p.curr_pos ≤ length content)))
        m
    → (finish content m).parsed ≡ true
    → Splits content (finish content m)
unfolding finish
finish-Splits content (stopped q) h ok = cc
finish-Splits content (going p) (goes h) ok =
    let c =
      cut_payload-Cuts p.packet p.packet.msg_length (drop p.curr_pos content) refl h.0.0.1 ok in
    record {
      header_length = p.curr_pos;
      body = c.kept;
      header_is = h.1.0;
      header_fits = h.1.1;
      header_pos = omega (arith, h.0.1);
      payload_is = c.payload_kept;
      splits =
          sym (take-append-drop p.curr_pos content) ∙ ap (◌++◌ (take p.curr_pos content)) c.splits;
      covers = c.covers;
      rests = c.rests;
    }

-- Nothing of a content that parses is lost: it is a header, the payload and the remainder, in this
-- order. The payload has the announced length at least, and exactly it where something remains.
pub parse_packet-Splits :
    (content : Bytes) → (parse_packet content).parsed ≡ true → Splits content (parse_packet content)
unfolding parse_packet
parse_packet-Splits content ok =
    finish-Splits content (read_header content)
      (Holds-both (Lag content 0)
        (λ p. (p.curr_pos ≡ header_size content) × (p.curr_pos ≤ length content))
        (read_header-Lag content) (read_header-size content))
      ok

is_stream_begin-ne-none :
    (o : Option ℕ) (body : Bytes)
    → ((m : ℕ) → o ≡ some m → m ≤ length body)
    → is_stream_begin o body ≢ none
unfolding is_stream_begin
is_stream_begin-ne-none none body h = λ e. cc
is_stream_begin-ne-none (some n) [] h = ground (arith, h n refl)
is_stream_begin-ne-none (some n) (a ∷ []) h = ground (arith, h n refl)
is_stream_begin-ne-none (some n) (a ∷ b ∷ s) h = ground arith

-- What remains is shorter, so the handler's loop comes to an end.
pub remain-lt :
    (b : ℕ) (s : Bytes)
    → (parse_packet (b ∷ s)).parsed ≡ true
    → length (parse_packet (b ∷ s)).remain < length (b ∷ s)
remain-lt b s ok =
    let c = parse_packet-Splits (b ∷ s) ok in
    omega (arith, c.header_pos, ap length c.splits, length-append {0}, length-take {0})

-- A packet that parses always has the two bytes that the test for a stream begin reads.
pub is_stream_begin_total :
    (content : Bytes)
    → (parse_packet content).parsed ≡ true
    → (body : Bytes) × ((parse_packet content).payload ≡ some body)
      × (is_stream_begin (parse_packet content).msg_length body ≢ none)
is_stream_begin_total content ok =
    let c = parse_packet-Splits content ok in
    (
      c.body,
      c.payload_is,
      is_stream_begin-ne-none (parse_packet content).msg_length c.body c.covers,
    )
