-- ===== src/Rtmp.antt =====
-- src/pox/pox/livestreaming/bypass.py, `RTMPControlPacket`: the parser of one RTMP packet and the
-- keyword checkers, and the loop of `_handle_PacketIn_rtmp` that cuts a TCP payload into packets.
-- Bytes are numbers below 256, so `x >> 6`, `x & 0b00111111` and `(a << 8) | b` are written by
-- quotient, remainder and sum. An exhausted byte generator (`StopIteration`) is `stopped`, with
-- the fields set before it kept.
pub mod Position
pub mod HeaderSize
pub mod Wire
pub mod Sound
pub mod RoundTrip
pub mod Loop
pub mod Partition
pub mod Dump
pub mod Widths
pub mod Bounds
use p2p_livestreaming.Prelude.{
  ℕ, zero, suc, ◌+◌, ◌*◌, ◌/◌, ◌%◌, ◌^◌, Bool, true, false, ◌&&◌, Option, none, some, List, [], ◌∷◌,
  ltb, ◌==◌, if◌then◌else◌, length, take, drop, get_elem?, Bytes, codes, contains,
}

abbrev pub rtmp_port : ℕ
rtmp_port = 1935

abbrev pub stream_key : Bytes
stream_key = codes "6829proj"

pub record RtmpControlPacket : Type 0 where
  pub chunk_header_type : Option ℕ
  pub chunk_stream_id : Option ℕ
  pub timestamp : Option ℕ
  pub msg_length : Option ℕ
  pub msg_type : Option ℕ
  pub msg_stream_id : Option ℕ
  pub payload : Option Bytes
  pub parsed : Bool
  pub remain : Bytes

-- The attributes before the `try` block.
abbrev pub blank : RtmpControlPacket
blank = record {
  chunk_header_type = none;
  chunk_stream_id = none;
  timestamp = none;
  msg_length = none;
  msg_type = none;
  msg_stream_id = none;
  payload = none;
  parsed = false;
  remain = [];
}

-- The locals of the `try` block: the generator `cg`, as the bytes that it has left, and `curr_pos`.
pub record Parse : Type 0 where
  pub packet : RtmpControlPacket
  pub cg : Bytes
  pub curr_pos : ℕ

pub data Parsing : Type 0 where
  going : Parse → Parsing
  stopped : RtmpControlPacket → Parsing

infixl 5 ◌>>=◌
abbrev pub ◌>>=◌ : Parsing → (Parse → Parsing) → Parsing
going p >>= f = f p
stopped q >>= f = stopped q

-- `cg.next()`, once and in the combinations of the source.
unfoldable pub u8 : Bytes → Option (ℕ × Bytes)
u8 [] = none
u8 (a ∷ s) = some (a, s)

-- `(cg.next() << 8) | cg.next()`
unfoldable pub u16 : Bytes → Option (ℕ × Bytes)
u16 (a ∷ b ∷ s) = some (a * 256 + b, s)
u16 _ = none

-- `(cg.next() << 16) | (cg.next() << 8) | cg.next()`
unfoldable pub u24 : Bytes → Option (ℕ × Bytes)
u24 (a ∷ b ∷ c ∷ s) = some (a * 65536 + b * 256 + c, s)
u24 _ = none

-- `cg.next() | (cg.next() << 8) | (cg.next() << 16) | (cg.next() << 24)`
unfoldable pub u32_le : Bytes → Option (ℕ × Bytes)
u32_le (a ∷ b ∷ c ∷ d ∷ s) = some (a + b * 256 + c * 65536 + d * 16777216, s)
u32_le _ = none

-- The rest of the `try` block after a read, or the jump to `except StopIteration`.
abbrev pub after : Option (ℕ × Bytes) → Parse → (ℕ → RtmpControlPacket) → Parsing
after none p set_field = stopped p.packet
after (some (v, s)) p set_field = going (record p { packet = set_field v; cg = s })

abbrev advance : ℕ → Parse → Parsing
advance n p = going (record p { curr_pos = p.curr_pos + n })

unfoldable pub read_basic_header : Parse → Parsing
unfolding u8
read_basic_header p = do
  p' ←
      after (u8 p.cg) p
        λ h. record p.packet { chunk_header_type = some (h / 64); chunk_stream_id = some (h % 64) }
  advance 1 p'

-- The stream ids 0 and 1 announce an id in the next one or two bytes.
unfoldable pub read_extended_id : ℕ → Parse → Parsing
unfolding u8 u16
read_extended_id id p =
    if id == 0
    then (do
      p' ← after (u8 p.cg) p λ b. record p.packet { chunk_stream_id = some (64 + b) }
      advance 1 p')
    else if id == 1
    then (do
      p' ← after (u16 p.cg) p λ b. record p.packet { chunk_stream_id = some (64 + b) }
      advance 2 p')
    else going p

unfoldable pub read_timestamp : Parse → Parsing
unfolding u24
read_timestamp p = after (u24 p.cg) p λ v. record p.packet { timestamp = some v }

unfoldable pub read_msg_length : Parse → Parsing
unfolding u24
read_msg_length p = after (u24 p.cg) p λ v. record p.packet { msg_length = some v }

unfoldable pub read_msg_type : Parse → Parsing
unfolding u8
read_msg_type p = after (u8 p.cg) p λ v. record p.packet { msg_type = some v }

unfoldable pub read_msg_stream_id : Parse → Parsing
unfolding u32_le
read_msg_stream_id p = after (u32_le p.cg) p λ v. record p.packet { msg_stream_id = some v }

-- The branches on `chunk_header_type`; 0b11 has no message header.
unfoldable pub read_message_header : ℕ → Parse → Parsing
unfolding read_timestamp read_msg_length read_msg_type read_msg_stream_id
read_message_header kind p =
    if kind == 0
    then (do
      p₁ ← read_timestamp p
      p₂ ← read_msg_length p₁
      p₃ ← read_msg_type p₂
      p₄ ← read_msg_stream_id p₃
      advance 11 p₄)
    else if kind == 1
    then (do p₁ ← read_timestamp p; p₂ ← read_msg_length p₁; p₃ ← read_msg_type p₂; advance 7 p₃)
    else if kind == 2
    then (do p₁ ← read_timestamp p; advance 3 p₁)
    else going p

-- The cut of `content[curr_pos:]` by the message length. One byte beyond the length is kept.
unfoldable pub cut_payload : RtmpControlPacket → Option ℕ → Bytes → RtmpControlPacket
cut_payload q none body = record q { payload = some body; parsed = true }
cut_payload q (some n) body =
    if ltb (n + 1) (length body)
    then record q { payload = some (take n body); remain = drop n body; parsed = true }
    else if ltb (length body) n
    then record q { payload = some body; parsed = false }
    else record q { payload = some body; parsed = true }

-- A step on an attribute that was set before.
unfoldable pub with_attribute : Option ℕ → (ℕ → Parse → Parsing) → Parse → Parsing
with_attribute none step p = going p
with_attribute (some v) step p = step v p

unfoldable pub read_header : Bytes → Parsing
unfolding read_basic_header read_extended_id read_message_header with_attribute
read_header content = do
  p ← read_basic_header (record { packet = blank; cg = content; curr_pos = 0 })
  q ← with_attribute p.packet.chunk_stream_id read_extended_id p
  with_attribute q.packet.chunk_header_type read_message_header q

unfoldable pub finish : Bytes → Parsing → RtmpControlPacket
unfolding cut_payload
finish content (going p) = cut_payload p.packet p.packet.msg_length (drop p.curr_pos content)
finish content (stopped q) = record q { parsed = false }

-- `RTMPControlPacket(content)`
unfoldable pub parse_packet : Bytes → RtmpControlPacket
unfolding read_header finish
parse_packet content = finish content (read_header content)

-- The keyword checkers, on the payload of a packet.
unfoldable pub is_play_req : Bytes → Bool
unfolding contains
is_play_req payload = contains (codes "play") payload && contains stream_key payload

unfoldable pub is_play_start : Bytes → Bool
unfolding contains
is_play_start payload =
    contains (codes "onStatus") payload && contains (codes "NetStream.Play.Start") payload

unfoldable pub is_publish_req : Bytes → Bool
unfolding contains
is_publish_req payload = contains (codes "publish") payload && contains stream_key payload

unfoldable pub is_publish_start : Bytes → Bool
unfolding contains
is_publish_start payload =
    contains (codes "onStatus") payload && contains (codes "NetStream.Publish.Start") payload

-- `none` is the IndexError of `self.payload[0]` or `self.payload[1]`.
unfoldable pub is_stream_begin : Option ℕ → Bytes → Option Bool
is_stream_begin none payload = some false
is_stream_begin (some n) payload =
    if n == 6
    then elim (get_elem? payload 0) [
      | none ↦ none
      | some a ↦ elim (get_elem? payload 1) [ none ↦ none | some b ↦ some (a * 256 + b == 0) ]
    ]
    else some false

-- `while len(content) > 0`: a packet that does not parse ends the handler's work on the content.
pub data Packets : Type 0 where
  packets : List RtmpControlPacket → Packets
  unparsed : Packets
  out_of_fuel : Packets

abbrev pub push : RtmpControlPacket → Packets → Packets
push q (packets qs) = packets (q ∷ qs)
push q unparsed = unparsed
push q out_of_fuel = out_of_fuel

unfoldable pub parse_loop : ℕ → Bytes → Packets
parse_loop fuel [] = packets []
parse_loop zero (b ∷ s) = out_of_fuel
parse_loop (suc fuel) (b ∷ s) =
    let q = parse_packet (b ∷ s) in
    let rest = push q (parse_loop fuel q.remain) in if q.parsed then rest else unparsed

unfoldable pub parse_all : Bytes → Packets
unfolding parse_loop
parse_all content = parse_loop (length content) content
