-- ===== src/Rtmp/Bounds.antt =====
-- The widths of the fields of a parsed packet, and of all packets of a payload.
use p2p_livestreaming.Prelude.{
  ℕ, zero, suc, ◌≡◌, Bool, true, false, Option, none, some, List, [], ◌∷◌, arith, if◌then◌else◌,
  All, Bytes, drop, length,
}
use p2p_livestreaming.Rtmp.Widths.{IsByte, Within, Keeps, read_header-Keeps}
use p2p_livestreaming.Rtmp.{
  RtmpControlPacket, Parsing, going, stopped, read_header, cut_payload, finish, parse_packet,
  Packets, packets, unparsed, out_of_fuel, push, parse_loop, parse_all,
}

All-drop : (n : ℕ) (s : Bytes) → All IsByte s → All IsByte (drop n s)
All-drop zero s h = h
All-drop (suc n) [] h = tt
All-drop (suc n) (b ∷ s) h = All-drop n s h.1

cut_payload-Within :
    (q : RtmpControlPacket) (m : Option ℕ) (body : Bytes)
    → Within q
    → All IsByte body
    → Within (cut_payload q m body)
unfolding cut_payload
cut_payload-Within q none body w h = ground (arith, w)
cut_payload-Within q (some n) body w h = ground (arith, w, All-drop n body h)

finish-Within :
    (content : Bytes) (m : Parsing) → All IsByte content → Keeps m → Within (finish content m)
unfolding finish
finish-Within content (going p) h k =
    cut_payload-Within p.packet p.packet.msg_length (drop p.curr_pos content) k.0
      (All-drop p.curr_pos content h)
finish-Within content (stopped q) h k = ground (arith, k)

-- From bytes, the parser sets each field of a packet within its width, also where it gives up before
-- the end of the header.
pub parse_packet-Within : (content : Bytes) → All IsByte content → Within (parse_packet content)
unfolding parse_packet
parse_packet-Within content h =
    finish-Within content (read_header content) h (read_header-Keeps content h)

abbrev AllWithin : Packets → Type 0
AllWithin (packets qs) = All Within qs
AllWithin unparsed = Unit
AllWithin out_of_fuel = Unit

push-AllWithin :
    (q : RtmpControlPacket) (r : Packets) → Within q → AllWithin r → AllWithin (push q r)
push-AllWithin q (packets qs) w h = (w, h)
push-AllWithin q unparsed w h = tt
push-AllWithin q out_of_fuel w h = tt

if-AllWithin :
    (b : Bool) (r t : Packets) → AllWithin r → AllWithin t → AllWithin (if b then r else t)
if-AllWithin true r t hr ht = hr
if-AllWithin false r t hr ht = ht

parse_loop-AllWithin :
    (fuel : ℕ) (content : Bytes) → All IsByte content → AllWithin (parse_loop fuel content)
unfolding parse_loop
parse_loop-AllWithin zero [] h = tt
parse_loop-AllWithin (suc fuel) [] h = tt
parse_loop-AllWithin zero (b ∷ s) h = tt
parse_loop-AllWithin (suc fuel) (b ∷ s) h =
    let q = parse_packet (b ∷ s) in
    let w = parse_packet-Within (b ∷ s) h in
    if-AllWithin q.parsed (push q (parse_loop fuel q.remain)) unparsed
      (push-AllWithin q (parse_loop fuel q.remain) w (parse_loop-AllWithin fuel q.remain w.rest)) tt

-- The packets that a payload of bytes is cut into have their fields within the widths of RTMP, all of
-- them: header type, stream id, timestamp, length, type and message stream id.
pub parse_all-Within :
    (content : Bytes) (qs : List RtmpControlPacket)
    → All IsByte content
    → parse_all content ≡ packets qs
    → All Within qs
unfolding parse_all
parse_all-Within content qs h e = rw e at (parse_loop-AllWithin (length content) content h)
