-- ===== src/Rtmp/Partition.antt =====
-- The packets of a whole content make it up.
use mathlib.Core.Path.{subst}
use p2p_livestreaming.Prelude.{
  ℕ, zero, suc, ◌≤◌, ◌≡◌, ◌≢◌, refl, sym, ap, ◌∙◌, true, false, Bool, some, if◌then◌else◌,
  length-take, List, [], ◌∷◌, ◌++◌, arith, length, take, Bytes,
}
use p2p_livestreaming.Rtmp.{
  RtmpControlPacket, parse_packet, Packets, packets, unparsed, out_of_fuel, push, parse_loop,
  parse_all,
}
use p2p_livestreaming.Rtmp.HeaderSize.{header_size}
use p2p_livestreaming.Rtmp.Sound.{Splits, parse_packet-Splits}

-- A content is one packet behind the other: of each a header, as long as its first byte says, and its
-- payload. A payload has the announced length at least, and exactly it where something follows.
pub data Partition : Bytes → List RtmpControlPacket → Type 0 where
  nothing : Partition [] []
  one_more :
      (q : RtmpControlPacket) (qs : List RtmpControlPacket) (header body rest : Bytes)
      → header ≢ []
      → length header ≡ header_size header
      → q.payload ≡ some body
      → ((m : ℕ) → q.msg_length ≡ some m → m ≤ length body)
      → (rest ≢ [] → q.msg_length ≡ some (length body))
      → Partition rest qs
      → Partition (header ++ (body ++ rest)) (q ∷ qs)

push-packets :
    (q : RtmpControlPacket) (r : Packets) (qs : List RtmpControlPacket)
    → push q r ≡ packets qs
    → (more : List RtmpControlPacket) × (r ≡ packets more) × (qs ≡ q ∷ more)
push-packets q (packets more) qs e = (more, refl, cc)
push-packets q unparsed qs e = cc
push-packets q out_of_fuel qs e = cc

parsed_packets :
    (ok : Bool) (r : Packets) (qs : List RtmpControlPacket)
    → (if ok then r else unparsed) ≡ packets qs
    → (ok ≡ true) × (r ≡ packets qs)
parsed_packets true r qs e = (refl, e)
parsed_packets false r qs e = cc

packets_injective : (qs more : List RtmpControlPacket) → packets qs ≡ packets more → qs ≡ more
packets_injective qs more e = cc

take-nonempty : (n b : ℕ) (s : Bytes) → 1 ≤ n → take n (b ∷ s) ≢ []
take-nonempty n b s h = λ e. omega (arith, ap length e, length-take n (b ∷ s))

header_size-take :
    (n b : ℕ) (s : Bytes) → 1 ≤ n → header_size (b ∷ s) ≡ header_size (take n (b ∷ s))
header_size-take zero b s h = absurd (omega arith)
header_size-take (suc n) b s h = refl

-- The header that was cut off has its length, and starts with the same byte.
length-header :
    (b : ℕ) (s : Bytes) {q : RtmpControlPacket} (c : Splits (b ∷ s) q)
    → length (take c.header_length (b ∷ s)) ≡ header_size (take c.header_length (b ∷ s))
length-header b s c =
    omega (arith, length-take c.header_length (b ∷ s), c.header_fits)
    ∙ c.header_is
    ∙ header_size-take c.header_length b s c.header_pos

Partition-cons :
    (b : ℕ) (s : Bytes) (qs : List RtmpControlPacket)
    → (parse_packet (b ∷ s)).parsed ≡ true
    → Partition (parse_packet (b ∷ s)).remain qs
    → Partition (b ∷ s) (parse_packet (b ∷ s) ∷ qs)
Partition-cons b s qs ok rest =
    let c = parse_packet-Splits (b ∷ s) ok in
    let q = parse_packet (b ∷ s) in
    subst (λ content. Partition content (q ∷ qs)) (sym c.splits)
      (one_more q qs (take c.header_length (b ∷ s)) c.body q.remain
        (take-nonempty c.header_length b s c.header_pos) (length-header b s c) c.payload_is c.covers
        c.rests rest)

parse_loop-Partition :
    (fuel : ℕ) (content : Bytes) (qs : List RtmpControlPacket)
    → parse_loop fuel content ≡ packets qs
    → Partition content qs
unfolding parse_loop
parse_loop-Partition zero [] qs e =
    subst (Partition []) {x = []} {y = qs} (packets_injective [] qs e) nothing
parse_loop-Partition (suc fuel) [] qs e =
    subst (Partition []) {x = []} {y = qs} (packets_injective [] qs e) nothing
parse_loop-Partition zero (b ∷ s) qs e = cc
parse_loop-Partition (suc fuel) (b ∷ s) qs e =
    let (ok, pushed) = parsed_packets (parse_packet (b ∷ s)).parsed _ qs e in
    let (more, cut, all) = push-packets (parse_packet (b ∷ s)) _ qs pushed in
    subst (Partition (b ∷ s)) (sym all) (
      Partition-cons b s more ok (parse_loop-Partition fuel (parse_packet (b ∷ s)).remain more cut))

-- A TCP payload that is cut into packets is nothing but these packets, one behind the other, each
-- with its header, which is as long as its first byte says (one to three bytes for the chunk stream
-- id, and 11, 7, 3 or no bytes more by its kind), and its payload: no byte is lost, none is read
-- twice. Each payload has the announced length at least, and exactly it where another packet
-- follows.
pub parse_all-Partition :
    (content : Bytes) (qs : List RtmpControlPacket)
    → parse_all content ≡ packets qs
    → Partition content qs
unfolding parse_all
parse_all-Partition content qs e = parse_loop-Partition (length content) content qs e
