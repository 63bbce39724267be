-- ===== src/Tests/Rtmp.antt =====
-- RTMP packets as they appear on the wire, and the parser on them.
use p2p_livestreaming.Prelude.{
  ◌≡◌, ◌⊎◌, refl, List, [], ◌∷◌, ◌++◌, arith, All, Bytes, codes, take, length,
}
use p2p_livestreaming.Rtmp.{
  RtmpControlPacket, parse_packet, packets, unparsed, parse_all, stream_key,
}
use p2p_livestreaming.Rtmp.Widths.{Within}
use p2p_livestreaming.Rtmp.Bounds.{parse_all-Within}
use p2p_livestreaming.Rtmp.Loop.{Readable, parse_all_total}
use p2p_livestreaming.Rtmp.Partition.{Partition, parse_all-Partition}
use p2p_livestreaming.Rtmp.Wire.{full, no_stream_id}
use p2p_livestreaming.Rtmp.RoundTrip.{Message, encode_all, decoded_all, parse_all-encode_all}

abbrev play_body : Bytes
play_body = codes "play" ++ stream_key

abbrev play_message : Message
play_message = record { stream_id = 3; header = full 7 12 20 1; body = play_body }

abbrev begin_message : Message
begin_message = record {
  stream_id = 400;
  header = no_stream_id 9 6 4;
  body = 0 ∷ 0 ∷ 0 ∷ 0 ∷ 0 ∷ 1 ∷ [];
}

play_is_24_bytes : length (encode_all (play_message ∷ [])) ≡ 24
unfolding encode_all
play_is_24_bytes = refl

truncated_is_unparsed : parse_all (take 20 (encode_all (play_message ∷ []))) ≡ unparsed
unfolding parse_all parse_packet encode_all
truncated_is_unparsed = refl

parse_all-encode_all_example :
    parse_all (encode_all (play_message ∷ begin_message ∷ []))
    ≡ packets (decoded_all (play_message ∷ begin_message ∷ []))
parse_all-encode_all_example = parse_all-encode_all (play_message ∷ begin_message ∷ []) (
  record { stream_id_ge = omega arith; length_is = refl },
  (record { stream_id_ge = omega arith; length_is = refl }, tt),
)

parse_all_total_example :
    (parse_all (3 ∷ 0 ∷ 0 ∷ []) ≡ unparsed)
    ⊎ ((qs : List RtmpControlPacket) × (parse_all (3 ∷ 0 ∷ 0 ∷ []) ≡ packets qs) × All Readable qs)
parse_all_total_example = parse_all_total (3 ∷ 0 ∷ 0 ∷ [])

-- A message with a header of type 1, of 2 bytes, and one of type 3, whose payload is all that follows.
abbrev two_messages : Bytes
two_messages = 66 ∷ 0 ∷ 0 ∷ 0 ∷ 0 ∷ 0 ∷ 2 ∷ 20 ∷ 1 ∷ 2 ∷ 195 ∷ 7 ∷ 8 ∷ []

parse_all-Partition_example :
    Partition two_messages (parse_packet two_messages ∷ parse_packet (195 ∷ 7 ∷ 8 ∷ []) ∷ [])
unfolding parse_all parse_packet
parse_all-Partition_example =
    parse_all-Partition two_messages
      (parse_packet two_messages ∷ parse_packet (195 ∷ 7 ∷ 8 ∷ []) ∷ []) refl

abbrev begin_bytes : Bytes
begin_bytes = 2 ∷ 0 ∷ 0 ∷ 0 ∷ 0 ∷ 0 ∷ 6 ∷ 4 ∷ 0 ∷ 0 ∷ 0 ∷ 0 ∷ 0 ∷ 0 ∷ 0 ∷ 0 ∷ 0 ∷ 1 ∷ []

parse_all-Within_example : All Within (parse_packet begin_bytes ∷ [])
unfolding parse_all parse_packet
parse_all-Within_example =
    parse_all-Within begin_bytes (parse_packet begin_bytes ∷ []) (ground arith) refl
