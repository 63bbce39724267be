-- ===== src/Rtmp/Dump.antt =====
-- src/pox/pox/livestreaming/bypass.py, `dump_fields`: the text that it gives to the log. Python's
-- `bin`, `hex` and `str` of a number are parameters.
use p2p_livestreaming.Prelude.{ℕ, Option, none, some, [], ◌++◌, length, Bytes, codes}
use p2p_livestreaming.Rtmp.{RtmpControlPacket}

-- The part of one attribute, left out where it is `None`.
abbrev pub field : Bytes → (ℕ → Bytes) → Option ℕ → Bytes
field name show none = []
field name show (some n) = name ++ show n

abbrev pub payload_len : Option Bytes → Option ℕ
payload_len none = none
payload_len (some s) = some (length s)

-- `dump_fields`
unfoldable pub dump_fields : (bin hex str : ℕ → Bytes) → RtmpControlPacket → Bytes
dump_fields bin hex str q =
    codes "[RTMP]"
    ++ (field (codes " chunk_header_type:") bin q.chunk_header_type
        ++ (field (codes " chunk_stream_id:") str q.chunk_stream_id
            ++ (field (codes " timestamp:") str q.timestamp
                ++ (field (codes " msg_length:") str q.msg_length
                    ++ (field (codes " msg_type:") hex q.msg_type
                        ++ (field (codes " msg_stream_id:") str q.msg_stream_id
                            ++ field (codes " payload_len:") str (payload_len q.payload)))))))
