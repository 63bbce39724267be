-- ===== src/Tests/Session.antt =====
-- A session of a viewer (10.0.0.3 on port 2), a service (10.0.0.2 on port 3) and a broadcaster
-- (10.0.0.1 on port 1); addresses are numbered by their last part.
use p2p_livestreaming.Prelude.{
  ◌+◌, ℕ, ◌≡◌, refl, true, Option, none, some, List, [], ◌∷◌, ◌++◌, arith, Bytes, codes,
}
use p2p_livestreaming.OpenFlow.{TcpFrame, Event}
use p2p_livestreaming.Rtmp.{
  parse_all, parse_packet, is_play_req, is_play_start, is_publish_req, is_publish_start,
  is_stream_begin,
}
use p2p_livestreaming.Bypass.{new}
use p2p_livestreaming.Bypass.RtmpHandler.{handle_rtmp}
use p2p_livestreaming.Bypass.Dispatch.{run}
use p2p_livestreaming.Bypass.Signal.{
  asks_play, starts_play, asks_publish, starts_publish, begins_stream, IsSignal,
}
use p2p_livestreaming.Bypass.Steps.{IsRequest, IsAnswer}

-- A chunk of header type 3 with the given text as its payload.
abbrev pub chunk : Bytes → Bytes
chunk body = 195 ∷ body

abbrev pub frame : ℕ → ℕ → ℕ → ℕ → Bytes → TcpFrame
frame srcip dstip srcport dstport payload = record {
  srcip = srcip;
  dstip = dstip;
  srcport = srcport;
  dstport = dstport;
  payload = payload;
}

abbrev pub packet_in : ℕ → ℕ → ℕ → Option TcpFrame → Event
packet_in port src dst tcp = record {
  port = port;
  dpid = 1;
  src = src;
  dst = dst;
  eth_type = 2048;
  buffer_id = none;
  tcp = tcp;
}

abbrev pub play_frame : TcpFrame
play_frame = frame 3 2 5001 1935 (chunk (codes "play 6829proj"))

abbrev pub play_answer : TcpFrame
play_answer = frame 2 3 1935 5001 (chunk (codes "onStatus NetStream.Play.Start"))

abbrev pub publish_frame : TcpFrame
publish_frame = frame 1 2 5002 1935 (chunk (codes "publish 6829proj"))

abbrev pub publish_answer : TcpFrame
publish_answer = frame 2 1 1935 5002 (chunk (codes "onStatus NetStream.Publish.Start"))

abbrev pub play_event : Event
play_event = packet_in 2 13 12 (some play_frame)

abbrev pub play_answer_event : Event
play_answer_event = packet_in 3 12 13 (some play_answer)

abbrev pub publish_event : Event
publish_event = packet_in 1 11 12 (some publish_frame)

abbrev pub publish_answer_event : Event
publish_answer_event = packet_in 3 12 11 (some publish_answer)

abbrev pub show_last : ℕ → Bytes
show_last n = codes "10.0.0." ++ (48 + n) ∷ []

-- Each frame carries one packet of its kind.
pub play-IsSignal :
    (srcip dstip srcport dstport : ℕ)
    → IsSignal asks_play (frame srcip dstip srcport dstport (chunk (codes "play 6829proj")))
unfolding parse_all parse_packet is_play_req is_play_start is_publish_req is_publish_start
    is_stream_begin
play-IsSignal srcip dstip srcport dstport = record {
  packet = parse_packet (chunk (codes "play 6829proj"));
  body = codes "play 6829proj";
  some_content = refl;
  no_handshake = refl;
  no_prefix = refl;
  single = refl;
  payload_is = refl;
  play_req_is = refl;
  play_start_is = refl;
  publish_req_is = refl;
  publish_start_is = refl;
  begin_is = refl;
}

pub play_answer-IsSignal : IsSignal starts_play play_answer
unfolding parse_all parse_packet is_play_req is_play_start is_publish_req is_publish_start
    is_stream_begin
play_answer-IsSignal = record {
  packet = parse_packet play_answer.payload;
  body = codes "onStatus NetStream.Play.Start";
  some_content = refl;
  no_handshake = refl;
  no_prefix = refl;
  single = refl;
  payload_is = refl;
  play_req_is = refl;
  play_start_is = refl;
  publish_req_is = refl;
  publish_start_is = refl;
  begin_is = refl;
}

pub publish_frame-IsSignal : IsSignal asks_publish publish_frame
unfolding parse_all parse_packet is_play_req is_play_start is_publish_req is_publish_start
    is_stream_begin
publish_frame-IsSignal = record {
  packet = parse_packet publish_frame.payload;
  body = codes "publish 6829proj";
  some_content = refl;
  no_handshake = refl;
  no_prefix = refl;
  single = refl;
  payload_is = refl;
  play_req_is = refl;
  play_start_is = refl;
  publish_req_is = refl;
  publish_start_is = refl;
  begin_is = refl;
}

pub publish_answer-IsSignal : IsSignal starts_publish publish_answer
unfolding parse_all parse_packet is_play_req is_play_start is_publish_req is_publish_start
    is_stream_begin
publish_answer-IsSignal = record {
  packet = parse_packet publish_answer.payload;
  body = codes "onStatus NetStream.Publish.Start";
  some_content = refl;
  no_handshake = refl;
  no_prefix = refl;
  single = refl;
  payload_is = refl;
  play_req_is = refl;
  play_start_is = refl;
  publish_req_is = refl;
  publish_start_is = refl;
  begin_is = refl;
}

-- A user control message of 6 bytes, of the kind that announces the begin of a stream.
abbrev pub begin_frame : TcpFrame
begin_frame =
    frame 2 3 1935 5001 (2 ∷ 0 ∷ 0 ∷ 0 ∷ 0 ∷ 0 ∷ 6 ∷ 4 ∷ 0 ∷ 0 ∷ 0 ∷ 0 ∷ 0 ∷ 0 ∷ 0 ∷ 0 ∷ 0 ∷ 1 ∷ [])

abbrev pub begin_event : Event
begin_event = packet_in 3 12 13 (some begin_frame)

begin_frame-IsSignal : IsSignal begins_stream begin_frame
unfolding parse_all parse_packet is_play_req is_play_start is_publish_req is_publish_start
    is_stream_begin
begin_frame-IsSignal = record {
  packet = parse_packet begin_frame.payload;
  body = 0 ∷ 0 ∷ 0 ∷ 0 ∷ 0 ∷ 1 ∷ [];
  some_content = refl;
  no_handshake = refl;
  no_prefix = refl;
  single = refl;
  payload_is = refl;
  play_req_is = refl;
  play_start_is = refl;
  publish_req_is = refl;
  publish_start_is = refl;
  begin_is = refl;
}

-- The same request of another host, 10.0.0.4 on port 4.
abbrev pub second_frame : TcpFrame
second_frame = frame 4 2 5003 1935 (chunk (codes "play 6829proj"))

abbrev pub second_event : Event
second_event = packet_in 4 14 12 (some second_frame)

pub second_event-IsRequest : IsRequest asks_play second_frame second_event
second_event-IsRequest = record {
  carried = refl;
  signal = play-IsSignal 4 2 5003 1935;
  to_service = refl;
  differ = omega arith;
}

pub play_event-IsRequest : IsRequest asks_play play_frame play_event
play_event-IsRequest = record {
  carried = refl;
  signal = play-IsSignal 3 2 5001 1935;
  to_service = refl;
  differ = omega arith;
}

pub play_answer-IsAnswer : IsAnswer starts_play play_answer play_answer_event
play_answer-IsAnswer = record {
  carried = refl;
  signal = play_answer-IsSignal;
  from_service = refl;
  differ = omega arith;
}

pub publish_event-IsRequest : IsRequest asks_publish publish_frame publish_event
publish_event-IsRequest = record {
  carried = refl;
  signal = publish_frame-IsSignal;
  to_service = refl;
  differ = omega arith;
}

pub publish_answer-IsAnswer : IsAnswer starts_publish publish_answer publish_answer_event
publish_answer-IsAnswer = record {
  carried = refl;
  signal = publish_answer-IsSignal;
  from_service = refl;
  differ = omega arith;
}

pub begin_event-IsAnswer : IsAnswer begins_stream begin_frame begin_event
begin_event-IsAnswer = record {
  carried = refl;
  signal = begin_frame-IsSignal;
  from_service = refl;
  differ = omega arith;
}

abbrev pub session_events : List Event
session_events = play_event ∷ play_answer_event ∷ publish_event ∷ publish_answer_event ∷ []

-- The session, computed: the stage is enabled and the three hosts are known.
pub session_state :
    let s = run show_last session_events new in
    (s.p2p_enabled ≡ true)
    × (s.v_nw_addr ≡ some 3)
    × (s.b_nw_addr ≡ some 1)
    × (s.s_nw_addr ≡ some 2)
unfolding run handle_rtmp parse_all parse_packet is_play_req is_play_start is_publish_req
    is_publish_start is_stream_begin
session_state = (refl, refl, refl, refl)
