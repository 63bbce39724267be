-- ===== src/Bypass/RtmpHandler.antt =====
-- src/pox/pox/livestreaming/bypass.py, `_handle_PacketIn_rtmp`: the checks of the payload length,
-- the loop over the RTMP packets of a frame, and the switch to the P2P stage.
use p2p_livestreaming.Prelude.{
  ℕ, Bool, true, false, not, ◌&&◌, ◌||◌, Option, none, some, List, [], ◌∷◌, ◌++◌, ◌==◌,
  if◌then◌else◌, is_some, length, Bytes,
}
use p2p_livestreaming.OpenFlow.{TcpFrame, Event}
use p2p_livestreaming.Rtmp.{
  rtmp_port, RtmpControlPacket, is_play_req, is_play_start, is_publish_req, is_publish_start,
  is_stream_begin, Packets, packets, unparsed, out_of_fuel, parse_all,
}
use p2p_livestreaming.Bypass.{
  Switch, Outcome, ok, raised, assertion_error, type_error, index_error, diverged, ◌>>=◌, assert,
  learn_source, is_attr, truthy, normal_send,
}

module _ (f : TcpFrame) (e : Event) where
  -- Viewer to service, play request.
  unfoldable pub play_req : Bytes → Switch → Outcome
  play_req payload s =
      if is_play_req payload
      then (do
        s₁ ← assert (f.dstport == rtmp_port) s
        ok (record s₁ {
          roles = record s₁.roles {
            vport = some e.port;
            v_dl_addr = some e.src;
            v_nw_addr = some f.srcip;
            v_tp_port = some f.srcport;
          };
          status = record s₁.status { status_vplay = true };
        }))
      else ok s

  -- Who the service is: learned once, and checked from then on.
  unfoldable pub learn_service : Switch → Outcome
  learn_service s =
      if truthy s.sport
      then (do
        s₁ ← assert (is_attr e.port s.sport) s
        s₂ ← assert (is_attr e.src s₁.s_dl_addr) s₁
        assert (is_attr f.srcip s₂.s_nw_addr) s₂)
      else ok (record s {
        roles = record s.roles {
          sport = some e.port;
          s_dl_addr = some e.src;
          s_nw_addr = some f.srcip;
        };
      })

  -- Service to viewer, play start message.
  unfoldable pub play_start : Bytes → Switch → Outcome
  unfolding learn_service
  play_start payload s =
      if is_play_start payload
      then (do
        s₁ ← assert (f.srcport == rtmp_port) s
        s₂ ← assert (is_some s₁.vport) s₁
        s₃ ← learn_service s₂
        s₄ ← assert s₃.status_vplay s₃
        ok (record s₄ { status = record s₄.status { status_vready = true } }))
      else ok s

  -- Broadcaster to service, publish request.
  unfoldable pub publish_req : Bytes → Switch → Outcome
  publish_req payload s =
      if is_publish_req payload
      then (do
        s₁ ← assert (f.dstport == rtmp_port) s
        ok (record s₁ {
          roles = record s₁.roles {
            bport = some e.port;
            b_dl_addr = some e.src;
            b_nw_addr = some f.srcip;
            b_tp_port = some f.srcport;
          };
          status = record s₁.status { status_bpublish = true };
        }))
      else ok s

  -- Service to broadcaster, publish start message.
  unfoldable pub publish_start : Bytes → Switch → Outcome
  unfolding learn_service
  publish_start payload s =
      if is_publish_start payload
      then (do
        s₁ ← assert (f.srcport == rtmp_port) s
        s₂ ← assert (is_some s₁.bport) s₁
        s₃ ← learn_service s₂
        s₄ ← assert s₃.status_bpublish s₃
        ok (record s₄ { status = record s₄.status { status_bready = true } }))
      else ok s

  -- Service to viewer, stream begin message.
  unfoldable pub stream_begin : Option Bool → Switch → Outcome
  stream_begin none s = raised index_error s
  stream_begin (some false) s = ok s
  stream_begin (some true) s = do
    s₁ ← assert (f.srcport == rtmp_port) s
    s₂ ← assert s₁.status_vready s₁
    ok (record s₂ { status = record s₂.status { status_stream_begin = true } })

  -- The body of the loop over the packets. A packet with no payload fails the first keyword test.
  unfoldable pub observe_payload : Option ℕ → Option Bytes → Switch → Outcome
  unfolding play_req play_start publish_req publish_start stream_begin
  observe_payload n none s = raised type_error s
  observe_payload n (some payload) s = do
    s₁ ← play_req payload s
    s₂ ← play_start payload s₁
    s₃ ← publish_req payload s₂
    s₄ ← publish_start payload s₃
    stream_begin (is_stream_begin n payload) s₄

  unfoldable pub observe_all : List RtmpControlPacket → Switch → Outcome
  unfolding observe_payload
  observe_all [] s = ok s
  observe_all (q ∷ qs) s = do s₁ ← observe_payload q.msg_length q.payload s; observe_all qs s₁

-- A stream begins and its broadcaster is unseen: it is not in this network.
unfoldable pub set_off : Switch → Outcome
set_off s =
    if s.status_stream_begin && not s.status_bready
    then (do
      s₁ ← assert (is_some s.vport && is_some s.sport) s
      ok (record s₁ { status = record s₁.status { p2p_set_off = true } }))
    else ok s

-- Both ends are ready: enter the P2P stage. (The flow steering behind it is commented out.)
unfoldable pub enable_p2p : Switch → Outcome
enable_p2p s =
    if s.status_vready && s.status_bready
    then (do
      s₁ ← assert (is_some s.vport && is_some s.bport && is_some s.sport) s
      ok (record s₁ { status = record s₁.status { p2p_enabled = true } }))
    else ok s

-- The work on the packets of a frame, with `assert len(rtmp_packets) > 0` first.
unfoldable pub handle_packets : TcpFrame → Event → Packets → Switch → Outcome
unfolding observe_all set_off enable_p2p normal_send
handle_packets f e out_of_fuel s = raised diverged s
handle_packets f e unparsed s = ok (normal_send e s)
handle_packets f e (packets []) s = raised assertion_error s
handle_packets f e (packets (q ∷ qs)) s = do
  s₁ ← observe_all f e (q ∷ qs) s
  s₂ ← set_off (normal_send e s₁)
  enable_p2p s₂

-- The content with the 12 bytes kept from before in front of it.
unfoldable pub prepended : Option Bytes → Bytes → Bytes
prepended none content = content
prepended (some buf) content = buf ++ content

unfoldable pub handle_content : TcpFrame → Event → Bytes → Switch → Outcome
unfolding normal_send handle_packets prepended
handle_content f e content s =
    if length content == 0
    then ok (normal_send e s)
    else if length content == 88 || length content == 89
    then ok (normal_send e s)
    else if length content == 12
    then ok (normal_send e (record s { prepend_buf = some content }))
    else handle_packets f e (parse_all (prepended s.prepend_buf content))
        (record s { prepend_buf = none })

-- `_handle_PacketIn_rtmp`
unfoldable pub handle_rtmp : TcpFrame → Event → Switch → Outcome
unfolding handle_content
handle_rtmp f e s = do
  s₁ ← assert (not (f.srcport == f.dstport)) (learn_source e s)
  handle_content f e f.payload s₁
