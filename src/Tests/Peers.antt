-- ===== src/Tests/Peers.antt =====
-- The theorems on whole sessions, at a session with other packets between its signals.
use p2p_livestreaming.Prelude.{
  ℕ, ◌+◌, ◌≡◌, refl, true, false, none, some, List, [], ◌∷◌, ◌++◌, arith, codes, strip,
}
use p2p_livestreaming.OpenFlow.{TcpFrame, Event}
use p2p_livestreaming.Bypass.{raised, type_error, learn_source, ok, new, state}
use p2p_livestreaming.Bypass.NotifyHandler.{peer_payload}
use p2p_livestreaming.Bypass.Dispatch.{handle_packet_in, run}
use p2p_livestreaming.Bypass.Invariant.{Inv}
use p2p_livestreaming.Bypass.Quiet.{IsQuiet, no_tcp, other_port, dull, handshake}
use p2p_livestreaming.Bypass.Session.{IsPaired, IsSession, session-p2p_enabled}
use p2p_livestreaming.Bypass.SetOff.{IsForeign, foreign-p2p_set_off}
use p2p_livestreaming.Bypass.Watching.{IsVerdict}
use p2p_livestreaming.Bypass.Verdict.{Move, handle_packet_in-Move, run-IsVerdict}
use p2p_livestreaming.Hosts.{heartbeat_data, notify_is_heartbeat}
use p2p_livestreaming.Hosts.Broadcaster
use p2p_livestreaming.Hosts.Broadcaster.Streams.{Runs}
use p2p_livestreaming.Hosts.Broadcaster.{broadcast, peer_job}
use p2p_livestreaming.Notification.EndToEnd.{pushed}
use p2p_livestreaming.Notification.Peers.{IsNotice, session-broadcaster_streams}
use p2p_livestreaming.Notification.Replaced.{IsReplaced, session-second_viewer}
use p2p_livestreaming.Tests.Session.{
  second_frame, second_event, second_event-IsRequest, frame, packet_in, show_last, play_frame,
  play_answer, publish_frame, publish_answer, begin_frame, play_event, play_answer_event,
  publish_event, publish_answer_event, begin_event, play_event-IsRequest, play_answer-IsAnswer,
  publish_event-IsRequest, publish_answer-IsAnswer, begin_event-IsAnswer,
}

-- An ARP packet, a web request, and a frame of the length of an RTMP handshake.
abbrev pub arp : Event
arp = packet_in 2 13 255 none

abbrev pub web : Event
web = packet_in 2 13 12 (some (frame 3 2 5000 80 (codes "GET /")))

abbrev hello_frame : TcpFrame
hello_frame = frame 3 2 5001 1935 (
    3
    ∷ codes
        "0123456789012345678901234567890123456789012345678901234567890123456789012345678901234567")

abbrev pub hello : Event
hello = packet_in 2 13 12 (some hello_frame)

pub arp-IsQuiet : IsQuiet arp
arp-IsQuiet = no_tcp refl

pub web-IsQuiet : IsQuiet web
web-IsQuiet = other_port (frame 3 2 5000 80 (codes "GET /")) refl refl

pub hello-IsQuiet : IsQuiet hello
hello-IsQuiet = dull hello_frame refl (handshake refl)

abbrev pub busy_session : List Event
busy_session =
    arp ∷ hello ∷ play_event ∷ web ∷ play_answer_event ∷ arp ∷ publish_event ∷ web
    ∷ publish_answer_event ∷ []

pub busy_session-IsSession : IsSession 3 1 2 busy_session
busy_session-IsSession = record {
  play = play_frame;
  play_reply = play_answer;
  publish = publish_frame;
  publish_reply = publish_answer;
  play_in = play_event;
  play_reply_in = play_answer_event;
  publish_in = publish_event;
  publish_reply_in = publish_answer_event;
  before_play = arp ∷ hello ∷ [];
  before_play_reply = web ∷ [];
  before_publish = arp ∷ [];
  before_publish_reply = web ∷ [];
  asked_play = play_event-IsRequest;
  started_play = play_answer-IsAnswer;
  asked_publish = publish_event-IsRequest;
  started_publish = publish_answer-IsAnswer;
  real_port = omega arith;
  same_port = refl;
  same_src = refl;
  viewer_is = refl;
  broadcaster_is = refl;
  service_is = (refl, refl);
  quiet = ((arp-IsQuiet, (hello-IsQuiet, tt)), (web-IsQuiet, tt));
  quiet_behind = ((arp-IsQuiet, tt), (web-IsQuiet, tt));
  events_are = refl;
}

session-p2p_enabled_example :
    let s = run show_last busy_session new in
    Inv s
    × (s.p2p_enabled ≡ true)
    × (s.v_nw_addr ≡ some 3)
    × (s.b_nw_addr ≡ some 1)
    × (s.s_nw_addr ≡ some 2)
session-p2p_enabled_example =
    session-p2p_enabled show_last 3 1 2 busy_session busy_session-IsSession

abbrev pub notice_frame : ℕ → TcpFrame
notice_frame dstip = frame 2 dstip 42857 6000 heartbeat_data

abbrev pub notice : ℕ → Event
notice dstip = packet_in 3 12 (dstip + 10) (some (notice_frame dstip))

pub notice-IsNotice : (a : ℕ) → IsNotice 2 a (notice_frame a) (notice a)
notice-IsNotice a = record {
  carried = refl;
  from_service = refl;
  from_notify = refl;
  ports_differ = omega arith;
  to_host = refl;
}

session-broadcaster_streams_example :
    let s = run show_last (busy_session ++ arp ∷ notice 3 ∷ []) new in
    let p = peer_payload show_last (some 3) in
    let w =
      broadcast []
        (λ _. false)
        (heartbeat_data ∷ p ∷ heartbeat_data ∷ [])
        (Broadcaster.new [] (codes "10.0.0.1") (codes "v.flv") (codes "10.0.0.2")) in
    (handle_packet_in show_last (notice 1) s ≡ ok (pushed (notice 1) s p))
    × (w.p2p_viewers ≡ codes "10.0.0.3" ∷ [])
    × Runs [] (codes "10.0.0.2") (peer_job [] (codes "10.0.0.3") ∷ []) w
unfolding notify_is_heartbeat strip
session-broadcaster_streams_example =
    session-broadcaster_streams show_last 3 1 2 busy_session (arp ∷ notice 3 ∷ []) (notice_frame 1)
      (notice 1) [] (λ _. false) (heartbeat_data ∷ []) (heartbeat_data ∷ []) (codes "10.0.0.1")
      (codes "v.flv") (codes "10.0.0.2") busy_session-IsSession (notice-IsNotice 1) (ground arith)
      (omega arith) (refl, tt) (refl, tt)

abbrev foreign_session : List Event
foreign_session = arp ∷ play_event ∷ hello ∷ play_answer_event ∷ web ∷ begin_event ∷ []

foreign_session-IsForeign : IsForeign foreign_session
foreign_session-IsForeign = record {
  play = play_frame;
  play_reply = play_answer;
  begin = begin_frame;
  play_in = play_event;
  play_reply_in = play_answer_event;
  begin_in = begin_event;
  before_play = arp ∷ [];
  before_play_reply = hello ∷ [];
  before_begin = web ∷ [];
  asked_play = play_event-IsRequest;
  started_play = play_answer-IsAnswer;
  began = begin_event-IsAnswer;
  quiet = ((arp-IsQuiet, tt), (hello-IsQuiet, tt), (web-IsQuiet, tt));
  events_are = refl;
}

-- A publish request that comes too late does not enable the stage.
foreign-p2p_set_off_example :
    let s = run show_last (foreign_session ++ publish_event ∷ publish_answer_event ∷ []) new in
    (s.p2p_set_off ≡ true) × (s.p2p_enabled ≡ false)
foreign-p2p_set_off_example =
    foreign-p2p_set_off show_last foreign_session (publish_event ∷ publish_answer_event ∷ [])
      foreign_session-IsForeign

handle_packet_in-Move_example :
    let s = run show_last busy_session new in
    let t = state (handle_packet_in show_last (notice 4) s) in IsVerdict t × Move s t
handle_packet_in-Move_example =
    handle_packet_in-Move show_last (notice 4) (run show_last busy_session new)
      (run-IsVerdict show_last busy_session)

abbrev replaced_session : List Event
replaced_session =
    play_event ∷ play_answer_event ∷ arp ∷ second_event ∷ publish_event ∷ publish_answer_event ∷ []

replaced_session-IsReplaced : IsReplaced 3 4 1 2 replaced_session
replaced_session-IsReplaced = record {
  play = play_frame;
  play_reply = play_answer;
  again = second_frame;
  publish = publish_frame;
  publish_reply = publish_answer;
  play_in = play_event;
  play_reply_in = play_answer_event;
  again_in = second_event;
  publish_in = publish_event;
  publish_reply_in = publish_answer_event;
  before_again = arp ∷ [];
  asked_play = play_event-IsRequest;
  started_play = play_answer-IsAnswer;
  asked_again = second_event-IsRequest;
  asked_publish = publish_event-IsRequest;
  started_publish = publish_answer-IsAnswer;
  real_port = omega arith;
  same_port = refl;
  same_src = refl;
  viewer_is = refl;
  second_is = refl;
  broadcaster_is = refl;
  service_is = (refl, refl);
  quiet = (arp-IsQuiet, tt);
  events_are = refl;
}

session-second_viewer_example :
    let s = run show_last (replaced_session ++ arp ∷ []) new in
    IsPaired 4 1 2 s
    × (handle_packet_in show_last (notice 3) s ≡ raised type_error (learn_source (notice 3) s))
session-second_viewer_example =
    session-second_viewer show_last 3 4 1 2 replaced_session (arp ∷ []) (notice_frame 3) (notice 3)
      replaced_session-IsReplaced (omega arith) (omega arith) (notice-IsNotice 3)
