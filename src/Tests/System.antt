-- ===== src/Tests/System.antt =====
-- The hosts and the controller along a session, with heartbeats of the service to both hosts before it
-- and behind it.
use p2p_livestreaming.Prelude.{
  Bytes, ℕ, ◌≡◌, ◌<◌, ◌⊎◌, inr, refl, sym, ◌∙◌, true, false, none, some, List, [], ◌∷◌, ◌++◌, arith,
  length, codes, some_injective,
}
use mathlib.Core.Path.{subst}
use p2p_livestreaming.OpenFlow.{Event}
use p2p_livestreaming.Rtmp.{
  parse_all, parse_packet, is_play_req, is_play_start, is_publish_req, is_publish_start,
  is_stream_begin,
}
use p2p_livestreaming.Bypass.{new, handle_normal}
use p2p_livestreaming.Bypass.Session.{session-p2p_enabled}
use p2p_livestreaming.Bypass.Provenance.{Request, Answer, run-provenance}
use p2p_livestreaming.Bypass.RtmpHandler.{handle_rtmp}
use p2p_livestreaming.Bypass.NotifyHandler.{peer_payload, handle_notify}
use p2p_livestreaming.Bypass.Dispatch.{run, handle_packet_in}
use p2p_livestreaming.Hosts.{heartbeat_data}
use p2p_livestreaming.Hosts.Broadcaster
use p2p_livestreaming.Hosts.Broadcaster.{broadcast, peer_job}
use p2p_livestreaming.Hosts.Viewer
use p2p_livestreaming.Hosts.Viewer.{watch}
use p2p_livestreaming.Notification.{IsAddress}
use p2p_livestreaming.System.{
  System, init, Reach, start, later, packet, to_broadcaster, to_viewer, IsHeartbeat, IsOnward,
  after, delivered,
}
use p2p_livestreaming.System.Grouped.{Grouped, unread, read}
use p2p_livestreaming.System.Asked.{Reach-asked, Reach-announced}
use p2p_livestreaming.System.Served.{Reach-served}
use p2p_livestreaming.System.Turned.{Reach-turned}
use p2p_livestreaming.Hosts.Viewer.Turn.{HasTurned}
use p2p_livestreaming.Hosts.Broadcaster.Streams.{Runs}
use p2p_livestreaming.Tests.Session.{show_last}
use p2p_livestreaming.Tests.Peers.{busy_session, busy_session-IsSession, notice_frame, notice}

notice-IsHeartbeat : (a : ℕ) → IsHeartbeat a (notice_frame a) (notice a)
notice-IsHeartbeat a = record {
  carried = refl;
  from_notify = refl;
  client_port = omega arith;
  to_host = refl;
  beat = refl;
}

packets-Reach :
    (es : List Event) (s : System)
    → Reach show_last 1 3 s
    → Reach show_last 1 3 (record s { controller = run show_last es s.controller })
unfolding run
packets-Reach [] s r = r
packets-Reach (e ∷ es) s r =
    packets-Reach es (record s { controller = after show_last e s.controller }) (later r (packet e))

abbrev beat_broadcaster : System → System
beat_broadcaster s =
    let c = after show_last (notice 1) s.controller in
    record s { controller = c; at_broadcaster = s.at_broadcaster ++ delivered 1 s.controller c }

abbrev beat_viewer : System → System
beat_viewer s =
    let c = after show_last (notice 3) s.controller in
    record s { controller = c; at_viewer = s.at_viewer ++ delivered 2 s.controller c }

abbrev sat_down : System
sat_down = beat_viewer (beat_broadcaster init)

-- After the session.
abbrev paired : System
paired = record sat_down { controller = run show_last busy_session sat_down.controller }

abbrev served : System
served = beat_viewer (beat_broadcaster paired)

paired-Reach : Reach show_last 1 3 paired
paired-Reach = packets-Reach busy_session sat_down (
    later (later start (to_broadcaster 1 (notice_frame 1) (notice 1) (notice-IsHeartbeat 1)))
      (to_viewer 2 (notice_frame 3) (notice 3) (notice-IsHeartbeat 3)))

served-Reach : Reach show_last 1 3 served
served-Reach =
    later (later paired-Reach (to_broadcaster 1 (notice_frame 1) (notice 1) (notice-IsHeartbeat 1)))
      (to_viewer 2 (notice_frame 3) (notice 3) (notice-IsHeartbeat 3))

-- Both hosts hear a heartbeat before the session and the other's address behind it.
served_heard :
    (served.at_broadcaster ≡ heartbeat_data ∷ peer_payload show_last (some 3) ∷ [])
    × (served.at_viewer ≡ heartbeat_data ∷ peer_payload show_last (some 1) ∷ [])
unfolding run handle_packet_in handle_normal handle_notify handle_rtmp parse_all parse_packet
    is_play_req is_play_start is_publish_req is_publish_start is_stream_begin
served_heard = (refl, refl)

served_known : (served.controller.b_nw_addr ≡ some 1) × (served.controller.v_nw_addr ≡ some 3)
unfolding run handle_packet_in handle_normal handle_notify handle_rtmp parse_all parse_packet
    is_play_req is_play_start is_publish_req is_publish_start is_stream_begin
served_known = (refl, refl)

served_printed :
    (x : ℕ)
    → served.controller.v_nw_addr ≡ some x
    → IsAddress (show_last x) × (length (show_last x) < 15)
served_printed x viewer =
    subst (λ y. IsAddress (show_last y) × (length (show_last y) < 15)) {x = 3} {y = x}
      (some_injective (sym served_known.1 ∙ viewer)) (ground arith, omega arith)

-- The broadcaster reads its two texts one by one, the viewer both at once.
abbrev broadcaster_received : List Bytes
broadcaster_received = heartbeat_data ∷ peer_payload show_last (some 3) ∷ []

broadcaster_received-Grouped : Grouped served.at_broadcaster broadcaster_received
unfolding peer_payload
broadcaster_received-Grouped =
    subst (λ ts. Grouped ts broadcaster_received) (sym served_heard.0)
      (read heartbeat_data [] (peer_payload show_last (some 3) ∷ [])
        (peer_payload show_last (some 3) ∷ [])
        (read (peer_payload show_last (some 3)) [] [] [] (unread [])))

abbrev viewer_received : List Bytes
viewer_received = (heartbeat_data ++ peer_payload show_last (some 1)) ∷ []

viewer_received-Grouped : Grouped served.at_viewer viewer_received
unfolding peer_payload
viewer_received-Grouped =
    subst (λ ts. Grouped ts viewer_received) (sym served_heard.1)
      (read heartbeat_data (peer_payload show_last (some 1) ∷ []) [] [] (unread []))

Reach-asked_example :
    let w =
      broadcast []
        (λ _. false)
        broadcaster_received
        (Broadcaster.new [] (codes "10.0.0.1") (codes "v.flv") (codes "10.0.0.2")) in
    Runs [] (codes "10.0.0.2") [] w
    ⊎ ((x : ℕ) × (es : List Event) × (served.controller ≡ run show_last es new)
        × Request show_last is_play_req x new es
        × Runs [] (codes "10.0.0.2") (peer_job [] (show_last x) ∷ []) w)
Reach-asked_example =
    Reach-asked show_last 1 3 served served-Reach [] (λ _. false) broadcaster_received
      (codes "10.0.0.1") (codes "v.flv") (codes "10.0.0.2") broadcaster_received-Grouped
      served_known.0 served_printed

Reach-announced_example :
    let w =
      watch []
        (λ _. false)
        viewer_received
        (Viewer.new [] (codes "10.0.0.3") (codes "v.flv") (codes "10.0.0.2")) in
    (w.vfp_proc ≡ none)
    ⊎ ((es : List Event) × (served.controller ≡ run show_last es new)
        × (served.controller.p2p_enabled ≡ true)
        × ((x : ℕ) × (served.controller.v_nw_addr ≡ some x)
            × Request show_last is_play_req x new es)
        × ((y : ℕ) × (served.controller.b_nw_addr ≡ some y)
            × Request show_last is_publish_req y new es))
Reach-announced_example =
    Reach-announced show_last 1 3 served served-Reach [] (λ _. false) viewer_received
      (codes "10.0.0.3") (codes "v.flv") (codes "10.0.0.2") viewer_received-Grouped

run-provenance_example :
    let s = run show_last busy_session new in
    ((v : ℕ) × (s.v_nw_addr ≡ some v) × Request show_last is_play_req v new busy_session)
    × ((b : ℕ) × (s.b_nw_addr ≡ some b) × Request show_last is_publish_req b new busy_session)
    × Answer show_last is_play_start new busy_session
    × Answer show_last is_publish_start new busy_session
run-provenance_example =
    run-provenance show_last busy_session
      (session-p2p_enabled show_last 3 1 2 busy_session busy_session-IsSession).1

paired_known :
    (paired.controller.p2p_enabled ≡ true)
    × (paired.controller.b_nw_addr ≡ some 1)
    × (paired.controller.s_nw_addr ≡ some 2)
    × (paired.controller.v_nw_addr ≡ some 3)
unfolding run handle_packet_in handle_normal handle_notify handle_rtmp parse_all parse_packet
    is_play_req is_play_start is_publish_req is_publish_start is_stream_begin
paired_known = (refl, refl, refl, refl)

-- The hosts are attached at the ports 1 and 2, where the controller has seen them.
paired-IsOnward : IsOnward 1 (notice 1) paired.controller × IsOnward 2 (notice 3) paired.controller
unfolding run handle_packet_in handle_normal handle_notify handle_rtmp parse_all parse_packet
    is_play_req is_play_start is_publish_req is_publish_start is_stream_begin
paired-IsOnward = ((omega arith, inr refl), (omega arith, inr refl))

abbrev heard_once : List Bytes
heard_once = heartbeat_data ∷ []

paired_heard : paired.at_broadcaster ≡ heard_once
unfolding handle_packet_in handle_normal handle_notify
paired_heard = refl

heard_once-Grouped : Grouped paired.at_broadcaster heard_once
heard_once-Grouped =
    subst (λ ts. Grouped ts heard_once) (sym paired_heard)
      (read heartbeat_data [] [] [] (unread []))

Reach-served_example :
    let c = after show_last (notice 1) paired.controller in
    let w =
      broadcast []
        (λ _. false)
        (heard_once ++ delivered 1 paired.controller c)
        (Broadcaster.new [] (codes "10.0.0.1") (codes "v.flv") (codes "10.0.0.2")) in
    (x : ℕ) × (c.v_nw_addr ≡ some x) × Runs [] (codes "10.0.0.2") (peer_job [] (show_last x) ∷ []) w
Reach-served_example =
    Reach-served show_last 1 3 paired paired-Reach 1 (notice_frame 1) (notice 1) [] (λ _. false)
      heard_once (codes "10.0.0.1") (codes "v.flv") (codes "10.0.0.2") heard_once-Grouped
      (notice-IsHeartbeat 1) paired_known.0 paired_known.1 paired_known.2 (omega arith)
      paired-IsOnward.0
      (λ x viewer.
        subst (λ y. IsAddress (show_last y) × (length (show_last y) < 15)) {x = 3} {y = x}
          (some_injective (sym paired_known.3 ∙ viewer)) (ground arith, omega arith))

Reach-turned_example :
    let c = after show_last (notice 3) paired.controller in
    let u = Viewer.new [] (codes "10.0.0.3") (codes "v.flv") (codes "10.0.0.2") in
    (y : ℕ) × (c.b_nw_addr ≡ some y)
    × (delivered 2 paired.controller c ≡ peer_payload show_last (some y) ∷ [])
    × HasTurned []
        (λ _. false)
        u
        (watch [] (λ _. false) (heard_once ++ delivered 2 paired.controller c) u)
Reach-turned_example =
    Reach-turned show_last 1 3 paired paired-Reach 2 (notice_frame 3) (notice 3) [] (λ _. false)
      heard_once (codes "10.0.0.3") (codes "v.flv") (codes "10.0.0.2") (notice-IsHeartbeat 3)
      paired_known.0 paired_known.3 (ground (arith, paired_known.1)) paired_known.2 (omega arith)
      paired-IsOnward.1
      (λ y broadcaster.
        subst (λ y. IsAddress (show_last y)) {x = 1} {y = y}
          (some_injective (sym paired_known.1 ∙ broadcaster)) (ground arith))
