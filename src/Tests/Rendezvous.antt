-- ===== src/Tests/Rendezvous.antt =====
-- The meeting of the two hosts behind a session, and the way of a heartbeat over three switches.
use p2p_livestreaming.Prelude.{
  ◌≡◌, refl, inl, inr, false, some, [], ◌∷◌, ◌++◌, arith, Bytes, codes, strip,
}
use p2p_livestreaming.Rtmp.{
  parse_all, parse_packet, is_play_req, is_play_start, is_publish_req, is_publish_start,
  is_stream_begin,
}
use p2p_livestreaming.Bypass.RtmpHandler.{handle_rtmp}
use p2p_livestreaming.Bypass.{handle_normal, ok, new}
use p2p_livestreaming.Bypass.Dispatch.{run, handle_packet_in}
use p2p_livestreaming.Bypass.NotifyHandler.{handle_notify, peer_payload}
use p2p_livestreaming.Hosts.{starts, view_service, heartbeat_data, notify_is_heartbeat, Job}
use p2p_livestreaming.Hosts.Broadcaster
use p2p_livestreaming.Hosts.Broadcaster.Streams.{Runs}
use p2p_livestreaming.Hosts.Viewer.Turn.{HasTurned}
use p2p_livestreaming.Hosts.Broadcaster.{broadcast, b2v_log}
use p2p_livestreaming.Hosts.Viewer
use p2p_livestreaming.Hosts.Viewer.{watch, vfs_log, vfp_log}
use p2p_livestreaming.Notification.EndToEnd.{pushed}
use p2p_livestreaming.Notification.Rendezvous.{SendsTo, ListensAt, session-rendezvous}
use p2p_livestreaming.Bypass.Session.{IsPaired, run-IsPaired}
use p2p_livestreaming.System.Path.{Hop, Leads, travel, travel-paired}
use p2p_livestreaming.Tests.Session.{show_last}
use p2p_livestreaming.Tests.Peers.{
  arp, web, busy_session, busy_session-IsSession, notice_frame, notice, notice-IsNotice,
}

session-rendezvous_example :
    let s = run show_last (busy_session ++ arp ∷ web ∷ []) new in
    let p = peer_payload show_last (some 3) in
    let q = peer_payload show_last (some 1) in
    let o = Broadcaster.new [] (codes "10.0.0.1") (codes "v.flv") (codes "10.0.0.2") in
    let u = Viewer.new [] (show_last 3) (codes "d.flv") (codes "10.0.0.2") in
    let w = broadcast [] (λ _. false) (heartbeat_data ∷ p ∷ heartbeat_data ∷ []) o in
    let z = watch [] (λ _. false) (heartbeat_data ∷ q ∷ []) u in
    (handle_packet_in show_last (notice 1) s ≡ ok (pushed (notice 1) s p))
    × (handle_packet_in show_last (notice 3) s ≡ ok (pushed (notice 3) s q))
    × ((j : Job) × (k : Job) × (point : Bytes) × Runs [] (codes "10.0.0.2") (j ∷ []) w
        × (z.vfp_proc ≡ some k)
        × HasTurned [] (λ _. false) u z
        × (starts z.effects ≡ view_service (codes "10.0.0.2") (vfs_log [] (show_last 3)) ∷ k ∷ [])
        × SendsTo point (codes "10.0.0.1") o.video_file (b2v_log [] (show_last 3)) j
        × ListensAt point (show_last 3) u.dump_file (vfp_log [] (show_last 3)) k)
unfolding notify_is_heartbeat strip
session-rendezvous_example =
    session-rendezvous show_last 3 1 2 busy_session (arp ∷ web ∷ []) (notice_frame 1)
      (notice_frame 3) (notice 1) (notice 3) [] (λ _. false) (heartbeat_data ∷ [])
      (heartbeat_data ∷ []) (heartbeat_data ∷ []) [] (codes "10.0.0.1") (codes "v.flv")
      (codes "d.flv") (codes "10.0.0.2") busy_session-IsSession (omega arith) (notice-IsNotice 1)
      (notice-IsNotice 3) (ground arith) (ground arith) (omega arith) (refl, tt) (refl, tt)
      (refl, tt)

abbrev paired : Hop
paired = record {
  onward = 1;
  controller = run show_last (busy_session ++ arp ∷ []) new;
  event = notice 1;
}

busy_session-IsPaired : IsPaired 3 1 2 paired.controller
busy_session-IsPaired = run-IsPaired show_last 3 1 2 busy_session (arp ∷ []) busy_session-IsSession

paired-Leads : Leads show_last paired
unfolding run handle_packet_in handle_normal handle_notify handle_rtmp parse_all parse_packet
    is_play_req is_play_start is_publish_req is_publish_start is_stream_begin
paired-Leads = (omega arith, inr refl)

-- A switch that has seen nothing, and two behind the session.
travel-paired_example :
    travel show_last
      (notice_frame 1)
      (record { onward = 1; controller = new; event = notice 1 } ∷ paired ∷ paired ∷ [])
      heartbeat_data
    ≡ peer_payload show_last (some 3) ∷ []
travel-paired_example =
    travel-paired show_last 3 1 2 (notice_frame 1) refl refl refl (omega arith) (omega arith)
      (record { onward = 1; controller = new; event = notice 1 } ∷ []) paired (paired ∷ [])
      heartbeat_data (((omega arith, inl refl), inr refl), tt) paired-Leads busy_session-IsPaired
      ((paired-Leads, inl busy_session-IsPaired), tt)
