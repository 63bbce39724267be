-- ===== src/Tests/Notification.antt =====
-- The notification channel, behind the session of Tests/Session.antt.
use p2p_livestreaming.Prelude.{
  ◌+◌, ℕ, ◌≡◌, ◌≢◌, refl, true, some, [], ◌∷◌, ◌++◌, arith, Bytes, codes, strip,
}
use p2p_livestreaming.OpenFlow.{TcpFrame, Event}
use p2p_livestreaming.Bypass.{Switch, new}
use p2p_livestreaming.Bypass.NotifyHandler.{peer_payload}
use p2p_livestreaming.Bypass.Dispatch.{run}
use p2p_livestreaming.Bypass.Invariant.{Inv-new, run-Inv}
use p2p_livestreaming.Hosts.{heartbeat_data, notify_is_heartbeat, parse_notify_ip}
use p2p_livestreaming.Hosts.Broadcaster
use p2p_livestreaming.Hosts.Broadcaster.{Broadcaster, member, on_recv, peer_job}
use p2p_livestreaming.Notification.{
  IsAddress, parse_notify_ip-peer_payload, parse_notify_ip_cut, peer_payload_coalesced,
}
use p2p_livestreaming.Notification.EndToEnd.{IsServiceBeat}
use p2p_livestreaming.Tests.Session.{frame, packet_in, show_last, session_events, session_state}

abbrev settled : Switch
settled = run show_last session_events new

abbrev beat_frame : ℕ → TcpFrame
beat_frame dstip = frame 2 dstip 42857 6000 heartbeat_data

abbrev beat_event : ℕ → Event
beat_event dstip = packet_in 3 12 (dstip + 10) (some (beat_frame dstip))

beat-IsServiceBeat : (dstip : ℕ) → IsServiceBeat (beat_frame dstip) settled
beat-IsServiceBeat dstip = record {
  valid = run-Inv show_last session_events new Inv-new;
  enabled = session_state.0;
  from_service = session_state.3;
  from_notify = refl;
  ports_differ = omega arith;
}

abbrev show_long : ℕ → Bytes
show_long n = codes "192.168.100.10" ++ (48 + n) ∷ []

short-IsAddress : IsAddress (show_last 3)
short-IsAddress = ground arith

long-IsAddress : IsAddress (show_long 3)
long-IsAddress = ground arith

parse_notify_ip-peer_payload_example :
    parse_notify_ip (strip (peer_payload show_last (some 3))) ≡ codes "10.0.0.3"
parse_notify_ip-peer_payload_example =
    parse_notify_ip-peer_payload show_last 3 short-IsAddress (omega arith)

parse_notify_ip_cut_example :
    (parse_notify_ip (strip (peer_payload show_long (some 3))) ≡ codes "192.168.100.10")
    × (◌≢◌ {A = Bytes} (codes "192.168.100.10") (codes "192.168.100.103"))
parse_notify_ip_cut_example = parse_notify_ip_cut show_long 3 long-IsAddress refl

peer_payload_coalesced_example :
    (notify_is_heartbeat (strip (heartbeat_data ++ peer_payload show_last (some 3))) ≡ true)
    × (notify_is_heartbeat (strip (peer_payload show_last (some 3) ++ heartbeat_data)) ≡ true)
peer_payload_coalesced_example = peer_payload_coalesced show_last 3 short-IsAddress

abbrev fresh : Broadcaster
fresh = Broadcaster.new [] (codes "10.0.0.1") (codes "v.flv") (codes "10.0.0.2")
