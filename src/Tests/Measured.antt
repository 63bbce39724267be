-- ===== src/Tests/Measured.antt =====
-- The logs of the hosts and the delay that is read from them, on a short run.
use p2p_livestreaming.Prelude.{
  ℕ, ◌≡◌, refl, false, Option, none, some, [], ◌∷◌, ◌++◌, if◌then◌else◌, arith, Bytes, codes, Bool,
  ◌==◌, ◌||◌, strip, length,
}
use p2p_livestreaming.Bypass.NotifyHandler.{peer_payload}
use p2p_livestreaming.Hosts.{
  heartbeat_data, output_dir, stream_peer, view_peer, notify_is_heartbeat, parse_notify_ip,
}
use p2p_livestreaming.Hosts.Broadcaster
use p2p_livestreaming.Hosts.Broadcaster.{Broadcaster, b2v_log, broadcast}
use p2p_livestreaming.Hosts.Viewer
use p2p_livestreaming.Hosts.Viewer.{Viewer, vfp_log, watch}
use p2p_livestreaming.Experiment.Live.{
  cmd, viewer_cmd, broadcaster_cmd, Host, hb, hs, hv1, parse_delay, more,
}
use p2p_livestreaming.Experiment.Launch.{launch_line, viewer_args, broadcaster_args}
use p2p_livestreaming.Experiment.Measured.{alone, behind, parse_delay-hosts}
use p2p_livestreaming.Tests.Session.{show_last}

abbrev address : Host → Bytes
address hb = codes "10.0.0.1"
address hs = codes "10.0.0.2"
address hv1 = codes "10.0.0.3"

-- The output directory, as src/live.py and as the hosts spell it.
abbrev root_dir : Bytes
root_dir = codes "/r/src/.."

abbrev host_dir : Bytes
host_dir = codes "/r/src/hosts/../.."

abbrev b2v_text : Bytes
b2v_text = codes "frame" ++ 10 ∷ (codes "123" ++ 10 ∷ [])

abbrev vfp_text : Bytes
vfp_text = codes "12345" ++ 10 ∷ []

abbrev has : ℕ → Bytes → Bool
has c [] = false
has c (b ∷ s) = b == c || has c s

abbrev read : Bytes → Option Bytes
read path = if has b'b' path then some b2v_text else if has b'f' path then some vfp_text else none

-- The number of the digits, for a reading of them.
abbrev digits : Bytes → Option ℕ
digits s = some (length s)

same_dir :
    (name : Bytes) → read (output_dir host_dir ++ name) ≡ read (root_dir ++ codes "/output" ++ name)
same_dir name = refl

abbrev broadcaster : Broadcaster
broadcaster =
    broadcast host_dir (λ _. false) (heartbeat_data ∷ peer_payload show_last (some 3) ∷ [])
      (Broadcaster.new host_dir (codes "10.0.0.1") (codes "v.flv") (codes "10.0.0.2"))

abbrev viewer : Viewer
viewer =
    watch host_dir (λ _. false) (heartbeat_data ∷ peer_payload show_last (some 1) ∷ [])
      (Viewer.new host_dir (codes "10.0.0.3") (codes "d.flv") (codes "10.0.0.2"))

streams :
    broadcaster.b2v_procs
    ≡ stream_peer (codes "10.0.0.3") (b2v_log host_dir (codes "10.0.0.3")) ∷ []
unfolding broadcast notify_is_heartbeat strip peer_payload Broadcaster.new parse_notify_ip
streams = refl

turned : viewer.vfp_proc ≡ some (view_peer (vfp_log host_dir (codes "10.0.0.3")))
unfolding watch notify_is_heartbeat strip peer_payload Viewer.new
turned = refl

b2v_read : read (b2v_log host_dir (codes "10.0.0.3")) ≡ some b2v_text
b2v_read = refl

vfp_read : read (vfp_log host_dir (codes "10.0.0.3")) ≡ some vfp_text
vfp_read = refl

parse_delay-hosts_example :
    (broadcaster_cmd root_dir address (codes "v.flv")
      ≡ cmd hb (
          launch_line
            (root_dir ++ codes "/src/hosts/broadcaster.py")
            (broadcaster_args address (codes "v.flv"))))
    × (viewer_cmd root_dir address (codes "d.flv")
        ≡ cmd hv1 (
            launch_line
              (root_dir ++ codes "/src/hosts/viewer.py")
              (viewer_args address (codes "d.flv"))))
    × (parse_delay digits read root_dir address ≡ some (more 2))
unfolding Broadcaster.main Viewer.main
parse_delay-hosts_example =
    parse_delay-hosts digits read root_dir host_dir address same_dir (λ _. false)
      (heartbeat_data ∷ peer_payload show_last (some 3) ∷ [])
      (heartbeat_data ∷ peer_payload show_last (some 1) ∷ []) (codes "v.flv") (codes "d.flv")
      broadcaster viewer (b2v_log host_dir (codes "10.0.0.3")) (vfp_log host_dir (codes "10.0.0.3"))
      b2v_text vfp_text 3 5 refl refl streams turned b2v_read vfp_read
      (record {
        first = b'1';
        line = codes "23";
        solid = ground arith;
        ends = behind (codes "frame");
        number = refl;
      })
      (record {
        first = b'1';
        line = codes "2345";
        solid = ground arith;
        ends = alone;
        number = refl;
      })
