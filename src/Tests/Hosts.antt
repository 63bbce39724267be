-- ===== src/Tests/Hosts.antt =====
-- The end hosts on short runs.
use p2p_livestreaming.Prelude.{◌≡◌, refl, Bool, false, map, List, [], ◌∷◌, Bytes, codes, strip}
use p2p_livestreaming.Hosts.{
  stream_service, starts, heartbeat_data, notify_is_heartbeat, parse_notify_ip,
}
use p2p_livestreaming.Hosts.Broadcaster
use p2p_livestreaming.Hosts.Broadcaster.{Broadcaster, b2s_log, peer_job, member, broadcast, started}
use p2p_livestreaming.Hosts.Broadcaster.Streams.{
  IsConsistent, Distinct, named, broadcast-IsConsistent, broadcast-member,
}
use p2p_livestreaming.Hosts.Viewer
use p2p_livestreaming.Hosts.Viewer.{Viewer, vfp_log, waited, watch}
use p2p_livestreaming.Hosts.Viewer.Turn.{IsBeat}

abbrev nothing_exists : Bytes → Bool
nothing_exists _ = false

abbrev told : Bytes
told = codes "10.0.0.3|||||||"

abbrev caster : Broadcaster
caster = Broadcaster.new [] (codes "10.0.0.1") (codes "v.flv") (codes "10.0.0.2")

abbrev received : List Bytes
received = heartbeat_data ∷ told ∷ told ∷ []

one_viewer : (broadcast [] nothing_exists received caster).p2p_viewers ≡ codes "10.0.0.3" ∷ []
unfolding broadcast member notify_is_heartbeat parse_notify_ip strip Broadcaster.new
one_viewer = refl

broadcast-IsConsistent_example :
    IsConsistent [] (codes "10.0.0.2") (broadcast [] nothing_exists received caster)
broadcast-IsConsistent_example =
    broadcast-IsConsistent [] nothing_exists received (codes "10.0.0.1") (codes "v.flv")
      (codes "10.0.0.2")

broadcast-member_example :
    (peers : List Bytes) × (starts (broadcast [] nothing_exists received caster).effects
      ≡ stream_service (codes "10.0.0.2") (b2s_log []) ∷ map (peer_job []) peers)
    × Distinct peers
    × ((ip : Bytes) → member ip peers ≡ named ip received)
broadcast-member_example =
    broadcast-member [] nothing_exists received (codes "10.0.0.1") (codes "v.flv")
      (codes "10.0.0.2")

-- The end of the connection, an empty text, is taken for an address.
closed_connection : (broadcast [] nothing_exists ([] ∷ []) caster).p2p_viewers ≡ [] ∷ []
unfolding broadcast member notify_is_heartbeat parse_notify_ip strip Broadcaster.new
closed_connection = refl

told_is_no_beat : notify_is_heartbeat (strip told) ≡ false
unfolding notify_is_heartbeat strip
told_is_no_beat = refl

IsBeat-IsBeat : IsBeat heartbeat_data
unfolding notify_is_heartbeat strip
IsBeat-IsBeat = refl

abbrev watcher : Viewer
watcher = Viewer.new [] (codes "10.0.0.3") (codes "d.flv") (codes "10.0.0.2")
