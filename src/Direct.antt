-- ===== src/Direct.antt =====
-- src/pox/pox/livestreaming/direct.py, `LearningSwitch`: the controller that only learns addresses,
-- without the P2P stage. What it asks of an address or a frame type of POX are parameters. Log
-- output is left out.
pub mod Loopless
pub mod Compare
pub mod Launch
use p2p_livestreaming.Prelude.{
  ℕ, Bool, true, false, not, ◌&&◌, ◌||◌, Option, none, some, List, [], ◌∷◌, ◌++◌, ◌==◌,
  if◌then◌else◌,
}
use p2p_livestreaming.OpenFlow.{
  Event, flood, to_port, from_packet, ofp, Message, packet_out, flow_mod, PortTable, empty_table,
  learn,
}

pub record DirectSwitch : Type 0 where
  pub transparent : Bool
  pub mac_to_port : PortTable
  pub sent : List Message

-- `__init__`
abbrev pub new : Bool → DirectSwitch
new transparent = record { transparent = transparent; mac_to_port = empty_table; sent = [] }

abbrev pub send : Message → DirectSwitch → DirectSwitch
send m s = record s { sent = s.sent ++ m ∷ [] }

-- The `duration` of a drop: one number for both times out, or a pair.
pub data Duration : Type 0 where
  both : ℕ → Duration
  idle_hard : ℕ → ℕ → Duration

abbrev pub idle : Duration → ℕ
idle (both n) = n
idle (idle_hard n _) = n

abbrev pub hard : Duration → ℕ
hard (both n) = n
hard (idle_hard _ n) = n

-- `flood`
unfoldable pub flood_out : Event → DirectSwitch → DirectSwitch
flood_out e s =
    send
      (packet_out
        (record { actions = flood ∷ []; body = some (ofp e); in_port = e.port; buffer_id = none }))
      s

abbrev pub release : Option ℕ → Event → DirectSwitch → DirectSwitch
release none e s = s
release (some b) e s =
    send (packet_out (record { actions = []; body = none; in_port = e.port; buffer_id = some b })) s

-- `drop`
unfoldable pub drop_packet : Option Duration → Event → DirectSwitch → DirectSwitch
drop_packet none e s = release e.buffer_id e s
drop_packet (some d) e s =
    send
      (flow_mod (record {
        match = from_packet e none;
        actions = [];
        body = none;
        idle_timeout = some (idle d);
        hard_timeout = some (hard d);
        buffer_id = e.buffer_id;
      }))
      s

abbrev pub learn_source : Event → DirectSwitch → DirectSwitch
learn_source e s = record s { mac_to_port = learn e.src e.port s.mac_to_port }

-- The decision on a unicast frame, by the learned port of its destination.
unfoldable pub steer : Option ℕ → Event → DirectSwitch → DirectSwitch
unfolding flood_out drop_packet
steer none e s = flood_out e s
steer (some port) e s =
    if port == e.port
    then drop_packet (some (both 10)) e s
    else send
        (flow_mod (record {
          match = from_packet e (some e.port);
          actions = to_port port ∷ [];
          body = some (ofp e);
          idle_timeout = some 10;
          hard_timeout = some 30;
          buffer_id = none;
        }))
        s

module _ (is_multicast is_bridge_filtered : ℕ → Bool) (lldp_type : ℕ) where
  -- `packet.type == packet.LLDP_TYPE or packet.dst.isBridgeFiltered()`
  abbrev pub link_local : Event → Bool
  link_local e = e.eth_type == lldp_type || is_bridge_filtered e.dst

  -- `_handle_PacketIn`
  unfoldable pub handle_packet_in : Event → DirectSwitch → DirectSwitch
  unfolding flood_out drop_packet steer
  handle_packet_in e s =
      let s₁ = learn_source e s in
      if not s₁.transparent && link_local e
      then drop_packet none e s₁
      else if is_multicast e.dst
      then flood_out e s₁
      else steer (s₁.mac_to_port e.dst) e s₁

  unfoldable pub run : List Event → DirectSwitch → DirectSwitch
  unfolding handle_packet_in
  run [] s = s
  run (e ∷ es) s = run es (handle_packet_in e s)
