-- ===== src/Bypass/Dispatch.antt =====
-- src/pox/pox/livestreaming/bypass.py, `_handle_PacketIn`: which handler gets a packet, and a run
-- of the controller over the packets of a switch.
use p2p_livestreaming.Prelude.{
  ℕ, Bool, not, ◌&&◌, ◌||◌, Option, none, some, List, [], ◌∷◌, ◌==◌, if◌then◌else◌, Bytes,
}
use p2p_livestreaming.OpenFlow.{TcpFrame, Event}
use p2p_livestreaming.Rtmp.{rtmp_port}
use p2p_livestreaming.Bypass.{notify_port, Switch, Outcome, state, handle_normal}
use p2p_livestreaming.Bypass.RtmpHandler.{handle_rtmp}
use p2p_livestreaming.Bypass.NotifyHandler.{handle_notify}

abbrev pub on_port : ℕ → TcpFrame → Bool
on_port p f = f.srcport == p || f.dstport == p

module _ (show_ip : ℕ → Bytes) where
  unfoldable pub handle_tcp : Option TcpFrame → Event → Switch → Outcome
  handle_tcp none e s = handle_normal e s
  handle_tcp (some f) e s =
      if not s.p2p_enabled && not s.p2p_set_off && on_port rtmp_port f
      then handle_rtmp f e s
      else if on_port notify_port f
      then handle_notify show_ip f e s
      else handle_normal e s

  -- `_handle_PacketIn`
  unfoldable pub handle_packet_in : Event → Switch → Outcome
  unfolding handle_tcp
  handle_packet_in e s = handle_tcp e.tcp e s

  -- POX logs what a listener raises and goes on with the next event.
  unfoldable pub run : List Event → Switch → Switch
  unfolding handle_packet_in
  run [] s = s
  run (e ∷ es) s = run es (state (handle_packet_in e s))
