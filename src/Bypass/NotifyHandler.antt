-- ===== src/Bypass/NotifyHandler.antt =====
-- src/pox/pox/livestreaming/bypass.py, `_handle_PacketIn_notify`: the notification channel, where
-- the controller writes the peer's address over a heartbeat of the service.
use p2p_livestreaming.Prelude.{
  ℕ, not, ◌&&◌, Option, none, some, [], ◌∷◌, ◌==◌, if◌then◌else◌, is_some, Bytes, codes, pad_right,
}
use p2p_livestreaming.OpenFlow.{
  TcpFrame, Event, from_packet, rewritten, packet_out, flow_mod, out_port,
}
use p2p_livestreaming.Bypass.{
  notify_port, heartbeat_length, heartbeat_padding, Switch, Outcome, ok, raised, type_error, ◌>>=◌,
  assert, send, learn_source, is_attr, normal_send,
}

-- `show_ip` is the `str` of POX's `IPAddr`.
module _ (show_ip : ℕ → Bytes) where
  abbrev pub show_addr : Option ℕ → Bytes
  show_addr none = codes "None"
  show_addr (some a) = show_ip a

  -- `("{0:|<15}").format(str(address))`
  unfoldable pub peer_payload : Option ℕ → Bytes
  unfolding pad_right
  peer_payload address = pad_right heartbeat_padding heartbeat_length (show_addr address)

  -- The second test overrides the first.
  unfoldable pub new_payload : TcpFrame → Switch → Option Bytes
  unfolding peer_payload
  new_payload f s =
      if is_attr f.dstip s.b_nw_addr
      then some (peer_payload s.v_nw_addr)
      else if is_attr f.dstip s.v_nw_addr
      then some (peer_payload s.b_nw_addr)
      else none

  -- `tcp_packet.set_payload(new_payload)` raises a TypeError at `None`; then the rewritten packet
  -- goes out, and an entry with no action drops what follows on the connection.
  unfoldable pub push_peer : Option Bytes → Event → Switch → Outcome
  push_peer none e s = raised type_error s
  push_peer (some payload) e s = ok (
      send
        (flow_mod (record {
          match = from_packet e (some e.port);
          actions = [];
          body = none;
          idle_timeout = none;
          hard_timeout = none;
          buffer_id = none;
        }))
        (send
          (packet_out (record {
            actions = out_port (s.mac_to_port e.dst) ∷ [];
            body = some (rewritten e payload);
            in_port = e.port;
            buffer_id = none;
          }))
          s))

  -- `_handle_PacketIn_notify`
  unfoldable pub handle_notify : TcpFrame → Event → Switch → Outcome
  unfolding new_payload push_peer normal_send
  handle_notify f e s = do
    s₁ ← assert (not (f.srcport == f.dstport)) (learn_source e s)
    if s₁.p2p_enabled && (f.srcport == notify_port)
        then (do
          s₂ ← assert (is_some s₁.vport && is_some s₁.bport && is_some s₁.sport) s₁
          s₃ ← assert (is_attr f.srcip s₂.s_nw_addr) s₂
          push_peer (new_payload f s₃) e s₃)
        else ok (normal_send e s₁)
