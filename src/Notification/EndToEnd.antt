-- ===== src/Notification/EndToEnd.antt =====
-- The push of the peers' addresses: what the controller sends for a heartbeat of the service in the
-- P2P stage, and what the broadcaster does with the address that it receives.
use p2p_livestreaming.Prelude.{
  ℕ, ◌≡◌, ◌≢◌, ◌<◌, refl, Bool, true, false, some, none, [], ◌∷◌, ◌++◌, arith, length, Bytes,
}
use p2p_livestreaming.OpenFlow.{
  TcpFrame, Event, from_packet, rewritten, Message, packet_out, flow_mod, learn, out_port,
}
use p2p_livestreaming.Bypass.{notify_port, Switch, ok, raised, type_error, learn_source}
use p2p_livestreaming.Bypass.NotifyHandler.{peer_payload, handle_notify}
use p2p_livestreaming.Bypass.Invariant.{Inv, is_some_known}
use p2p_livestreaming.Hosts.Broadcaster.{Broadcaster, member, on_recv, add_viewer, peer_job}
use p2p_livestreaming.Notification.{
  IsAddress, peer_payload_no_heartbeat, parse_notify_ip-peer_payload,
}

-- The heartbeat of the service with a new payload, sent on as the table says, and the entry that
-- drops all later packets of the connection.
abbrev pub peer_packet : Event → Switch → Bytes → Message
peer_packet e s payload = packet_out (record {
  actions = out_port (learn e.src e.port s.mac_to_port e.dst) ∷ [];
  body = some (rewritten e payload);
  in_port = e.port;
  buffer_id = none;
})

abbrev pub drop_entry : Event → Message
drop_entry e = flow_mod (record {
  match = from_packet e (some e.port);
  actions = [];
  body = none;
  idle_timeout = none;
  hard_timeout = none;
  buffer_id = none;
})

abbrev pub pushed : Event → Switch → Bytes → Switch
pushed e s payload = record (learn_source e s) {
  sent = s.sent ++ peer_packet e s payload ∷ [] ++ drop_entry e ∷ [];
}

-- A frame of the service on the notification channel, seen in the P2P stage.
pub record IsServiceBeat (f : TcpFrame) (s : Switch) : Type 0 where
  pub valid : Inv s
  pub enabled : s.p2p_enabled ≡ true
  pub from_service : s.s_nw_addr ≡ some f.srcip
  pub from_notify : f.srcport ≡ notify_port
  pub ports_differ : f.srcport ≢ f.dstport

module _ (show_ip : ℕ → Bytes) (f : TcpFrame) (e : Event) (s : Switch)
    (beat : IsServiceBeat f s) where
  -- In the P2P stage, a frame of the service from the notification port that goes to the broadcaster
  -- is sent on with the padded address of the viewer as its payload, and an entry that drops what
  -- follows on the connection is sent behind it.
  pub push_to_broadcaster :
      s.b_nw_addr ≡ some f.dstip
      → (v : ℕ) × (s.v_nw_addr ≡ some v)
        × (handle_notify show_ip f e s ≡ ok (pushed e s (peer_payload show_ip (some v))))
  unfolding handle_notify
  push_to_broadcaster h =
      let (v, known) = is_some_known (s.v_nw_addr) (ground (arith, beat.valid)) in
      (v, known, ground (arith, beat.valid))

  -- In the P2P stage, a frame of the service from the notification port that goes to the viewer is
  -- sent on with the padded address of the broadcaster as its payload, if the broadcaster has another
  -- address, and an entry that drops what follows on the connection is sent behind it.
  pub push_to_viewer :
      s.v_nw_addr ≡ some f.dstip
      → s.b_nw_addr ≢ some f.dstip
      → (b : ℕ) × (s.b_nw_addr ≡ some b)
        × (handle_notify show_ip f e s ≡ ok (pushed e s (peer_payload show_ip (some b))))
  unfolding handle_notify
  push_to_viewer h ne =
      let (b, known) = is_some_known (s.b_nw_addr) (ground (arith, beat.valid)) in
      (b, known, ground (arith, beat.valid))

  -- In the P2P stage, a frame of the service from the notification port that goes to neither the
  -- viewer nor the broadcaster raises a TypeError in `set_payload(None)` and is not sent on.
  pub push_to_other :
      s.v_nw_addr ≢ some f.dstip
      → s.b_nw_addr ≢ some f.dstip
      → handle_notify show_ip f e s ≡ raised type_error (learn_source e s)
  unfolding handle_notify
  push_to_other nv nb = ground (arith, beat.valid)

-- A broadcaster that does not know the viewer yet and receives the pushed address, digits and
-- dots of fewer than 15 characters, starts one stream, to the viewer's address.
pub broadcaster_streams :
    (show_ip : ℕ → Bytes) (v : ℕ) (root_dir : Bytes) (exists : Bytes → Bool) (b : Broadcaster)
    → IsAddress (show_ip v)
    → length (show_ip v) < 15
    → member (show_ip v) b.p2p_viewers ≡ false
    → let b' = on_recv root_dir exists (peer_payload show_ip (some v)) b in
      (b'.p2p_viewers ≡ b.p2p_viewers ++ show_ip v ∷ [])
      × (b'.b2v_procs ≡ b.b2v_procs ++ peer_job root_dir (show_ip v) ∷ [])
unfolding on_recv
broadcaster_streams show_ip v root_dir exists b address lt fresh =
    rw
      (
        peer_payload_no_heartbeat show_ip v address,
        parse_notify_ip-peer_payload show_ip v address lt,
      )
      (unfold add_viewer in rw fresh (refl, refl))
