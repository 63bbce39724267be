-- ===== src/System/Turned.antt =====
-- The heartbeat that turns the viewer to its peer, in any state of the system that is reached.
use p2p_livestreaming.Prelude.{
  ℕ, ◌≡◌, ◌≢◌, sym, ap, ◌∙◌, Bool, true, some, List, [], ◌∷◌, ◌++◌, Bytes,
}
use mathlib.Core.Path.{subst}
use p2p_livestreaming.OpenFlow.{TcpFrame, Event}
use p2p_livestreaming.Bypass.{Switch, state}
use p2p_livestreaming.Bypass.NotifyHandler.{peer_payload}
use p2p_livestreaming.Hosts.Viewer
use p2p_livestreaming.Hosts.Viewer.Turn.{HasTurned, watch-HasTurned}
use p2p_livestreaming.Hosts.Viewer.{Viewer, vfp_log, turn_to_peer, listen, watch, waited}
use p2p_livestreaming.Notification.{IsAddress, peer_payload_no_heartbeat}
use p2p_livestreaming.Notification.EndToEnd.{push_to_viewer}
use p2p_livestreaming.System.{System, Reach, IsHeartbeat, IsOnward, after, delivered}
use p2p_livestreaming.System.Channel.{handle_packet_in-heartbeat}
use p2p_livestreaming.System.Safety.{Reach-IsSound}
use p2p_livestreaming.System.Served.{delivered-pushed}

module _ (show_ip : ℕ → Bytes) (b v : ℕ) (s : System) (r : Reach show_ip b v s) where
  -- From any state that the system reaches in the P2P stage, a heartbeat of the recorded service to
  -- the recorded viewer, between different ports, turns the viewer to its peer, if the recorded
  -- broadcaster has another address, of digits and dots, the viewer is attached at another port
  -- than the one that the heartbeat came in by, the controller has learned no other port for it,
  -- and `recv` returns the new text on its own: the viewer has then killed the service's player,
  -- removed the dump file and the log if they were there, started the peer's player and waited for
  -- it, each once, whatever it has received before, and also if it had turned already.
  pub Reach-turned :
      (q : ℕ) (f : TcpFrame) (e : Event) (root_dir : Bytes) (exists : Bytes → Bool)
      (received : List Bytes) (my_ip dump_file service_ip : Bytes)
      → IsHeartbeat v f e
      → s.controller.p2p_enabled ≡ true
      → s.controller.v_nw_addr ≡ some v
      → s.controller.b_nw_addr ≢ some v
      → s.controller.s_nw_addr ≡ some f.srcip
      → f.srcport ≢ f.dstport
      → IsOnward q e s.controller
      → ((y : ℕ) → s.controller.b_nw_addr ≡ some y → IsAddress (show_ip y))
      → let c = after show_ip e s.controller in
        let u = Viewer.new root_dir my_ip dump_file service_ip in
        (y : ℕ) × (c.b_nw_addr ≡ some y)
        × (delivered q s.controller c ≡ peer_payload show_ip (some y) ∷ [])
        × HasTurned root_dir exists u
            (watch root_dir exists (received ++ delivered q s.controller c) u)
  Reach-turned q f e root_dir exists received my_ip dump_file service_ip n on known differ service
        ports onward printed =
      let (y, broadcaster, handled) =
        push_to_viewer show_ip f e s.controller
          (record {
            valid = (Reach-IsSound show_ip b v r).valid;
            enabled = on;
            from_service = service;
            from_notify = n.from_notify;
            ports_differ = ports;
          })
          (known ∙ ap some (sym n.to_host)) (λ same. differ (same ∙ ap some n.to_host)) in
      let out = ap state (handle_packet_in-heartbeat show_ip v f e s.controller n ∙ handled) in
      let p = peer_payload show_ip (some y) in
      let heard = ap (delivered q s.controller) out ∙ delivered-pushed q e s.controller p onward in
      let u = Viewer.new root_dir my_ip dump_file service_ip in
      (
        y,
        ap (λ (c : Switch). c.b_nw_addr) out ∙ broadcaster,
        heard,
        subst (λ ts. HasTurned root_dir exists u (watch root_dir exists (received ++ ts) u))
            (sym heard)
            (watch-HasTurned root_dir exists received p u
              (peer_payload_no_heartbeat show_ip y (printed y broadcaster))),
      )
