-- ===== src/System/Served.antt =====
-- The heartbeat that brings the broadcaster its viewer, in any state of the system that is reached.
use p2p_livestreaming.Prelude.{
  some_injective, Option, none, ◌⊎◌, inl, inr, if◌then◌else◌, arith, ℕ, ◌≡◌, ◌≢◌, ◌<◌, refl, sym,
  ap, ◌∙◌, Bool, true, some, List, [], ◌∷◌, ◌++◌, length, drop, drop-append_length, Bytes,
}
use mathlib.Core.List.{append_assoc}
use p2p_livestreaming.OpenFlow.{TcpFrame, Event, learn, out_port}
use p2p_livestreaming.Bypass.{Switch, state}
use p2p_livestreaming.Bypass.NotifyHandler.{peer_payload}
use p2p_livestreaming.Hosts.Broadcaster
use p2p_livestreaming.Hosts.Broadcaster.Streams.{Runs, broadcast-Runs}
use p2p_livestreaming.Hosts.Broadcaster.{Broadcaster, on_recv, listen, begin, broadcast, peer_job}
use p2p_livestreaming.Notification.{
  IsAddress, peer_payload_no_heartbeat, parse_notify_ip-peer_payload,
}
use p2p_livestreaming.Notification.EndToEnd.{peer_packet, drop_entry, pushed, push_to_broadcaster}
use p2p_livestreaming.System.{System, Reach, IsHeartbeat, IsOnward, leaves, after, delivered, texts}
use p2p_livestreaming.System.Channel.{handle_packet_in-heartbeat}
use p2p_livestreaming.System.Safety.{Reach-IsSound}
use p2p_livestreaming.System.Beats.{All-pushed}
use p2p_livestreaming.System.Grouped.{Grouped, Names, texts-Names}
use p2p_livestreaming.System.Streams.{told-broadcaster, on_recv-streams, broadcast-Streams}

pub leaves-out_port :
    (q p : ℕ) (o : Option ℕ) → q ≢ p → (o ≡ none) ⊎ (o ≡ some q) → leaves q p (out_port o) ≡ true
leaves-out_port q p none differ known = ground (arith, differ)
leaves-out_port q p (some r) differ (inl unknown) = cc
leaves-out_port q p (some r) differ (inr same) =
    let known = some_injective same in ground (arith, known, differ)

pub delivered-pushed :
    (q : ℕ) (e : Event) (s : Switch) (p : Bytes)
    → IsOnward q e s
    → delivered q s (pushed e s p) ≡ p ∷ []
delivered-pushed q e s p h =
    ap (texts q) (
      ap (drop (length s.sent)) (append_assoc s.sent (peer_packet e s p ∷ []) (drop_entry e ∷ []))
      ∙ drop-append_length s.sent (peer_packet e s p ∷ drop_entry e ∷ []))
    ∙ ap (λ b. ((if b then p ∷ [] else []) ++ []) ++ [])
        (leaves-out_port q e.port (learn e.src e.port s.mac_to_port e.dst) h.0 h.1)

listen-snoc :
    (root_dir : Bytes) (exists : Bytes → Bool) (ts : List Bytes) (t : Bytes) (b : Broadcaster)
    → listen root_dir exists (ts ++ t ∷ []) b
      ≡ on_recv root_dir exists t (listen root_dir exists ts b)
unfolding listen
listen-snoc root_dir exists [] t b = refl
listen-snoc root_dir exists (u ∷ ts) t b =
    listen-snoc root_dir exists ts t (on_recv root_dir exists u b)

broadcast-snoc :
    (root_dir : Bytes) (exists : Bytes → Bool) (ts : List Bytes) (t : Bytes) (b : Broadcaster)
    → broadcast root_dir exists (ts ++ t ∷ []) b
      ≡ on_recv root_dir exists t (broadcast root_dir exists ts b)
unfolding broadcast
broadcast-snoc root_dir exists ts t b = listen-snoc root_dir exists ts t (begin root_dir exists b)

module _ (show_ip : ℕ → Bytes) (b v : ℕ) (s : System) (r : Reach show_ip b v s) where
  heartbeat-pushed :
      (f : TcpFrame) (e : Event)
      → IsHeartbeat b f e
      → s.controller.p2p_enabled ≡ true
      → s.controller.b_nw_addr ≡ some b
      → s.controller.s_nw_addr ≡ some f.srcip
      → f.srcport ≢ f.dstport
      → (x : ℕ) × (s.controller.v_nw_addr ≡ some x)
        × (after show_ip e s.controller ≡ pushed e s.controller (peer_payload show_ip (some x)))
  heartbeat-pushed f e n on known service differ =
      let (x, viewer, out) =
        push_to_broadcaster show_ip f e s.controller
          (record {
            valid = (Reach-IsSound show_ip b v r).valid;
            enabled = on;
            from_service = service;
            from_notify = n.from_notify;
            ports_differ = differ;
          })
          (known ∙ ap some (sym n.to_host)) in
      (x, viewer, ap state (handle_packet_in-heartbeat show_ip b f e s.controller n ∙ out))

  -- From any state that the system reaches in the P2P stage, a heartbeat of the recorded service to
  -- the recorded broadcaster, between different ports, leaves the broadcaster with two processes
  -- started, the stream to the service and one to the recorded viewer, if the viewer's address is
  -- digits and dots of fewer than 15 characters, the broadcaster is attached at another port than
  -- the one that the heartbeat came in by, the controller has learned no other port for it, and
  -- `recv` returns the new text on its own: however many heartbeats it has heard before, however
  -- `recv` grouped them, and also if it had the stream already.
  pub Reach-served :
      (q : ℕ) (f : TcpFrame) (e : Event) (root_dir : Bytes) (exists : Bytes → Bool)
      (received : List Bytes) (my_ip video_file service_ip : Bytes)
      → Grouped s.at_broadcaster received
      → IsHeartbeat b f e
      → s.controller.p2p_enabled ≡ true
      → s.controller.b_nw_addr ≡ some b
      → s.controller.s_nw_addr ≡ some f.srcip
      → f.srcport ≢ f.dstport
      → IsOnward q e s.controller
      → ((x : ℕ)
          → s.controller.v_nw_addr ≡ some x
          → IsAddress (show_ip x) × (length (show_ip x) < 15))
      → let c = after show_ip e s.controller in
        let w =
          broadcast root_dir exists
            (received ++ delivered q s.controller c)
            (Broadcaster.new root_dir my_ip video_file service_ip) in
        (x : ℕ) × (c.v_nw_addr ≡ some x)
        × Runs root_dir service_ip (peer_job root_dir (show_ip x) ∷ []) w
  Reach-served q f e root_dir exists received my_ip video_file service_ip grouped n on known service
        differ onward printed =
      let (x, viewer, out) = heartbeat-pushed f e n on known service differ in
      let (address, short) = printed x viewer in
      let p = peer_payload show_ip (some x) in
      let o = Broadcaster.new root_dir my_ip video_file service_ip in
      let heard =
        All-pushed show_ip b s.controller p s.at_broadcaster
          (told-broadcaster show_ip b x s.controller known viewer)
          (Reach-IsSound show_ip b v r).broadcaster_heard in
      let before =
        broadcast-Streams root_dir exists (show_ip x) received my_ip video_file service_ip
          (texts-Names show_ip x address short grouped heard) in
      let names : Names (show_ip x) p = (
        peer_payload_no_heartbeat show_ip x address,
        parse_notify_ip-peer_payload show_ip x address short,
      ) in
      let new_text =
        ap (delivered q s.controller) out ∙ delivered-pushed q e s.controller p onward in
      (
        x,
        ap (λ (c : Switch). c.v_nw_addr) out ∙ viewer,
        broadcast-Runs root_dir exists
            (received ++ delivered q s.controller (after show_ip e s.controller)) my_ip video_file
            service_ip (peer_job root_dir (show_ip x) ∷ [])
            (ap (λ ts. (broadcast root_dir exists (received ++ ts) o).b2v_procs) new_text
              ∙ ap (λ (w : Broadcaster). w.b2v_procs) (broadcast-snoc root_dir exists received p o)
              ∙ (on_recv-streams root_dir exists (show_ip x) p
                  (broadcast root_dir exists received o) names before).1),
      )
