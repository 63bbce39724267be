-- ===== src/Notification/Peers.antt =====
-- The program from end to end: the controller along a session, its pushes over the notification
-- channel, and what the broadcaster and the viewer do with the address that they receive.
use p2p_livestreaming.Prelude.{
  ℕ, ◌≡◌, ◌≢◌, ◌<◌, refl, sym, ap, ◌∙◌, Bool, true, some, List, [], ◌∷◌, ◌++◌, arith, All, length,
  Bytes,
}
use p2p_livestreaming.OpenFlow.{TcpFrame, Event}
use p2p_livestreaming.Bypass.{notify_port, Switch, ok, new}
use p2p_livestreaming.Bypass.NotifyHandler.{peer_payload, handle_notify}
use p2p_livestreaming.Bypass.Dispatch.{handle_tcp, handle_packet_in, run}
use p2p_livestreaming.Bypass.Session.{IsSession, IsPaired, run-IsPaired}
use p2p_livestreaming.Hosts.Broadcaster
use p2p_livestreaming.Hosts.Broadcaster.Streams.{Runs, broadcast-Runs}
use p2p_livestreaming.Hosts.Broadcaster.{member, on_recv, listen, begin, broadcast, peer_job}
use p2p_livestreaming.Hosts.Viewer
use p2p_livestreaming.Hosts.Viewer.{vfp_log, watch}
use p2p_livestreaming.Hosts.Viewer.Turn.{IsBeat, HasTurned, watch-turn}
use p2p_livestreaming.Notification.{IsAddress, peer_payload_no_heartbeat}
use p2p_livestreaming.Notification.EndToEnd.{
  pushed, IsServiceBeat, push_to_broadcaster, push_to_viewer, broadcaster_streams,
}

-- A frame of the service `h` to the host `a` on the notification channel.
pub record IsNotice (h a : ℕ) (f : TcpFrame) (e : Event) : Type 0 where
  pub carried : e.tcp ≡ some f
  pub from_service : f.srcip ≡ h
  pub from_notify : f.srcport ≡ notify_port
  pub ports_differ : f.srcport ≢ f.dstport
  pub to_host : f.dstip ≡ a

module _ (show_ip : ℕ → Bytes) where
  pub handle_packet_in-notify :
      (h a : ℕ) (f : TcpFrame) (e : Event) (s : Switch)
      → IsNotice h a f e
      → s.p2p_enabled ≡ true
      → handle_packet_in show_ip e s ≡ handle_notify show_ip f e s
  unfolding handle_packet_in handle_tcp
  handle_packet_in-notify h a f e s n on = simp (n.carried, on) (ground (arith, n.from_notify))

  pub IsServiceBeat-notice :
      (v b h a : ℕ) (f : TcpFrame) (e : Event) (s : Switch)
      → IsPaired v b h s
      → IsNotice h a f e
      → IsServiceBeat f s
  IsServiceBeat-notice v b h a f e s d n = record {
    valid = d.valid;
    enabled = d.enabled;
    from_service = d.service ∙ ap some (sym n.from_service);
    from_notify = n.from_notify;
    ports_differ = n.ports_differ;
  }

  pub push_viewer :
      (v b h : ℕ) (f : TcpFrame) (e : Event) (s : Switch)
      → IsPaired v b h s
      → IsNotice h b f e
      → handle_packet_in show_ip e s ≡ ok (pushed e s (peer_payload show_ip (some v)))
  push_viewer v b h f e s d n =
      let (w, known, out) =
        push_to_broadcaster show_ip f e s (IsServiceBeat-notice v b h b f e s d n)
          (d.broadcaster ∙ ap some (sym n.to_host)) in
      handle_packet_in-notify h b f e s n d.enabled
      ∙ out
      ∙ ap (λ o. ok (pushed e s (peer_payload show_ip o))) (sym known ∙ d.viewer)

  push_broadcaster :
      (v b h : ℕ) (f : TcpFrame) (e : Event) (s : Switch)
      → v ≢ b
      → IsPaired v b h s
      → IsNotice h v f e
      → handle_packet_in show_ip e s ≡ ok (pushed e s (peer_payload show_ip (some b)))
  push_broadcaster v b h f e s differ d n =
      let (w, known, out) =
        push_to_viewer show_ip f e s (IsServiceBeat-notice v b h v f e s d n)
          (d.viewer ∙ ap some (sym n.to_host)) (ground (arith, d.broadcaster, n.to_host)) in
      handle_packet_in-notify h v f e s n d.enabled
      ∙ out
      ∙ ap (λ o. ok (pushed e s (peer_payload show_ip o))) (sym known ∙ d.broadcaster)

module _ (root_dir : Bytes) (exists : Bytes → Bool) where
  pub on_recv-beat :
      (r : Bytes) (b : Broadcaster.Broadcaster) → IsBeat r → on_recv root_dir exists r b ≡ b
  unfolding on_recv
  on_recv-beat r b h = rw h refl

  listen-beats :
      (beats rs : List Bytes) (b : Broadcaster.Broadcaster)
      → All IsBeat beats
      → listen root_dir exists (beats ++ rs) b ≡ listen root_dir exists rs b
  unfolding listen
  listen-beats [] rs b h = refl
  listen-beats (r ∷ beats) rs b h =
      ap (listen root_dir exists (beats ++ rs)) (on_recv-beat r b h.0) ∙ listen-beats beats rs b h.1

  pub listen-only_beats :
      (rs : List Bytes) (b : Broadcaster.Broadcaster)
      → All IsBeat rs
      → listen root_dir exists rs b ≡ b
  unfolding listen
  listen-only_beats [] b h = refl
  listen-only_beats (r ∷ rs) b h =
      ap (listen root_dir exists rs) (on_recv-beat r b h.0) ∙ listen-only_beats rs b h.1

  broadcast-notice :
      (beats rs : List Bytes) (p : Bytes) (b : Broadcaster.Broadcaster)
      → All IsBeat beats
      → All IsBeat rs
      → broadcast root_dir exists (beats ++ p ∷ rs) b
        ≡ on_recv root_dir exists p (begin root_dir exists b)
  unfolding broadcast listen
  broadcast-notice beats rs p b h k =
      listen-beats beats (p ∷ rs) (begin root_dir exists b) h
      ∙ listen-only_beats rs (on_recv root_dir exists p (begin root_dir exists b)) k

streams_anew :
    (show_ip : ℕ → Bytes) (v : ℕ) (root_dir : Bytes) (exists : Bytes → Bool)
    (my_ip video_file service_ip : Bytes)
    → IsAddress (show_ip v)
    → length (show_ip v) < 15
    → let o = begin root_dir exists (Broadcaster.new root_dir my_ip video_file service_ip) in
      let w = on_recv root_dir exists (peer_payload show_ip (some v)) o in
      (w.p2p_viewers ≡ show_ip v ∷ []) × (w.b2v_procs ≡ peer_job root_dir (show_ip v) ∷ [])
unfolding begin Broadcaster.new member
streams_anew show_ip v root_dir exists my_ip video_file service_ip address short =
    broadcaster_streams show_ip v root_dir exists
      (begin root_dir exists (Broadcaster.new root_dir my_ip video_file service_ip)) address short
      refl

-- After a session as in `IsSession` of Bypass/Session and any later packets, a frame of the service
-- from its notification port to another port of the broadcaster is sent on by the controller with
-- the viewer's address as its payload, and with an entry that drops what follows. A new broadcaster
-- that receives this payload among heartbeats, the address being digits and dots of fewer than 15
-- characters, knows exactly this peer and starts exactly two processes: the stream to the service
-- and the one to the viewer.
pub session-broadcaster_streams :
    (show_ip : ℕ → Bytes) (v b h : ℕ) (es later : List Event) (f : TcpFrame) (e : Event)
    (root_dir : Bytes) (exists : Bytes → Bool) (beats rs : List Bytes)
    (my_ip video_file service_ip : Bytes)
    → IsSession v b h es
    → IsNotice h b f e
    → IsAddress (show_ip v)
    → length (show_ip v) < 15
    → All IsBeat beats
    → All IsBeat rs
    → let s = run show_ip (es ++ later) new in
      let p = peer_payload show_ip (some v) in
      let w =
        broadcast root_dir exists
          (beats ++ p ∷ rs)
          (Broadcaster.new root_dir my_ip video_file service_ip) in
      (handle_packet_in show_ip e s ≡ ok (pushed e s p))
      × (w.p2p_viewers ≡ show_ip v ∷ [])
      × Runs root_dir service_ip (peer_job root_dir (show_ip v) ∷ []) w
session-broadcaster_streams show_ip v b h es later f e root_dir exists beats rs my_ip video_file
      service_ip d n address short quiet still =
    let s = run show_ip (es ++ later) new in
    let o = Broadcaster.new root_dir my_ip video_file service_ip in
    let p = peer_payload show_ip (some v) in
    let received = broadcast-notice root_dir exists beats rs p o quiet still in
    let (viewers, procs) =
      streams_anew show_ip v root_dir exists my_ip video_file service_ip address short in
    (
      push_viewer show_ip v b h f e s (run-IsPaired show_ip v b h es later d) n,
      ap (λ (w : Broadcaster.Broadcaster). w.p2p_viewers) received ∙ viewers,
      broadcast-Runs root_dir exists (beats ++ p ∷ rs) my_ip video_file service_ip
          (peer_job root_dir (show_ip v) ∷ [])
          (ap (λ (w : Broadcaster.Broadcaster). w.b2v_procs) received ∙ procs),
    )

-- After a session as in `IsSession` of Bypass/Session and any later packets, a frame of the service
-- from its notification port to another port of the viewer is sent on by the controller with the
-- broadcaster's address as its payload, if the two have different addresses, and with an entry that
-- drops what follows. A new viewer that receives this payload after heartbeats, the address being
-- digits and dots, turns to its peer's stream, whatever arrives later.
pub session-viewer_turns :
    (show_ip : ℕ → Bytes) (v b h : ℕ) (es later : List Event) (f : TcpFrame) (e : Event)
    (root_dir : Bytes) (exists : Bytes → Bool) (beats rs : List Bytes)
    (my_ip dump_file service_ip : Bytes)
    → IsSession v b h es
    → v ≢ b
    → IsNotice h v f e
    → IsAddress (show_ip b)
    → All IsBeat beats
    → let s = run show_ip (es ++ later) new in
      let p = peer_payload show_ip (some b) in
      let u = Viewer.new root_dir my_ip dump_file service_ip in
      (handle_packet_in show_ip e s ≡ ok (pushed e s p))
      × HasTurned root_dir exists u (watch root_dir exists (beats ++ p ∷ rs) u)
session-viewer_turns show_ip v b h es later f e root_dir exists beats rs my_ip dump_file service_ip
      d differ n address quiet =
    let s = run show_ip (es ++ later) new in
    let p = peer_payload show_ip (some b) in
    (
      push_broadcaster show_ip v b h f e s differ (run-IsPaired show_ip v b h es later d) n,
      watch-turn root_dir exists beats p rs (Viewer.new root_dir my_ip dump_file service_ip) quiet
          (peer_payload_no_heartbeat show_ip b address),
    )
