-- ===== src/Notification/Rendezvous.antt =====
-- Where the streams of the two hosts meet: the commands that they run behind a session.
use p2p_livestreaming.Prelude.{
  ℕ, Bool, ◌≡◌, ◌≢◌, ◌<◌, refl, some, List, [], ◌∷◌, ◌++◌, All, length, Bytes, codes, join,
}
use p2p_livestreaming.Bypass.{ok, new}
use p2p_livestreaming.Bypass.Dispatch.{run, handle_packet_in}
use p2p_livestreaming.Notification.EndToEnd.{pushed}
use p2p_livestreaming.OpenFlow.{TcpFrame, Event}
use p2p_livestreaming.Bypass.NotifyHandler.{peer_payload}
use p2p_livestreaming.Bypass.Session.{IsSession}
use p2p_livestreaming.Hosts.{Job, system, starts, view_service, view_peer}
use p2p_livestreaming.Hosts.Commands.{job_effects, ffmpeg, mplayer, stamp}
use p2p_livestreaming.Hosts.Broadcaster
use p2p_livestreaming.Hosts.Broadcaster.Streams.{Runs}
use p2p_livestreaming.Hosts.Broadcaster.{broadcast, b2v_log, peer_job}
use p2p_livestreaming.Hosts.Viewer
use p2p_livestreaming.Hosts.Viewer.{vfs_log, vfp_log, watch}
use p2p_livestreaming.Hosts.Viewer.Turn.{IsBeat, HasTurned, HasTurned-starts}
use p2p_livestreaming.Notification.{IsAddress}
use p2p_livestreaming.Notification.Peers.{
  IsNotice, session-broadcaster_streams, session-viewer_turns,
}

-- A broadcaster's command for `point`, and a viewer's that listens there.
abbrev pub SendsTo : (point my_ip file log : Bytes) → Job → Type 0
SendsTo point my_ip file log j =
    job_effects my_ip file j ≡ system (join (codes " ") (ffmpeg file point log)) ∷ stamp log ∷ []

abbrev pub ListensAt : (point my_ip file log : Bytes) → Job → Type 0
ListensAt point my_ip file log j =
    job_effects my_ip file j
    ≡ system (join (codes " ") (mplayer file (codes "ffmpeg://" ++ point ++ codes "?listen") log))
      ∷ stamp log
      ∷ []

-- `tcp://<ip>:<PEER_PORT>`
abbrev pub peer_point : Bytes → Bytes
peer_point ip = codes "tcp://" ++ ip ++ codes ":" ++ codes "2000"

peer_job-SendsTo :
    (root_dir my_ip file ip : Bytes)
    → SendsTo (peer_point ip) my_ip file (b2v_log root_dir ip) (peer_job root_dir ip)
unfolding job_effects
peer_job-SendsTo root_dir my_ip file ip = refl

view_peer-ListensAt :
    (my_ip file log : Bytes) → ListensAt (peer_point my_ip) my_ip file log (view_peer log)
unfolding job_effects
view_peer-ListensAt my_ip file log = refl

-- After a session as in `IsSession` of Bypass/Session and any later packets, the service's frames
-- to the broadcaster and to the viewer, each from the notification port to another port of the
-- host, are sent on by the controller with the peer's address, if the two addresses are different,
-- printed as digits and dots, and the viewer's has fewer than 15 characters. The broadcaster, which
-- receives its text among heartbeats, then starts, behind the stream to the service, one process,
-- whose command sends the video to one point of the network. The viewer, which receives its text
-- behind heartbeats and was started with the address that the controller has for it, starts, behind
-- the service's player, one process, whose command listens at the same point, and has killed the
-- service's player before.
pub session-rendezvous :
    (show_ip : ℕ → Bytes) (v b h : ℕ) (es later : List Event) (f g : TcpFrame) (e d : Event)
    (root_dir : Bytes) (exists : Bytes → Bool) (before behind quiet rest : List Bytes)
    (my_ip video_file dump_file service_ip : Bytes)
    → IsSession v b h es
    → v ≢ b
    → IsNotice h b f e
    → IsNotice h v g d
    → IsAddress (show_ip v)
    → IsAddress (show_ip b)
    → length (show_ip v) < 15
    → All IsBeat before
    → All IsBeat behind
    → All IsBeat quiet
    → let s = run show_ip (es ++ later) new in
      let p = peer_payload show_ip (some v) in
      let q = peer_payload show_ip (some b) in
      let o = Broadcaster.new root_dir my_ip video_file service_ip in
      let u = Viewer.new root_dir (show_ip v) dump_file service_ip in
      let w = broadcast root_dir exists (before ++ p ∷ behind) o in
      let z = watch root_dir exists (quiet ++ q ∷ rest) u in
      (handle_packet_in show_ip e s ≡ ok (pushed e s p))
      × (handle_packet_in show_ip d s ≡ ok (pushed d s q))
      × ((j : Job) × (k : Job) × (point : Bytes) × Runs root_dir service_ip (j ∷ []) w
          × (z.vfp_proc ≡ some k)
          × HasTurned root_dir exists u z
          × (starts z.effects ≡ view_service service_ip (vfs_log root_dir (show_ip v)) ∷ k ∷ [])
          × SendsTo point my_ip o.video_file (b2v_log root_dir (show_ip v)) j
          × ListensAt point (show_ip v) u.dump_file (vfp_log root_dir (show_ip v)) k)
unfolding Viewer.new
session-rendezvous show_ip v b h es later f g e d root_dir exists before behind quiet rest my_ip
      video_file dump_file service_ip session differ n m address address' short hb hb' hq =
    let o = Broadcaster.new root_dir my_ip video_file service_ip in
    let u = Viewer.new root_dir (show_ip v) dump_file service_ip in
    let (sent_b, _, started) =
      session-broadcaster_streams show_ip v b h es later f e root_dir exists before behind my_ip
        video_file service_ip session n address short hb hb' in
    let (sent_v, turned) =
      session-viewer_turns show_ip v b h es later g d root_dir exists quiet rest (show_ip v)
        dump_file service_ip session differ m address' hq in
    (
      sent_b,
      sent_v,
      (
        peer_job root_dir (show_ip v),
        view_peer (vfp_log root_dir (show_ip v)),
        peer_point (show_ip v),
        started,
        turned.1,
        turned,
        HasTurned-starts root_dir exists u
            (watch root_dir exists (quiet ++ peer_payload show_ip (some b) ∷ rest) u) refl turned,
        peer_job-SendsTo root_dir my_ip o.video_file (show_ip v),
        view_peer-ListensAt (show_ip v) u.dump_file (vfp_log root_dir (show_ip v)),
      ),
    )
