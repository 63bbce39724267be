-- ===== src/Notification/Replaced.antt =====
-- A second viewer that asks for the stream before the broadcaster does: it takes the first viewer's
-- place, and the first one is not served any more.
use p2p_livestreaming.Prelude.{
  ℕ, ◌≡◌, ◌≢◌, ◌<◌, refl, sym, ap, ◌∙◌, some, List, [], ◌∷◌, ◌++◌, arith, All, Bytes,
}
use mathlib.Core.Path.{subst}
use p2p_livestreaming.OpenFlow.{TcpFrame, Event}
use p2p_livestreaming.Bypass.{Switch, Roles, raised, type_error, new, learn_source, normal_send}
use p2p_livestreaming.Bypass.Dispatch.{handle_packet_in, run}
use p2p_livestreaming.Bypass.Invariant.{Inv}
use p2p_livestreaming.Bypass.Stage.{SameStage}
use p2p_livestreaming.Bypass.Signal.{asks_play, starts_play, asks_publish, starts_publish}
use p2p_livestreaming.Bypass.Steps.{
  IsRequest, IsAnswer, viewer_asked, broadcaster_asked, viewer_served, broadcaster_served, behind,
  play_req-step,
}
use p2p_livestreaming.Bypass.Phase.{on, off, phase, viewer_phase, IsCalm-fields}
use p2p_livestreaming.Bypass.Quiet.{IsQuiet}
use p2p_livestreaming.Bypass.Session.{broadcaster_phase, IsPaired, IsPaired-later}
use p2p_livestreaming.Notification.EndToEnd.{push_to_other}
use p2p_livestreaming.Notification.Peers.{IsNotice, IsServiceBeat-notice, handle_packet_in-notify}

-- A session as in Bypass/Session, of the viewer `v`, in which the host `w` asks for the stream once the
-- service has answered `v`.
pub record IsReplaced (v w b h : ℕ) (es : List Event) : Type 0 where
  pub play : TcpFrame
  pub play_reply : TcpFrame
  pub again : TcpFrame
  pub publish : TcpFrame
  pub publish_reply : TcpFrame
  pub play_in : Event
  pub play_reply_in : Event
  pub again_in : Event
  pub publish_in : Event
  pub publish_reply_in : Event
  pub before_again : List Event
  pub asked_play : IsRequest asks_play play play_in
  pub started_play : IsAnswer starts_play play_reply play_reply_in
  pub asked_again : IsRequest asks_play again again_in
  pub asked_publish : IsRequest asks_publish publish publish_in
  pub started_publish : IsAnswer starts_publish publish_reply publish_reply_in
  pub real_port : 0 < play_reply_in.port
  pub same_port : publish_reply_in.port ≡ play_reply_in.port
  pub same_src : publish_reply_in.src ≡ play_reply_in.src
  pub viewer_is : play.srcip ≡ v
  pub second_is : again.srcip ≡ w
  pub broadcaster_is : publish.srcip ≡ b
  pub service_is : (play_reply.srcip ≡ h) × (publish_reply.srcip ≡ h)
  pub quiet : All IsQuiet before_again
  pub events_are :
      es
      ≡ play_in
        ∷ (play_reply_in ∷ (before_again ++ again_in ∷ (publish_in ∷ (publish_reply_in ∷ []))))

module _ (show_ip : ℕ → Bytes) (v w b h : ℕ) (es : List Event) (d : IsReplaced v w b h es) where
  abbrev first_served : Switch
  first_served =
      behind d.play_reply_in (viewer_served d.play_reply d.play_reply_in)
        (behind d.play_in (viewer_asked d.play d.play_in) new)

  abbrev second_asked : Switch
  second_asked = behind d.again_in (viewer_asked d.again d.again_in) first_served

  run-replaced :
      (t : Switch) × Inv t
      × SameStage
          (behind d.publish_reply_in broadcaster_served
            (behind d.publish_in (broadcaster_asked d.publish d.publish_in) second_asked))
          t
      × (run show_ip es new ≡ t)
  unfolding normal_send
  run-replaced =
      let (s₁, i₁, h₁, x₁) =
        viewer_phase show_ip d.play d.play_reply d.play_in d.play_reply_in [] []
          (d.before_again ++ d.again_in ∷ (d.publish_in ∷ (d.publish_reply_in ∷ []))) d.asked_play
          d.started_play tt tt in
      let (s₂, i₂, h₂, x₂) =
        phase show_ip d.before_again (d.publish_in ∷ (d.publish_reply_in ∷ [])) d.again_in
          (viewer_asked d.again d.again_in) first_served s₁ i₁ h₁
          (IsCalm-fields first_served refl refl refl) d.quiet (λ s. (refl, refl, refl))
          (λ t i h.
            play_req-step show_ip d.again d.again_in t i h.2 (ap on h.1) (ap off h.1)
              d.asked_again) in
      let (t, i, k, y) =
        broadcaster_phase show_ip d.publish d.publish_reply d.publish_in d.publish_reply_in [] []
          second_asked s₂ i₂ h₂
          (record {
            calm = IsCalm-fields second_asked refl refl refl;
            watching = (refl, refl);
            service = (
              ap some (sym d.same_port),
              ap some (sym d.same_src),
              ap some (d.service_is.0 ∙ sym d.service_is.1),
            );
            viewer_ready = (refl, refl);
          })
          d.asked_publish d.started_publish (omega (arith, d.real_port, d.same_port)) tt tt in
      (t, i, k, ap (λ es. run show_ip es new) d.events_are ∙ x₁ ∙ x₂ ∙ y)

  replaced-IsPaired : IsPaired w b h (run show_ip es new)
  unfolding normal_send
  replaced-IsPaired =
      let (t, i, k, x) = run-replaced in
      subst (IsPaired w b h) (sym x) (record {
        valid = i;
        enabled = ap on k.1;
        viewer = ap (λ (r : Roles). r.v_nw_addr) k.0 ∙ ap some d.second_is;
        broadcaster = ap (λ (r : Roles). r.b_nw_addr) k.0 ∙ ap some d.broadcaster_is;
        service = ap (λ (r : Roles). r.s_nw_addr) k.0 ∙ ap some d.service_is.0;
      })

-- If another host asks for the stream after the first viewer was served and before the broadcaster
-- asks to publish, the P2P stage is entered with this host as the viewer, although the service
-- never answered it. A frame of the service from its notification port, to another port, to the
-- first viewer then raises a TypeError and is not sent on, if the first viewer's address is neither
-- the second's nor the broadcaster's. The packets of a new controller are, in this order: the first
-- viewer's play request, directly behind it its answer, any quiet packets, the second host's play
-- request, directly behind it the publish request and its answer, and then any packets. Each of the
-- five named frames has a payload that is not of 12, 88 or 89 bytes and is one RTMP packet with the
-- keyword of its kind and no other; the requests go to the RTMP port and the answers come from it,
-- between different ports; both answers are from one host, on one switch port other than 0; a
-- packet is quiet if it is not TCP, or neither of its ports is that of RTMP, or its payload is
-- empty or of 88 or 89 bytes, or of other than 12 bytes and does not parse or has no RTMP packet
-- with a keyword.
pub session-second_viewer :
    (show_ip : ℕ → Bytes) (v w b h : ℕ) (es later : List Event) (f : TcpFrame) (e : Event)
    → IsReplaced v w b h es
    → v ≢ w
    → v ≢ b
    → IsNotice h v f e
    → let s = run show_ip (es ++ later) new in
      IsPaired w b h s × (handle_packet_in show_ip e s ≡ raised type_error (learn_source e s))
session-second_viewer show_ip v w b h es later f e d other third n =
    let s = run show_ip (es ++ later) new in
    let paired = IsPaired-later show_ip w b h es later (replaced-IsPaired show_ip v w b h es d) in
    (
      paired,
      handle_packet_in-notify show_ip h v f e s n paired.enabled
          ∙ push_to_other show_ip f e s (IsServiceBeat-notice show_ip w b h v f e s paired n)
              (ground (arith, paired.viewer, n.to_host))
              (ground (arith, paired.broadcaster, n.to_host)),
    )
