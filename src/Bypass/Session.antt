-- ===== src/Bypass/Session.antt =====
-- A whole session: the four signals in their order, with any packets without a keyword between them.
use p2p_livestreaming.Prelude.{
  inl, ℕ, ◌≡◌, ◌<◌, ◌&&◌, refl, sym, ap, ◌∙◌, true, false, some, List, [], ◌∷◌, ◌++◌, arith, All,
  Bytes, is_some,
}
use mathlib.Core.Path.{subst}
use p2p_livestreaming.OpenFlow.{TcpFrame, Event}
use p2p_livestreaming.Bypass.{Switch, Roles, Status, new, normal_send}
use p2p_livestreaming.Bypass.Dispatch.{run}
use p2p_livestreaming.Bypass.Invariant.{Inv, run-Inv}
use p2p_livestreaming.Bypass.Stage.{SameStage, run-SameStage}
use p2p_livestreaming.Bypass.Signal.{asks_play, starts_play, asks_publish, starts_publish}
use p2p_livestreaming.Bypass.Steps.{
  IsRequest, IsAnswer, viewer_asked, broadcaster_asked, viewer_served, broadcaster_served, behind,
  run-nil, publish_req-step, publish_start-step,
}
use p2p_livestreaming.Bypass.Phase.{run-append, on, off, phase, viewer_phase, IsCalm-fields}
use p2p_livestreaming.Bypass.Quiet.{IsQuiet, IsCalm}

-- A publish request while the viewer is served opens no stage and leaves the broadcaster awaited.
broadcaster_asked-awaits :
    (f : TcpFrame) (e : Event) (u : Switch)
    → (u.p2p_enabled ≡ false) × (u.p2p_set_off ≡ false)
    → (u.status_vready ≡ true) × (u.status_bready ≡ false)
    → u.status_stream_begin ≡ false
    → let t = behind e (broadcaster_asked f e) u in
      (t.p2p_enabled ≡ false)
      × (t.p2p_set_off ≡ false)
      × ((t.status_vready && t.status_bready) ≡ false)
unfolding normal_send
broadcaster_asked-awaits f e u watching ready begun =
    ground (arith, ready.0, ready.1, watching.0, watching.1)

-- What the broadcaster's signals need of the state: the viewer is served by a known service.
pub record IsServed (u : Switch) (e : Event) (f : TcpFrame) : Type 0 where
  pub calm : IsCalm u
  pub watching : (u.p2p_enabled ≡ false) × (u.p2p_set_off ≡ false)
  pub service : (u.sport ≡ some e.port) × (u.s_dl_addr ≡ some e.src) × (u.s_nw_addr ≡ some f.srcip)
  pub viewer_ready : (u.status_vready ≡ true) × (u.status_bready ≡ false)

pub broadcaster_phase :
    (show_ip : ℕ → Bytes) (f₃ f₄ : TcpFrame) (e₃ e₄ : Event) (q₃ q₄ : List Event) (u s : Switch)
    → Inv s
    → SameStage u s
    → IsServed u e₄ f₄
    → IsRequest asks_publish f₃ e₃
    → IsAnswer starts_publish f₄ e₄
    → 0 < e₄.port
    → All IsQuiet q₃
    → All IsQuiet q₄
    → (t : Switch) × Inv t
      × SameStage (behind e₄ broadcaster_served (behind e₃ (broadcaster_asked f₃ e₃) u)) t
      × (run show_ip (q₃ ++ e₃ ∷ (q₄ ++ e₄ ∷ [])) s ≡ t)
unfolding normal_send
broadcaster_phase show_ip f₃ f₄ e₃ e₄ q₃ q₄ u s i h d r₃ r₄ pos k₃ k₄ =
    let u₁ = behind e₃ (broadcaster_asked f₃ e₃) u in
    let (on₁, off₁, due₁) =
      broadcaster_asked-awaits f₃ e₃ u d.watching d.viewer_ready d.calm.not_begun in
    let (s₁, i₁, h₁, x₁) =
      phase show_ip q₃ (q₄ ++ e₄ ∷ []) e₃ (broadcaster_asked f₃ e₃) u s i h d.calm k₃
        (λ s. (refl, refl, refl))
        (λ t i h.
          publish_req-step show_ip f₃ e₃ t i (h.2 ∙ d.calm.nothing_kept) (ap on h.1 ∙ d.watching.0)
            (ap off h.1 ∙ d.watching.1) r₃) in
    let (s₂, i₂, h₂, x₂) =
      phase show_ip q₄ [] e₄ broadcaster_served u₁ s₁ i₁ h₁
        (IsCalm-fields u₁ refl d.calm.not_begun due₁) k₄ (λ s. (refl, refl, refl))
        (λ t i h.
          publish_start-step show_ip f₄ e₄ t i h.2 (ap on h.1 ∙ on₁) (ap off h.1 ∙ off₁) r₄ pos
            (ap (λ (r : Roles). r.sport) h.0 ∙ d.service.0)
            (ap (λ (r : Roles). r.s_dl_addr) h.0 ∙ d.service.1)
            (ap (λ (r : Roles). r.s_nw_addr) h.0 ∙ d.service.2)
            (ap (λ (r : Roles). is_some r.bport) h.0)
            (ap (λ (c : Status). c.status_bpublish) h.1)) in
    (s₂, i₂, h₂, x₁ ∙ x₂ ∙ run-nil show_ip s₂)

-- The packets of a session: a play request of the viewer `v`, the answer of the service `h`, a
-- publish request of the broadcaster `b` and the answer of the same service. Each is a frame whose
-- payload is not of 12, 88 or 89 bytes and is one RTMP packet with the keyword of its kind and no
-- other; both answers come in at one switch port other than 0. Before each of the four there may be
-- quiet packets: not TCP, or with neither port that of RTMP, or with an empty payload, one of 88 or
-- 89 bytes, or one of other than 12 bytes that does not parse or of which no RTMP packet has a
-- keyword.
pub record IsSession (v b h : ℕ) (es : List Event) : Type 0 where
  pub play : TcpFrame
  pub play_reply : TcpFrame
  pub publish : TcpFrame
  pub publish_reply : TcpFrame
  pub play_in : Event
  pub play_reply_in : Event
  pub publish_in : Event
  pub publish_reply_in : Event
  pub before_play : List Event
  pub before_play_reply : List Event
  pub before_publish : List Event
  pub before_publish_reply : List Event
  pub asked_play : IsRequest asks_play play play_in
  pub started_play : IsAnswer starts_play play_reply play_reply_in
  pub asked_publish : IsRequest asks_publish publish publish_in
  pub started_publish : IsAnswer starts_publish publish_reply publish_reply_in
  pub real_port : 0 < play_reply_in.port
  pub same_port : publish_reply_in.port ≡ play_reply_in.port
  pub same_src : publish_reply_in.src ≡ play_reply_in.src
  pub viewer_is : play.srcip ≡ v
  pub broadcaster_is : publish.srcip ≡ b
  pub service_is : (play_reply.srcip ≡ h) × (publish_reply.srcip ≡ h)
  pub quiet : All IsQuiet before_play × All IsQuiet before_play_reply
  pub quiet_behind : All IsQuiet before_publish × All IsQuiet before_publish_reply
  pub events_are :
      es
      ≡ before_play
        ++ play_in
          ∷ (before_play_reply
              ++ play_reply_in
                ∷ (before_publish ++ publish_in ∷ (before_publish_reply ++ publish_reply_in ∷ [])))

-- A session takes a new controller to the P2P stage, with the addresses of the viewer, the
-- broadcaster and the service, and with the controller's invariant. It is a play request and its
-- answer, then a publish request and its answer, each a frame whose payload is not of 12, 88 or 89
-- bytes and is one RTMP packet with the keyword of its kind and no other; the requests go to the
-- RTMP port and the answers come from it, between different ports; both answers are from one host,
-- on one switch port other than 0; and before each of the four there are any quiet packets, where a
-- packet is quiet if it is not TCP, or neither of its ports is that of RTMP, or its payload is
-- empty or of 88 or 89 bytes, or of other than 12 bytes and does not parse or has no RTMP packet
-- with a keyword.
pub session-p2p_enabled :
    (show_ip : ℕ → Bytes) (v b h : ℕ) (es : List Event)
    → IsSession v b h es
    → let s = run show_ip es new in
      Inv s
      × (s.p2p_enabled ≡ true)
      × (s.v_nw_addr ≡ some v)
      × (s.b_nw_addr ≡ some b)
      × (s.s_nw_addr ≡ some h)
unfolding normal_send
session-p2p_enabled show_ip v b h es d =
    let u =
      behind d.play_reply_in (viewer_served d.play_reply d.play_reply_in)
        (behind d.play_in (viewer_asked d.play d.play_in) new) in
    let (s, i, g, x) =
      viewer_phase show_ip d.play d.play_reply d.play_in d.play_reply_in d.before_play
        d.before_play_reply
        (d.before_publish ++ d.publish_in ∷ (d.before_publish_reply ++ d.publish_reply_in ∷ []))
        d.asked_play d.started_play d.quiet.0 d.quiet.1 in
    let (t, j, k, y) =
      broadcaster_phase show_ip d.publish d.publish_reply d.publish_in d.publish_reply_in
        d.before_publish d.before_publish_reply u s i g
        (record {
          calm = IsCalm-fields u refl refl refl;
          watching = (refl, refl);
          service = (
            ap some (sym d.same_port),
            ap some (sym d.same_src),
            ap some (d.service_is.0 ∙ sym d.service_is.1),
          );
          viewer_ready = (refl, refl);
        })
        d.asked_publish d.started_publish (omega (arith, d.real_port, d.same_port)) d.quiet_behind.0
        d.quiet_behind.1 in
    subst
      (λ s.
        Inv s
        × (s.p2p_enabled ≡ true)
        × (s.v_nw_addr ≡ some v)
        × (s.b_nw_addr ≡ some b)
        × (s.s_nw_addr ≡ some h))
      (sym (ap (λ es. run show_ip es new) d.events_are ∙ x ∙ y))
      (
        j,
        ap on k.1,
        ap (λ (r : Roles). r.v_nw_addr) k.0 ∙ ap some d.viewer_is,
        ap (λ (r : Roles). r.b_nw_addr) k.0 ∙ ap some d.broadcaster_is,
        ap (λ (r : Roles). r.s_nw_addr) k.0 ∙ ap some d.service_is.0,
      )

-- The state behind a session and any later packets.
pub record IsPaired (v b h : ℕ) (s : Switch) : Type 0 where
  pub valid : Inv s
  pub enabled : s.p2p_enabled ≡ true
  pub viewer : s.v_nw_addr ≡ some v
  pub broadcaster : s.b_nw_addr ≡ some b
  pub service : s.s_nw_addr ≡ some h

module _ (show_ip : ℕ → Bytes) (v b h : ℕ) (es later : List Event) where
  pub IsPaired-later :
      IsPaired v b h (run show_ip es new) → IsPaired v b h (run show_ip (es ++ later) new)
  IsPaired-later d =
      let s = run show_ip es new in
      let same = run-SameStage show_ip later s (inl d.enabled) in
      rw (run-append show_ip es later new) (record {
        valid = run-Inv show_ip later s d.valid;
        enabled = ap (λ (c : Status). c.p2p_enabled) same.1 ∙ d.enabled;
        viewer = ap (λ (r : Roles). r.v_nw_addr) same.0 ∙ d.viewer;
        broadcaster = ap (λ (r : Roles). r.b_nw_addr) same.0 ∙ d.broadcaster;
        service = ap (λ (r : Roles). r.s_nw_addr) same.0 ∙ d.service;
      })

  pub run-IsPaired : IsSession v b h es → IsPaired v b h (run show_ip (es ++ later) new)
  run-IsPaired d =
      let (valid, enabled, viewer, broadcaster, service) = session-p2p_enabled show_ip v b h es d in
      IsPaired-later (record {
        valid = valid;
        enabled = enabled;
        viewer = viewer;
        broadcaster = broadcaster;
        service = service;
      })
