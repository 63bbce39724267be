-- ===== src/Bypass/SetOff.antt =====
-- A session whose broadcaster is not in this network: the stream begins at a viewer, no publish request
-- was seen, and the controller leaves the stream alone for good.
use p2p_livestreaming.Prelude.{
  ℕ, ◌≡◌, refl, ap, ◌∙◌, inr, true, false, List, [], ◌∷◌, ◌++◌, All, Bytes,
}
use p2p_livestreaming.OpenFlow.{TcpFrame, Event}
use p2p_livestreaming.Bypass.{Switch, Status, new, normal_send}
use p2p_livestreaming.Bypass.Dispatch.{run}
use p2p_livestreaming.Bypass.Stage.{SameStage, run-SameStage}
use p2p_livestreaming.Bypass.Signal.{asks_play, starts_play, begins_stream}
use p2p_livestreaming.Bypass.Steps.{
  IsRequest, IsAnswer, viewer_asked, viewer_served, stream_begun, behind, stream_begin-step,
  run-nil,
}
use p2p_livestreaming.Bypass.Phase.{on, off, run-append, phase, viewer_phase, IsCalm-fields}
use p2p_livestreaming.Bypass.Quiet.{IsQuiet}

-- The packets of such a session.
pub record IsForeign (es : List Event) : Type 0 where
  pub play : TcpFrame
  pub play_reply : TcpFrame
  pub begin : TcpFrame
  pub play_in : Event
  pub play_reply_in : Event
  pub begin_in : Event
  pub before_play : List Event
  pub before_play_reply : List Event
  pub before_begin : List Event
  pub asked_play : IsRequest asks_play play play_in
  pub started_play : IsAnswer starts_play play_reply play_reply_in
  pub began : IsAnswer begins_stream begin begin_in
  pub quiet : All IsQuiet before_play × All IsQuiet before_play_reply × All IsQuiet before_begin
  pub events_are :
      es
      ≡ before_play
        ++ play_in ∷ (before_play_reply ++ play_reply_in ∷ (before_begin ++ begin_in ∷ []))

module _ (show_ip : ℕ → Bytes) (es : List Event) (d : IsForeign es) where
  abbrev served : Switch
  served =
      behind d.play_reply_in (viewer_served d.play_reply d.play_reply_in)
        (behind d.play_in (viewer_asked d.play d.play_in) new)

  run-foreign :
      (t : Switch) × SameStage (behind d.begin_in stream_begun served) t × (run show_ip es new ≡ t)
  unfolding normal_send
  run-foreign =
      let (s, i, g, x) =
        viewer_phase show_ip d.play d.play_reply d.play_in d.play_reply_in d.before_play
          d.before_play_reply (d.before_begin ++ d.begin_in ∷ []) d.asked_play d.started_play
          d.quiet.0 d.quiet.1 in
      let (t, j, k, y) =
        phase show_ip d.before_begin [] d.begin_in stream_begun served s i g
          (IsCalm-fields served refl refl refl) d.quiet.2 (λ s. (refl, refl, refl))
          (λ t i h.
            stream_begin-step show_ip d.begin d.begin_in t i h.2 (ap on h.1) (ap off h.1) d.began
              (ap (λ (c : Status). c.status_vready) h.1)) in
      (t, k, ap (λ es. run show_ip es new) d.events_are ∙ x ∙ y ∙ run-nil show_ip t)

  foreign_off :
      ((run show_ip es new).p2p_set_off ≡ true) × ((run show_ip es new).p2p_enabled ≡ false)
  unfolding normal_send
  foreign_off =
      let (t, k, x) = run-foreign in
      (
        ap (λ (s : Switch). s.p2p_set_off) x ∙ ap off k.1,
        ap (λ (s : Switch). s.p2p_enabled) x ∙ ap on k.1,
      )

-- A viewer's play request, the service's answer and the begin of the stream make a new controller
-- set the P2P stage off, and no later packets ever enable it. Each of the three is a frame whose
-- payload is not of 12, 88 or 89 bytes and is one RTMP packet of its kind and of no other kind of
-- signal, the request goes to the RTMP port and the others come from it, between different ports,
-- and before each there are any quiet packets (and so no publish request), where a packet is quiet
-- if it is not TCP, or neither of its ports is that of RTMP, or its payload is empty or of 88 or 89
-- bytes, or of other than 12 bytes and does not parse or has no RTMP packet with a keyword.
pub foreign-p2p_set_off :
    (show_ip : ℕ → Bytes) (es later : List Event)
    → IsForeign es
    → let s = run show_ip (es ++ later) new in (s.p2p_set_off ≡ true) × (s.p2p_enabled ≡ false)
foreign-p2p_set_off show_ip es later d =
    let (set_off, not_on) = foreign_off show_ip es d in
    let same = run-SameStage show_ip later (run show_ip es new) (inr set_off) in
    let x = run-append show_ip es later new in
    (
      ap (λ (s : Switch). s.p2p_set_off) x ∙ ap off same.1 ∙ set_off,
      ap (λ (s : Switch). s.p2p_enabled) x ∙ ap on same.1 ∙ not_on,
    )
