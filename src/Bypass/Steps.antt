-- ===== src/Bypass/Steps.antt =====
-- What the controller does with each of the four signals that it waits for.
use p2p_livestreaming.Prelude.{
  ℕ, ◌≡◌, ◌≢◌, ◌<◌, refl, ap, ◌∙◌, true, false, ◌||◌, none, some, List, [], ◌∷◌, arith, Bytes, ◌==◌,
  is_some,
}
use p2p_livestreaming.OpenFlow.{TcpFrame, Event}
use p2p_livestreaming.Rtmp.{rtmp_port}
use p2p_livestreaming.Bypass.{Switch, ok, state, learn_source, normal_send}
use p2p_livestreaming.Bypass.RtmpHandler.{observe_payload, handle_rtmp}
use p2p_livestreaming.Bypass.Dispatch.{handle_tcp, handle_packet_in, run}
use p2p_livestreaming.Bypass.Invariant.{Inv, handle_packet_in-Inv}
use p2p_livestreaming.Bypass.Forwarding.{entered}
use p2p_livestreaming.Bypass.Signal.{
  Kind, asks_play, starts_play, asks_publish, starts_publish, begins_stream, IsSignal,
  handle_rtmp-signal,
}

-- What each signal adds to the state.
abbrev pub viewer_asked : TcpFrame → Event → Switch → Switch
viewer_asked f e s = record s {
  roles = record s.roles {
    vport = some e.port;
    v_dl_addr = some e.src;
    v_nw_addr = some f.srcip;
    v_tp_port = some f.srcport;
  };
  status = record s.status { status_vplay = true };
}

abbrev pub broadcaster_asked : TcpFrame → Event → Switch → Switch
broadcaster_asked f e s = record s {
  roles = record s.roles {
    bport = some e.port;
    b_dl_addr = some e.src;
    b_nw_addr = some f.srcip;
    b_tp_port = some f.srcport;
  };
  status = record s.status { status_bpublish = true };
}

abbrev pub viewer_served : TcpFrame → Event → Switch → Switch
viewer_served f e s = record s {
  roles = record s.roles { sport = some e.port; s_dl_addr = some e.src; s_nw_addr = some f.srcip };
  status = record s.status { status_vready = true };
}

abbrev pub broadcaster_served : Switch → Switch
broadcaster_served s = record s { status = record s.status { status_bready = true } }

abbrev pub stream_begun : Switch → Switch
stream_begun s = record s { status = record s.status { status_stream_begin = true } }

observe_play_req :
    (f : TcpFrame) (e : Event) (g : IsSignal asks_play f) (s : Switch)
    → f.dstport ≡ rtmp_port
    → observe_payload f e g.packet.msg_length (some g.body) s ≡ ok (viewer_asked f e s)
unfolding observe_payload
observe_play_req f e g s to_service = ground arith

observe_publish_req :
    (f : TcpFrame) (e : Event) (g : IsSignal asks_publish f) (s : Switch)
    → f.dstport ≡ rtmp_port
    → observe_payload f e g.packet.msg_length (some g.body) s ≡ ok (broadcaster_asked f e s)
unfolding observe_payload
observe_publish_req f e g s to_service = ground arith

observe_play_start :
    (f : TcpFrame) (e : Event) (g : IsSignal starts_play f) (s : Switch)
    → f.srcport ≡ rtmp_port
    → s.sport ≡ none
    → is_some s.vport ≡ true
    → s.status_vplay ≡ true
    → observe_payload f e g.packet.msg_length (some g.body) s ≡ ok (viewer_served f e s)
unfolding observe_payload
observe_play_start f e g s from_service unknown viewer asked = ground arith

observe_publish_start :
    (f : TcpFrame) (e : Event) (g : IsSignal starts_publish f) (s : Switch)
    → f.srcport ≡ rtmp_port
    → 0 < e.port
    → s.sport ≡ some e.port
    → s.s_dl_addr ≡ some e.src
    → s.s_nw_addr ≡ some f.srcip
    → is_some s.bport ≡ true
    → s.status_bpublish ≡ true
    → observe_payload f e g.packet.msg_length (some g.body) s ≡ ok (broadcaster_served s)
unfolding observe_payload
observe_publish_start f e g s from_service pos port src ip broadcaster asked = ground arith

observe_begin :
    (f : TcpFrame) (e : Event) (g : IsSignal begins_stream f) (s : Switch)
    → f.srcport ≡ rtmp_port
    → s.status_vready ≡ true
    → observe_payload f e g.packet.msg_length (some g.body) s ≡ ok (stream_begun s)
unfolding observe_payload
observe_begin f e g s from_service ready = ground arith

-- A signal of a client to the service, and one of the service to a client.
pub record IsRequest (k : Kind) (f : TcpFrame) (e : Event) : Type 0 where
  pub carried : e.tcp ≡ some f
  pub signal : IsSignal k f
  pub to_service : f.dstport ≡ rtmp_port
  pub differ : f.srcport ≢ f.dstport

pub record IsAnswer (k : Kind) (f : TcpFrame) (e : Event) : Type 0 where
  pub carried : e.tcp ≡ some f
  pub signal : IsSignal k f
  pub from_service : f.srcport ≡ rtmp_port
  pub differ : f.srcport ≢ f.dstport

-- The state behind a signal, from the state that its checks lead to.
abbrev pub behind : Event → (Switch → Switch) → Switch → Switch
behind e change s =
    entered (normal_send e (change (record (learn_source e s) { prepend_buf = none })))

module _ (show_ip : ℕ → Bytes) where
  pub handle_packet_in-rtmp :
      (f : TcpFrame) (e : Event) (s : Switch)
      → e.tcp ≡ some f
      → s.p2p_enabled ≡ false
      → s.p2p_set_off ≡ false
      → (f.srcport == rtmp_port || f.dstport == rtmp_port) ≡ true
      → handle_packet_in show_ip e s ≡ handle_rtmp f e s
  unfolding handle_packet_in
  handle_packet_in-rtmp f e s carried on off port =
      rw carried (unfold handle_tcp in rw on (rw off (rw port)))

  pub run-nil : (s : Switch) → run show_ip [] s ≡ s
  unfolding run
  run-nil s = refl

  pub run-cons :
      (e : Event) (es : List Event) (s t : Switch)
      → handle_packet_in show_ip e s ≡ ok t
      → run show_ip (e ∷ es) s ≡ run show_ip es t
  unfolding run
  run-cons e es s t h = ap (λ m. run show_ip es (state m)) h

  pub behind-Inv : (e : Event) (s t : Switch) → Inv s → handle_packet_in show_ip e s ≡ ok t → Inv t
  behind-Inv e s t inv h = rw h at (handle_packet_in-Inv show_ip e s inv)

  module _ (f : TcpFrame) (e : Event) (s : Switch) (inv : Inv s) (empty : s.prepend_buf ≡ none)
      (on : s.p2p_enabled ≡ false) (off : s.p2p_set_off ≡ false) where
    pub play_req-step :
        IsRequest asks_play f e → handle_packet_in show_ip e s ≡ ok (behind e (viewer_asked f e) s)
    play_req-step r =
        handle_packet_in-rtmp f e s r.carried on off (ground (arith, r.to_service))
        ∙ handle_rtmp-signal asks_play f e r.signal s _ inv empty r.differ
            (observe_play_req f e r.signal _ r.to_service)

    pub publish_req-step :
        IsRequest asks_publish f e
        → handle_packet_in show_ip e s ≡ ok (behind e (broadcaster_asked f e) s)
    publish_req-step r =
        handle_packet_in-rtmp f e s r.carried on off (ground (arith, r.to_service))
        ∙ handle_rtmp-signal asks_publish f e r.signal s _ inv empty r.differ
            (observe_publish_req f e r.signal _ r.to_service)

    pub play_start-step :
        IsAnswer starts_play f e
        → s.sport ≡ none
        → is_some s.vport ≡ true
        → s.status_vplay ≡ true
        → handle_packet_in show_ip e s ≡ ok (behind e (viewer_served f e) s)
    play_start-step r unknown viewer asked =
        handle_packet_in-rtmp f e s r.carried on off (ground (arith, r.from_service))
        ∙ handle_rtmp-signal starts_play f e r.signal s _ inv empty r.differ (
            observe_play_start f e r.signal (record (learn_source e s) { prepend_buf = none })
              r.from_service unknown viewer asked)

    pub publish_start-step :
        IsAnswer starts_publish f e
        → 0 < e.port
        → s.sport ≡ some e.port
        → s.s_dl_addr ≡ some e.src
        → s.s_nw_addr ≡ some f.srcip
        → is_some s.bport ≡ true
        → s.status_bpublish ≡ true
        → handle_packet_in show_ip e s ≡ ok (behind e broadcaster_served s)
    publish_start-step r pos port src ip broadcaster asked =
        handle_packet_in-rtmp f e s r.carried on off (ground (arith, r.from_service))
        ∙ handle_rtmp-signal starts_publish f e r.signal s _ inv empty r.differ (
            observe_publish_start f e r.signal (record (learn_source e s) { prepend_buf = none })
              r.from_service pos port src ip broadcaster asked)

    pub stream_begin-step :
        IsAnswer begins_stream f e
        → s.status_vready ≡ true
        → handle_packet_in show_ip e s ≡ ok (behind e stream_begun s)
    stream_begin-step r ready =
        handle_packet_in-rtmp f e s r.carried on off (ground (arith, r.from_service))
        ∙ handle_rtmp-signal begins_stream f e r.signal s _ inv empty r.differ (
            observe_begin f e r.signal (record (learn_source e s) { prepend_buf = none })
              r.from_service ready)
