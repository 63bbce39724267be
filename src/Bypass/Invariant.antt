-- ===== src/Bypass/Invariant.antt =====
-- What the state of the controller satisfies between two packets, whatever they were and whether
-- or not a handler raised.
use p2p_livestreaming.Prelude.{
  ℕ, ◌≡◌, refl, Bool, true, false, Option, none, some, List, [], ◌∷◌, arith, is_some, Bytes, not,
  ◌||◌, ◌==◌, length,
}
use p2p_livestreaming.OpenFlow.{TcpFrame, Event}
use p2p_livestreaming.Rtmp.{
  parse_all, is_stream_begin, Packets, packets, unparsed, out_of_fuel, RtmpControlPacket,
}
use p2p_livestreaming.Bypass.{assert, Switch, new, state, normal_send, learn_source, handle_normal}
use p2p_livestreaming.Bypass.Rules.{bind_rule, if_rule}
use p2p_livestreaming.Bypass.RtmpHandler.{
  play_req, play_start, publish_req, publish_start, stream_begin, observe_payload, observe_all,
  set_off, enable_p2p, handle_packets, prepended, handle_content, handle_rtmp,
}
use p2p_livestreaming.Bypass.NotifyHandler.{handle_notify}
use p2p_livestreaming.Bypass.Dispatch.{handle_tcp, handle_packet_in, run}

-- Each status implies the roles that it was learned with.
pub record Inv (s : Switch) : Type 0 where
  pub viewer_whole : (is_some s.vport ≡ is_some s.v_nw_addr)
  pub broadcaster_whole : (is_some s.bport ≡ is_some s.b_nw_addr)
  pub service_whole : (is_some s.sport ≡ is_some s.s_nw_addr)
  pub vplay_known : s.status_vplay ≡ true → is_some s.vport ≡ true
  pub vready_known : s.status_vready ≡ true → (s.status_vplay ≡ true) × (is_some s.sport ≡ true)
  pub bpublish_known : s.status_bpublish ≡ true → is_some s.bport ≡ true
  pub bready_known : s.status_bready ≡ true → (s.status_bpublish ≡ true) × (is_some s.sport ≡ true)
  pub begun : s.status_stream_begin ≡ true → s.status_vready ≡ true
  pub enabled_ready : s.p2p_enabled ≡ true → (s.status_vready ≡ true) × (s.status_bready ≡ true)
  pub off_begun : s.p2p_set_off ≡ true → s.status_stream_begin ≡ true

pub Inv-new : Inv new
Inv-new = ground arith

pub is_some_known : (o : Option ℕ) → is_some o ≡ true → (x : ℕ) × (o ≡ some x)
is_some_known none h = absurd (ground (arith, h))
is_some_known (some x) h = (x, refl)

-- In the P2P stage both hosts are recorded.
pub enabled_known :
    (s : Switch)
    → Inv s
    → s.p2p_enabled ≡ true
    → ((v : ℕ) × (s.v_nw_addr ≡ some v)) × ((b : ℕ) × (s.b_nw_addr ≡ some b))
enabled_known s i on =
    (is_some_known s.v_nw_addr (ground (arith, i)), is_some_known s.b_nw_addr (ground (arith, i)))

module _ (f : TcpFrame) (e : Event) where
  play_req-Inv : (payload : Bytes) (s : Switch) → Inv s → Inv (state (play_req f e payload s))
  unfolding play_req
  play_req-Inv payload s h = ground arith

  publish_req-Inv : (payload : Bytes) (s : Switch) → Inv s → Inv (state (publish_req f e payload s))
  unfolding publish_req
  publish_req-Inv payload s h = ground arith

  play_start-Inv : (payload : Bytes) (s : Switch) → Inv s → Inv (state (play_start f e payload s))
  unfolding play_start
  play_start-Inv payload s h = ground arith

  publish_start-Inv :
      (payload : Bytes) (s : Switch) → Inv s → Inv (state (publish_start f e payload s))
  unfolding publish_start
  publish_start-Inv payload s h = ground arith

  stream_begin-Inv : (o : Option Bool) (s : Switch) → Inv s → Inv (state (stream_begin f e o s))
  unfolding stream_begin
  stream_begin-Inv none s h = h
  stream_begin-Inv (some true) s h = ground arith
  stream_begin-Inv (some false) s h = h

set_off-Inv : (s : Switch) → Inv s → Inv (state (set_off s))
unfolding set_off
set_off-Inv s h = ground arith

enable_p2p-Inv : (s : Switch) → Inv s → Inv (state (enable_p2p s))
unfolding enable_p2p
enable_p2p-Inv s h = ground arith

pub normal_send-Inv : (e : Event) (s : Switch) → Inv s → Inv (normal_send e s)
unfolding normal_send
normal_send-Inv e s h = ground arith

handle_normal-Inv : (e : Event) (s : Switch) → Inv s → Inv (state (handle_normal e s))
unfolding handle_normal
handle_normal-Inv e s h = ground arith

module _ (f : TcpFrame) (e : Event) where
  pub observe_payload-Inv :
      (n : Option ℕ) (o : Option Bytes) (s : Switch)
      → Inv s
      → Inv (state (observe_payload f e n o s))
  unfolding observe_payload
  observe_payload-Inv n none s h = h
  observe_payload-Inv n (some payload) s h =
      bind_rule Inv (play_req f e payload s) _ (play_req-Inv f e payload s h) λ s₁ h₁.
        bind_rule Inv (play_start f e payload s₁) _ (play_start-Inv f e payload s₁ h₁) λ s₂ h₂.
          bind_rule Inv (publish_req f e payload s₂) _ (publish_req-Inv f e payload s₂ h₂) λ s₃ h₃.
            bind_rule Inv (publish_start f e payload s₃) _ (publish_start-Inv f e payload s₃ h₃)
              λ s₄ h₄. stream_begin-Inv f e (is_stream_begin n payload) s₄ h₄

  pub observe_all-Inv :
      (qs : List RtmpControlPacket) (s : Switch) → Inv s → Inv (state (observe_all f e qs s))
  unfolding observe_all
  observe_all-Inv [] s h = h
  observe_all-Inv (q ∷ qs) s h =
      bind_rule Inv (observe_payload f e q.msg_length q.payload s) _
        (observe_payload-Inv q.msg_length q.payload s h) (observe_all-Inv qs)

  handle_packets-Inv : (r : Packets) (s : Switch) → Inv s → Inv (state (handle_packets f e r s))
  unfolding handle_packets
  handle_packets-Inv out_of_fuel s h = h
  handle_packets-Inv unparsed s h = normal_send-Inv e s h
  handle_packets-Inv (packets []) s h = h
  handle_packets-Inv (packets (q ∷ qs)) s h =
      bind_rule Inv (observe_all f e (q ∷ qs) s) _ (observe_all-Inv (q ∷ qs) s h) λ s₁ h₁.
        bind_rule Inv (set_off (normal_send e s₁)) enable_p2p
          (set_off-Inv (normal_send e s₁) (normal_send-Inv e s₁ h₁)) enable_p2p-Inv

  handle_content-Inv :
      (content : Bytes) (s : Switch) → Inv s → Inv (state (handle_content f e content s))
  unfolding handle_content
  handle_content-Inv content s h = if_rule Inv (length content == 0) _ _ (normal_send-Inv e s h) (
      if_rule Inv (length content == 88 || length content == 89) _ _ (normal_send-Inv e s h) (
        if_rule Inv (length content == 12) _ _ (ground arith) (
          handle_packets-Inv (parse_all (prepended s.prepend_buf content))
            (record s { prepend_buf = none }) (ground arith))))

  handle_rtmp-Inv : (s : Switch) → Inv s → Inv (state (handle_rtmp f e s))
  unfolding handle_rtmp
  handle_rtmp-Inv s h =
      bind_rule Inv (assert (not (f.srcport == f.dstport)) (learn_source e s)) _ (ground arith)
        (handle_content-Inv f.payload)

module _ (show_ip : ℕ → Bytes) where
  handle_notify-Inv :
      (f : TcpFrame) (e : Event) (s : Switch) → Inv s → Inv (state (handle_notify show_ip f e s))
  unfolding handle_notify
  handle_notify-Inv f e s h = ground arith

  handle_tcp-Inv :
      (o : Option TcpFrame) (e : Event) (s : Switch)
      → Inv s
      → Inv (state (handle_tcp show_ip o e s))
  unfolding handle_tcp
  handle_tcp-Inv none e s h = handle_normal-Inv e s h
  handle_tcp-Inv (some f) e s h =
      ground (arith, handle_rtmp-Inv f e s h, handle_notify-Inv f e s h, handle_normal-Inv e s h)

  pub handle_packet_in-Inv :
      (e : Event) (s : Switch) → Inv s → Inv (state (handle_packet_in show_ip e s))
  unfolding handle_packet_in
  handle_packet_in-Inv e s h = handle_tcp-Inv e.tcp e s h

  -- Whatever packets follow, a controller in which each status implies the roles that it was learned
  -- with stays so, also where a handler raises.
  pub run-Inv : (es : List Event) (s : Switch) → Inv s → Inv (run show_ip es s)
  unfolding run
  run-Inv [] s h = h
  run-Inv (e ∷ es) s h =
      run-Inv es (state (handle_packet_in show_ip e s)) (handle_packet_in-Inv e s h)
