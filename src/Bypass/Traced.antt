-- ===== src/Bypass/Traced.antt =====
-- What one packet may record at the controller, and what it must have carried for that.
use p2p_livestreaming.Prelude.{
  ℕ, ◌≡◌, ◌⊎◌, Bool, true, false, not, ◌||◌, Option, none, some, List, [], ◌∷◌, arith, ◌==◌, length,
  Bytes,
}
use p2p_livestreaming.OpenFlow.{TcpFrame, Event}
use p2p_livestreaming.Rtmp.{
  rtmp_port, parse_all, is_play_req, is_play_start, is_publish_req, is_publish_start,
  is_stream_begin, Packets, packets, unparsed, out_of_fuel, RtmpControlPacket,
}
use p2p_livestreaming.Bypass.{Switch, state, normal_send, learn_source}
use p2p_livestreaming.Bypass.Rules.{bind_rule, if_rule, assert_rule}
use p2p_livestreaming.Bypass.RtmpHandler.{
  play_req, play_start, publish_req, publish_start, stream_begin, observe_payload, observe_all,
  set_off, enable_p2p, handle_packets, prepended, handle_content, handle_rtmp,
}

abbrev payload_is : (Bytes → Bool) → Option Bytes → Bool
payload_is test none = false
payload_is test (some payload) = test payload

abbrev any_payload : (Bytes → Bool) → List RtmpControlPacket → Bool
any_payload test [] = false
any_payload test (q ∷ qs) = payload_is test q.payload || any_payload test qs

abbrev any_packet : (Bytes → Bool) → Packets → Bool
any_packet test (packets qs) = any_payload test qs
any_packet test unparsed = false
any_packet test out_of_fuel = false

-- A frame that the controller receives in the state `s` has an RTMP packet of a kind in it.
abbrev pub carries : (Bytes → Bool) → TcpFrame → Switch → Bool
carries test f s = any_packet test (parse_all (prepended s.prepend_buf f.payload))

-- Each host in the record and each ready end in `t` stood in `s` already, or has its signal in the
-- frame.
pub record Traced (f : TcpFrame) (shows : (Bytes → Bool) → Bool) (s t : Switch) : Type 0 where
  pub viewer :
      (x : ℕ)
      → t.v_nw_addr ≡ some x
      → (s.v_nw_addr ≡ some x)
        ⊎ ((f.srcip ≡ x) × (f.dstport ≡ rtmp_port) × (shows is_play_req ≡ true))
  pub broadcaster :
      (x : ℕ)
      → t.b_nw_addr ≡ some x
      → (s.b_nw_addr ≡ some x)
        ⊎ ((f.srcip ≡ x) × (f.dstport ≡ rtmp_port) × (shows is_publish_req ≡ true))
  pub vready :
      t.status_vready ≡ true
      → (s.status_vready ≡ true) ⊎ ((f.srcport ≡ rtmp_port) × (shows is_play_start ≡ true))
  pub bready :
      t.status_bready ≡ true
      → (s.status_bready ≡ true) ⊎ ((f.srcport ≡ rtmp_port) × (shows is_publish_start ≡ true))

module _ (f : TcpFrame) (e : Event) (shows : (Bytes → Bool) → Bool) (s₀ : Switch) where
  abbrev P : Switch → Type 0
  P = Traced f shows s₀

  play_req-Traced :
      (payload : Bytes) (s : Switch)
      → (is_play_req payload ≡ true → shows is_play_req ≡ true)
      → P s
      → P (state (play_req f e payload s))
  unfolding play_req
  play_req-Traced payload s shown h = ground arith

  play_start-Traced :
      (payload : Bytes) (s : Switch)
      → (is_play_start payload ≡ true → shows is_play_start ≡ true)
      → P s
      → P (state (play_start f e payload s))
  unfolding play_start
  play_start-Traced payload s shown h = ground arith

  publish_req-Traced :
      (payload : Bytes) (s : Switch)
      → (is_publish_req payload ≡ true → shows is_publish_req ≡ true)
      → P s
      → P (state (publish_req f e payload s))
  unfolding publish_req
  publish_req-Traced payload s shown h = ground arith

  publish_start-Traced :
      (payload : Bytes) (s : Switch)
      → (is_publish_start payload ≡ true → shows is_publish_start ≡ true)
      → P s
      → P (state (publish_start f e payload s))
  unfolding publish_start
  publish_start-Traced payload s shown h = ground arith

  stream_begin-Traced : (o : Option Bool) (s : Switch) → P s → P (state (stream_begin f e o s))
  unfolding stream_begin
  stream_begin-Traced none s h = h
  stream_begin-Traced (some true) s h = ground arith
  stream_begin-Traced (some false) s h = h

  observe_payload-Traced :
      (n : Option ℕ) (o : Option Bytes) (s : Switch)
      → ((test : Bytes → Bool) → payload_is test o ≡ true → shows test ≡ true)
      → P s
      → P (state (observe_payload f e n o s))
  unfolding observe_payload
  observe_payload-Traced n none s shown h = h
  observe_payload-Traced n (some payload) s shown h =
      bind_rule P (play_req f e payload s) _ (play_req-Traced payload s (shown is_play_req) h)
        λ s₁ h₁.
          bind_rule P (play_start f e payload s₁) _
            (play_start-Traced payload s₁ (shown is_play_start) h₁)
            λ s₂ h₂.
              bind_rule P (publish_req f e payload s₂) _
                (publish_req-Traced payload s₂ (shown is_publish_req) h₂)
                λ s₃ h₃.
                  bind_rule P (publish_start f e payload s₃) _
                    (publish_start-Traced payload s₃ (shown is_publish_start) h₃)
                    λ s₄ h₄. stream_begin-Traced (is_stream_begin n payload) s₄ h₄

  observe_all-Traced :
      (qs : List RtmpControlPacket) (s : Switch)
      → ((test : Bytes → Bool) → any_payload test qs ≡ true → shows test ≡ true)
      → P s
      → P (state (observe_all f e qs s))
  unfolding observe_all
  observe_all-Traced [] s shown h = h
  observe_all-Traced (q ∷ qs) s shown h =
      bind_rule P (observe_payload f e q.msg_length q.payload s) _
        (observe_payload-Traced q.msg_length q.payload s
          (λ test it. shown test (ground (arith, it))) h)
        (λ s₁ h₁. observe_all-Traced qs s₁ (λ test it. shown test (ground (arith, it))) h₁)

  normal_send-Traced : (s : Switch) → P s → P (normal_send e s)
  unfolding normal_send
  normal_send-Traced s h = ground arith

  set_off-Traced : (s : Switch) → P s → P (state (set_off s))
  unfolding set_off
  set_off-Traced s h = ground arith

  enable_p2p-Traced : (s : Switch) → P s → P (state (enable_p2p s))
  unfolding enable_p2p
  enable_p2p-Traced s h = ground arith

  handle_packets-Traced :
      (r : Packets) (s : Switch)
      → ((test : Bytes → Bool) → any_packet test r ≡ true → shows test ≡ true)
      → P s
      → P (state (handle_packets f e r s))
  unfolding handle_packets
  handle_packets-Traced out_of_fuel s shown h = h
  handle_packets-Traced unparsed s shown h = normal_send-Traced s h
  handle_packets-Traced (packets []) s shown h = h
  handle_packets-Traced (packets (q ∷ qs)) s shown h =
      bind_rule P (observe_all f e (q ∷ qs) s) _ (observe_all-Traced (q ∷ qs) s shown h) λ s₁ h₁.
        bind_rule P (set_off (normal_send e s₁)) enable_p2p
          (set_off-Traced (normal_send e s₁) (normal_send-Traced s₁ h₁)) enable_p2p-Traced

  handle_content-Traced :
      (s : Switch)
      → ((test : Bytes → Bool) → carries test f s ≡ true → shows test ≡ true)
      → P s
      → P (state (handle_content f e f.payload s))
  unfolding handle_content
  handle_content-Traced s shown h = if_rule P (length f.payload == 0) _ _ (normal_send-Traced s h) (
      if_rule P (length f.payload == 88 || length f.payload == 89) _ _ (normal_send-Traced s h) (
        if_rule P (length f.payload == 12) _ _
          (normal_send-Traced (record s { prepend_buf = some f.payload }) (ground arith))
          (handle_packets-Traced (parse_all (prepended s.prepend_buf f.payload))
            (record s { prepend_buf = none }) shown (ground arith))))

pub handle_rtmp-Traced :
    (f : TcpFrame) (e : Event) (s : Switch)
    → Traced f (λ test. carries test f s) s (state (handle_rtmp f e s))
unfolding handle_rtmp
handle_rtmp-Traced f e s =
    let shows = λ (test : Bytes → Bool). carries test f s in
    assert_rule (Traced f shows s) (not (f.srcport == f.dstport)) (learn_source e s) _
      (ground arith)
      (handle_content-Traced f e shows s (learn_source e s) (λ test it. it) (ground arith))
