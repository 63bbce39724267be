-- ===== src/Bypass/Watching.antt =====
-- The reasons for which the RTMP handler enters the P2P stage or leaves the stream alone.
use p2p_livestreaming.Prelude.{
  ℕ, ◌≡◌, inl, inr, Bool, true, false, ◌||◌, Option, none, some, List, [], ◌∷◌, arith, Bytes,
  length, ◌==◌, Bool-cases,
}
use p2p_livestreaming.OpenFlow.{TcpFrame, Event}
use p2p_livestreaming.Rtmp.{
  RtmpControlPacket, Packets, packets, unparsed, out_of_fuel, parse_all, is_stream_begin,
}
use p2p_livestreaming.Bypass.{Switch, Outcome, ok, raised, ◌>>=◌, state, learn_source, normal_send}
use p2p_livestreaming.Bypass.RtmpHandler.{
  play_req, play_start, publish_req, publish_start, stream_begin, observe_payload, observe_all,
  set_off, enable_p2p, handle_packets, prepended, handle_content, handle_rtmp,
}
use p2p_livestreaming.Bypass.Rules.{bind_rule, if_rule}

-- The controller still watches.
pub record IsOpen (s : Switch) : Type 0 where
  pub not_enabled : s.p2p_enabled ≡ false
  pub not_off : s.p2p_set_off ≡ false

-- The P2P stage is enabled only with both ends ready, and set off only with a stream that began
-- without a ready broadcaster, and not both.
pub record IsVerdict (s : Switch) : Type 0 where
  pub enabled_for :
      s.p2p_enabled ≡ true
      → (s.p2p_set_off ≡ false) × (s.status_vready ≡ true) × (s.status_bready ≡ true)
  pub off_for :
      s.p2p_set_off ≡ true
      → (s.p2p_enabled ≡ false) × (s.status_stream_begin ≡ true) × (s.status_bready ≡ false)

pub IsVerdict-IsOpen : (s : Switch) → IsOpen s → IsVerdict s
IsVerdict-IsOpen s h = ground arith

module _ (f : TcpFrame) (e : Event) where
  play_req-IsOpen :
      (payload : Bytes) (s : Switch) → IsOpen s → IsOpen (state (play_req f e payload s))
  unfolding play_req
  play_req-IsOpen payload s h = ground arith

  play_start-IsOpen :
      (payload : Bytes) (s : Switch) → IsOpen s → IsOpen (state (play_start f e payload s))
  unfolding play_start
  play_start-IsOpen payload s h = ground arith

  publish_req-IsOpen :
      (payload : Bytes) (s : Switch) → IsOpen s → IsOpen (state (publish_req f e payload s))
  unfolding publish_req
  publish_req-IsOpen payload s h = ground arith

  publish_start-IsOpen :
      (payload : Bytes) (s : Switch) → IsOpen s → IsOpen (state (publish_start f e payload s))
  unfolding publish_start
  publish_start-IsOpen payload s h = ground arith

  stream_begin-IsOpen :
      (o : Option Bool) (s : Switch) → IsOpen s → IsOpen (state (stream_begin f e o s))
  unfolding stream_begin
  stream_begin-IsOpen none s h = h
  stream_begin-IsOpen (some true) s h = ground arith
  stream_begin-IsOpen (some false) s h = h

  observe_payload-IsOpen :
      (n : Option ℕ) (o : Option Bytes) (s : Switch)
      → IsOpen s
      → IsOpen (state (observe_payload f e n o s))
  unfolding observe_payload
  observe_payload-IsOpen n none s h = h
  observe_payload-IsOpen n (some payload) s h =
      bind_rule IsOpen (play_req f e payload s) _ (play_req-IsOpen payload s h) λ s₁ h₁.
        bind_rule IsOpen (play_start f e payload s₁) _ (play_start-IsOpen payload s₁ h₁) λ s₂ h₂.
          bind_rule IsOpen (publish_req f e payload s₂) _ (publish_req-IsOpen payload s₂ h₂)
            λ s₃ h₃.
              bind_rule IsOpen (publish_start f e payload s₃) _ (publish_start-IsOpen payload s₃ h₃)
                λ s₄ h₄. stream_begin-IsOpen (is_stream_begin n payload) s₄ h₄

  observe_all-IsOpen :
      (qs : List RtmpControlPacket) (s : Switch) → IsOpen s → IsOpen (state (observe_all f e qs s))
  unfolding observe_all
  observe_all-IsOpen [] s h = h
  observe_all-IsOpen (q ∷ qs) s h =
      bind_rule IsOpen (observe_payload f e q.msg_length q.payload s) _
        (observe_payload-IsOpen q.msg_length q.payload s h) (observe_all-IsOpen qs)

  normal_send-IsOpen : (s : Switch) → IsOpen s → IsOpen (normal_send e s)
  unfolding normal_send
  normal_send-IsOpen s h = ground arith

  set_off-IsVerdict :
      (s : Switch)
      → IsOpen s
      → IsVerdict (state (set_off s)) × ((state (set_off s)).p2p_enabled ≡ false)
  unfolding set_off
  set_off-IsVerdict s h = ground arith

  enable_p2p-IsVerdict :
      (s : Switch) → IsVerdict s × (s.p2p_enabled ≡ false) → IsVerdict (state (enable_p2p s))
  unfolding enable_p2p
  enable_p2p-IsVerdict s h = ground arith

  handle_packets-IsVerdict :
      (r : Packets) (s : Switch) → IsOpen s → IsVerdict (state (handle_packets f e r s))
  unfolding handle_packets
  handle_packets-IsVerdict out_of_fuel s h = IsVerdict-IsOpen s h
  handle_packets-IsVerdict unparsed s h = IsVerdict-IsOpen _ (normal_send-IsOpen s h)
  handle_packets-IsVerdict (packets []) s h = IsVerdict-IsOpen s h
  handle_packets-IsVerdict (packets (q ∷ qs)) s h =
      seen-IsVerdict (observe_all f e (q ∷ qs) s) (observe_all-IsOpen (q ∷ qs) s h)
    where
      seen-IsVerdict :
          (m : Outcome)
          → IsOpen (state m)
          → IsVerdict (state (m >>= λ t. set_off (normal_send e t) >>= enable_p2p))
      seen-IsVerdict (raised x t) o = IsVerdict-IsOpen t o
      seen-IsVerdict (ok t) o =
          let (v, on) = set_off-IsVerdict (normal_send e t) (normal_send-IsOpen t o) in
          entered-IsVerdict (set_off (normal_send e t)) v on
        where
          entered-IsVerdict :
              (m : Outcome)
              → IsVerdict (state m)
              → (state m).p2p_enabled ≡ false
              → IsVerdict (state (m >>= enable_p2p))
          entered-IsVerdict (raised x u) v on = v
          entered-IsVerdict (ok u) v on = enable_p2p-IsVerdict u (v, on)

  handle_content-IsVerdict :
      (content : Bytes) (s : Switch) → IsOpen s → IsVerdict (state (handle_content f e content s))
  unfolding handle_content
  handle_content-IsVerdict content s h =
      let sent_on = IsVerdict-IsOpen _ (normal_send-IsOpen s h) in
      if_rule IsVerdict (length content == 0) _ _ sent_on (
        if_rule IsVerdict (length content == 88 || length content == 89) _ _ sent_on (
          if_rule IsVerdict (length content == 12) _ _
            (IsVerdict-IsOpen _
              (normal_send-IsOpen (record s { prepend_buf = some content }) (ground arith)))
            (handle_packets-IsVerdict (parse_all (prepended s.prepend_buf content))
              (record s { prepend_buf = none }) (ground arith))))

  pub handle_rtmp-IsVerdict : (s : Switch) → IsOpen s → IsVerdict (state (handle_rtmp f e s))
  unfolding handle_rtmp
  handle_rtmp-IsVerdict s h = elim (Bool-cases (f.srcport == f.dstport)) [
    | inl same ↦ rw same (IsVerdict-IsOpen (learn_source e s) (ground arith))
    | inr differ ↦ rw differ (handle_content-IsVerdict f.payload (learn_source e s) (ground arith))
  ]
