-- ===== src/Bypass/Forwarding.antt =====
-- What the RTMP handler sends and what it may raise.
use p2p_livestreaming.Prelude.{
  ℕ, ◌≡◌, ◌≢◌, refl, ◌∙◌, inl, inr, Bool, true, false, not, ◌&&◌, ◌||◌, ◌⊎◌, Option, none, some,
  List, [], ◌∷◌, ◌++◌, arith, Bytes, length, ◌==◌, if◌then◌else◌, All, Bool-cases,
}
use p2p_livestreaming.OpenFlow.{TcpFrame, Event, ofp, Message, packet_out, PortTable, out_port}
use p2p_livestreaming.Rtmp.{
  Packets, packets, unparsed, RtmpControlPacket, parse_all, is_stream_begin,
}
use p2p_livestreaming.Rtmp.Loop.{Readable, parse_all_total}
use p2p_livestreaming.Bypass.{
  Switch, Outcome, ok, raised, assertion_error, state, ◌>>=◌, normal_send, learn_source,
}
use p2p_livestreaming.Bypass.RtmpHandler.{
  play_req, play_start, publish_req, publish_start, stream_begin, observe_payload, observe_all,
  set_off, enable_p2p, handle_packets, prepended, handle_content, handle_rtmp,
}
use p2p_livestreaming.Bypass.Invariant.{Inv, observe_all-Inv, normal_send-Inv}

-- The packet-out by which a frame goes on: to the learned port of its destination, or to all.
abbrev pub forwarded : Event → PortTable → Message
forwarded e table = packet_out (record {
  actions = out_port (table e.dst) ∷ [];
  body = some (ofp e);
  in_port = e.port;
  buffer_id = none;
})

-- Nothing is sent or learned, and nothing but a failed assertion is raised.
abbrev Silent : Switch → Outcome → Type 0
Silent s (ok s') = (s'.sent ≡ s.sent) × (s'.mac_to_port ≡ s.mac_to_port)
Silent s (raised x s') =
    (x ≡ assertion_error) × (s'.sent ≡ s.sent) × (s'.mac_to_port ≡ s.mac_to_port)

Silent-bind :
    (s : Switch) (m : Outcome) (k : Switch → Outcome)
    → Silent s m
    → ((t : Switch) → Silent t (k t))
    → Silent s (m >>= k)
Silent-bind s (raised x t) k h hk = h
Silent-bind s (ok t) k h hk = Silent-trans (k t) (hk t)
  where
    Silent-trans : (m : Outcome) → Silent t m → Silent s m
    Silent-trans (ok u) q = (q.0 ∙ h.0, q.1 ∙ h.1)
    Silent-trans (raised y u) q = (q.0, q.1 ∙ h.0, q.2 ∙ h.1)

module _ (f : TcpFrame) (e : Event) where
  play_req-Silent : (payload : Bytes) (s : Switch) → Silent s (play_req f e payload s)
  unfolding play_req
  play_req-Silent payload s = ground arith

  play_start-Silent : (payload : Bytes) (s : Switch) → Silent s (play_start f e payload s)
  unfolding play_start
  play_start-Silent payload s = ground arith

  publish_req-Silent : (payload : Bytes) (s : Switch) → Silent s (publish_req f e payload s)
  unfolding publish_req
  publish_req-Silent payload s = ground arith

  publish_start-Silent : (payload : Bytes) (s : Switch) → Silent s (publish_start f e payload s)
  unfolding publish_start
  publish_start-Silent payload s = ground arith

  stream_begin-Silent : (o : Option Bool) (s : Switch) → o ≢ none → Silent s (stream_begin f e o s)
  unfolding stream_begin
  stream_begin-Silent none s h = absurd (h refl)
  stream_begin-Silent (some true) s h = ground arith
  stream_begin-Silent (some false) s h = (refl, refl)

  observe_payload-Silent :
      (n : Option ℕ) (payload : Bytes) (s : Switch)
      → is_stream_begin n payload ≢ none
      → Silent s (observe_payload f e n (some payload) s)
  unfolding observe_payload
  observe_payload-Silent n payload s h = Silent-bind s _ _ (play_req-Silent payload s) λ s₁.
      Silent-bind s₁ _ _ (play_start-Silent payload s₁) λ s₂.
        Silent-bind s₂ _ _ (publish_req-Silent payload s₂) λ s₃.
          Silent-bind s₃ _ _ (publish_start-Silent payload s₃)
            λ s₄. stream_begin-Silent (is_stream_begin n payload) s₄ h

  observe_all-Silent :
      (qs : List RtmpControlPacket) (s : Switch) → All Readable qs → Silent s (observe_all f e qs s)
  unfolding observe_all
  observe_all-Silent [] s h = (refl, refl)
  observe_all-Silent (q ∷ qs) s h =
      let (body, payload_is, safe) = h.0 in
      Silent-bind s _ _ (rw payload_is (observe_payload-Silent q.msg_length body s safe))
        (λ t. observe_all-Silent qs t h.1)

-- The state behind the loop and the sending.
abbrev pub entered : Switch → Switch
entered s = record s {
  status = record s.status {
    p2p_set_off = s.p2p_set_off || s.status_stream_begin && not s.status_bready;
    p2p_enabled = s.p2p_enabled || s.status_vready && s.status_bready;
  };
}

-- From a state that satisfies the invariant, the two assertions behind the loop never fail: the
-- handler sets the P2P stage off or enables it exactly as the statuses say.
pub enter_stage_total : (s : Switch) → Inv s → (set_off s >>= enable_p2p) ≡ ok (entered s)
unfolding set_off enable_p2p
enter_stage_total s h = ground arith

-- The frame was forwarded once, or an assertion failed and nothing was sent.
abbrev pub Forwards : Event → Switch → Outcome → Type 0
Forwards e s (ok t) =
    (t.sent ≡ s.sent ++ forwarded e s.mac_to_port ∷ []) × (t.mac_to_port ≡ s.mac_to_port)
Forwards e s (raised x t) =
    (x ≡ assertion_error) × (t.sent ≡ s.sent) × (t.mac_to_port ≡ s.mac_to_port)

module _ (f : TcpFrame) (e : Event) where
  Forwards-normal_send : (s : Switch) → Forwards e s (ok (normal_send e s))
  unfolding normal_send
  Forwards-normal_send s = (refl, refl)

  Forwards-observed :
      (s : Switch) (m : Outcome)
      → Silent s m
      → Inv (state m)
      → Forwards e s (m >>= λ t. set_off (normal_send e t) >>= enable_p2p)
  Forwards-observed s (raised x t) q h = q
  Forwards-observed s (ok t) q h =
      rw (enter_stage_total (normal_send e t) (normal_send-Inv e t h))
        (unfold normal_send in (λ i. q.0 i ++ forwarded e (q.1 i) ∷ [], q.1))

  handle_packets-Forwards :
      (qs : List RtmpControlPacket) (s : Switch)
      → Inv s
      → All Readable qs
      → Forwards e s (handle_packets f e (packets qs) s)
  unfolding handle_packets
  handle_packets-Forwards [] s h r = (refl, refl, refl)
  handle_packets-Forwards (q ∷ qs) s h r =
      Forwards-observed s (observe_all f e (q ∷ qs) s) (observe_all-Silent f e (q ∷ qs) s r)
        (observe_all-Inv f e (q ∷ qs) s h)

  handle_parsed-Forwards :
      (r : Packets) (s : Switch)
      → Inv s
      → (r ≡ unparsed) ⊎ ((qs : List RtmpControlPacket) × (r ≡ packets qs) × All Readable qs)
      → Forwards e s (handle_packets f e r s)
  handle_parsed-Forwards r s h (inl bad) = rw bad (unfold handle_packets in (refl, refl))
  handle_parsed-Forwards r s h (inr (qs, cut, readable)) =
      rw cut (handle_packets-Forwards qs s h readable)

  Forwards-if :
      (s : Switch) (b : Bool) (m n : Outcome)
      → Forwards e s m
      → Forwards e s n
      → Forwards e s (if b then m else n)
  Forwards-if s true m n hm hn = hm
  Forwards-if s false m n hm hn = hn

  handle_content-Forwards :
      (content : Bytes) (s : Switch) → Inv s → Forwards e s (handle_content f e content s)
  unfolding handle_content
  handle_content-Forwards content s h =
      Forwards-if s (length content == 0) _ _ (refl, refl)
        (Forwards-if s (length content == 88 || length content == 89) _ _ (refl, refl)
          (Forwards-if s (length content == 12) _ _ (refl, refl)
            (handle_parsed-Forwards (parse_all (prepended s.prepend_buf content))
              (record s { prepend_buf = none }) (ground arith)
              (parse_all_total (prepended s.prepend_buf content)))))

  -- From every state that satisfies the invariant, the RTMP handler ends in one of two ways: it has
  -- learned the source and sent the frame on exactly once, to the learned port of its destination
  -- or to all ports; or an assertion failed, the source is learned and nothing was sent. It raises
  -- nothing else, and the loop over the payload never runs out of fuel.
  pub handle_rtmp-Forwards :
      (s : Switch) → Inv s → Forwards e (learn_source e s) (handle_rtmp f e s)
  unfolding handle_rtmp
  handle_rtmp-Forwards s h = elim (Bool-cases (f.srcport == f.dstport)) [
    | inl same ↦ rw same (refl, refl, refl)
    | inr differ ↦ rw differ (handle_content-Forwards f.payload (learn_source e s) (ground arith))
  ]
