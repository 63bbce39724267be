-- ===== src/Bypass/Signal.antt =====
-- A frame with one RTMP packet of a known kind, and what the RTMP handler does with it.
use p2p_livestreaming.Prelude.{
  ℕ, ◌≡◌, ◌≢◌, refl, ap, ◌∙◌, Bool, true, false, ◌||◌, none, some, [], ◌∷◌, arith, Bytes, length,
  ◌==◌,
}
use p2p_livestreaming.OpenFlow.{TcpFrame, Event}
use p2p_livestreaming.Rtmp.{
  RtmpControlPacket, packets, parse_all, is_play_req, is_play_start, is_publish_req,
  is_publish_start, is_stream_begin,
}
use p2p_livestreaming.Bypass.{Switch, Outcome, ok, ◌>>=◌, learn_source, normal_send}
use p2p_livestreaming.Bypass.RtmpHandler.{
  observe_payload, observe_all, set_off, enable_p2p, handle_packets, prepended, handle_content,
  handle_rtmp,
}
use p2p_livestreaming.Bypass.Invariant.{Inv, observe_payload-Inv, normal_send-Inv}
use p2p_livestreaming.Bypass.Forwarding.{entered, enter_stage_total}

pub data Kind : Type 0 where
  asks_play starts_play asks_publish starts_publish begins_stream : Kind

abbrev pub is_kind : Kind → Kind → Bool
is_kind asks_play asks_play = true
is_kind starts_play starts_play = true
is_kind asks_publish asks_publish = true
is_kind starts_publish starts_publish = true
is_kind begins_stream begins_stream = true
is_kind _ _ = false

-- A frame that carries one RTMP packet, whose payload is of this kind and of no other.
pub record IsSignal (k : Kind) (f : TcpFrame) : Type 0 where
  pub packet : RtmpControlPacket
  pub body : Bytes
  pub some_content : (length f.payload == 0) ≡ false
  pub no_handshake : (length f.payload == 88 || length f.payload == 89) ≡ false
  pub no_prefix : (length f.payload == 12) ≡ false
  pub single : parse_all f.payload ≡ packets (packet ∷ [])
  pub payload_is : packet.payload ≡ some body
  pub play_req_is : is_play_req body ≡ is_kind k asks_play
  pub play_start_is : is_play_start body ≡ is_kind k starts_play
  pub publish_req_is : is_publish_req body ≡ is_kind k asks_publish
  pub publish_start_is : is_publish_start body ≡ is_kind k starts_publish
  pub begin_is : is_stream_begin packet.msg_length body ≡ some (is_kind k begins_stream)

bind-ok : (m : Outcome) → (m >>= λ s. ok s) ≡ m
bind-ok (Outcome.ok s) = refl
bind-ok (Outcome.raised x s) = refl

pub ports_differ : (a b : ℕ) → a ≢ b → (a == b) ≡ false
ports_differ a b ne = ground arith

module _ (k : Kind) (f : TcpFrame) (e : Event) (g : IsSignal k f) where
  handle_content-signal :
      (s : Switch)
      → s.prepend_buf ≡ none
      → handle_content f e f.payload s ≡ (
          observe_payload f e g.packet.msg_length (some g.body) (record s { prepend_buf = none })
          >>= λ t. set_off (normal_send e t) >>= enable_p2p)
  unfolding handle_content handle_packets observe_all prepended
  handle_content-signal s h = rw g.some_content (
      rw g.no_handshake (
        rw g.no_prefix (
          rw h (
            rw g.single (
              rw g.payload_is (
                ap (λ m. m >>= λ t. set_off (normal_send e t) >>= enable_p2p)
                  (bind-ok (
                    observe_payload f e g.packet.msg_length (some g.body)
                      (record s { prepend_buf = none })))))))))

  -- The handler on a signal, from the outcome of the checks on its payload.
  pub handle_rtmp-signal :
      (s t : Switch)
      → Inv s
      → s.prepend_buf ≡ none
      → f.srcport ≢ f.dstport
      → observe_payload f e g.packet.msg_length
          (some g.body)
          (record (learn_source e s) { prepend_buf = none })
        ≡ ok t
      → handle_rtmp f e s ≡ ok (entered (normal_send e t))
  unfolding handle_rtmp
  handle_rtmp-signal s t inv h ne seen = rw (ports_differ (f.srcport) (f.dstport) ne) (
      handle_content-signal (learn_source e s) h
      ∙ ap (λ m. m >>= λ u. set_off (normal_send e u) >>= enable_p2p) seen
      ∙ enter_stage_total (normal_send e t) (
          normal_send-Inv e t (
            rw seen at (
              observe_payload-Inv f e g.packet.msg_length (some g.body)
                (record (learn_source e s) { prepend_buf = none }) (ground arith)))))
