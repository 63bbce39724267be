-- ===== src/Bypass/Rejoin.antt =====
-- The 12 bytes that the RTMP handler keeps for the next frame.
use p2p_livestreaming.Prelude.{
  ℕ, ◌+◌, ◌≡◌, ◌≢◌, refl, sym, ap, ◌∙◌, true, false, Option, none, some, List, [], ◌∷◌, ◌++◌, arith,
  length, length-append, Bytes,
}
use mathlib.Core.Path.{subst}
use p2p_livestreaming.OpenFlow.{TcpFrame, Event}
use p2p_livestreaming.Rtmp.{
  rtmp_port, RtmpControlPacket, Packets, packets, unparsed, out_of_fuel, parse_all,
}
use p2p_livestreaming.Bypass.{Switch, ok, state, ◌>>=◌, learn_source, normal_send}
use p2p_livestreaming.Bypass.RtmpHandler.{
  observe_payload, observe_all, set_off, enable_p2p, handle_packets, prepended, handle_content,
  handle_rtmp,
}
use p2p_livestreaming.Bypass.Dispatch.{on_port, handle_packet_in, run}
use p2p_livestreaming.Bypass.Signal.{ports_differ}
use p2p_livestreaming.Bypass.Steps.{handle_packet_in-rtmp, run-cons}

-- A frame with another payload.
abbrev pub with_payload : Bytes → TcpFrame → TcpFrame
with_payload content f = record f { payload = content }

module _ (f : TcpFrame) (e : Event) (content : Bytes) where
  observe_payload-with_payload :
      (n : Option ℕ) (o : Option Bytes) (s : Switch)
      → observe_payload (with_payload content f) e n o s ≡ observe_payload f e n o s
  unfolding observe_payload
  observe_payload-with_payload n none s = refl
  observe_payload-with_payload n (some payload) s = refl

  observe_all-with_payload :
      (qs : List RtmpControlPacket) (s : Switch)
      → observe_all (with_payload content f) e qs s ≡ observe_all f e qs s
  unfolding observe_all
  observe_all-with_payload [] s = refl
  observe_all-with_payload (q ∷ qs) s =
      ap (λ m. m >>= observe_all (with_payload content f) e qs)
        (observe_payload-with_payload q.msg_length q.payload s)
      ∙ ap (λ k. observe_payload f e q.msg_length q.payload s >>= k)
          (λ i t. observe_all-with_payload qs t i)

  handle_packets-with_payload :
      (r : Packets) (s : Switch)
      → handle_packets (with_payload content f) e r s ≡ handle_packets f e r s
  unfolding handle_packets
  handle_packets-with_payload out_of_fuel s = refl
  handle_packets-with_payload unparsed s = refl
  handle_packets-with_payload (packets []) s = refl
  handle_packets-with_payload (packets (q ∷ qs)) s =
      ap (λ m. m >>= λ t. set_off (normal_send e t) >>= enable_p2p)
        (observe_all-with_payload (q ∷ qs) s)

-- A content that is handed to the parser: none of the lengths that the handler tests.
abbrev pub IsLong : ℕ → Type 0
IsLong n = (n ≢ 0) × (n ≢ 12) × (n ≢ 88) × (n ≢ 89)

handle_content-long :
    (f : TcpFrame) (e : Event) (content : Bytes) (s : Switch)
    → IsLong (length content)
    → handle_content f e content s
      ≡ handle_packets f e
          (parse_all (prepended s.prepend_buf content))
          (record s { prepend_buf = none })
unfolding handle_content
handle_content-long f e content s h = ground arith

handle_content-kept :
    (f : TcpFrame) (e : Event) (content : Bytes) (s : Switch)
    → length content ≡ 12
    → handle_content f e content s ≡ ok (normal_send e (record s { prepend_buf = some content }))
unfolding handle_content
handle_content-kept f e content s h = ground arith

handle_rtmp-content :
    (f : TcpFrame) (e : Event) (s : Switch)
    → f.srcport ≢ f.dstport
    → handle_rtmp f e s ≡ handle_content f e f.payload (learn_source e s)
unfolding handle_rtmp
handle_rtmp-content f e s ne = rw (ports_differ (f.srcport) (f.dstport) ne) refl

-- A frame with kept bytes is handled as if its payload came behind them.
handle_rtmp-prepended :
    (f : TcpFrame) (e : Event) (s : Switch) (buf : Bytes)
    → f.srcport ≢ f.dstport
    → s.prepend_buf ≡ some buf
    → IsLong (length f.payload)
    → IsLong (length (buf ++ f.payload))
    → handle_rtmp f e s
      ≡ handle_rtmp (with_payload (buf ++ f.payload) f) e (record s { prepend_buf = none })
unfolding prepended
handle_rtmp-prepended f e s buf ne kept long joined =
    let whole = buf ++ f.payload in
    let g = with_payload whole f in
    let s₁ = record s { prepend_buf = none } in
    handle_rtmp-content f e s ne
    ∙ handle_content-long f e f.payload (learn_source e s) long
    ∙ ap (λ o. handle_packets f e (parse_all (prepended o f.payload)) (learn_source e s₁)) kept
    ∙ sym (handle_packets-with_payload f e whole (parse_all whole) (learn_source e s₁))
    ∙ sym (handle_content-long g e whole (learn_source e s₁) joined)
    ∙ sym (handle_rtmp-content g e s₁ ne)

run-one :
    (show_ip : ℕ → Bytes) (e : Event) (s : Switch)
    → run show_ip (e ∷ []) s ≡ state (handle_packet_in show_ip e s)
unfolding run
run-one show_ip e s = refl

-- A frame on the RTMP port, of any connection.
pub record IsRtmp (f : TcpFrame) (e : Event) : Type 0 where
  pub carried : e.tcp ≡ some f
  pub port : on_port rtmp_port f ≡ true
  pub differ : f.srcport ≢ f.dstport

-- While the controller watches, a frame of 12 bytes on the RTMP port and the next frame on it, of the
-- same connection or of another, are handled as the first frame passed on and then one frame of the
-- second connection with both payloads in it. Each frame has two different ports, and neither the
-- second payload nor the two together have a length that the handler lets pass (0, 12, 88, 89).
pub run-rejoined :
    (show_ip : ℕ → Bytes) (f₁ f₂ : TcpFrame) (e₁ e₂ : Event) (s : Switch)
    → s.p2p_enabled ≡ false
    → s.p2p_set_off ≡ false
    → IsRtmp f₁ e₁
    → IsRtmp f₂ e₂
    → length f₁.payload ≡ 12
    → IsLong (length f₂.payload)
    → IsLong (12 + length f₂.payload)
    → let passed = normal_send e₁ (record (learn_source e₁ s) { prepend_buf = none }) in
      run show_ip (e₁ ∷ e₂ ∷ []) s
      ≡ state (handle_rtmp (with_payload (f₁.payload ++ f₂.payload) f₂) e₂ passed)
unfolding normal_send
run-rejoined show_ip f₁ f₂ e₁ e₂ s on off r₁ r₂ twelve long joined =
    let t = normal_send e₁ (record (learn_source e₁ s) { prepend_buf = some f₁.payload }) in
    let first =
      handle_packet_in-rtmp show_ip f₁ e₁ s r₁.carried on off r₁.port
      ∙ handle_rtmp-content f₁ e₁ s r₁.differ
      ∙ handle_content-kept f₁ e₁ f₁.payload (learn_source e₁ s) twelve in
    let both : IsLong (length (f₁.payload ++ f₂.payload)) =
      subst IsLong
        (ap (λ n. n + length f₂.payload) (sym twelve) ∙ sym (length-append f₁.payload f₂.payload))
        joined in
    run-cons show_ip e₁ (e₂ ∷ []) s t first
    ∙ run-one show_ip e₂ t
    ∙ ap state (
        handle_packet_in-rtmp show_ip f₂ e₂ t r₂.carried on off r₂.port
        ∙ handle_rtmp-prepended f₂ e₂ t f₁.payload r₂.differ refl long both)
