-- ===== src/Bypass/Quiet.antt =====
-- Packets that the controller only passes on: anything but RTMP, and RTMP frames without a keyword.
use p2p_livestreaming.Prelude.{
  ℕ, ◌≡◌, refl, sym, ap, ◌∙◌, inl, inr, true, false, ◌&&◌, ◌||◌, none, some, List, [], ◌∷◌, arith,
  All, Bytes, length, ◌==◌, Bool-cases,
}
use mathlib.Core.Path.{subst}
use p2p_livestreaming.OpenFlow.{TcpFrame, Event}
use p2p_livestreaming.Rtmp.{
  rtmp_port, RtmpControlPacket, Packets, packets, unparsed, parse_all, is_play_req, is_play_start,
  is_publish_req, is_publish_start, is_stream_begin,
}
use p2p_livestreaming.Bypass.{Switch, Outcome, ok, ◌>>=◌, state, learn_source, normal_send}
use p2p_livestreaming.Bypass.RtmpHandler.{
  observe_payload, observe_all, set_off, enable_p2p, handle_packets, prepended, handle_content,
  handle_rtmp,
}
use p2p_livestreaming.Bypass.Dispatch.{on_port, handle_tcp, handle_packet_in, run}
use p2p_livestreaming.Bypass.Rules.{if_rule}
use p2p_livestreaming.Bypass.Stage.{SameStage, handle_normal-SameStage, handle_notify-SameStage}

-- A packet with no keyword.
pub record IsPlain (q : RtmpControlPacket) : Type 0 where
  pub body : Bytes
  pub payload_is : q.payload ≡ some body
  pub no_play_req : is_play_req body ≡ false
  pub no_play_start : is_play_start body ≡ false
  pub no_publish_req : is_publish_req body ≡ false
  pub no_publish_start : is_publish_start body ≡ false
  pub no_begin : is_stream_begin q.msg_length body ≡ some false

-- A frame on the RTMP port of which the controller learns nothing: its length is that of a handshake,
-- or it is empty, or it does not parse, or its packets have no keyword.
pub data IsDull (f : TcpFrame) : Type 0 where
  empty : length f.payload ≡ 0 → IsDull f
  handshake : (length f.payload == 88 || length f.payload == 89) ≡ true → IsDull f
  garbled : (length f.payload == 12) ≡ false → parse_all f.payload ≡ unparsed → IsDull f
  plain :
      (qs : List RtmpControlPacket)
      → (length f.payload == 12) ≡ false
      → parse_all f.payload ≡ packets qs
      → All IsPlain qs
      → IsDull f

pub data IsQuiet (e : Event) : Type 0 where
  no_tcp : e.tcp ≡ none → IsQuiet e
  other_port : (f : TcpFrame) → e.tcp ≡ some f → on_port rtmp_port f ≡ false → IsQuiet e
  dull : (f : TcpFrame) → e.tcp ≡ some f → IsDull f → IsQuiet e

-- A state that no packet without a keyword changes: no bytes are kept and no stage is due.
pub record IsCalm (s : Switch) : Type 0 where
  pub nothing_kept : s.prepend_buf ≡ none
  pub not_begun : s.status_stream_begin ≡ false
  pub not_due : (s.status_vready && s.status_bready) ≡ false

module _ (f : TcpFrame) (e : Event) where
  observe_payload-plain :
      (q : RtmpControlPacket) (s : Switch)
      → IsPlain q
      → observe_payload f e q.msg_length q.payload s ≡ ok s
  unfolding observe_payload
  observe_payload-plain q s h = rw h.payload_is (
      rw h.no_play_req
        (rw h.no_play_start (rw h.no_publish_req (rw h.no_publish_start (rw h.no_begin refl)))))

  observe_all-plain :
      (qs : List RtmpControlPacket) (s : Switch) → All IsPlain qs → observe_all f e qs s ≡ ok s
  unfolding observe_all
  observe_all-plain [] s h = refl
  observe_all-plain (q ∷ qs) s h =
      ap (λ m. m >>= observe_all f e qs) (observe_payload-plain q s h.0)
      ∙ observe_all-plain qs s h.1

  -- Behind a packet without a keyword the stage stays as it is.
  enter-calm :
      (s : Switch)
      → s.status_stream_begin ≡ false
      → (s.status_vready && s.status_bready) ≡ false
      → (set_off (normal_send e s) >>= enable_p2p) ≡ ok (normal_send e s)
  unfolding set_off enable_p2p normal_send
  enter-calm s begun due = ground arith

  normal_send-SameStage : (s : Switch) → SameStage s (normal_send e s)
  unfolding normal_send
  normal_send-SameStage s = (refl, refl, refl)

  -- The state with nothing kept.
  abbrev emptied : Switch → Switch
  emptied s = record s { prepend_buf = none }

  handle_packets-plain :
      (qs : List RtmpControlPacket) (s : Switch)
      → All IsPlain qs
      → IsCalm s
      → SameStage s (state (handle_packets f e (packets qs) (emptied s)))
  unfolding handle_packets
  handle_packets-plain [] s h calm = (refl, refl, sym calm.nothing_kept)
  handle_packets-plain (q ∷ qs) s h calm =
      let same = normal_send-SameStage (emptied s) in
      subst (λ (m : Outcome). SameStage s (state m))
        (sym (
          ap (λ m. m >>= λ t. set_off (normal_send e t) >>= enable_p2p)
            (observe_all-plain (q ∷ qs) (emptied s) h)
          ∙ enter-calm (emptied s) calm.not_begun calm.not_due))
        (same.0, same.1, same.2 ∙ sym calm.nothing_kept)

  handle_unparsed-SameStage :
      (s : Switch) → IsCalm s → SameStage s (state (handle_packets f e unparsed (emptied s)))
  unfolding handle_packets
  handle_unparsed-SameStage s calm =
      let same = normal_send-SameStage (emptied s) in
      (same.0, same.1, same.2 ∙ sym calm.nothing_kept)

  -- What the content is cut into, where nothing was kept before.
  handle_content-cut :
      (s : Switch) (r : Packets)
      → (length f.payload == 12) ≡ false
      → parse_all f.payload ≡ r
      → IsCalm s
      → SameStage s (state (handle_packets f e r (emptied s)))
      → SameStage s (state (handle_content f e f.payload s))
  unfolding handle_content prepended
  handle_content-cut s r long cut calm h =
      let sent_on = normal_send-SameStage s in
      if_rule (SameStage s) (length f.payload == 0) _ _ sent_on (
        if_rule (SameStage s) (length f.payload == 88 || length f.payload == 89) _ _ sent_on (
          rw long (
            subst
              (λ o.
                SameStage s
                  (state (handle_packets f e (parse_all (prepended o f.payload)) (emptied s))))
              (sym calm.nothing_kept)
              (subst (λ q. SameStage s (state (handle_packets f e q (emptied s)))) (sym cut) h))))

  handle_content-dull :
      (s : Switch) → IsDull f → IsCalm s → SameStage s (state (handle_content f e f.payload s))
  handle_content-dull s (empty none_sent) calm =
      unfold handle_content in rw none_sent (normal_send-SameStage s)
  handle_content-dull s (handshake eq) calm =
      unfold handle_content in
      if_rule (SameStage s) (length f.payload == 0) _ _ (normal_send-SameStage s)
        (rw eq (normal_send-SameStage s))
  handle_content-dull s (garbled long bad) calm =
      handle_content-cut s unparsed long bad calm (handle_unparsed-SameStage s calm)
  handle_content-dull s (plain qs long cut h) calm =
      handle_content-cut s (packets qs) long cut calm (handle_packets-plain qs s h calm)

  handle_rtmp-dull : (s : Switch) → IsDull f → IsCalm s → SameStage s (state (handle_rtmp f e s))
  unfolding handle_rtmp
  handle_rtmp-dull s d calm = elim (Bool-cases (f.srcport == f.dstport)) [
    | inl same ↦ rw same (refl, refl, refl)
    | inr differ ↦ rw differ (handle_content-dull (learn_source e s) d (ground arith))
  ]

module _ (show_ip : ℕ → Bytes) where
  handle_tcp-dull :
      (f : TcpFrame) (e : Event) (s : Switch)
      → IsDull f
      → IsCalm s
      → SameStage s (state (handle_tcp show_ip (some f) e s))
  unfolding handle_tcp
  handle_tcp-dull f e s d calm = ground (
    arith,
    handle_rtmp-dull f e s d calm,
    handle_notify-SameStage show_ip f e s,
    handle_normal-SameStage e s,
  )

  handle_tcp-other :
      (f : TcpFrame) (e : Event) (s : Switch)
      → on_port rtmp_port f ≡ false
      → SameStage s (state (handle_tcp show_ip (some f) e s))
  unfolding handle_tcp
  handle_tcp-other f e s other =
      ground (arith, handle_notify-SameStage show_ip f e s, handle_normal-SameStage e s)

  pub handle_packet_in-quiet :
      (e : Event) (s : Switch)
      → IsQuiet e
      → IsCalm s
      → SameStage s (state (handle_packet_in show_ip e s))
  unfolding handle_packet_in
  handle_packet_in-quiet e s (no_tcp eq) calm =
      simp eq (unfold handle_tcp in handle_normal-SameStage e s)
  handle_packet_in-quiet e s (other_port f eq other) calm = simp eq (handle_tcp-other f e s other)
  handle_packet_in-quiet e s (dull f eq d) calm = simp eq (handle_tcp-dull f e s d calm)

  -- Packets without a keyword, any number of them, leave the roles, the statuses and the kept bytes as
  -- they are, where no bytes are kept, no stream has begun and not both ends are ready.
  pub run-quiet :
      (es : List Event) (s : Switch) → All IsQuiet es → IsCalm s → SameStage s (run show_ip es s)
  unfolding run
  run-quiet [] s q calm = (refl, refl, refl)
  run-quiet (e ∷ es) s q calm =
      let first = handle_packet_in-quiet e s q.0 calm in
      let rest = run-quiet es (state (handle_packet_in show_ip e s)) q.1 (ground (arith, first)) in
      (rest.0 ∙ first.0, rest.1 ∙ first.1, rest.2 ∙ first.2)
