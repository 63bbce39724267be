-- ===== src/Bypass/Provenance.antt =====
-- Where the records of the controller come from: frames that it has seen.
use p2p_livestreaming.Prelude.{
  ℕ, ◌≡◌, ◌⊎◌, refl, sym, ap, ◌∙◌, not, ◌&&◌, Bool-cases, inl, inr, Bool, true, Option, none, some,
  List, [], ◌∷◌, arith, Bytes,
}
use p2p_livestreaming.OpenFlow.{TcpFrame, Event}
use p2p_livestreaming.Rtmp.{rtmp_port, is_play_req, is_play_start, is_publish_req, is_publish_start}
use mathlib.Core.Path.{subst}
use p2p_livestreaming.Bypass.{notify_port, Switch, Roles, Status, new, state}
use p2p_livestreaming.Bypass.Rules.{if_rule}
use p2p_livestreaming.Bypass.Stage.{SameStage, handle_normal-SameStage, handle_notify-SameStage}
use p2p_livestreaming.Bypass.Dispatch.{on_port, handle_tcp, handle_packet_in, run}
use p2p_livestreaming.Bypass.Traced.{Traced, carries, handle_rtmp-Traced}
use p2p_livestreaming.Bypass.Invariant.{Inv-new, enabled_known, run-Inv}
use p2p_livestreaming.Bypass.Verdict.{run-IsVerdict}

module _ (show_ip : ℕ → Bytes) where
  -- Among the packets, which the controller sees from the state `s` on, is a frame with the property
  -- `P` that has an RTMP packet of a kind in it.
  pub data Seen (test : Bytes → Bool) (P : TcpFrame → Type 0) : Switch → List Event → Type 0 where
    now :
        (s : Switch) (e : Event) (es : List Event) (f : TcpFrame)
        → e.tcp ≡ some f
        → P f
        → carries test f s ≡ true
        → Seen test P s (e ∷ es)
    behind :
        (s : Switch) (e : Event) (es : List Event)
        → Seen test P (state (handle_packet_in show_ip e s)) es
        → Seen test P s (e ∷ es)

  -- A request of the host `x` to the RTMP port.
  abbrev pub Request : (Bytes → Bool) → ℕ → Switch → List Event → Type 0
  Request test x = Seen test (λ f. (f.srcip ≡ x) × (f.dstport ≡ rtmp_port))

  -- An answer from the RTMP port.
  abbrev pub Answer : (Bytes → Bool) → Switch → List Event → Type 0
  Answer test = Seen test (λ f. f.srcport ≡ rtmp_port)

  -- What `t` records stood in `s`, or its signal is among the packets.
  record Origin (s : Switch) (es : List Event) (t : Switch) : Type 0 where
    viewer : (x : ℕ) → t.v_nw_addr ≡ some x → (s.v_nw_addr ≡ some x) ⊎ Request is_play_req x s es
    broadcaster :
        (x : ℕ) → t.b_nw_addr ≡ some x → (s.b_nw_addr ≡ some x) ⊎ Request is_publish_req x s es
    vready : t.status_vready ≡ true → (s.status_vready ≡ true) ⊎ Answer is_play_start s es
    bready : t.status_bready ≡ true → (s.status_bready ≡ true) ⊎ Answer is_publish_start s es

  handle_tcp-Traced :
      (o : Option TcpFrame) (e : Event) (s : Switch)
      → let t = state (handle_tcp show_ip o e s) in
        SameStage s t ⊎ ((f : TcpFrame) × (o ≡ some f) × Traced f (λ test. carries test f s) s t)
  unfolding handle_tcp
  handle_tcp-Traced none e s = inl (handle_normal-SameStage e s)
  handle_tcp-Traced (some f) e s =
      elim (Bool-cases (not s.p2p_enabled && not s.p2p_set_off && on_port rtmp_port f)) [
        | inl watched ↦ rw watched (inr (f, refl, handle_rtmp-Traced f e s))
        | inr other ↦ rw other (
            inl (
              if_rule (SameStage s) (on_port notify_port f) _ _
                (handle_notify-SameStage show_ip f e s) (handle_normal-SameStage e s)))
      ]

  -- One packet more in front.
  Origin-now :
      (e : Event) (es : List Event) (s : Switch) (f : TcpFrame) (t u : Switch)
      → t ≡ state (handle_packet_in show_ip e s)
      → e.tcp ≡ some f
      → Traced f (λ test. carries test f s) s t
      → Origin t es u
      → Origin s (e ∷ es) u
  Origin-now e es s f t u at carried traced o = record {
    viewer = λ x known. elim (o.viewer x known) [
      | inl before ↦ elim (traced.viewer x before) [
        | inl old ↦ inl old
        | inr (from, to, shown) ↦ inr (now s e es f carried (from, to) shown)
      ]
      | inr seen ↦ inr (behind s e es (subst (λ t. Request is_play_req x t es) at seen))
    ];
    broadcaster = λ x known. elim (o.broadcaster x known) [
      | inl before ↦ elim (traced.broadcaster x before) [
        | inl old ↦ inl old
        | inr (from, to, shown) ↦ inr (now s e es f carried (from, to) shown)
      ]
      | inr seen ↦ inr (behind s e es (subst (λ t. Request is_publish_req x t es) at seen))
    ];
    vready = λ known. elim (o.vready known) [
      | inl before ↦ elim (traced.vready before) [
        | inl old ↦ inl old
        | inr (from, shown) ↦ inr (now s e es f carried from shown)
      ]
      | inr seen ↦ inr (behind s e es (subst (λ t. Answer is_play_start t es) at seen))
    ];
    bready = λ known. elim (o.bready known) [
      | inl before ↦ elim (traced.bready before) [
        | inl old ↦ inl old
        | inr (from, shown) ↦ inr (now s e es f carried from shown)
      ]
      | inr seen ↦ inr (behind s e es (subst (λ t. Answer is_publish_start t es) at seen))
    ];
  }

  Origin-same :
      (e : Event) (es : List Event) (s u : Switch)
      → SameStage s (state (handle_packet_in show_ip e s))
      → Origin (state (handle_packet_in show_ip e s)) es u
      → Origin s (e ∷ es) u
  Origin-same e es s u same o = record {
    viewer = λ x known. elim (o.viewer x known) [
      | inl before ↦ inl (ap (λ (r : Roles). r.v_nw_addr) (sym same.0) ∙ before)
      | inr seen ↦ inr (behind s e es seen)
    ];
    broadcaster = λ x known. elim (o.broadcaster x known) [
      | inl before ↦ inl (ap (λ (r : Roles). r.b_nw_addr) (sym same.0) ∙ before)
      | inr seen ↦ inr (behind s e es seen)
    ];
    vready = λ known. elim (o.vready known) [
      | inl before ↦ inl (ap (λ (c : Status). c.status_vready) (sym same.1) ∙ before)
      | inr seen ↦ inr (behind s e es seen)
    ];
    bready = λ known. elim (o.bready known) [
      | inl before ↦ inl (ap (λ (c : Status). c.status_bready) (sym same.1) ∙ before)
      | inr seen ↦ inr (behind s e es seen)
    ];
  }

  run-Origin : (es : List Event) (s : Switch) → Origin s es (run show_ip es s)
  unfolding run handle_packet_in
  run-Origin [] s = record {
    viewer = λ x known. inl known;
    broadcaster = λ x known. inl known;
    vready = λ known. inl known;
    bready = λ known. inl known;
  }
  run-Origin (e ∷ es) s =
      let t = state (handle_packet_in show_ip e s) in
      let o = run-Origin es t in
      elim (handle_tcp-Traced e.tcp e s) [
        | inl same ↦ Origin-same e es s _ same o
        | inr (f, carried, traced) ↦ Origin-now e es s f t _ refl carried traced o
      ]

  -- If a new controller has entered the P2P stage, whatever packets it has seen, it has recorded a
  -- viewer and a broadcaster, and all four signals of the set-up were among the packets: a play
  -- request of this viewer and a publish request of this broadcaster, both to the RTMP port, and from
  -- the RTMP port an answer to play and one to publish. Each was in an RTMP packet of its frame, as the
  -- controller cuts it in the state in which it receives it.
  pub run-provenance :
      (es : List Event)
      → (run show_ip es new).p2p_enabled ≡ true
      → let s = run show_ip es new in
        ((v : ℕ) × (s.v_nw_addr ≡ some v) × Request is_play_req v new es)
        × ((b : ℕ) × (s.b_nw_addr ≡ some b) × Request is_publish_req b new es)
        × Answer is_play_start new es
        × Answer is_publish_start new es
  run-provenance es on =
      let o = run-Origin es new in
      let ((v, viewer), (b, broadcaster)) =
        enabled_known (run show_ip es new) (run-Inv show_ip es new Inv-new) on in
      let (_, vready, bready) = (run-IsVerdict show_ip es).enabled_for on in
      (
        (
          v,
          viewer,
          (elim (o.viewer v viewer) [ inl old ↦ absurd (ground arith) | inr seen ↦ seen ]),
        ),
        (
          b,
          broadcaster,
          (elim (o.broadcaster b broadcaster) [
            | inl old ↦ absurd (ground arith)
            | inr seen ↦ seen
          ]),
        ),
        (elim (o.vready vready) [ inl old ↦ absurd (ground arith) | inr seen ↦ seen ]),
        (elim (o.bready bready) [ inl old ↦ absurd (ground arith) | inr seen ↦ seen ]),
      )
