-- ===== src/System/Asked.antt =====
-- Whom the broadcaster streams to: a host that asked for the stream.
use p2p_livestreaming.Prelude.{
  ℕ, ◌≡◌, ◌<◌, refl, sym, ap, ◌∙◌, ◌⊎◌, inl, inr, Bool, true, none, some, some_injective, List, [],
  ◌∷◌, ◌++◌, length, Bytes,
}
use mathlib.Core.Path.{subst}
use p2p_livestreaming.OpenFlow.{Event}
use p2p_livestreaming.Rtmp.{is_play_req, is_publish_req}
use p2p_livestreaming.Bypass.{Switch, new}
use p2p_livestreaming.Bypass.Dispatch.{run}
use p2p_livestreaming.Bypass.Phase.{run-append}
use p2p_livestreaming.Bypass.Provenance.{Request, run-provenance}
use p2p_livestreaming.Hosts.Broadcaster
use p2p_livestreaming.Hosts.Broadcaster.Streams.{Runs, broadcast-Runs}
use p2p_livestreaming.Hosts.Broadcaster.{broadcast, peer_job}
use p2p_livestreaming.Hosts.Viewer
use p2p_livestreaming.Hosts.Viewer.{watch}
use p2p_livestreaming.Notification.{IsAddress}
use p2p_livestreaming.System.{
  System, Step, packet, to_broadcaster, to_viewer, Reach, start, later, after,
}
use p2p_livestreaming.System.Grouped.{Grouped}
use p2p_livestreaming.System.Streams.{Reach-broadcast, Reach-watch}

module _ (show_ip : ℕ → Bytes) (b v : ℕ) where
  -- What the controller has seen by then.
  Ran : Switch → Type 0
  Ran c = (es : List Event) × (c ≡ run show_ip es new)

  Ran-after : (e : Event) (c : Switch) → Ran c → Ran (after show_ip e c)
  unfolding Ran run
  Ran-after e c (es, eq) =
      (es ++ e ∷ [], ap (after show_ip e) eq ∙ sym (run-append show_ip es (e ∷ []) new))

  Step-Ran : {s t : System} → Step show_ip b v s t → Ran s.controller → Ran t.controller
  Step-Ran {s} (packet e) r = Ran-after e s.controller r
  Step-Ran {s} (to_broadcaster q f e n) r = Ran-after e s.controller r
  Step-Ran {s} (to_viewer q f e n) r = Ran-after e s.controller r

  Reach-Ran : {s : System} → Reach show_ip b v s → Ran s.controller
  unfolding Ran run
  Reach-Ran start = ([], refl)
  Reach-Ran (later r st) = Step-Ran st (Reach-Ran r)

  -- In every state that the system reaches, the recorded broadcaster has started the stream to the
  -- service and no peer stream, or one peer stream behind it and no other process, to a host whose
  -- play request the controller has seen, if the address of the recorded viewer is digits and dots
  -- of fewer than 15 characters: whatever packets the controller sees, in whatever order the
  -- heartbeats pass, and however `recv` groups the texts that arrive.
  pub Reach-asked :
      (s : System) (r : Reach show_ip b v s) (root_dir : Bytes) (exists : Bytes → Bool)
      (received : List Bytes) (my_ip video_file service_ip : Bytes)
      → Grouped s.at_broadcaster received
      → s.controller.b_nw_addr ≡ some b
      → ((x : ℕ)
          → s.controller.v_nw_addr ≡ some x
          → IsAddress (show_ip x) × (length (show_ip x) < 15))
      → let w =
          broadcast root_dir exists received
            (Broadcaster.new root_dir my_ip video_file service_ip) in
        Runs root_dir service_ip [] w
        ⊎ ((x : ℕ) × (es : List Event) × (s.controller ≡ run show_ip es new)
            × Request show_ip is_play_req x new es
            × Runs root_dir service_ip (peer_job root_dir (show_ip x) ∷ []) w)
  unfolding Ran
  Reach-asked s r root_dir exists received my_ip video_file service_ip grouped known printed =
      elim (Reach-broadcast show_ip b v s r root_dir exists received my_ip video_file service_ip
        grouped known printed) [
          | inl idle ↦
              inl (broadcast-Runs root_dir exists received my_ip video_file service_ip [] idle)
          | inr (x, on, viewer, one) ↦
              let (es, ran) = Reach-Ran r in
              let entered = ap (λ (c : Switch). c.p2p_enabled) (sym ran) ∙ on in
              let (y, recorded, asked) = (run-provenance show_ip es entered).0 in
              let same =
                some_injective
                  (sym recorded ∙ ap (λ (c : Switch). c.v_nw_addr) (sym ran) ∙ viewer) in
              inr (
                x,
                es,
                ran,
                subst (λ z. Request show_ip is_play_req z new es) same asked,
                broadcast-Runs root_dir exists received my_ip video_file service_ip
                    (peer_job root_dir (show_ip x) ∷ []) one,
              )
        ]

  -- In every state that the system reaches, the viewer has not turned to its peer, or the P2P stage is
  -- on, and the controller has seen a play request and a publish request, of the viewer and of the
  -- broadcaster that it has recorded: however `recv` groups the texts that arrive.
  pub Reach-announced :
      (s : System) (r : Reach show_ip b v s) (root_dir : Bytes) (exists : Bytes → Bool)
      (received : List Bytes) (my_ip dump_file service_ip : Bytes)
      → Grouped s.at_viewer received
      → let w = watch root_dir exists received (Viewer.new root_dir my_ip dump_file service_ip) in
        (w.vfp_proc ≡ none)
        ⊎ ((es : List Event) × (s.controller ≡ run show_ip es new)
            × (s.controller.p2p_enabled ≡ true)
            × ((x : ℕ) × (s.controller.v_nw_addr ≡ some x) × Request show_ip is_play_req x new es)
            × ((y : ℕ) × (s.controller.b_nw_addr ≡ some y)
                × Request show_ip is_publish_req y new es))
  unfolding Ran
  Reach-announced s r root_dir exists received my_ip dump_file service_ip grouped =
      elim (Reach-watch show_ip b v s r root_dir exists received my_ip dump_file service_ip
        grouped) [
          | inl waits ↦ inl waits
          | inr (on, _, _) ↦
              let (es, ran) = Reach-Ran r in
              let entered = ap (λ (c : Switch). c.p2p_enabled) (sym ran) ∙ on in
              let ((x, viewer, played), (y, broadcaster, published), _, _) =
                run-provenance show_ip es entered in
              inr (
                es,
                ran,
                on,
                (x, ap (λ (c : Switch). c.v_nw_addr) ran ∙ viewer, played),
                (y, ap (λ (c : Switch). c.b_nw_addr) ran ∙ broadcaster, published),
              )
        ]
