-- ===== src/Bypass/Stage.antt =====
-- The P2P stage is final: once it is enabled or set off, no packet changes it.
use p2p_livestreaming.Prelude.{
  ℕ, ◌≡◌, refl, ◌∙◌, ◌⊎◌, true, Option, none, some, List, [], ◌∷◌, arith, Bytes,
}
use p2p_livestreaming.OpenFlow.{TcpFrame, Event}
use p2p_livestreaming.Bypass.{Switch, state, handle_normal}
use p2p_livestreaming.Bypass.NotifyHandler.{handle_notify}
use p2p_livestreaming.Bypass.Dispatch.{handle_tcp, handle_packet_in, run}

abbrev pub IsSettled : Switch → Type 0
IsSettled s = (s.p2p_enabled ≡ true) ⊎ (s.p2p_set_off ≡ true)

abbrev pub SameStage : Switch → Switch → Type 0
SameStage s t = (t.roles ≡ s.roles) × (t.status ≡ s.status) × (t.prepend_buf ≡ s.prepend_buf)

pub handle_normal-SameStage : (e : Event) (s : Switch) → SameStage s (state (handle_normal e s))
unfolding handle_normal
handle_normal-SameStage e s = ground arith

module _ (show_ip : ℕ → Bytes) where
  pub handle_notify-SameStage :
      (f : TcpFrame) (e : Event) (s : Switch) → SameStage s (state (handle_notify show_ip f e s))
  unfolding handle_notify
  handle_notify-SameStage f e s = ground arith

  pub handle_tcp-SameStage :
      (o : Option TcpFrame) (e : Event) (s : Switch)
      → IsSettled s
      → SameStage s (state (handle_tcp show_ip o e s))
  unfolding handle_tcp
  handle_tcp-SameStage none e s h = handle_normal-SameStage e s
  handle_tcp-SameStage (some f) e s h =
      ground (arith, handle_normal-SameStage e s, handle_notify-SameStage f e s)

  -- Once the P2P stage is enabled or set off, no sequence of packets changes the roles, the
  -- statuses or the kept bytes.
  pub run-SameStage : (es : List Event) (s : Switch) → IsSettled s → SameStage s (run show_ip es s)
  unfolding run handle_packet_in
  run-SameStage [] s h = (refl, refl, refl)
  run-SameStage (e ∷ es) s h =
      let first = handle_tcp-SameStage e.tcp e s h in
      let rest = run-SameStage es (state (handle_packet_in show_ip e s)) (ground (arith, first)) in
      (rest.0 ∙ first.0, rest.1 ∙ first.1, rest.2 ∙ first.2)
