-- ===== src/Direct/Loopless.antt =====
-- What the direct controller lets out of the switch.
use p2p_livestreaming.Prelude.{
  ℕ, ◌≡◌, ◌≢◌, refl, sym, ap, ◌∙◌, Bool, true, false, Option, none, some, List, [], ◌∷◌, ◌++◌,
  arith, All, All-append, ◌==◌, Option-cases, Bool-cases, ◌⊎◌, inl, inr,
}
use mathlib.Core.Path.{subst}
use p2p_livestreaming.OpenFlow.{
  Event, flood, to_port, from_packet, Message, packet_out, flow_mod, learn,
}
use p2p_livestreaming.Direct.{
  DirectSwitch, Duration, both, new, drop_packet, flood_out, steer, link_local, handle_packet_in,
  run, learn_source,
}

-- The actions of a message are none, a flood, or the output to one port, not the in-port of the
-- entry's match.
unfoldable pub IsLoopless : Message → Type 0
IsLoopless (packet_out m) = (m.actions ≡ []) ⊎ (m.actions ≡ flood ∷ [])
IsLoopless (flow_mod m) =
    (m.actions ≡ [])
    ⊎ ((p : ℕ) × (e : Event) × (m.actions ≡ to_port p ∷ [])
        × (m.match ≡ from_packet e (some e.port))
        × (p ≢ e.port))

-- No action: the switch sends nothing out.
unfoldable pub IsSilent : Message → Type 0
IsSilent (packet_out m) = m.actions ≡ []
IsSilent (flow_mod m) = m.actions ≡ []

grows :
    (s : DirectSwitch) (m : Message)
    → All IsLoopless s.sent
    → IsLoopless m
    → All IsLoopless (s.sent ++ m ∷ [])
grows s m h hm = All-append IsLoopless s.sent (m ∷ []) h (hm, tt)

drop_packet-IsLoopless :
    (d : Option Duration) (e : Event) (s : DirectSwitch)
    → All IsLoopless s.sent
    → All IsLoopless (drop_packet d e s).sent
unfolding drop_packet IsLoopless
drop_packet-IsLoopless (some d) e s h = grows s _ h (inl refl)
drop_packet-IsLoopless none e s h = elim (Option-cases e.buffer_id) [
  | inl eq ↦ rw eq h
  | inr (b, eq) ↦ rw eq (grows s _ h (inl refl))
]

flood_out-IsLoopless :
    (e : Event) (s : DirectSwitch) → All IsLoopless s.sent → All IsLoopless (flood_out e s).sent
unfolding flood_out IsLoopless
flood_out-IsLoopless e s h = grows s _ h (inr refl)

steer-IsLoopless :
    (o : Option ℕ) (e : Event) (s : DirectSwitch)
    → All IsLoopless s.sent
    → All IsLoopless (steer o e s).sent
unfolding steer IsLoopless
steer-IsLoopless none e s h = flood_out-IsLoopless e s h
steer-IsLoopless (some p) e s h = elim (Bool-cases (p == e.port)) [
  | inl same ↦ rw same (drop_packet-IsLoopless (some (both 10)) e s h)
  | inr other ↦ rw other (grows s _ h (inr (p, e, refl, refl, ground arith)))
]

drop_packet-IsSilent :
    (e : Event) (s : DirectSwitch) → All IsSilent s.sent → All IsSilent (drop_packet none e s).sent
unfolding drop_packet IsSilent
drop_packet-IsSilent e s h = elim (Option-cases e.buffer_id) [
  | inl eq ↦ rw eq h
  | inr (b, eq) ↦ rw eq (All-append IsSilent s.sent _ h (refl, tt))
]

drop_packet-transparent :
    (e : Event) (s : DirectSwitch) → (drop_packet none e s).transparent ≡ s.transparent
unfolding drop_packet
drop_packet-transparent e s = ground arith

module _ (is_multicast is_bridge_filtered : ℕ → Bool) (lldp_type : ℕ) where
  handle_packet_in-IsLoopless :
      (e : Event) (s : DirectSwitch)
      → All IsLoopless s.sent
      → All IsLoopless (handle_packet_in is_multicast is_bridge_filtered lldp_type e s).sent
  unfolding handle_packet_in
  handle_packet_in-IsLoopless e s h = ground (
    arith,
    drop_packet-IsLoopless none e (learn_source e s) h,
    flood_out-IsLoopless e (learn_source e s) h,
    steer-IsLoopless (learn e.src e.port s.mac_to_port e.dst) e (learn_source e s) h,
  )

  run-IsLoopless_lem :
      (es : List Event) (s : DirectSwitch)
      → All IsLoopless s.sent
      → All IsLoopless (run is_multicast is_bridge_filtered lldp_type es s).sent
  unfolding run
  run-IsLoopless_lem [] s h = h
  run-IsLoopless_lem (e ∷ es) s h = run-IsLoopless_lem es _ (handle_packet_in-IsLoopless e s h)

  -- Whatever packets a new controller sees, every message that it sends either has no action, or
  -- floods one frame, or installs an entry that sends to one port, never the in-port of its match.
  pub run-IsLoopless :
      (es : List Event) (transparent : Bool)
      → All IsLoopless (run is_multicast is_bridge_filtered lldp_type es (new transparent)).sent
  run-IsLoopless es transparent = run-IsLoopless_lem es (new transparent) tt

  handle_link_local :
      (e : Event) (s : DirectSwitch)
      → s.transparent ≡ false
      → link_local is_multicast is_bridge_filtered lldp_type e ≡ true
      → handle_packet_in is_multicast is_bridge_filtered lldp_type e s
        ≡ drop_packet none e (learn_source e s)
  unfolding handle_packet_in
  handle_link_local e s h l = rw (h, l) refl

  run-IsSilent_lem :
      (es : List Event) (s : DirectSwitch)
      → s.transparent ≡ false
      → All (λ e. link_local is_multicast is_bridge_filtered lldp_type e ≡ true) es
      → All IsSilent s.sent
      → All IsSilent (run is_multicast is_bridge_filtered lldp_type es s).sent
  unfolding run
  run-IsSilent_lem [] s t l h = h
  run-IsSilent_lem (e ∷ es) s t l h =
      run-IsSilent_lem es (handle_packet_in is_multicast is_bridge_filtered lldp_type e s)
        (ap (λ (d : DirectSwitch). d.transparent) (handle_link_local e s t l.0)
          ∙ drop_packet-transparent e (learn_source e s)
          ∙ t)
        l.1
        (subst (λ (d : DirectSwitch). All IsSilent d.sent) (sym (handle_link_local e s t l.0))
          (drop_packet-IsSilent e (learn_source e s) h))

  -- A new controller that is not transparent and sees only link-local frames (LLDP or bridge-filtered
  -- destinations) sends nothing out of the switch: no message has an action.
  pub run-IsSilent :
      (es : List Event)
      → All (λ e. link_local is_multicast is_bridge_filtered lldp_type e ≡ true) es
      → All IsSilent (run is_multicast is_bridge_filtered lldp_type es (new false)).sent
  run-IsSilent es h = run-IsSilent_lem es (new false) refl h tt
