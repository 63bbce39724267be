-- ===== src/Direct/Compare.antt =====
-- The direct controller against the handler of ordinary packets in the bypass controller, and its port
-- table against the history of the packets.
use p2p_livestreaming.Prelude.{
  ℕ, ◌≡◌, refl, sym, ap, ◌∙◌, Bool, false, Option, none, some, List, [], ◌∷◌, ◌++◌, arith, ◌==◌,
  Bool-cases, inl, inr, append_nil,
}
use mathlib.Core.Path.{subst}
use p2p_livestreaming.OpenFlow.{Event, Message, FlowMod, packet_out, flow_mod, PortTable, learn}
use p2p_livestreaming.Bypass
use p2p_livestreaming.Bypass.{Switch, state, handle_normal}
use p2p_livestreaming.Bypass.Learning.{last_port}
use p2p_livestreaming.Direct.{
  DirectSwitch, new, steer, drop_packet, flood_out, learn_source, link_local, handle_packet_in, run,
}

-- What is left of a message for a controller that installs no drop entry and gives no times out.
abbrev pub untimed_entry : FlowMod → List Message
untimed_entry m = elim m.actions [
  | [] ↦ []
  | _ ∷ _ ↦ flow_mod (record m { idle_timeout = none; hard_timeout = none }) ∷ []
]

abbrev pub untimed : Message → List Message
untimed (packet_out m) = packet_out m ∷ []
untimed (flow_mod m) = untimed_entry m

-- What the one controller sends behind `old` answers the one message of the other behind `old'`.
abbrev pub Answers : (now old now' old' : List Message) → Type 0
Answers now old now' old' = (m : Message) × (now ≡ old ++ m ∷ []) × (now' ≡ old' ++ untimed m)

steer-forward :
    (o : Option ℕ) (e : Event) (s : DirectSwitch) (b : Switch)
    → Answers (steer o e s).sent s.sent (Bypass.forward o e b).sent b.sent
unfolding steer Bypass.forward
steer-forward none e s b = (_, refl, refl)
steer-forward (some p) e s b = elim (Bool-cases (p == e.port)) [
  | inl same ↦ rw same (unfold drop_packet in (_, refl, sym (append_nil b.sent)))
  | inr other ↦ rw other (_, refl, refl)
]

steer-mac_to_port :
    (o : Option ℕ) (e : Event) (s : DirectSwitch) → (steer o e s).mac_to_port ≡ s.mac_to_port
unfolding steer drop_packet flood_out
steer-mac_to_port o e s = ground arith

forward-mac_to_port :
    (o : Option ℕ) (e : Event) (b : Switch) → (Bypass.forward o e b).mac_to_port ≡ b.mac_to_port
unfolding Bypass.forward
forward-mac_to_port o e b = ground arith

module _ (is_multicast is_bridge_filtered : ℕ → Bool) (lldp_type : ℕ) where
  handle_unicast :
      (e : Event) (s : DirectSwitch)
      → link_local is_multicast is_bridge_filtered lldp_type e ≡ false
      → is_multicast e.dst ≡ false
      → handle_packet_in is_multicast is_bridge_filtered lldp_type e s
        ≡ steer (learn e.src e.port s.mac_to_port e.dst) e (learn_source e s)
  unfolding handle_packet_in
  handle_unicast e s l m = ground arith

  -- On a frame to a unicast address that is not link-local, with the same port table, the direct
  -- controller learns the same table and sends one message, and the bypass controller's handler of
  -- ordinary packets sends the same one without times out, or nothing where it is a drop entry.
  pub handle_packet_in-handle_normal :
      (e : Event) (s : DirectSwitch) (b : Switch)
      → s.mac_to_port ≡ b.mac_to_port
      → link_local is_multicast is_bridge_filtered lldp_type e ≡ false
      → is_multicast e.dst ≡ false
      → let s' = handle_packet_in is_multicast is_bridge_filtered lldp_type e s in
        let b' = state (handle_normal e b) in
        (s'.mac_to_port ≡ b'.mac_to_port) × Answers s'.sent s.sent b'.sent b.sent
  unfolding handle_normal
  handle_packet_in-handle_normal e s b t l m = rw (handle_unicast e s l m) (
    steer-mac_to_port (learn e.src e.port s.mac_to_port e.dst) e (learn_source e s)
        ∙ ap (learn e.src e.port) t
        ∙ sym (
            forward-mac_to_port (learn e.src e.port b.mac_to_port e.dst) e
              (Bypass.learn_source e b)),
    subst
        (λ (q : PortTable).
          Answers (steer (learn e.src e.port s.mac_to_port e.dst) e (learn_source e s)).sent s.sent
            (Bypass.forward (learn e.src e.port q e.dst) e (Bypass.learn_source e b)).sent b.sent)
        t
        (steer-forward (learn e.src e.port s.mac_to_port e.dst) e (learn_source e s)
          (Bypass.learn_source e b)),
  )

  handle_packet_in-learns :
      (e : Event) (s : DirectSwitch)
      → (handle_packet_in is_multicast is_bridge_filtered lldp_type e s).mac_to_port
        ≡ learn e.src e.port s.mac_to_port
  unfolding handle_packet_in steer drop_packet flood_out
  handle_packet_in-learns e s = ground arith

  run-mac_to_port :
      (es : List Event) (s : DirectSwitch) (mac : ℕ)
      → (run is_multicast is_bridge_filtered lldp_type es s).mac_to_port mac
        ≡ elim (last_port mac es) [ some p ↦ some p | none ↦ s.mac_to_port mac ]
  unfolding run last_port
  run-mac_to_port [] s mac = refl
  run-mac_to_port (e ∷ es) s mac = ground (
    arith,
    run-mac_to_port es (handle_packet_in is_multicast is_bridge_filtered lldp_type e s) mac,
    ap (λ (t : PortTable). t mac) (handle_packet_in-learns e s),
  )

  -- After any packets, also those that are dropped, the port table of a new controller gives for each
  -- address the port where a packet of it was seen last.
  pub run-last_port :
      (es : List Event) (transparent : Bool) (mac : ℕ)
      → (run is_multicast is_bridge_filtered lldp_type es (new transparent)).mac_to_port mac
        ≡ last_port mac es
  run-last_port es transparent mac = ground (arith, run-mac_to_port es (new transparent) mac)
