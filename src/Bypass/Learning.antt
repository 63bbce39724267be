-- ===== src/Bypass/Learning.antt =====
-- The port table against the history of the packets.
use p2p_livestreaming.Prelude.{
  ℕ, ◌≡◌, refl, ap, Option, none, some, List, [], ◌∷◌, arith, Bytes, ◌==◌, if◌then◌else◌,
}
use p2p_livestreaming.OpenFlow.{TcpFrame, Event, PortTable, learn}
use p2p_livestreaming.Bypass.{Switch, new, Outcome, ok, raised, state, learn_source, handle_normal}
use p2p_livestreaming.Bypass.RtmpHandler.{handle_rtmp}
use p2p_livestreaming.Bypass.NotifyHandler.{handle_notify}
use p2p_livestreaming.Bypass.Dispatch.{handle_tcp, handle_packet_in, run}
use p2p_livestreaming.Bypass.Invariant.{Inv, Inv-new, handle_packet_in-Inv}
use p2p_livestreaming.Bypass.Forwarding.{Forwards, handle_rtmp-Forwards}

-- The in-port of the last packet that came from an address.
unfoldable pub last_port : ℕ → List Event → Option ℕ
last_port mac [] = none
last_port mac (e ∷ es) =
    let later = last_port mac es in
    elim later [ some p ↦ some p | none ↦ if mac == e.src then some e.port else none ]

abbrev Learns : Event → Switch → Outcome → Type 0
Learns e s m = (state m).mac_to_port ≡ learn e.src e.port s.mac_to_port

Learns-Forwards :
    (e : Event) (s : Switch) (m : Outcome) → Forwards e (learn_source e s) m → Learns e s m
Learns-Forwards e s (ok t) h = h.1
Learns-Forwards e s (raised x t) h = h.2

module _ (show_ip : ℕ → Bytes) where
  handle_tcp-Learns :
      (o : Option TcpFrame) (e : Event) (s : Switch) → Inv s → Learns e s (handle_tcp show_ip o e s)
  unfolding handle_tcp handle_normal handle_notify
  handle_tcp-Learns none e s h = ground arith
  handle_tcp-Learns (some f) e s h =
      ground (arith, Learns-Forwards e s (handle_rtmp f e s) (handle_rtmp-Forwards f e s h))

  run-mac_to_port :
      (es : List Event) (s : Switch) (mac : ℕ)
      → Inv s
      → (run show_ip es s).mac_to_port mac
        ≡ elim (last_port mac es) [ some p ↦ some p | none ↦ s.mac_to_port mac ]
  unfolding run handle_packet_in last_port
  run-mac_to_port [] s mac h = refl
  run-mac_to_port (e ∷ es) s mac h = ground (
    arith,
    run-mac_to_port es (state (handle_packet_in show_ip e s)) mac
        (handle_packet_in-Inv show_ip e s h),
    ap (λ (t : PortTable). t mac) (handle_tcp-Learns e.tcp e s h),
  )

  -- After any packets, whatever handler took them and whether or not it raised, the port table of a
  -- new controller gives for each address the port where a packet of it was seen last.
  pub mac_to_port-last_port :
      (es : List Event) (mac : ℕ) → (run show_ip es new).mac_to_port mac ≡ last_port mac es
  mac_to_port-last_port es mac = ground (arith, run-mac_to_port es new mac Inv-new)
