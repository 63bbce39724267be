-- ===== src/Tests/Network.antt =====
-- Frames of several connections, and several switches.
use p2p_livestreaming.Prelude.{◌≡◌, refl, none, some, List, [], ◌∷◌, ◌++◌, arith, codes}
use p2p_livestreaming.OpenFlow.{TcpFrame, Event}
use p2p_livestreaming.Bypass.{Switch, new, state, learn_source, normal_send}
use p2p_livestreaming.Bypass.RtmpHandler.{handle_rtmp}
use p2p_livestreaming.Bypass.Rejoin.{with_payload, run-rejoined}
use p2p_livestreaming.Bypass.Network
use p2p_livestreaming.Bypass.Network.{
  NexusEvent, Listeners, connection_up, launch, handle_events, handle_events-run,
}
use p2p_livestreaming.Bypass.Dispatch.{run}
use p2p_livestreaming.Bypass.Session.{IsPaired}
use p2p_livestreaming.Bypass.Fleet.{handle_events-session}
use p2p_livestreaming.Tests.Session.{
  frame, packet_in, show_last, publish_frame, play_event, play_answer_event, publish_event,
  publish_answer_event,
}
use p2p_livestreaming.Tests.Peers.{arp, web, hello, busy_session, busy_session-IsSession}

-- The first 12 bytes of a chunk of the viewer, and then a frame of the broadcaster.
abbrev cut_frame : TcpFrame
cut_frame = frame 3 2 5001 1935 (195 ∷ codes "play 6829pr")

abbrev cut_event : Event
cut_event = packet_in 2 13 12 (some cut_frame)

run-rejoined_example :
    let passed =
      normal_send cut_event (record (learn_source cut_event new) { prepend_buf = none }) in
    run show_last (cut_event ∷ publish_event ∷ []) new
    ≡ state (
        handle_rtmp
          (with_payload (cut_frame.payload ++ publish_frame.payload) publish_frame)
          publish_event
          passed)
run-rejoined_example =
    run-rejoined show_last cut_frame publish_frame cut_event publish_event new refl refl
      (record { carried = refl; port = refl; differ = omega arith })
      (record { carried = refl; port = refl; differ = omega arith }) refl (ground arith)
      (ground arith)

-- Two switches, of which the first comes up twice and the other sees an ARP packet in between.
abbrev network_events : List NexusEvent
network_events =
    connection_up 1
    ∷ Network.packet_in 1 play_event
    ∷ connection_up 2
    ∷ Network.packet_in 2 arp
    ∷ connection_up 1
    ∷ Network.packet_in 1 play_answer_event
    ∷ []

handle_events-run_example :
    Listeners show_last
      ((play_event ∷ play_answer_event ∷ []) ∷ (play_answer_event ∷ []) ∷ [])
      ((handle_events show_last network_events launch).switches 1)
handle_events-run_example = handle_events-run show_last 1 network_events

-- The session at the first of two switches.
abbrev fleet_events : List NexusEvent
fleet_events =
    connection_up 2
    ∷ connection_up 1
    ∷ Network.packet_in 1 arp
    ∷ Network.packet_in 1 hello
    ∷ Network.packet_in 1 play_event
    ∷ Network.packet_in 2 publish_event
    ∷ Network.packet_in 1 web
    ∷ Network.packet_in 1 play_answer_event
    ∷ Network.packet_in 1 arp
    ∷ Network.packet_in 1 publish_event
    ∷ Network.packet_in 1 web
    ∷ Network.packet_in 1 publish_answer_event
    ∷ Network.packet_in 1 play_event
    ∷ []

handle_events-session_example :
    (s : Switch) × ((handle_events show_last fleet_events launch).switches 1 ≡ s ∷ [])
    × IsPaired 3 1 2 s
handle_events-session_example =
    handle_events-session show_last fleet_events 1 3 1 2 busy_session (play_event ∷ [])
      busy_session-IsSession refl
