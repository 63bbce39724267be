-- ===== src/Tests/Bypass.antt =====
-- The theorems on the controller, along one session.
use p2p_livestreaming.Prelude.{◌≡◌, inl, refl, some, [], ◌∷◌}
use p2p_livestreaming.Bypass.{new, learn_source}
use p2p_livestreaming.Bypass.RtmpHandler.{handle_rtmp}
use p2p_livestreaming.Bypass.Dispatch.{run}
use p2p_livestreaming.Bypass.Invariant.{Inv, Inv-new, run-Inv}
use p2p_livestreaming.Bypass.Forwarding.{Forwards, handle_rtmp-Forwards}
use p2p_livestreaming.Bypass.Stage.{SameStage, run-SameStage}
use p2p_livestreaming.Bypass.Learning.{last_port, mac_to_port-last_port}
use p2p_livestreaming.Tests.Session.{
  play_answer, play_event, play_answer_event, show_last, session_events, session_state,
}

run-Inv_example : Inv (run show_last session_events new)
run-Inv_example = run-Inv show_last session_events new Inv-new

-- An answer that no request came before fails an assertion.
handle_rtmp-Forwards_example :
    Forwards play_answer_event
      (learn_source play_answer_event new)
      (handle_rtmp play_answer play_answer_event new)
handle_rtmp-Forwards_example = handle_rtmp-Forwards play_answer play_answer_event new Inv-new

run-SameStage_example :
    SameStage
      (run show_last session_events new)
      (run show_last (play_event ∷ []) (run show_last session_events new))
run-SameStage_example =
    run-SameStage show_last (play_event ∷ []) (run show_last session_events new)
      (inl session_state.0)

mac_to_port-last_port_example :
    (run show_last session_events new).mac_to_port 12 ≡ last_port 12 session_events
mac_to_port-last_port_example = mac_to_port-last_port show_last session_events 12

last_port_of_service : last_port 12 session_events ≡ some 3
unfolding last_port
last_port_of_service = refl
