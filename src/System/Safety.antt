-- ===== src/System/Safety.antt =====
-- What the two hosts have heard in every state of the system that is reached, whatever packets the
-- controller sees and in whatever order the heartbeats of the service pass through it.
use p2p_livestreaming.Prelude.{ℕ, List, ◌++◌, All, All-append, Bytes}
use p2p_livestreaming.OpenFlow.{TcpFrame, Event}
use p2p_livestreaming.Bypass.{Switch}
use p2p_livestreaming.Bypass.Invariant.{Inv, Inv-new, handle_packet_in-Inv}
use p2p_livestreaming.Bypass.Watching.{IsVerdict}
use p2p_livestreaming.Bypass.Verdict.{handle_packet_in-Move, IsVerdict-new}
use p2p_livestreaming.System.{
  System, Step, packet, to_broadcaster, to_viewer, Reach, start, later, after,
}
use p2p_livestreaming.System.Channel.{Heard, Heard-delivered, All-Heard-after}

module _ (show_ip : ℕ → Bytes) (b v : ℕ) where
  -- The controller's invariant, and what the two hosts have heard.
  pub record IsSound (s : System) : Type 0 where
    pub valid : Inv s.controller
    pub reasons : IsVerdict s.controller
    pub broadcaster_heard : All (Heard show_ip b s.controller) s.at_broadcaster
    pub viewer_heard : All (Heard show_ip v s.controller) s.at_viewer

  All-Heard-append :
      (a : ℕ) (f : TcpFrame) (e : Event) (s : Switch) (heard more : List Bytes)
      → All (Heard show_ip a s) heard
      → All (Heard show_ip a s) more
      → All (Heard show_ip a (after show_ip e s)) (heard ++ more)
  All-Heard-append a f e s heard more h k =
      All-append (Heard show_ip a (after show_ip e s)) heard more
        (All-Heard-after show_ip a e s heard h) (All-Heard-after show_ip a e s more k)

  Step-IsSound : {s t : System} → Step show_ip b v s t → IsSound s → IsSound t
  Step-IsSound {s} (packet e) i = record {
    valid = handle_packet_in-Inv show_ip e s.controller i.valid;
    reasons = (handle_packet_in-Move show_ip e s.controller i.reasons).0;
    broadcaster_heard =
        All-Heard-after show_ip b e s.controller s.at_broadcaster i.broadcaster_heard;
    viewer_heard = All-Heard-after show_ip v e s.controller s.at_viewer i.viewer_heard;
  }
  Step-IsSound {s} (to_broadcaster q f e n) i = record {
    valid = handle_packet_in-Inv show_ip e s.controller i.valid;
    reasons = (handle_packet_in-Move show_ip e s.controller i.reasons).0;
    broadcaster_heard =
        All-Heard-append b f e s.controller s.at_broadcaster _ i.broadcaster_heard
          (Heard-delivered show_ip b q f e s.controller n);
    viewer_heard = All-Heard-after show_ip v e s.controller s.at_viewer i.viewer_heard;
  }
  Step-IsSound {s} (to_viewer q f e n) i = record {
    valid = handle_packet_in-Inv show_ip e s.controller i.valid;
    reasons = (handle_packet_in-Move show_ip e s.controller i.reasons).0;
    broadcaster_heard =
        All-Heard-after show_ip b e s.controller s.at_broadcaster i.broadcaster_heard;
    viewer_heard =
        All-Heard-append v f e s.controller s.at_viewer _ i.viewer_heard
          (Heard-delivered show_ip v q f e s.controller n);
  }

  pub Reach-IsSound : {s : System} → Reach show_ip b v s → IsSound s
  Reach-IsSound start = record {
    valid = Inv-new;
    reasons = IsVerdict-new;
    broadcaster_heard = tt;
    viewer_heard = tt;
  }
  Reach-IsSound (later r st) = Step-IsSound st (Reach-IsSound r)
