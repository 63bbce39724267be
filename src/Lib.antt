-- ===== src/Lib.antt =====
-- P2P livestreaming: a stream between a broadcaster and a viewer of one local network is moved from
-- the path through a CDN service to the direct path between the two hosts. An OpenFlow controller
-- watches the RTMP set-up of the stream; when both ends are ready it writes the peer's address over a
-- heartbeat of the service, and the hosts turn to each other.
--
-- Files and the code they model
-- - Rtmp: `RTMPControlPacket` of src/pox/pox/livestreaming/bypass.py and the loop that cuts a TCP
--   payload into packets. Position, HeaderSize, Widths, Bounds, Wire, Sound, RoundTrip, Loop and
--   Partition hold its proofs.
-- - OpenFlow: what the controllers read of POX and the messages that they send.
-- - Bypass: `LearningSwitch` of the same file: its state and `_handle_PacketIn_normal`.
--   Bypass/RtmpHandler is `_handle_PacketIn_rtmp`, Bypass/NotifyHandler `_handle_PacketIn_notify`,
--   Bypass/Dispatch `_handle_PacketIn` and a run over the packets of a switch. Bypass/Network is
--   `BypassLivestreaming` and `launch`: a controller for each connection of a network of switches; where several listen
--   on one connection, the first exception ends the handling of a packet, as in POX's `revent`. The
--   proofs are in Invariant, Forwarding and Learning (every packet), Signal, Steps and Handshake (the
--   four signals), Quiet, Phase, Session, SetOff and Fleet (whole sessions), Stage, Watching and Verdict
--   (the stages as a state machine), Traced and Provenance (where its records come from) and Rejoin (the
--   kept bytes). Rules has the rules for chains of checks.
-- - Direct: `LearningSwitch` of src/pox/pox/livestreaming/direct.py. Direct/Loopless and Direct/Compare
--   hold its proofs; Direct/Launch is `DirectLivestreaming` and `launch`; `str_to_dpid` of
--   POX is a parameter, which may raise.
-- - Hosts: src/hosts/common.py. Hosts/Broadcaster and Hosts/Viewer are broadcaster.py and viewer.py
--   of src/hosts, Hosts/Commands the shell commands of both. Their proofs stand below them.
-- - Hosts/Cdn: src/hosts/cdn-server.py; Hosts/Cdn/Heartbeat is its heartbeat processes as actions that
--   interleave, with proofs in Exclusion, Channels, Stuck, Live and Progress.
-- - Notification: the channel from the controller to the hosts. Notification/Peers puts the parts
--   together: a session at the controller, its pushes, and the two hosts; Notification/Replaced is a
--   session with a second viewer, Notification/Rendezvous the commands that the two hosts then run.
-- - System: the controller and the two hosts at once, as a step relation: any packet at the controller,
--   or a heartbeat of the service that passes the controller on its way to a host. System/Channel says
--   what a host hears, Safety and Beats what it has heard in a state that is reached, Grouped what
--   `recv` makes of it, and Streams, Asked, Served and Turned which peers the hosts turn to.
--   System/Path is a heartbeat that passes several switches.
-- - Prototype: the sockets and the frame protocol of prototype/hosts; Prototype/Broadcaster, Viewer
--   and CdnServer are the three programs, Prototype/Video is prototype/utils/gen-video.py.
--   Sockets, Stream, Wire, EndToEnd, Serve, Relay, Overrun and HeaderCut hold the proofs.
-- - Experiment: src/topo.py and prototype/topo.py; Experiment/Live is src/live.py, Experiment/Prototype
--   prototype/live.py, Experiment/Plot src/plot.py. Experiment/Paths and Curves hold proofs on logs,
--   networks and curves, Experiment/Launch and Measured those on the command lines and on the delay
--   between the logs of the hosts.
-- - Prelude: names of the library, lists over the native numbers, text as bytes. Tests: the theorems
--   at concrete inputs.
--
-- Model
-- Bytes, ports, addresses and datapath ids are numbers. A handler of the controller takes a state and
-- returns a state, or raises with the state that it had changed by then; POX catches what a handler
-- raises and goes on, which `run` models. Messages to the switch and effects of the host programs on
-- their machine are lists in the order in which they are made. What the
-- environment answers (whether a file exists, whether `terminate` raises, what `recv` returns) is an
-- argument. `str` of POX's `IPAddr` is a parameter, with the hypothesis that it prints digits and
-- dots, at most 15 of them.
--
-- In System what the controller holds back is not heard, and `recv` may return several texts as one,
-- but no part of a text. A message reaches a host at its port by OpenFlow's rule: what is sent to
-- another port, or back out of the port that the packet came in by, does not arrive there. In
-- System/Path each controller is in the state in which it sees the frame.
-- The entries that the controller installs are messages of the model; how the switch matches packets
-- against them is not modelled.
--
-- Fuel
-- The loop over a TCP payload has the payload's length as its fuel. A packet that parses takes one
-- byte at least, so this is enough.
-- The loops of the prototype take fuel; the larger of the frame size and the number of frames is what
-- a whole broadcast needs.
--
-- Not modelled
-- POX, a copy of another project; log output, but for the text of `dump_fields` in Rtmp/Dump; the
-- styles of the lines in src/plot.py; Mininet; the flow steering of bypass.py that is commented out.
pub mod Prelude
pub mod Rtmp
pub mod OpenFlow
pub mod Bypass
pub mod Hosts
pub mod Notification
pub mod System
pub mod Direct
pub mod Prototype
pub mod Experiment
mod Tests
