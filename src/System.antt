-- ===== src/System.antt =====
-- The parts of src/ at work together: the controller of src/pox/pox/livestreaming/bypass.py, and the
-- broadcaster and the viewer of src/hosts on their notification connections. The service sends
-- heartbeats; the controller sees each on its way and sends on what it likes; a host receives what is
-- sent on. What `recv` makes of it is in System/Grouped.
pub mod Channel
pub mod Safety
pub mod Beats
pub mod Grouped
pub mod Streams
pub mod Asked
pub mod Served
pub mod Turned
pub mod Path
use p2p_livestreaming.Prelude.{
  ℕ, Bool, not, ◌&&◌, ◌==◌, ◌⊎◌, if◌then◌else◌, ◌≡◌, ◌≢◌, Option, none, some, List, [], ◌∷◌, ◌++◌,
  length, drop, Bytes,
}
use p2p_livestreaming.OpenFlow.{
  TcpFrame, Event, Body, ofp, rewritten, Message, packet_out, flow_mod, OutPort, to_port, flood,
  FlowMatch, from_packet, learn,
}
use p2p_livestreaming.Rtmp.{rtmp_port}
use p2p_livestreaming.Bypass.{notify_port, Switch, new, state}
use p2p_livestreaming.Bypass.Dispatch.{handle_packet_in}
use p2p_livestreaming.Hosts.{heartbeat_data}

pub record System : Type 0 where
  pub controller : Switch
  pub at_broadcaster : List Bytes
  pub at_viewer : List Bytes

abbrev pub init : System
init = record { controller = new; at_broadcaster = []; at_viewer = [] }

-- The TCP payload that a message carries on.
abbrev pub payload_of : Option TcpFrame → List Bytes
payload_of none = []
payload_of (some f) = f.payload ∷ []

abbrev pub text_of : Option Body → List Bytes
text_of none = []
text_of (some (ofp e)) = payload_of e.tcp
text_of (some (rewritten e payload)) = payload ∷ []

-- Whether an output leaves at the port `q`. OpenFlow sends nothing out of the port that a packet came
-- in by, neither where it floods nor where the action names this port.
abbrev pub leaves : (q in_port : ℕ) → OutPort → Bool
leaves q in_port flood = not (q == in_port)
leaves q in_port (to_port p) = (q == p) && not (q == in_port)

-- What leaves at the port `q`: a copy for each action that leads there.
abbrev pub sent_on : (q in_port : ℕ) → List OutPort → Option Body → List Bytes
sent_on q in_port [] body = []
sent_on q in_port (a ∷ actions) body =
    (if leaves q in_port a then text_of body else []) ++ sent_on q in_port actions body

abbrev pub matched_port : FlowMatch → ℕ
matched_port (from_packet e in_port) = e.port

abbrev pub texts : ℕ → List Message → List Bytes
texts q [] = []
texts q (packet_out m ∷ ms) = sent_on q m.in_port m.actions m.body ++ texts q ms
texts q (flow_mod m ∷ ms) = sent_on q (matched_port m.match) m.actions m.body ++ texts q ms

-- What the controller newly sends on to the host that is attached at the port `q`.
abbrev pub delivered : (q : ℕ) → (before behind : Switch) → List Bytes
delivered q s t = texts q (drop (length s.sent) t.sent)

-- The port that the controller has learned for the destination of a packet, if it has learned one, is
-- `q`, and the packet came in by another.
abbrev pub IsOnward : (q : ℕ) → Event → Switch → Type 0
IsOnward q e s =
    (q ≢ e.port)
    × ((learn e.src e.port s.mac_to_port e.dst ≡ none)
        ⊎ (learn e.src e.port s.mac_to_port e.dst ≡ some q))

-- A heartbeat of the service on the connection of the host `a`, whose own port is not that of RTMP.
pub record IsHeartbeat (a : ℕ) (f : TcpFrame) (e : Event) : Type 0 where
  pub carried : e.tcp ≡ some f
  pub from_notify : f.srcport ≡ notify_port
  pub client_port : f.dstport ≢ rtmp_port
  pub to_host : f.dstip ≡ a
  pub beat : f.payload ≡ heartbeat_data

module _ (show_ip : ℕ → Bytes) where
  abbrev pub after : Event → Switch → Switch
  after e s = state (handle_packet_in show_ip e s)

  -- The controller sees any packet, which does not reach the two processes; or a heartbeat on the
  -- connection of the broadcaster `b` or of the viewer `v`, which is attached at any port `q`.
  pub data Step (b v : ℕ) (s : System) : System → Type 0 where
    packet : (e : Event) → Step b v s (record s { controller = after e s.controller })
    to_broadcaster :
        (q : ℕ) (f : TcpFrame) (e : Event)
        → IsHeartbeat b f e
        → Step b v s (record s {
          controller = after e s.controller;
          at_broadcaster = s.at_broadcaster ++ delivered q s.controller (after e s.controller);
        })
    to_viewer :
        (q : ℕ) (f : TcpFrame) (e : Event)
        → IsHeartbeat v f e
        → Step b v s (record s {
          controller = after e s.controller;
          at_viewer = s.at_viewer ++ delivered q s.controller (after e s.controller);
        })

  pub data Reach (b v : ℕ) : System → Type 0 where
    start : Reach b v init
    later : {s t : System} → Reach b v s → Step b v s t → Reach b v t
