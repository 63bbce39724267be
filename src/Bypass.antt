-- ===== src/Bypass.antt =====
-- src/pox/pox/livestreaming/bypass.py, `LearningSwitch`: the state of the controller for one
-- switch, the handler of ordinary packets and what the handlers share. A handler returns the state,
-- with the messages sent so far in `sent`, or raises with what it had changed by then. Log output
-- is left out.
pub mod RtmpHandler
pub mod NotifyHandler
pub mod Dispatch
pub mod Rules
pub mod Invariant
pub mod Forwarding
pub mod Signal
pub mod Steps
pub mod Handshake
pub mod Stage
pub mod Watching
pub mod Verdict
pub mod Quiet
pub mod Phase
pub mod Session
pub mod SetOff
pub mod Learning
pub mod Rejoin
pub mod Network
pub mod Fleet
pub mod Traced
pub mod Provenance
use p2p_livestreaming.Prelude.{
  ℕ, ◌+◌, ◌-◌, Bool, true, false, not, ◌&&◌, ◌||◌, Option, none, some, List, [], ◌∷◌, ◌++◌, ◌==◌,
  if◌then◌else◌, is_some, length, Bytes, codes, pad_right,
}
use p2p_livestreaming.OpenFlow.{
  TcpFrame, Event, OutPort, flood, to_port, from_packet, ofp, rewritten, Message, packet_out,
  flow_mod, PortTable, empty_table, learn, out_port,
}

abbrev pub notify_port : ℕ
notify_port = 42857

abbrev pub heartbeat_length : ℕ
heartbeat_length = 15

abbrev pub heartbeat_padding : ℕ
heartbeat_padding = b'|'

-- The role records.
pub record Roles : Type 0 where
  pub vport : Option ℕ
  pub v_dl_addr : Option ℕ
  pub v_nw_addr : Option ℕ
  pub v_tp_port : Option ℕ
  pub bport : Option ℕ
  pub b_dl_addr : Option ℕ
  pub b_nw_addr : Option ℕ
  pub b_tp_port : Option ℕ
  pub sport : Option ℕ
  pub s_dl_addr : Option ℕ
  pub s_nw_addr : Option ℕ

-- The streaming status.
pub record Status : Type 0 where
  pub status_vplay : Bool
  pub status_vready : Bool
  pub status_bpublish : Bool
  pub status_bready : Bool
  pub status_stream_begin : Bool
  pub p2p_enabled : Bool
  pub p2p_set_off : Bool

pub record Switch : Type 0 where
  pub mac_to_port : PortTable
  pub roles : Roles
  pub open roles use *
  pub status : Status
  pub open status use *
  pub prepend_buf : Option Bytes
  pub sent : List Message

-- `__init__`
abbrev pub new : Switch
new = record {
  mac_to_port = empty_table;
  roles = record {
    vport = none;
    v_dl_addr = none;
    v_nw_addr = none;
    v_tp_port = none;
    bport = none;
    b_dl_addr = none;
    b_nw_addr = none;
    b_tp_port = none;
    sport = none;
    s_dl_addr = none;
    s_nw_addr = none;
  };
  status = record {
    status_vplay = false;
    status_vready = false;
    status_bpublish = false;
    status_bready = false;
    status_stream_begin = false;
    p2p_enabled = false;
    p2p_set_off = false;
  };
  prepend_buf = none;
  sent = [];
}

-- `diverged` stands for a loop that does not end within its fuel.
pub data Fault : Type 0 where
  assertion_error type_error index_error diverged : Fault

pub data Outcome : Type 0 where
  ok : Switch → Outcome
  raised : Fault → Switch → Outcome

abbrev pub state : Outcome → Switch
state (ok s) = s
state (raised _ s) = s

infixl 5 ◌>>=◌
abbrev pub ◌>>=◌ : Outcome → (Switch → Outcome) → Outcome
ok s >>= f = f s
raised x s >>= f = raised x s

abbrev pub assert : Bool → Switch → Outcome
assert b s = if b then ok s else raised assertion_error s

abbrev pub send : Message → Switch → Switch
send m s = record s { sent = s.sent ++ m ∷ [] }

abbrev pub learn_source : Event → Switch → Switch
learn_source e s = record s { mac_to_port = learn e.src e.port s.mac_to_port }

-- `x == self.attribute`, where the attribute may be `None`.
abbrev pub is_attr : ℕ → Option ℕ → Bool
is_attr x none = false
is_attr x (some y) = x == y

-- The truth of a number or `None`: zero is false.
abbrev pub truthy : Option ℕ → Bool
truthy none = false
truthy (some n) = not (n == 0)

-- `normal_send`
unfoldable pub normal_send : Event → Switch → Switch
normal_send e s =
    send
      (packet_out (record {
        actions = out_port (s.mac_to_port e.dst) ∷ [];
        body = some (ofp e);
        in_port = e.port;
        buffer_id = none;
      }))
      s

-- The decision of `_handle_PacketIn_normal` behind the lookup of the destination.
unfoldable pub forward : Option ℕ → Event → Switch → Switch
forward none e s =
    send
      (packet_out
        (record { actions = flood ∷ []; body = some (ofp e); in_port = e.port; buffer_id = none }))
      s
forward (some out) e s =
    if out == e.port
    then s
    else send
        (flow_mod (record {
          match = from_packet e (some e.port);
          actions = to_port out ∷ [];
          body = some (ofp e);
          idle_timeout = none;
          hard_timeout = none;
          buffer_id = none;
        }))
        s

unfoldable pub handle_normal : Event → Switch → Outcome
unfolding forward
handle_normal e s = let s₁ = learn_source e s in ok (forward (s₁.mac_to_port e.dst) e s₁)
