-- ===== src/OpenFlow.antt =====
-- What the two controllers under src/pox/pox/livestreaming read of POX and give to it. Addresses
-- and datapath ids are numbers. The calls into POX are kept as data: a `PacketIn` event with the
-- fields that the handlers read, and the messages handed to `connection.send`.
use p2p_livestreaming.Prelude.{ℕ, Option, none, some, List, Bytes, ◌==◌, if◌then◌else◌}

-- The IPv4 and TCP fields of a frame: `event.parsed.find('tcp')` with its IP packet.
pub record TcpFrame : Type 0 where
  pub srcip : ℕ
  pub dstip : ℕ
  pub srcport : ℕ
  pub dstport : ℕ
  pub payload : Bytes

-- `tcp` is `none` where `find('tcp')` gives nothing true.
pub record Event : Type 0 where
  pub port : ℕ
  pub dpid : ℕ
  pub src : ℕ
  pub dst : ℕ
  pub eth_type : ℕ
  pub buffer_id : Option ℕ
  pub tcp : Option TcpFrame

-- The port of an output action: a port number or `OFPP_FLOOD`.
pub data OutPort : Type 0 where
  to_port : ℕ → OutPort
  flood : OutPort

-- `ofp_match.from_packet(packet)`, with the in-port if it is given.
pub data FlowMatch : Type 0 where
  from_packet : Event → Option ℕ → FlowMatch

-- `msg.data`: the frame of the event, or the parsed packet with a new TCP payload.
pub data Body : Type 0 where
  ofp : Event → Body
  rewritten : Event → Bytes → Body

pub record PacketOut : Type 0 where
  pub actions : List OutPort
  pub body : Option Body
  pub in_port : ℕ
  pub buffer_id : Option ℕ

pub record FlowMod : Type 0 where
  pub match : FlowMatch
  pub actions : List OutPort
  pub body : Option Body
  pub idle_timeout : Option ℕ
  pub hard_timeout : Option ℕ
  pub buffer_id : Option ℕ

pub data Message : Type 0 where
  packet_out : PacketOut → Message
  flow_mod : FlowMod → Message

-- `self.macToPort`, as a function.
abbrev pub PortTable : Type 0
PortTable = ℕ → Option ℕ

abbrev pub empty_table : PortTable
empty_table _ = none

-- `self.macToPort[mac] = port`
abbrev pub learn : ℕ → ℕ → PortTable → PortTable
learn mac port table other = if other == mac then some port else table other

-- `self.macToPort[dst] if dst in self.macToPort else of.OFPP_FLOOD`
abbrev pub out_port : Option ℕ → OutPort
out_port none = flood
out_port (some p) = to_port p
