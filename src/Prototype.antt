-- ===== src/Prototype.antt =====
-- prototype/hosts/common.py, and the sockets of the prototype: the constants of the frame protocol and
-- the routine `_recv_frame` that prototype/hosts/cdn-server.py and prototype/hosts/viewer.py share. A
-- connected socket is the bytes that the sender still has in flight; the network decides at each
-- `recv` how many of them it hands over. `struct.pack('!d')` is a parameter where it is used.
pub mod Sockets
pub mod Stream
pub mod Broadcaster
pub mod Viewer
pub mod CdnServer
pub mod Wire
pub mod EndToEnd
pub mod Serve
pub mod Relay
pub mod Overrun
pub mod HeaderCut
pub mod Video
use Prim.Native.Nat.{min}
use p2p_livestreaming.Prelude.{
  ℕ, zero, suc, ◌+◌, ◌-◌, ◌*◌, Bool, true, false, Option, none, some, List, [], ◌∷◌, ◌++◌, ltb,
  ◌==◌, if◌then◌else◌, length, take, drop, Bytes, bytes_eq,
}

abbrev pub frame_size : ℕ
frame_size = 144 * 120

-- The control messages.
abbrev pub frame_beg : Bytes
frame_beg = 1 ∷ []

abbrev pub frame_end : Bytes
frame_end = 2 ∷ []

abbrev pub bcast_beg : Bytes
bcast_beg = 3 ∷ []

abbrev pub bcast_end : Bytes
bcast_end = 4 ∷ []

abbrev pub ctrl_msg_len : ℕ
ctrl_msg_len = 1

abbrev pub timestamp_len : ℕ
timestamp_len = 8

abbrev pub frame_rate : ℕ
frame_rate = 10

-- `struct.pack('!d', time.time())` and `struct.unpack('!d', stamp)[0]`, from what `struct` does and
-- the time of the call.
abbrev pub get_timestamp : {Time : Type 0} → (pack_time : Time → Bytes) → (now : Time) → Bytes
get_timestamp pack_time now = pack_time now

abbrev pub parse_timestamp :
    {Time : Type 0} → (unpack_time : Bytes → Option Time) → (stamp : Bytes) → Option Time
parse_timestamp unpack_time stamp = unpack_time stamp

-- One less than what the network hands over at the next calls of `recv`, and behind these all that
-- is asked for.
pub record Sock : Type 0 where
  pub sizes : List ℕ
  pub stream : Bytes

abbrev pub rest_sizes : List ℕ → List ℕ
rest_sizes [] = []
rest_sizes (_ ∷ ks) = ks

abbrev pub granted : ℕ → List ℕ → ℕ
granted n [] = n
granted n (k ∷ _) = min n (suc k)

-- `sock.recv(n)`: at most `n` bytes, none only where the stream is at its end.
unfoldable pub recv : ℕ → Sock → Bytes × Sock
recv n s = (
  take (granted n s.sizes) s.stream,
  record { sizes = rest_sizes s.sizes; stream = drop (granted n s.sizes) s.stream },
)

-- The loop until a control message that starts a frame or ends the broadcast.
pub data Awaited : Type 0 where
  begun over : Sock → Awaited
  waiting : Awaited

unfoldable pub await_frame : ℕ → Sock → Awaited
unfolding recv bytes_eq
await_frame zero s = waiting
await_frame (suc fuel) s =
    let (msg, s₁) = recv ctrl_msg_len s in
    let rest = await_frame fuel s₁ in
    if bytes_eq msg frame_beg then begun s₁ else if bytes_eq msg bcast_end then over s₁ else rest

-- The loop that completes a frame.
unfoldable pub fill : ℕ → Bytes → Sock → Option (Bytes × Sock)
unfolding recv
fill zero frame s = if ltb (length frame) frame_size then none else some (frame, s)
fill (suc fuel) frame s =
    let (more, s₁) = recv (frame_size - length frame) s in
    let rest = fill fuel (frame ++ more) s₁ in
    if ltb (length frame) frame_size then rest else some (frame, s)

-- `_recv_frame` up to the processing of the header: `got` has header and content, `spinning` is a
-- loop that did not end within its fuel.
pub data Received : Type 0 where
  got : (header frame : Bytes) → Sock → Received
  ended : Sock → Received
  assertion_error : Received
  spinning : Received

abbrev pub checked : Bytes → Option (Bytes × Sock) → Received
checked header none = spinning
checked header (some (frame, s)) =
    if length frame == frame_size then got header frame s else assertion_error

unfoldable pub recv_content : ℕ → Sock → Received
unfolding recv fill
recv_content fuel s =
    let (header, s₁) = recv timestamp_len s in
    let (frame, s₂) = recv frame_size s₁ in checked header (fill fuel frame s₂)

unfoldable pub recv_frame : ℕ → Sock → Received
unfolding await_frame recv_content
recv_frame fuel s = elim (await_frame fuel s) [
  | waiting ↦ spinning
  | over s₁ ↦ ended s₁
  | begun s₁ ↦ recv_content fuel s₁
]
