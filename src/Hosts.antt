-- ===== src/Hosts.antt =====
-- src/hosts/common.py: the constants and the notification helpers that the end hosts share, and
-- the effects that the host programs have on their machine, in the order in which they make them.
-- Output by `print` is left out.
pub mod Commands
pub mod Broadcaster
pub mod Viewer
pub mod Cdn
use p2p_livestreaming.Prelude.{
  ℕ, Bool, true, false, List, [], ◌∷◌, ◌++◌, Bytes, codes, contains, find, slice_to,
}

abbrev pub stream_key : Bytes
stream_key = codes "6829proj"

abbrev pub notify_port : ℕ
notify_port = 42857

abbrev pub heartbeat_clue : Bytes
heartbeat_clue = codes "heartbeat"

abbrev pub heartbeat_data : Bytes
heartbeat_data = codes "xxx" ++ heartbeat_clue ++ codes "xxx"

abbrev pub heartbeat_padding : ℕ
heartbeat_padding = b'|'

unfoldable pub notify_is_heartbeat : Bytes → Bool
unfolding contains
notify_is_heartbeat notify_data = contains heartbeat_clue notify_data

-- `notify_data[:notify_data.find(HEARTBEAT_PADDING)]`
unfoldable pub parse_notify_ip : Bytes → Bytes
unfolding find slice_to
parse_notify_ip notify_data = slice_to (find (heartbeat_padding ∷ []) notify_data) notify_data

-- `OUTPUT_DIR`, below the directory that the program was started from.
abbrev pub output_dir : Bytes → Bytes
output_dir root_dir = root_dir ++ codes "/output"

-- A `Process` of the hosts: its target and its arguments.
pub data Job : Type 0 where
  stream_service : (target_ip out_file : Bytes) → Job
  stream_peer : (target_ip out_file : Bytes) → Job
  view_service : (source_ip out_file : Bytes) → Job
  view_peer : (out_file : Bytes) → Job
  notify_heartbeat : (connection : ℕ) → Job

pub data Effect : Type 0 where
  remove_file : Bytes → Effect
  start : Job → Effect
  terminate : Job → Effect
  join_process : Job → Effect
  connect : Bytes → ℕ → Effect
  sleep : ℕ → Effect
  system : Bytes → Effect
  exit : ℕ → Effect

-- `if os.path.exists(path): os.remove(path)`
abbrev pub remove_if : Bool → Bytes → List Effect
remove_if exists path = elim exists [ true ↦ remove_file path ∷ [] | false ↦ [] ]

-- The processes that are started, in order.
abbrev pub starts : List Effect → List Job
starts [] = []
starts (start j ∷ es) = j ∷ starts es
starts (_ ∷ es) = starts es
