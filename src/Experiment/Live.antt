-- ===== src/Experiment/Live.antt =====
-- src/live.py: the livestreaming test on the single-switch network, as the effects that it has in
-- order. The addresses that Mininet gives to the hosts are parameters.
use p2p_livestreaming.Prelude.{
  ◌>>=◌, Bool, true, false, ℕ, Option, none, some, List, [], ◌∷◌, ◌++◌, Bytes, codes, strip, ◌==◌,
  ltb, ◌-◌, if◌then◌else◌,
}

pub data Host : Type 0 where
  hb hs hv1 : Host

-- `net_start`, `ping_all` and `net_stop` are Mininet's; `cmd` is a command on a host.
pub data Effect : Type 0 where
  net_start dump_connections ping_all net_stop : Effect
  system : Bytes → Effect
  mkdir : Bytes → Effect
  exit : ℕ → Effect
  cmd : Host → Bytes → Effect
  sleep : ℕ → Effect

module _ (root_dir : Bytes) (ip : Host → Bytes) where
  abbrev pub output_dir : Bytes
  output_dir = root_dir ++ codes "/output"

  -- `_launch_service`
  unfoldable pub launch_service : List Effect
  launch_service =
      cmd hs (codes "python " ++ root_dir ++ codes "/src/hosts/cdn-server.py &") ∷ sleep 1 ∷ []

  abbrev pub viewer_cmd : Bytes → Effect
  viewer_cmd dump_file = cmd hv1 (
      codes "python "
      ++ root_dir
      ++ codes "/src/hosts/viewer.py "
      ++ ip hv1
      ++ codes " "
      ++ dump_file
      ++ codes " "
      ++ ip hs
      ++ codes " &")

  abbrev pub broadcaster_cmd : Bytes → Effect
  broadcaster_cmd video_file = cmd hb (
      codes "python "
      ++ root_dir
      ++ codes "/src/hosts/broadcaster.py "
      ++ ip hb
      ++ codes " "
      ++ video_file
      ++ codes " "
      ++ ip hs
      ++ codes " &")

  -- `_do_livestreaming`
  unfoldable pub do_livestreaming : (video_file dump_file : Bytes) → List Effect
  do_livestreaming video_file dump_file =
      cmd hb (codes "ping -i 1 " ++ ip hs ++ codes " > " ++ output_dir ++ codes "/b2s.ping &")
      ∷ cmd hs (
          codes "ping -i 1 "
          ++ ip hv1
          ++ codes " > "
          ++ output_dir
          ++ codes "/s2v-"
          ++ ip hv1
          ++ codes ".ping &")
      ∷ cmd hb (
          codes "ping -i 1 "
          ++ ip hv1
          ++ codes " > "
          ++ output_dir
          ++ codes "/b2v-"
          ++ ip hv1
          ++ codes ".ping &")
      ∷ viewer_cmd dump_file
      ∷ sleep 10
      ∷ broadcaster_cmd video_file
      ∷ sleep 60
      ∷ []

  -- `_clean_all`
  unfoldable pub clean_all : List Effect
  clean_all =
      cmd hs (codes "kill $(pgrep -f cdn-server.py)")
      ∷ cmd hb (codes "kill $(pgrep -f broadcaster.py)")
      ∷ cmd hv1 (codes "kill $(pgrep -f viewer.py)")
      ∷ cmd hs (codes "kill $(pgrep -f ping)")
      ∷ cmd hb (codes "kill $(pgrep -f ping)")
      ∷ cmd hv1 (codes "kill $(pgrep -f ping)")
      ∷ []

  -- `livestremaing_test`
  unfoldable pub livestremaing_test : (video_file dump_file : Bytes) → List Effect
  unfolding launch_service do_livestreaming clean_all
  livestremaing_test video_file dump_file =
      net_start
      ∷ system (codes "rm " ++ output_dir ++ codes "/*")
      ∷ dump_connections
      ∷ ping_all
      ∷ (launch_service
          ++ (do_livestreaming video_file dump_file ++ (clean_all ++ (net_stop ∷ []))))

  abbrev pub mkdir_unless : Bool → List Effect
  mkdir_unless true = []
  mkdir_unless false = mkdir output_dir ∷ []

  -- The main block, on the arguments behind the script's name.
  unfoldable pub main : (exists : Bool) (args : List Bytes) → List Effect
  unfolding livestremaing_test
  main exists (video_file ∷ dump_file ∷ []) =
      mkdir_unless exists ++ livestremaing_test video_file dump_file
  main exists _ = mkdir_unless exists ++ (exit 1 ∷ [])

-- `s.split('\n')`, behind the part of a line that was read.
unfoldable pub split_lines : Bytes → Bytes → List Bytes
split_lines line [] = line ∷ []
split_lines line (c ∷ s) =
    let cut = split_lines [] s in
    let more = split_lines (line ++ c ∷ []) s in if c == 10 then line ∷ cut else more

-- `[l.strip() for l in text.split('\n') if l]`
abbrev pub stripped : List Bytes → List Bytes
stripped [] = []
stripped ([] ∷ ls) = stripped ls
stripped ((c ∷ l) ∷ ls) = strip (c ∷ l) ∷ stripped ls

-- `lines[-1]`
abbrev pub last_line : List Bytes → Option Bytes
last_line [] = none
last_line (l ∷ []) = some l
last_line (_ ∷ l ∷ ls) = last_line (l ∷ ls)

abbrev pub to_int : (Bytes → Option ℕ) → Option Bytes → Option ℕ
to_int int none = none
to_int int (some l) = int l

-- The time stamp at the end of a log, `none` where `[-1]` or `int` raises.
unfoldable pub stamp_of : (Bytes → Option ℕ) → Bytes → Option ℕ
unfolding split_lines
stamp_of int text = to_int int (last_line (stripped (split_lines [] text)))

-- Python's difference of two numbers.
pub data Difference : Type 0 where
  more less : ℕ → Difference

abbrev pub minus : ℕ → ℕ → Difference
minus a b = if ltb a b then less (b - a) else more (a - b)

-- `_parse_delay`, on the logs of the broadcaster and of the viewer; `read` is `none` where `open`
-- raises.
abbrev pub b2v_path : (root_dir : Bytes) → (ip : Host → Bytes) → Bytes
b2v_path root_dir ip = output_dir root_dir ip ++ codes "/b2v-" ++ ip hv1 ++ codes ".log"

abbrev pub vfp_path : (root_dir : Bytes) → (ip : Host → Bytes) → Bytes
vfp_path root_dir ip = output_dir root_dir ip ++ codes "/vfp-" ++ ip hv1 ++ codes ".log"

unfoldable pub parse_delay :
    (int : Bytes → Option ℕ) (read : Bytes → Option Bytes) (root_dir : Bytes) (ip : Host → Bytes)
    → Option Difference
unfolding stamp_of
parse_delay int read root_dir ip = do
  fb ← read (b2v_path root_dir ip)
  fv ← read (vfp_path root_dir ip)
  tb ← stamp_of int fb
  tv ← stamp_of int fv
  some (minus tv tb)
