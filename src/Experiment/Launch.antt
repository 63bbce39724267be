-- ===== src/Experiment/Launch.antt =====
-- The command lines by which src/live.py starts the hosts' programs.
use p2p_livestreaming.Prelude.{◌≡◌, refl, ap, List, [], ◌∷◌, ◌++◌, Bytes, codes, join}
use mathlib.Core.List.{append_assoc}
use p2p_livestreaming.Experiment.Live.{Host, hb, hs, hv1, cmd, viewer_cmd, broadcaster_cmd}

-- A program of the hosts with its arguments, in the background.
abbrev pub launch_line : (script : Bytes) (args : List Bytes) → Bytes
launch_line script args = join (codes " ") (codes "python" ∷ script ∷ (args ++ codes "&" ∷ []))

abbrev pub viewer_args : (Host → Bytes) → Bytes → List Bytes
viewer_args ip dump_file = ip hv1 ∷ dump_file ∷ ip hs ∷ []

abbrev pub broadcaster_args : (Host → Bytes) → Bytes → List Bytes
broadcaster_args ip video_file = ip hb ∷ video_file ∷ ip hs ∷ []

line_assoc :
    (py dir rel sp a b c amp : Bytes)
    → py ++ dir ++ (rel ++ sp) ++ a ++ sp ++ b ++ sp ++ c ++ (sp ++ amp)
      ≡ py ++ (dir ++ rel ++ sp ++ (a ++ sp ++ (b ++ sp ++ (c ++ sp ++ amp))))
line_assoc py dir rel sp a b c amp = simp append_assoc refl

pub viewer_cmd-launch_line :
    (root_dir : Bytes) (ip : Host → Bytes) (dump_file : Bytes)
    → viewer_cmd root_dir ip dump_file
      ≡ cmd hv1 (launch_line (root_dir ++ codes "/src/hosts/viewer.py") (viewer_args ip dump_file))
unfolding join
viewer_cmd-launch_line root_dir ip dump_file = ap (cmd hv1) (
    line_assoc (codes "python ") root_dir (codes "/src/hosts/viewer.py") (codes " ") (ip hv1)
      dump_file (ip hs) (codes "&"))

pub broadcaster_cmd-launch_line :
    (root_dir : Bytes) (ip : Host → Bytes) (video_file : Bytes)
    → broadcaster_cmd root_dir ip video_file
      ≡ cmd hb (
          launch_line
            (root_dir ++ codes "/src/hosts/broadcaster.py")
            (broadcaster_args ip video_file))
unfolding join
broadcaster_cmd-launch_line root_dir ip video_file = ap (cmd hb) (
    line_assoc (codes "python ") root_dir (codes "/src/hosts/broadcaster.py") (codes " ") (ip hb)
      video_file (ip hs) (codes "&"))
