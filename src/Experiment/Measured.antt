-- ===== src/Experiment/Measured.antt =====
-- The delay that src/live.py reads, from the logs that the hosts' programs write.
use p2p_livestreaming.Prelude.{
  some_injective, ℕ, ◌≡◌, refl, sym, ap, ◌∙◌, inl, inr, Bool, Bool-cases, Option, none, some, List,
  [], ◌∷◌, ◌++◌, map, arith, Bytes, codes, strip, IsSolid, strip_of_IsSolid,
}
use mathlib.Core.List.{append_assoc}
use p2p_livestreaming.Hosts
use p2p_livestreaming.Hosts.{
  Job, stream_service, stream_peer, view_service, view_peer, notify_heartbeat, notify_is_heartbeat,
}
use p2p_livestreaming.Hosts.Broadcaster
use p2p_livestreaming.Hosts.Broadcaster.{Broadcaster, b2v_log, peer_job, broadcast}
use p2p_livestreaming.Hosts.Broadcaster.Streams.{broadcast-IsConsistent}
use p2p_livestreaming.Hosts.Viewer
use p2p_livestreaming.Hosts.Viewer.{Viewer, vfp_log, listen, watch, waited, turn_to_peer}
use p2p_livestreaming.Experiment.Live.{
  Host, hb, hs, hv1, cmd, viewer_cmd, broadcaster_cmd, output_dir, b2v_path, vfp_path, stripped,
  last_line, to_int, stamp_of, minus, parse_delay,
}
use p2p_livestreaming.Experiment.Launch.{
  launch_line, viewer_args, broadcaster_args, viewer_cmd-launch_line, broadcaster_cmd-launch_line,
}
use p2p_livestreaming.Experiment.Paths.{split_lines-word, stamp_of-append}

-- A log with the line `w` at its end.
pub data EndsIn (w : Bytes) : Bytes → Type 0 where
  alone : EndsIn w (w ++ 10 ∷ [])
  behind : (text : Bytes) → EndsIn w (text ++ 10 ∷ (w ++ 10 ∷ []))

stamp_of-EndsIn :
    (int : Bytes → Option ℕ) (c : ℕ) (w log : Bytes)
    → IsSolid (c ∷ w)
    → EndsIn (c ∷ w) log
    → stamp_of int log ≡ int (c ∷ w)
unfolding stamp_of
stamp_of-EndsIn int c w log h alone =
    ap (λ ls. to_int int (last_line (stripped ls))) (split_lines-word [] (c ∷ w) h)
    ∙ ap int (strip_of_IsSolid (c ∷ w) h)
stamp_of-EndsIn int c w log h (behind text) = stamp_of-append int text c w h

-- A log that ends in a line without white space that is the number `t`.
pub record IsStamped (int : Bytes → Option ℕ) (t : ℕ) (log : Bytes) : Type 0 where
  pub first : ℕ
  pub line : Bytes
  pub solid : IsSolid (first ∷ line)
  pub ends : EndsIn (first ∷ line) log
  pub number : int (first ∷ line) ≡ some t

stamp_of-IsStamped :
    (int : Bytes → Option ℕ) (t : ℕ) (log : Bytes) → IsStamped int t log → stamp_of int log ≡ some t
stamp_of-IsStamped int t log h = stamp_of-EndsIn int h.first h.line log h.solid h.ends ∙ h.number

view_peer_injective : (a b : Bytes) → view_peer a ≡ view_peer b → a ≡ b
view_peer_injective a b h = cc

listen-vfp_proc :
    (root_dir : Bytes) (exists : Bytes → Bool) (rs : List Bytes) (v : Viewer) (j : Job)
    → v.vfp_proc ≡ none
    → (listen root_dir exists rs v).0.vfp_proc ≡ some j
    → j ≡ view_peer (vfp_log root_dir v.my_ip)
unfolding listen turn_to_peer
listen-vfp_proc root_dir exists [] v j h e = absurd (ground (arith, h, e))
listen-vfp_proc root_dir exists (r ∷ rs) v j h e =
    elim (Bool-cases (notify_is_heartbeat (strip r))) [
      | inl beat ↦ listen-vfp_proc root_dir exists rs v j h (rw beat at e)
      | inr other ↦ sym (some_injective (rw other at e))
    ]

watch-vfp_proc :
    (root_dir : Bytes) (exists : Bytes → Bool) (rs : List Bytes)
    (my_ip dump_file service_ip : Bytes) (j : Job)
    → (watch root_dir exists rs (Viewer.new root_dir my_ip dump_file service_ip)).vfp_proc ≡ some j
    → j ≡ view_peer (vfp_log root_dir my_ip)
unfolding watch waited Viewer.begin Viewer.new
watch-vfp_proc root_dir exists rs my_ip dump_file service_ip j e =
    listen-vfp_proc root_dir exists rs
      (Viewer.begin root_dir exists (Viewer.new root_dir my_ip dump_file service_ip)) j refl e

-- A job that stands alone is the peer stream of its address.
broadcast-stream_peer :
    (root_dir : Bytes) (exists : Bytes → Bool) (rs : List Bytes)
    (my_ip video_file service_ip ip log : Bytes)
    → (broadcast root_dir exists rs
        (Broadcaster.new root_dir my_ip video_file service_ip)).b2v_procs
      ≡ stream_peer ip log ∷ []
    → log ≡ b2v_log root_dir ip
broadcast-stream_peer root_dir exists rs my_ip video_file service_ip ip log e =
    alone_peer _
      (sym e ∙ (broadcast-IsConsistent root_dir exists rs my_ip video_file service_ip).paired)
  where
    alone_peer :
        (viewers : List Bytes)
        → stream_peer ip log ∷ [] ≡ map (peer_job root_dir) viewers
        → log ≡ b2v_log root_dir ip
    alone_peer [] h = cc
    alone_peer (x ∷ xs) h = cc

path_name :
    (dir kind ip : Bytes) → dir ++ kind ++ ip ++ codes ".log" ≡ dir ++ (kind ++ ip ++ codes ".log")
path_name dir kind ip =
    ap (λ s. s ++ codes ".log") (append_assoc dir kind ip)
    ∙ append_assoc dir (kind ++ ip) (codes ".log")

module _ (int : Bytes → Option ℕ) (read : Bytes → Option Bytes) (root_dir host_dir : Bytes)
    (ip : Host → Bytes)
    (same_dir : (name : Bytes)
      → read (Hosts.output_dir host_dir ++ name) ≡ read (output_dir root_dir ip ++ name)) where
  same_log :
      (kind log : Bytes)
      → read (Hosts.output_dir host_dir ++ kind ++ ip hv1 ++ codes ".log") ≡ some log
      → read (output_dir root_dir ip ++ kind ++ ip hv1 ++ codes ".log") ≡ some log
  same_log kind log h =
      ap read (path_name (output_dir root_dir ip) kind (ip hv1))
      ∙ sym (same_dir (kind ++ ip hv1 ++ codes ".log"))
      ∙ ap read (sym (path_name (Hosts.output_dir host_dir) kind (ip hv1)))
      ∙ h

  parse_delay-logs :
      (fb fv : Bytes) (tb tv : ℕ)
      → read (b2v_path root_dir ip) ≡ some fb
      → read (vfp_path root_dir ip) ≡ some fv
      → stamp_of int fb ≡ some tb
      → stamp_of int fv ≡ some tv
      → parse_delay int read root_dir ip ≡ some (minus tv tb)
  unfolding parse_delay
  parse_delay-logs fb fv tb tv rb rv eb ev = simp (rb, rv, eb, ev) refl

  -- src/live.py starts the broadcaster and the viewer with the arguments of `broadcaster_args` and
  -- `viewer_args`. Let the two programs, started with these, have one stream to the viewer's
  -- address and one from the viewer's peer. If the logs that these two processes name end in lines
  -- without white space that are numbers, and the two spellings of the output directory name the
  -- same files, then the delay that src/live.py reads is the viewer's number less the
  -- broadcaster's.
  pub parse_delay-hosts :
      (exists : Bytes → Bool) (at_broadcaster at_viewer : List Bytes) (video_file dump_file : Bytes)
      (w : Broadcaster) (z : Viewer) (b2v_out vfp_out fb fv : Bytes) (tb tv : ℕ)
      → Broadcaster.main host_dir exists at_broadcaster (broadcaster_args ip video_file) ≡ some w
      → Viewer.main host_dir exists at_viewer (viewer_args ip dump_file) ≡ some z
      → w.b2v_procs ≡ stream_peer (ip hv1) b2v_out ∷ []
      → z.vfp_proc ≡ some (view_peer vfp_out)
      → read b2v_out ≡ some fb
      → read vfp_out ≡ some fv
      → IsStamped int tb fb
      → IsStamped int tv fv
      → (broadcaster_cmd root_dir ip video_file
          ≡ cmd hb (
              launch_line
                (root_dir ++ codes "/src/hosts/broadcaster.py")
                (broadcaster_args ip video_file)))
        × (viewer_cmd root_dir ip dump_file
            ≡ cmd hv1
                (launch_line (root_dir ++ codes "/src/hosts/viewer.py") (viewer_args ip dump_file)))
        × (parse_delay int read root_dir ip ≡ some (minus tv tb))
  unfolding Broadcaster.main Viewer.main
  parse_delay-hosts exists at_broadcaster at_viewer video_file dump_file w z b2v_out vfp_out fb fv
        tb tv started watching streams turned rb rv stamp_b stamp_v =
      let is_b2v =
        broadcast-stream_peer host_dir exists at_broadcaster (ip hb) video_file (ip hs) (ip hv1)
          b2v_out (ap (λ (w : Broadcaster). w.b2v_procs) (some_injective started) ∙ streams) in
      let is_vfp = view_peer_injective vfp_out (vfp_log host_dir (ip hv1)) (
        watch-vfp_proc host_dir exists at_viewer (ip hv1) dump_file (ip hs) (view_peer vfp_out)
          (ap (λ (z : Viewer). z.vfp_proc) (some_injective watching) ∙ turned)) in
      (
        broadcaster_cmd-launch_line root_dir ip video_file,
        viewer_cmd-launch_line root_dir ip dump_file,
        parse_delay-logs fb fv tb tv (same_log (codes "/b2v-") fb (ap read (sym is_b2v) ∙ rb))
            (same_log (codes "/vfp-") fv (ap read (sym is_vfp) ∙ rv))
            (stamp_of-IsStamped int tb fb stamp_b) (stamp_of-IsStamped int tv fv stamp_v),
      )
