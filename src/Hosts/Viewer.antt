-- ===== src/Hosts/Viewer.antt =====
-- src/hosts/viewer.py, `Viewer`.
pub mod Turn
use p2p_livestreaming.Prelude.{
  ℕ, Bool, true, false, Option, none, some, List, [], ◌∷◌, ◌++◌, if◌then◌else◌, Bytes, codes, strip,
}
use p2p_livestreaming.Hosts.{
  stream_key, notify_port, notify_is_heartbeat, output_dir, Job, view_service, view_peer, Effect,
  start, terminate, connect, system, exit, join_process, remove_if,
}
use p2p_livestreaming.Hosts.Broadcaster.{terminate_all, started}

pub record Viewer : Type 0 where
  pub my_ip : Bytes
  pub dump_file : Bytes
  pub service_ip : Bytes
  pub key : Bytes
  pub vfs_proc : Option Job
  pub vfp_proc : Option Job
  pub effects : List Effect

-- The wait for the peer's process behind the loop.
abbrev pub join_peer : Option Job → List Effect
join_peer none = []
join_peer (some j) = join_process j ∷ []

unfoldable pub waited : Viewer → Viewer
waited v = record v { effects = v.effects ++ join_peer v.vfp_proc }

module _ (root_dir : Bytes) where
  -- `__init__`
  unfoldable pub new : (my_ip dump_file service_ip : Bytes) → Viewer
  new my_ip dump_file service_ip = record {
    my_ip = my_ip;
    dump_file = root_dir ++ codes "/" ++ dump_file;
    service_ip = service_ip;
    key = stream_key;
    vfs_proc = none;
    vfp_proc = none;
    effects = [];
  }

  abbrev pub vfs_log : Bytes → Bytes
  vfs_log my_ip = output_dir root_dir ++ codes "/vfs-" ++ my_ip ++ codes ".log"

  abbrev pub vfp_log : Bytes → Bytes
  vfp_log my_ip = output_dir root_dir ++ codes "/vfp-" ++ my_ip ++ codes ".log"

  module _ (exists : Bytes → Bool) where
    -- `watch` up to the loop.
    unfoldable pub begin : Viewer → Viewer
    begin v =
        let job = view_service v.service_ip (vfs_log v.my_ip) in
        record v {
          vfs_proc = some job;
          effects =
              v.effects
              ++ (remove_if (exists (vfs_log v.my_ip)) (vfs_log v.my_ip)
                  ++ (start job ∷ connect v.service_ip notify_port ∷ []));
        }

    -- The end of the service's stream and the start of the peer's, behind which the loop breaks.
    unfoldable pub turn_to_peer : Viewer → Viewer
    turn_to_peer v =
        let job = view_peer (vfp_log v.my_ip) in
        record v {
          vfs_proc = none;
          vfp_proc = some job;
          effects =
              v.effects
              ++ (system (codes "killall mplayer")
                  ∷ (remove_if (exists v.dump_file) v.dump_file
                      ++ (remove_if (exists (vfp_log v.my_ip)) (vfp_log v.my_ip)
                          ++ (start job ∷ []))));
        }

    -- The loop over what `recv(1024)` gives, with what was not read.
    unfoldable pub listen : List Bytes → Viewer → Viewer × List Bytes
    unfolding turn_to_peer
    listen [] v = (v, [])
    listen (r ∷ rs) v =
        let rest = listen rs v in
        if notify_is_heartbeat (strip r) then rest else (turn_to_peer v, rs)

    -- `watch`
    unfoldable pub watch : List Bytes → Viewer → Viewer
    unfolding begin listen waited
    watch received v = waited (listen received (begin v)).0

-- The main block, on the arguments behind the script's name; `none` is `exit(1)`.
unfoldable pub main : Bytes → (exists : Bytes → Bool) → (received args : List Bytes) → Option Viewer
unfolding new watch
main root_dir exists received (my_ip ∷ dump_file ∷ service_ip ∷ []) =
    some (watch root_dir exists received (new root_dir my_ip dump_file service_ip))
main root_dir exists received _ = none

-- `_exit_on_kill`
unfoldable pub exit_on_kill : (Job → Bool) → Viewer → List Effect
unfolding terminate_all
exit_on_kill raises v =
    terminate_all raises (started v.vfs_proc ++ started v.vfp_proc)
    ++ (system (codes "killall mplayer") ∷ exit 0 ∷ [])
