-- ===== src/Hosts/Broadcaster.antt =====
-- src/hosts/broadcaster.py, `Broadcaster`. Whether a file exists and whether `terminate` raises are
-- the environment's answers; what the notification socket delivers is a list of `recv` results.
pub mod Streams
use p2p_livestreaming.Prelude.{
  ℕ, Bool, true, false, not, Option, none, some, List, [], ◌∷◌, ◌++◌, map, ◌||◌, if◌then◌else◌,
  Bytes, bytes_eq, codes, strip,
}
use p2p_livestreaming.Hosts.{
  stream_key, notify_port, notify_is_heartbeat, parse_notify_ip, output_dir, Job, stream_service,
  stream_peer, Effect, start, terminate, connect, sleep, system, exit, remove_if,
}

pub record Broadcaster : Type 0 where
  pub my_ip : Bytes
  pub video_file : Bytes
  pub service_ip : Bytes
  pub key : Bytes
  pub b2s_proc : Option Job
  pub p2p_viewers : List Bytes
  pub b2v_procs : List Job
  pub effects : List Effect

-- `viewer_ip in self.p2p_viewers`
unfoldable pub member : Bytes → List Bytes → Bool
unfolding bytes_eq
member x [] = false
member x (y ∷ ys) = bytes_eq x y || member x ys

module _ (root_dir : Bytes) where
  -- `__init__`
  unfoldable pub new : (my_ip video_file service_ip : Bytes) → Broadcaster
  new my_ip video_file service_ip = record {
    my_ip = my_ip;
    video_file = root_dir ++ codes "/" ++ video_file;
    service_ip = service_ip;
    key = stream_key;
    b2s_proc = none;
    p2p_viewers = [];
    b2v_procs = [];
    effects = [];
  }

  abbrev pub b2s_log : Bytes
  b2s_log = output_dir root_dir ++ codes "/b2s.log"

  abbrev pub b2v_log : Bytes → Bytes
  b2v_log viewer_ip = output_dir root_dir ++ codes "/b2v-" ++ viewer_ip ++ codes ".log"

  abbrev pub peer_job : Bytes → Job
  peer_job viewer_ip = stream_peer viewer_ip (b2v_log viewer_ip)

  module _ (exists : Bytes → Bool) where
    -- `broadcast` up to the loop.
    unfoldable pub begin : Broadcaster → Broadcaster
    begin b =
        let job = stream_service b.service_ip b2s_log in
        record b {
          b2s_proc = some job;
          effects =
              b.effects
              ++ (remove_if (exists b2s_log) b2s_log
                  ++ (start job ∷ connect b.service_ip notify_port ∷ []));
        }

    -- The start of a stream to a viewer that has none yet.
    unfoldable pub add_viewer : Bytes → Broadcaster → Broadcaster
    unfolding member
    add_viewer viewer_ip b = if member viewer_ip b.p2p_viewers then b else record b {
      p2p_viewers = b.p2p_viewers ++ viewer_ip ∷ [];
      b2v_procs = b.b2v_procs ++ peer_job viewer_ip ∷ [];
      effects =
          b.effects
          ++ (remove_if (exists (b2v_log viewer_ip)) (b2v_log viewer_ip)
              ++ (sleep 3 ∷ start (peer_job viewer_ip) ∷ []));
    }

    -- The body of the loop, on what `recv(1024)` gave.
    unfoldable pub on_recv : Bytes → Broadcaster → Broadcaster
    unfolding add_viewer
    on_recv received b =
        if notify_is_heartbeat (strip received)
        then b
        else add_viewer (parse_notify_ip (strip received)) b

    unfoldable pub listen : List Bytes → Broadcaster → Broadcaster
    unfolding on_recv
    listen [] b = b
    listen (r ∷ rs) b = listen rs (on_recv r b)

    -- `broadcast`
    unfoldable pub broadcast : List Bytes → Broadcaster → Broadcaster
    unfolding begin listen
    broadcast received b = listen received (begin b)

-- The main block, on the arguments behind the script's name; `none` is `exit(1)`.
unfoldable pub main :
    Bytes → (exists : Bytes → Bool) → (received args : List Bytes) → Option Broadcaster
unfolding new broadcast
main root_dir exists received (my_ip ∷ video_file ∷ service_ip ∷ []) =
    some (broadcast root_dir exists received (new root_dir my_ip video_file service_ip))
main root_dir exists received _ = none

-- The calls of `terminate` in the `try` block: the first that raises ends it.
unfoldable pub terminate_all : (Job → Bool) → List Job → List Effect
terminate_all raises [] = []
terminate_all raises (j ∷ js) =
    let rest = terminate_all raises js in terminate j ∷ (if raises j then [] else rest)

abbrev pub started : Option Job → List Job
started none = []
started (some j) = j ∷ []

-- `_exit_on_kill`
unfoldable pub exit_on_kill : (Job → Bool) → Broadcaster → List Effect
unfolding terminate_all
exit_on_kill raises b =
    terminate_all raises (started b.b2s_proc ++ b.b2v_procs)
    ++ (system (codes "killall ffmpeg") ∷ exit 0 ∷ [])
