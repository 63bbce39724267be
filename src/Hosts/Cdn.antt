-- ===== src/Hosts/Cdn.antt =====
-- src/hosts/cdn-server.py, `CDN_Server`: the main process. The heartbeat processes that it starts are
-- in Cdn/Heartbeat. A connection is named by a number.
pub mod Heartbeat
pub mod Exclusion
pub mod Channels
pub mod Stuck
pub mod Live
pub mod Progress
use p2p_livestreaming.Prelude.{
  ℕ, ◌≡◌, refl, ap, ◌∙◌, sym, Bool, false, List, [], ◌∷◌, ◌++◌, map, All, Bytes, codes, append_nil,
}
use mathlib.Core.List.{append_assoc}
use p2p_livestreaming.Hosts.{Job, notify_heartbeat, Effect, start, terminate, system, exit}
use p2p_livestreaming.Hosts.Broadcaster.{terminate_all}
use p2p_livestreaming.Hosts.Broadcaster.Streams.{terminate_all-map}

pub record CdnServer : Type 0 where
  pub notify_procs : List Job
  pub effects : List Effect

-- `__init__`, and `run` up to the loop.
abbrev pub started : CdnServer
started = record { notify_procs = []; effects = system (codes "nginx") ∷ [] }

-- The body of the loop, on an accepted connection.
unfoldable pub accept : ℕ → CdnServer → CdnServer
accept connection c = record {
  notify_procs = c.notify_procs ++ notify_heartbeat connection ∷ [];
  effects = c.effects ++ start (notify_heartbeat connection) ∷ [];
}

-- The loop of `run`, over the connections that come in.
unfoldable pub accept_all : List ℕ → CdnServer → CdnServer
unfolding accept
accept_all [] c = c
accept_all (n ∷ ns) c = accept_all ns (accept n c)

-- The main block: `run` of a new server.
unfoldable pub main : List ℕ → CdnServer
unfolding accept_all
main connections = accept_all connections started

-- `_exit_on_kill`
unfoldable pub exit_on_kill : (Job → Bool) → CdnServer → List Effect
unfolding terminate_all
exit_on_kill raises c =
    terminate_all raises c.notify_procs
    ++ (system (codes "killall nginx") ∷ system (codes "kill $(lsof -t -i:42857)") ∷ exit 0 ∷ [])

accept_all-notify_procs :
    (ns : List ℕ) (c : CdnServer)
    → (accept_all ns c).notify_procs ≡ c.notify_procs ++ map notify_heartbeat ns
unfolding accept_all
accept_all-notify_procs [] c = sym (append_nil c.notify_procs)
accept_all-notify_procs (n ∷ ns) c =
    accept_all-notify_procs ns (accept n c)
    ∙ append_assoc c.notify_procs (notify_heartbeat n ∷ []) (map notify_heartbeat ns)

-- A killed CDN server whose processes can all be terminated terminates the heartbeat of every
-- connection that it accepted, in their order, then nginx and what holds the notification port, and
-- exits.
pub exit_on_kill-accept_all :
    (raises : Job → Bool) (ns : List ℕ)
    → All (λ j. raises j ≡ false) (map notify_heartbeat ns)
    → exit_on_kill raises (accept_all ns started)
      ≡ map terminate (map notify_heartbeat ns)
        ++ (system (codes "killall nginx")
            ∷ system (codes "kill $(lsof -t -i:42857)")
            ∷ exit 0
            ∷ [])
unfolding exit_on_kill
exit_on_kill-accept_all raises ns h =
    ap
      (λ es.
        es
        ++ (system (codes "killall nginx")
            ∷ system (codes "kill $(lsof -t -i:42857)")
            ∷ exit 0
            ∷ []))
      (ap (terminate_all raises) (accept_all-notify_procs ns started)
        ∙ terminate_all-map raises (map notify_heartbeat ns) h)
