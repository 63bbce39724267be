-- ===== src/Tests/Cdn.antt =====
-- The heartbeat processes of the CDN server on short runs.
use p2p_livestreaming.Prelude.{ℕ, ◌≡◌, ◌≤◌, refl, true, List, [], ◌∷◌, ◌++◌, arith, All, codes}
use p2p_livestreaming.Hosts.Cdn.Heartbeat.{
  Action, connected, proceed, broken, quiet, sending, acquiring, act, run,
}
use p2p_livestreaming.Hosts.Cdn.Exclusion.{run-exclusion}
use p2p_livestreaming.Hosts.Cdn.Channels.{beats, AllWhole, run-AllWhole}
use p2p_livestreaming.Hosts.Cdn.Stuck.{run_broken}
use p2p_livestreaming.Hosts.Cdn.Live.{calls}
use p2p_livestreaming.Hosts.Cdn.Progress.{run-beats}

-- Two connections; the second waits for the lock while the first is in the middle of its heartbeat.
abbrev actions : List Action
actions = connected 0 ∷ connected 1 ∷ proceed 0 0 ∷ proceed 1 0 ∷ proceed 0 10 ∷ []

half_sent : (run actions quiet).channel 0 ≡ codes "xxxheartbe"
unfolding run
half_sent = refl

left_over : (run actions quiet).stage 0 ≡ sending (codes "atxxx")
unfolding run
left_over = refl

run-exclusion_example : ◌≡◌ {A = ℕ} 0 0
run-exclusion_example =
    run-exclusion actions 0 0 (codes "atxxx") (codes "atxxx") left_over left_over

run-AllWhole_example : AllWhole (run actions quiet)
run-AllWhole_example = run-AllWhole actions quiet (λ _. refl)

run_broken_example :
    (run (proceed 1 0 ∷ proceed 1 15 ∷ []) (act (broken 0) (run actions quiet))).channel
    ≡ (run actions quiet).channel
run_broken_example =
    run_broken actions (proceed 1 0 ∷ proceed 1 15 ∷ []) 0 b'a' (codes "txxx") left_over

waiting : (run actions quiet).stage 1 ≡ acquiring
unfolding run
waiting = refl

run-beats_example :
    (more : List Action) × All (λ a. calls a ≡ true) more
    × ((m : ℕ) × (5 ≤ m) × ((run (actions ++ more) quiet).channel 1 ≡ beats m))
run-beats_example =
    run-beats actions 1 5 (refl, (refl, (refl, (refl, (refl, tt))))) (ground (arith, waiting))
