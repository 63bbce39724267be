-- ===== src/Hosts/Cdn/Progress.antt =====
-- What the heartbeat processes can always do while no connection breaks.
use p2p_livestreaming.Prelude.{
  ℕ, zero, suc, ◌+◌, ◌≡◌, ◌≢◌, ◌≤◌, refl, sym, ap, ◌∙◌, true, false, Bool-cases, inl, inr,
  Option-cases, none, List, [], ◌∷◌, ◌++◌, arith, ◌==◌, append_nil, All, All-append, length,
  drop_of_le, Bytes,
}
use mathlib.Core.Path.{subst}
use mathlib.Core.List.{append_assoc}
use p2p_livestreaming.Hosts.{heartbeat_data}
use p2p_livestreaming.Hosts.Cdn.Heartbeat.{
  Stage, unborn, acquiring, sleeping, ended, sending, World, quiet, Action, connected, proceed,
  broken, acquire, send_part, next_call, act, run,
}
use p2p_livestreaming.Hosts.Cdn.Exclusion.{Locked}
use p2p_livestreaming.Hosts.Cdn.Channels.{beats, beats-add, run-AllWhole, at}
use p2p_livestreaming.Hosts.Cdn.Live.{breaks, calls, IsLive, run-IsLive}

-- The lock is free and process `i` is there, not in the middle of a heartbeat.
record IsReady (i : ℕ) (w : World) : Type 0 where
  free : w.nlock ≡ none
  resting : w.stage i ≡ sleeping

-- What calls can make of a world.
Leads : World → (World → Type 0) → Type 0
Leads w P = (more : List Action) × All (λ a. calls a ≡ true) more × P (run more w)

same_process : (i : ℕ) → (i == i) ≡ true
same_process i = ground arith

-- The sender `k` finishes its heartbeat.
finish : ℕ → Bytes → List Action
finish k [] = proceed k 0 ∷ []
finish k (b ∷ left) = proceed k (length (b ∷ left)) ∷ proceed k 0 ∷ []

-- The lock is free, `k` rests, and no other process has moved.
Finished : ℕ → World → World → Type 0
Finished k w w' = IsReady k w' × ((j : ℕ) → j ≢ k → w'.stage j ≡ w.stage j)

run-finish :
    (k : ℕ) (left : Bytes) (w : World)
    → w.stage k ≡ sending left
    → Finished k w (run (finish k left) w)
unfolding run finish act next_call acquire send_part Finished
run-finish k [] w e =
    simp e (record { free = refl; resting = ground arith }, λ j other. ground arith)
run-finish k (b ∷ left) w e =
    simp (e, same_process k, drop_of_le (length left) left (omega arith))
      (record { free = refl; resting = ground arith }, λ j other. ground arith)

-- A whole round of a process.
round : ℕ → List Action
round i = proceed i 0 ∷ proceed i 0 ∷ proceed i (length heartbeat_data) ∷ proceed i 0 ∷ []

run-round :
    (i : ℕ) (w : World)
    → IsReady i w
    → IsReady i (run (round i) w) × ((run (round i) w).channel i ≡ w.channel i ++ heartbeat_data)
unfolding run round act next_call acquire send_part
run-round i w h =
    simp (h.resting, h.free, same_process i) (record { free = refl; resting = ground arith }, refl)

rounds : ℕ → ℕ → List Action
rounds i zero = []
rounds i (suc n) = round i ++ rounds i n

run-append :
    (before behind : List Action) (w : World) → run (before ++ behind) w ≡ run behind (run before w)
unfolding run
run-append [] behind w = refl
run-append (a ∷ before) behind w = run-append before behind (act a w)

run-rounds :
    (i n : ℕ) (w : World) → IsReady i w → (run (rounds i n) w).channel i ≡ w.channel i ++ beats n
unfolding run rounds
run-rounds i zero w h = sym (append_nil (w.channel i))
run-rounds i (suc n) w h =
    let (ready, eq) = run-round i w h in
    ap (λ (u : World). u.channel i) (run-append (round i) (rounds i n) w)
    ∙ run-rounds i n (run (round i) w) ready
    ∙ ap (λ s. s ++ beats n) eq
    ∙ append_assoc (w.channel i) heartbeat_data (beats n)

calls-finish : (k : ℕ) (left : Bytes) → All (λ a. calls a ≡ true) (finish k left)
unfolding finish
calls-finish k [] = (refl, tt)
calls-finish k (b ∷ left) = (refl, (refl, tt))

calls-rounds : (i n : ℕ) → All (λ a. calls a ≡ true) (rounds i n)
unfolding rounds round
calls-rounds i zero = tt
calls-rounds i (suc n) = (refl, (refl, (refl, (refl, calls-rounds i n))))

-- The process rests with the lock free, behind some calls.
Rests : ℕ → World → Type 0
Rests i w = Leads w (IsReady i)

-- From a world with a free lock.
free-Rests :
    (s : Stage) (i : ℕ) (w : World)
    → w.nlock ≡ none
    → w.stage i ≡ s
    → s ≢ unborn
    → Locked w
    → IsLive w
    → Rests i w
unfolding Rests Leads run act next_call acquire send_part
free-Rests unborn i w f e there l h = absurd (there refl)
free-Rests ended i w f e there l h = absurd (h.alive i e)
free-Rests sleeping i w f e there l h = ([], tt, record { free = f; resting = e })
free-Rests (sending left) i w f e there l h = absurd (ground (arith, l i left e))
free-Rests acquiring i w f e there l h = (
  proceed i 0 ∷ proceed i (length heartbeat_data) ∷ proceed i 0 ∷ [],
  (refl, (refl, (refl, tt))),
  simp (e, f, same_process i) (record { free = refl; resting = ground arith }),
)

calls_sound :
    (actions : List Action)
    → All (λ a. calls a ≡ true) actions
    → All (λ a. breaks a ≡ false) actions
calls_sound [] h = tt
calls_sound (connected i ∷ actions) h = (refl, calls_sound actions h.1)
calls_sound (proceed i n ∷ actions) h = (refl, calls_sound actions h.1)
calls_sound (broken i ∷ actions) h = absurd (ground (arith, h.0))

Leads-append :
    (i : ℕ) (more : List Action) (w : World)
    → All (λ a. calls a ≡ true) more
    → Rests i (run more w)
    → Rests i w
unfolding Rests Leads
Leads-append i more w sound (rest, called, ready) = (
  more ++ rest,
  All-append (λ a. calls a ≡ true) more rest sound called,
  subst (IsReady i) (sym (run-append more rest w)) ready,
)

held-Rests :
    (i k : ℕ) (left : Bytes) (w : World)
    → w.stage k ≡ sending left
    → w.stage i ≢ unborn
    → Locked w
    → IsLive w
    → Rests i w
unfolding Rests Leads Finished
held-Rests i k left w e there l h =
    let called = calls-finish k left in
    let u = run (finish k left) w in
    let (ready, same) = run-finish k left w e in
    let (l', h') = run-IsLive (finish k left) w (calls_sound (finish k left) called) l h in
    elim (Bool-cases (i == k)) [
      | inl it ↦
          (finish k left, called, subst (λ j. IsReady j u) {x = k} {y = i} (ground arith) ready)
      | inr other ↦ Leads-append i (finish k left) w called (
          free-Rests (u.stage i) i u ready.free refl
            (λ born. there (sym (same i (ground arith)) ∙ born)) l' h')
    ]

any-Rests : (i : ℕ) (w : World) → w.stage i ≢ unborn → Locked w → IsLive w → Rests i w
any-Rests i w there l h = elim (Option-cases w.nlock) [
  | inl f ↦ free-Rests (w.stage i) i w f refl there l h
  | inr (k, held) ↦ let (left, e) = h.busy k held in held-Rests i k left w e there l h
]

-- However the heartbeat processes have interleaved, if no connection has broken, calls of the
-- processes that are there bring any host that has connected any number of whole heartbeats, and
-- nothing but whole heartbeats: there is no deadlock, and no state from which a host is not served.
pub run-beats :
    (actions : List Action) (i n : ℕ)
    → All (λ a. breaks a ≡ false) actions
    → (run actions quiet).stage i ≢ unborn
    → (more : List Action) × All (λ a. calls a ≡ true) more
      × ((m : ℕ) × (n ≤ m) × ((run (actions ++ more) quiet).channel i ≡ beats m))
unfolding Rests Leads
run-beats actions i n sound there =
    let w = run actions quiet in
    let (l, h) =
      run-IsLive actions quiet sound (λ k left f. ground arith)
        (record { busy = λ k held. absurd (ground arith); alive = λ k. ground arith }) in
    let (more, called, ready) = any-Rests i w there l h in
    let (k, eq) =
      at (run more w) i sleeping ready.resting
        (run-AllWhole more w (run-AllWhole actions quiet (λ j. refl))) in
    (
      more ++ rounds i n,
      All-append (λ a. calls a ≡ true) more (rounds i n) called (calls-rounds i n),
      (
        k + n,
        omega arith,
        ap (λ (u : World). u.channel i)
              (run-append actions (more ++ rounds i n) quiet ∙ run-append more (rounds i n) w)
            ∙ run-rounds i n (run more w) ready
            ∙ ap (λ s. s ++ beats n) eq
            ∙ sym (beats-add k n),
      ),
    )
