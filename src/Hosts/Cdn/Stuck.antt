-- ===== src/Hosts/Cdn/Stuck.antt =====
-- A connection that breaks in the middle of a heartbeat.
use mathlib.Core.Path.{subst}
use p2p_livestreaming.Prelude.{
  ◌≢◌, ℕ, ◌≡◌, refl, ◌∙◌, inl, inr, Bool-cases, some, List, [], ◌∷◌, arith, ◌==◌, Bytes,
}
use p2p_livestreaming.Hosts.Cdn.Heartbeat.{
  Stage, unborn, acquiring, sleeping, ended, sending, World, quiet, Action, connected, proceed,
  broken, acquire, next_call, connect_new, break_off, act, run, set,
}
use p2p_livestreaming.Hosts.Cdn.Exclusion.{Locked, run-Locked}

-- A process has ended and holds the lock.
pub record IsStuck (i : ℕ) (w : World) : Type 0 where
  pub holds : w.nlock ≡ some i
  pub gone : w.stage i ≡ ended
  -- No process is in the middle of a heartbeat.
  pub others : (j : ℕ) (left : Bytes) → w.stage j ≢ sending left

Stays : ℕ → World → World → Type 0
Stays i w w' = IsStuck i w' × (w'.channel ≡ w.channel)

acquire-Stays : (i j : ℕ) (w : World) → IsStuck i w → Stays i w (acquire w.nlock j w)
unfolding acquire Stays
acquire-Stays i j w h = simp h.holds (h, refl)

-- Only the stage of a process changes, to one that does not send, and not that of the ended process.
moved-Stays :
    (i j : ℕ) (s : Stage) (w : World)
    → IsStuck i w
    → w.stage j ≢ ended
    → ((left : Bytes) → s ≢ sending left)
    → Stays i w (record w { stage = set j s w.stage })
unfolding Stays
moved-Stays i j s w h alive quiet_stage = (
  record {
    holds = h.holds;
    gone = elim (Bool-cases (i == j)) [
      | inl same ↦
          absurd (alive (subst (λ k. w.stage k ≡ ended) {x = i} {y = j} (ground arith) h.gone))
      | inr other ↦ rw other h.gone
    ];
    others = λ k left. elim (Bool-cases (k == j)) [
      | inl same ↦ rw same (quiet_stage left)
      | inr other ↦ rw other (h.others k left)
    ];
  },
  refl,
)

next_call-Stays :
    (s : Stage) (i j n : ℕ) (w : World)
    → w.stage j ≡ s
    → IsStuck i w
    → Stays i w (next_call s j n w)
unfolding next_call Stays
next_call-Stays unborn i j n w e h = (h, refl)
next_call-Stays ended i j n w e h = (h, refl)
next_call-Stays acquiring i j n w e h = acquire-Stays i j w h
next_call-Stays (sending left) i j n w e h = absurd (h.others j left e)
next_call-Stays sleeping i j n w e h = moved-Stays i j acquiring w h (λ f. cc) (λ left f. cc)

connect_new-Stays :
    (s : Stage) (i j : ℕ) (w : World) → w.stage j ≡ s → IsStuck i w → Stays i w (connect_new s j w)
unfolding Stays
connect_new-Stays unborn i j w e h = moved-Stays i j acquiring w h (λ f. cc) (λ left f. cc)
connect_new-Stays acquiring i j w e h = (h, refl)
connect_new-Stays sleeping i j w e h = (h, refl)
connect_new-Stays ended i j w e h = (h, refl)
connect_new-Stays (sending _) i j w e h = (h, refl)

break_off-Stays :
    (s : Stage) (i j : ℕ) (w : World) → w.stage j ≡ s → IsStuck i w → Stays i w (break_off s j w)
unfolding Stays
break_off-Stays unborn i j w e h = (h, refl)
break_off-Stays acquiring i j w e h = (h, refl)
break_off-Stays sleeping i j w e h = (h, refl)
break_off-Stays ended i j w e h = (h, refl)
break_off-Stays (sending left) i j w e h = absurd (h.others j left e)

act-Stays : (a : Action) (i : ℕ) (w : World) → IsStuck i w → Stays i w (act a w)
unfolding act
act-Stays (connected j) i w h = connect_new-Stays (w.stage j) i j w refl h
act-Stays (proceed j n) i w h = next_call-Stays (w.stage j) i j n w refl h
act-Stays (broken j) i w h = break_off-Stays (w.stage j) i j w refl h

run-Stays :
    (actions : List Action) (i : ℕ) (w : World) → IsStuck i w → (run actions w).channel ≡ w.channel
unfolding run Stays
run-Stays [] i w h = refl
run-Stays (a ∷ actions) i w h =
    let (h', same) = act-Stays a i w h in run-Stays actions i (act a w) h' ∙ same

broken-IsStuck :
    (i b : ℕ) (left : Bytes) (w : World)
    → Locked w
    → w.stage i ≡ sending (b ∷ left)
    → IsStuck i (act (broken i) w) × ((act (broken i) w).channel ≡ w.channel)
unfolding act
broken-IsStuck i b left w h e = rw e (
  record {
    holds = h i (b ∷ left) e;
    gone = ground arith;
    others = λ k rest f. ground (arith, h k rest, h i (b ∷ left) e);
  },
  refl,
)

-- Once the connection of a process breaks in the middle of a heartbeat, no channel ever carries
-- another byte, that of no other host either, whatever the processes and new connections do: the lock
-- is never released.
pub run_broken :
    (before behind : List Action) (i b : ℕ) (left : Bytes)
    → (run before quiet).stage i ≡ sending (b ∷ left)
    → (run behind (act (broken i) (run before quiet))).channel ≡ (run before quiet).channel
run_broken before behind i b left e =
    let w = run before quiet in
    let (h, same) = broken-IsStuck i b left w (run-Locked before quiet (λ k l f. ground arith)) e in
    run-Stays behind i (act (broken i) w) h ∙ same
