-- ===== src/Hosts/Cdn/Live.antt =====
-- The heartbeat processes while no connection breaks: who has the lock goes on.
use p2p_livestreaming.Prelude.{
  ℕ, ◌≡◌, ◌≢◌, refl, Bool, true, false, Option, none, some, List, [], ◌∷◌, arith, All, drop, Bytes,
}
use p2p_livestreaming.Hosts.{heartbeat_data}
use p2p_livestreaming.Hosts.Cdn.Heartbeat.{
  Stage, unborn, acquiring, sleeping, ended, sending, World, Action, connected, proceed, broken,
  acquire, send_part, next_call, connect_new, act, run, set,
}
use p2p_livestreaming.Hosts.Cdn.Exclusion.{Locked, act-Locked}

abbrev pub breaks : Action → Bool
breaks (connected _) = false
breaks (proceed _ _) = false
breaks (broken _) = true

-- A call of a process that is there.
abbrev pub calls : Action → Bool
calls (connected _) = false
calls (proceed _ _) = true
calls (broken _) = false

-- Who has the lock is in the middle of a heartbeat, and no process has ended.
pub record IsLive (w : World) : Type 0 where
  pub busy : (k : ℕ) → w.nlock ≡ some k → (left : Bytes) × (w.stage k ≡ sending left)
  pub alive : (k : ℕ) → w.stage k ≢ ended

acquire-IsLive :
    (o : Option ℕ) (i : ℕ) (w : World) → w.nlock ≡ o → IsLive w → IsLive (acquire o i w)
unfolding acquire
acquire-IsLive (some k) i w e h = h
acquire-IsLive none i w e h = record {
  busy = λ k held. (heartbeat_data, ground (arith, held));
  alive = λ k. ground (arith, h.alive k);
}

send_part-IsLive :
    (left : Bytes) (i n : ℕ) (w : World)
    → w.stage i ≡ sending left
    → w.nlock ≡ some i
    → IsLive w
    → IsLive (send_part left i n w)
unfolding send_part
send_part-IsLive [] i n w e held h = record {
  busy = λ k other. ground (arith, other);
  alive = λ k. ground (arith, h.alive k);
}
send_part-IsLive (b ∷ rest) i n w e held h = record {
  busy = λ k other. (drop n (b ∷ rest), ground (arith, other, held));
  alive = λ k. ground (arith, h.alive k);
}

-- The stage of a process without the lock changes.
moved-IsLive :
    (i : ℕ) (s : Stage) (w : World)
    → ((left : Bytes) → w.stage i ≢ sending left)
    → s ≢ ended
    → IsLive w
    → IsLive (record w { stage = set i s w.stage })
moved-IsLive i s w free there h = record {
  busy = λ k held. let (left, e) = h.busy k held in (left, ground (arith, free left, e));
  alive = λ k. ground (arith, h.alive k, there);
}

next_call-IsLive :
    (s : Stage) (i n : ℕ) (w : World)
    → w.stage i ≡ s
    → Locked w
    → IsLive w
    → IsLive (next_call s i n w)
unfolding next_call
next_call-IsLive unborn i n w e l h = h
next_call-IsLive ended i n w e l h = h
next_call-IsLive acquiring i n w e l h = acquire-IsLive w.nlock i w refl h
next_call-IsLive (sending left) i n w e l h = send_part-IsLive left i n w e (l i left e) h
next_call-IsLive sleeping i n w e l h = moved-IsLive i acquiring w (λ left f. cc) (λ f. cc) h

connect_new-IsLive :
    (s : Stage) (i : ℕ) (w : World) → w.stage i ≡ s → IsLive w → IsLive (connect_new s i w)
connect_new-IsLive unborn i w e h = moved-IsLive i acquiring w (λ left f. cc) (λ f. cc) h
connect_new-IsLive acquiring i w e h = h
connect_new-IsLive sleeping i w e h = h
connect_new-IsLive ended i w e h = h
connect_new-IsLive (sending _) i w e h = h

act-IsLive : (a : Action) (w : World) → breaks a ≡ false → Locked w → IsLive w → IsLive (act a w)
unfolding act
act-IsLive (connected i) w sound l h = connect_new-IsLive (w.stage i) i w refl h
act-IsLive (proceed i n) w sound l h = next_call-IsLive (w.stage i) i n w refl l h
act-IsLive (broken i) w sound l h = absurd (ground arith)

pub run-IsLive :
    (actions : List Action) (w : World)
    → All (λ a. breaks a ≡ false) actions
    → Locked w
    → IsLive w
    → Locked (run actions w) × IsLive (run actions w)
unfolding run
run-IsLive [] w sound l h = (l, h)
run-IsLive (a ∷ actions) w sound l h =
    run-IsLive actions (act a w) sound.1 (act-Locked a w l) (act-IsLive a w sound.0 l h)
