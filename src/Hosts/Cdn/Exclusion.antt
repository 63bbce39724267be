-- ===== src/Hosts/Cdn/Exclusion.antt =====
-- The lock of the heartbeat processes, and what stands on each channel.
use p2p_livestreaming.Prelude.{
  some_injective, ℕ, ◌≡◌, refl, sym, ◌∙◌, Option, none, some, List, [], ◌∷◌, arith, Bytes,
}
use p2p_livestreaming.Hosts.Cdn.Heartbeat.{
  Stage, unborn, acquiring, sleeping, ended, sending, World, quiet, Action, connected, proceed,
  broken, acquire, send_part, next_call, connect_new, break_off, act, run,
}

-- A process that sends has the lock.
abbrev pub Locked : World → Type 0
Locked w = (i : ℕ) (left : Bytes) → w.stage i ≡ sending left → w.nlock ≡ some i

acquire-Locked :
    (o : Option ℕ) (i : ℕ) (w : World) → w.nlock ≡ o → Locked w → Locked (acquire o i w)
unfolding acquire
acquire-Locked (some k) i w e h = h
acquire-Locked none i w e h = λ j left at. ground (arith, h j left)

send_part-Locked :
    (left : Bytes) (i n : ℕ) (w : World)
    → w.stage i ≡ sending left
    → Locked w
    → Locked (send_part left i n w)
unfolding send_part
send_part-Locked [] i n w e h j left at = ground (arith, h j left, h i [] e)
send_part-Locked (b ∷ rest) i n w e h j left at = ground (arith, h j left, h i (b ∷ rest) e)

next_call-Locked :
    (s : Stage) (i n : ℕ) (w : World) → w.stage i ≡ s → Locked w → Locked (next_call s i n w)
unfolding next_call
next_call-Locked unborn i n w e h = h
next_call-Locked ended i n w e h = h
next_call-Locked acquiring i n w e h = acquire-Locked w.nlock i w refl h
next_call-Locked (sending left) i n w e h = send_part-Locked left i n w e h
next_call-Locked sleeping i n w e h = λ j left at. ground (arith, h j left)

connect_new-Locked : (s : Stage) (i : ℕ) (w : World) → Locked w → Locked (connect_new s i w)
connect_new-Locked unborn i w h = λ j left at. ground (arith, h j left)
connect_new-Locked acquiring i w h = h
connect_new-Locked sleeping i w h = h
connect_new-Locked ended i w h = h
connect_new-Locked (sending _) i w h = h

break_off-Locked : (s : Stage) (i : ℕ) (w : World) → Locked w → Locked (break_off s i w)
break_off-Locked unborn i w h = h
break_off-Locked acquiring i w h = h
break_off-Locked sleeping i w h = h
break_off-Locked ended i w h = h
break_off-Locked (sending []) i w h = h
break_off-Locked (sending (b ∷ rest)) i w h = λ j left at. ground (arith, h j left)

pub act-Locked : (a : Action) (w : World) → Locked w → Locked (act a w)
unfolding act
act-Locked (connected i) w h = connect_new-Locked (w.stage i) i w h
act-Locked (proceed i n) w h = next_call-Locked (w.stage i) i n w refl h
act-Locked (broken i) w h = break_off-Locked (w.stage i) i w h

pub run-Locked : (actions : List Action) (w : World) → Locked w → Locked (run actions w)
unfolding run
run-Locked [] w h = h
run-Locked (a ∷ actions) w h = run-Locked actions (act a w) (act-Locked a w h)

-- However the heartbeat processes interleave, and whatever connections break, no two processes are
-- ever in the middle of a heartbeat.
pub run-exclusion :
    (actions : List Action) (i j : ℕ) (left left' : Bytes)
    → (run actions quiet).stage i ≡ sending left
    → (run actions quiet).stage j ≡ sending left'
    → i ≡ j
run-exclusion actions i j left left' e e' =
    let h = run-Locked actions quiet (λ k l f. ground arith) in
    some_injective (sym (h i left e) ∙ h j left' e')
