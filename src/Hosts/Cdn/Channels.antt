-- ===== src/Hosts/Cdn/Channels.antt =====
-- What the heartbeat processes write on their connections.
use mathlib.Core.Path.{subst}
use p2p_livestreaming.Prelude.{
  ℕ, zero, suc, ◌+◌, ◌≡◌, refl, sym, ap, ◌∙◌, inl, inr, Bool-cases, append_nil, take-append-drop,
  Option, none, some, List, [], ◌∷◌, ◌++◌, arith, ◌==◌, take, drop, Bytes,
}
use mathlib.Core.List.{append_assoc}
use p2p_livestreaming.Hosts.{heartbeat_data}
use p2p_livestreaming.Hosts.Cdn.Heartbeat.{
  Stage, unborn, acquiring, sleeping, ended, sending, World, Action, connected, proceed, broken,
  acquire, send_part, next_call, connect_new, break_off, act, run, set,
}

-- So many whole heartbeats.
abbrev pub beats : ℕ → Bytes
beats zero = []
beats (suc n) = heartbeat_data ++ beats n

-- What stands on a channel, with what is left to be sent of the last heartbeat, is a number of whole
-- heartbeats; of a broken connection it is so with the rest that was never sent.
abbrev pub Whole : Stage → Bytes → Type 0
Whole (sending left) bytes = (n : ℕ) × (bytes ++ left ≡ beats n)
Whole ended bytes = (n : ℕ) × (rest : Bytes) × (bytes ++ rest ≡ beats n)
Whole unborn bytes = bytes ≡ []
Whole acquiring bytes = (n : ℕ) × (bytes ≡ beats n)
Whole sleeping bytes = (n : ℕ) × (bytes ≡ beats n)

abbrev pub AllWhole : World → Type 0
AllWhole w = (i : ℕ) → Whole (w.stage i) (w.channel i)

beats-snoc : (n : ℕ) → beats n ++ heartbeat_data ≡ beats (suc n)
beats-snoc zero = refl
beats-snoc (suc n) =
    append_assoc heartbeat_data (beats n) heartbeat_data
    ∙ ap (λ s. heartbeat_data ++ s) (beats-snoc n)

pub beats-add : (m n : ℕ) → beats (m + n) ≡ beats m ++ beats n
beats-add zero n = ap beats {x = 0 + n} {y = n} (omega arith)
beats-add (suc m) n =
    ap beats {x = suc m + n} {y = suc (m + n)} (omega arith)
    ∙ ap (λ s. heartbeat_data ++ s) (beats-add m n)
    ∙ sym (append_assoc heartbeat_data (beats m) (beats n))

-- A world in which only one process has changed.
stage_changed :
    (w : World) (i : ℕ) (s : Stage)
    → AllWhole w
    → Whole s (w.channel i)
    → (j : ℕ) → Whole (set i s w.stage j) (w.channel j)
stage_changed w i s h new j = elim (Bool-cases (j == i)) [
  | inl same ↦ rw same (subst (λ k. Whole s (w.channel k)) {x = i} {y = j} (ground arith) new)
  | inr other ↦ rw other (h j)
]

both_changed :
    (w : World) (i : ℕ) (s : Stage) (bytes : Bytes)
    → AllWhole w
    → Whole s bytes
    → (j : ℕ) → Whole (set i s w.stage j) (set i bytes w.channel j)
both_changed w i s bytes h new j = elim (Bool-cases (j == i)) [
  | inl same ↦ rw same new
  | inr other ↦ rw other (h j)
]

-- What the invariant says of one process, at a known stage.
pub at : (w : World) (i : ℕ) (s : Stage) → w.stage i ≡ s → AllWhole w → Whole s (w.channel i)
at w i s e h = subst (λ t. Whole t (w.channel i)) e (h i)

acquire-AllWhole :
    (o : Option ℕ) (i : ℕ) (w : World)
    → w.stage i ≡ acquiring
    → AllWhole w
    → AllWhole (acquire o i w)
unfolding acquire
acquire-AllWhole (some k) i w e h = h
acquire-AllWhole none i w e h =
    let (n, eq) = at w i acquiring e h in
    stage_changed w i (sending heartbeat_data) h
      (suc n, ap (λ s. s ++ heartbeat_data) eq ∙ beats-snoc n)

send_part-AllWhole :
    (left : Bytes) (i n : ℕ) (w : World)
    → w.stage i ≡ sending left
    → AllWhole w
    → AllWhole (send_part left i n w)
unfolding send_part
send_part-AllWhole [] i n w e h =
    let (k, eq) = at w i (sending []) e h in
    stage_changed w i sleeping h (k, sym (append_nil (w.channel i)) ∙ eq)
send_part-AllWhole (b ∷ rest) i n w e h =
    let (k, eq) = at w i (sending (b ∷ rest)) e h in
    both_changed w i (sending (drop n (b ∷ rest))) (w.channel i ++ take n (b ∷ rest)) h (
      k,
      append_assoc (w.channel i) (take n (b ∷ rest)) (drop n (b ∷ rest))
          ∙ ap (λ s. w.channel i ++ s) (take-append-drop n (b ∷ rest))
          ∙ eq,
    )

next_call-AllWhole :
    (s : Stage) (i n : ℕ) (w : World) → w.stage i ≡ s → AllWhole w → AllWhole (next_call s i n w)
unfolding next_call
next_call-AllWhole unborn i n w e h = h
next_call-AllWhole ended i n w e h = h
next_call-AllWhole acquiring i n w e h = acquire-AllWhole w.nlock i w e h
next_call-AllWhole (sending left) i n w e h = send_part-AllWhole left i n w e h
next_call-AllWhole sleeping i n w e h = stage_changed w i acquiring h (at w i sleeping e h)

connect_new-AllWhole :
    (s : Stage) (i : ℕ) (w : World) → w.stage i ≡ s → AllWhole w → AllWhole (connect_new s i w)
connect_new-AllWhole unborn i w e h = stage_changed w i acquiring h (0, at w i unborn e h)
connect_new-AllWhole acquiring i w e h = h
connect_new-AllWhole sleeping i w e h = h
connect_new-AllWhole ended i w e h = h
connect_new-AllWhole (sending _) i w e h = h

break_off-AllWhole :
    (s : Stage) (i : ℕ) (w : World) → w.stage i ≡ s → AllWhole w → AllWhole (break_off s i w)
break_off-AllWhole unborn i w e h = h
break_off-AllWhole acquiring i w e h = h
break_off-AllWhole sleeping i w e h = h
break_off-AllWhole ended i w e h = h
break_off-AllWhole (sending []) i w e h = h
break_off-AllWhole (sending (b ∷ rest)) i w e h =
    let (n, eq) = at w i (sending (b ∷ rest)) e h in stage_changed w i ended h (n, b ∷ rest, eq)

act-AllWhole : (a : Action) (w : World) → AllWhole w → AllWhole (act a w)
unfolding act
act-AllWhole (connected i) w h = connect_new-AllWhole (w.stage i) i w refl h
act-AllWhole (proceed i n) w h = next_call-AllWhole (w.stage i) i n w refl h
act-AllWhole (broken i) w h = break_off-AllWhole (w.stage i) i w refl h

-- However the heartbeat processes interleave, and whatever connections break, each channel carries
-- whole heartbeats, one behind the other; only a process in the middle of `sendall`, or one that ended
-- there, has sent a part of its last one.
pub run-AllWhole : (actions : List Action) (w : World) → AllWhole w → AllWhole (run actions w)
unfolding run
run-AllWhole [] w h = h
run-AllWhole (a ∷ actions) w h = run-AllWhole actions (act a w) (act-AllWhole a w h)
