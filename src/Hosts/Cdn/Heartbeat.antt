-- ===== src/Hosts/Cdn/Heartbeat.antt =====
-- src/hosts/cdn-server.py, `_notify_heartbeat`: the processes that share `nlock`, one for each
-- connection, as a machine whose actions interleave in any order. `sendall` writes in parts, and may
-- raise, which ends its process between `acquire` and `release`; a lock of `multiprocessing` stays
-- locked then.
use p2p_livestreaming.Prelude.{
  ℕ, Option, none, some, List, [], ◌∷◌, ◌++◌, ◌==◌, if◌then◌else◌, take, drop, Bytes,
}
use p2p_livestreaming.Hosts.{heartbeat_data}

-- Where a process is in its loop; `sending` has what is left of the heartbeat.
pub data Stage : Type 0 where
  unborn acquiring sleeping ended : Stage
  sending : Bytes → Stage

pub record World : Type 0 where
  pub nlock : Option ℕ
  pub stage : ℕ → Stage
  pub channel : ℕ → Bytes

-- No connection yet.
abbrev pub quiet : World
quiet = record { nlock = none; stage = λ _. unborn; channel = λ _. [] }

-- `proceed i n`: process `i` does its next call; a `sendall` writes `n` bytes of what is left, and it
-- is through when nothing is left. `broken i`: its `sendall` raises.
pub data Action : Type 0 where
  connected : ℕ → Action
  proceed : ℕ → ℕ → Action
  broken : ℕ → Action

abbrev pub set {ℓ} : {A : Type ℓ} → ℕ → A → (ℕ → A) → ℕ → A
set i a f j = if j == i then a else f j

-- `nlock.acquire()`, which waits while the lock is held.
unfoldable pub acquire : Option ℕ → ℕ → World → World
acquire (some _) i w = w
acquire none i w = record w { nlock = some i; stage = set i (sending heartbeat_data) w.stage }

-- `nsock.sendall(HEARTBEAT_DATA)`, then `nlock.release()`.
unfoldable pub send_part : Bytes → ℕ → ℕ → World → World
send_part [] i n w = record w { nlock = none; stage = set i sleeping w.stage }
send_part (b ∷ left) i n w = record w {
  stage = set i (sending (drop n (b ∷ left))) w.stage;
  channel = set i (w.channel i ++ take n (b ∷ left)) w.channel;
}

unfoldable pub next_call : Stage → ℕ → ℕ → World → World
unfolding acquire send_part
next_call unborn i n w = w
next_call ended i n w = w
next_call acquiring i n w = acquire w.nlock i w
next_call (sending left) i n w = send_part left i n w
next_call sleeping i n w = record w { stage = set i acquiring w.stage }

abbrev pub connect_new : Stage → ℕ → World → World
connect_new unborn i w = record w { stage = set i acquiring w.stage }
connect_new _ i w = w

abbrev pub break_off : Stage → ℕ → World → World
break_off (sending (b ∷ left)) i w = record w { stage = set i ended w.stage }
break_off _ i w = w

unfoldable pub act : Action → World → World
unfolding next_call
act (connected i) w = connect_new (w.stage i) i w
act (proceed i n) w = next_call (w.stage i) i n w
act (broken i) w = break_off (w.stage i) i w

unfoldable pub run : List Action → World → World
unfolding act
run [] w = w
run (a ∷ rest) w = run rest (act a w)
