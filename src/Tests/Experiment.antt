-- ===== src/Tests/Experiment.antt =====
-- The experiment scripts on short logs.
use p2p_livestreaming.Prelude.{
  ℕ, suc, ◌+◌, ◌≡◌, refl, Option, none, some, if◌then◌else◌, bytes_eq, [], ◌∷◌, ◌++◌, arith, length,
  replicate, List, All, Bytes, codes,
}
use p2p_livestreaming.Experiment.Live.{Host, parse_delay, more}

-- The number of the digits, for a reading of them.
abbrev digits : Bytes → Option ℕ
digits s = some (length s)

abbrev address : Host → Bytes
address _ = codes "10.0.0.3"

-- Two logs, at their paths.
abbrev logs : Bytes → Option Bytes
logs path =
    if bytes_eq path (codes "/output/b2v-10.0.0.3.log")
    then some (codes "x" ++ 10 ∷ codes "123")
    else if bytes_eq path (codes "/output/vfp-10.0.0.3.log")
    then some (codes "12345")
    else none

delay : parse_delay digits logs [] address ≡ some (more 2)
unfolding parse_delay p2p_livestreaming.Prelude.strip bytes_eq
delay = refl

-- 62 equal lines in each of the files.
abbrev ping_log : Bytes → Option (List Bytes)
ping_log path = some (replicate 62 (codes "time=80 ms"))

abbrev flat : ℕ → List ℕ
flat delay = replicate 60 delay
