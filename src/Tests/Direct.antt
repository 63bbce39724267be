-- ===== src/Tests/Direct.antt =====
-- The direct controller on short runs.
use p2p_livestreaming.Prelude.{
  true, ◌⊎◌, Option, ltb, ℕ, ◌≡◌, refl, Bool, false, none, some, List, [], ◌∷◌, arith, All, Bytes,
  codes, join, length, ◌==◌, if◌then◌else◌,
}
use p2p_livestreaming.OpenFlow.{Event}
use p2p_livestreaming.Bypass
use p2p_livestreaming.Bypass.{handle_normal, state}
use p2p_livestreaming.Direct.{new, handle_packet_in, run}
use p2p_livestreaming.Direct.Loopless.{IsLoopless, run-IsLoopless}
use p2p_livestreaming.Direct.Compare.{Answers, handle_packet_in-handle_normal}
use p2p_livestreaming.Direct.Launch.{
  DirectLivestreaming, readable, reads, connection_up, launch, connection_up-launch,
}

abbrev frame : ℕ → ℕ → ℕ → Event
frame src dst port = record {
  port = port;
  dpid = 1;
  src = src;
  dst = dst;
  eth_type = 2048;
  buffer_id = none;
  tcp = none;
}

-- Address 9 is the multicast one and address 8 the bridge-filtered one.
abbrev multicast : ℕ → Bool
multicast a = a == 9

abbrev filtered : ℕ → Bool
filtered a = a == 8

abbrev lldp : ℕ
lldp = 35020

abbrev frames : List Event
frames = frame 1 2 11 ∷ frame 2 1 12 ∷ frame 1 2 11 ∷ frame 1 9 11 ∷ frame 1 8 11 ∷ []

-- A flood, two entries and a flood; the bridge-filtered frame without a buffer sends nothing.
sent_four : length (run multicast filtered lldp frames (new false)).sent ≡ 4
unfolding run
sent_four = refl

run-IsLoopless_example : All IsLoopless (run multicast filtered lldp frames (new false)).sent
run-IsLoopless_example = run-IsLoopless multicast filtered lldp frames false

handle_packet_in-handle_normal_example :
    let s' = handle_packet_in multicast filtered lldp (frame 1 2 11) (new false) in
    let b' = state (handle_normal (frame 1 2 11) Bypass.new) in
    (s'.mac_to_port ≡ b'.mac_to_port) × Answers s'.sent [] b'.sent []
handle_packet_in-handle_normal_example =
    handle_packet_in-handle_normal multicast filtered lldp (frame 1 2 11) (new false) Bypass.new
      refl refl refl

-- Ids are single digits here.
abbrev digit : Bytes → Option ℕ
digit [] = none
digit (c ∷ _) = if ltb c b'0' then none else if ltb b'9' c then none else some c

abbrev two_words : List Bytes
two_words = codes "3" ∷ codes "5" ∷ []

connection_up-launch_example :
    let l = launch digit (λ _. false) [] (some (join (codes ",") two_words)) in
    ((readable digit two_words ≡ false) × (l ≡ none))
    ⊎ ((readable digit two_words ≡ true)
        × (d : DirectLivestreaming) × (l ≡ some d)
        × ((dpid : ℕ)
            → connection_up d dpid
              ≡ (if reads digit dpid two_words then none else some (new false))))
connection_up-launch_example =
    connection_up-launch digit (λ _. false) [] two_words
      (
        record { plain = ((refl, ground arith), tt); filled = ground arith },
        (record { plain = ((refl, ground arith), tt); filled = ground arith }, tt),
      )
