-- ===== src/Rtmp/Loop.antt =====
-- The loop that cuts a TCP payload into packets: its fuel is enough, and what it returns.
use p2p_livestreaming.Prelude.{
  ℕ, zero, suc, ◌≤◌, ◌≡◌, refl, ◌≢◌, inl, inr, some, none, ◌⊎◌, List, [], ◌∷◌, arith, Bool-cases,
  length, Bytes, All,
}
use p2p_livestreaming.Rtmp.{
  RtmpControlPacket, parse_packet, Packets, packets, unparsed, out_of_fuel, push, parse_loop,
  parse_all, is_stream_begin,
}
use p2p_livestreaming.Rtmp.Sound.{remain-lt, is_stream_begin_total}

push-ne-out_of_fuel :
    (q : RtmpControlPacket) (r : Packets) → r ≢ out_of_fuel → push q r ≢ out_of_fuel
push-ne-out_of_fuel q (packets qs) h = λ e. cc
push-ne-out_of_fuel q unparsed h = λ e. cc
push-ne-out_of_fuel q out_of_fuel h = absurd (h refl)

parse_loop-ne-out_of_fuel :
    (fuel : ℕ) (content : Bytes) → length content ≤ fuel → parse_loop fuel content ≢ out_of_fuel
unfolding parse_loop
parse_loop-ne-out_of_fuel zero [] h = λ e. cc
parse_loop-ne-out_of_fuel (suc fuel) [] h = λ e. cc
parse_loop-ne-out_of_fuel zero (b ∷ s) h = absurd (omega arith)
parse_loop-ne-out_of_fuel (suc fuel) (b ∷ s) h = elim (Bool-cases (parse_packet (b ∷ s)).parsed) [
  | inl ok ↦ rw ok (
      push-ne-out_of_fuel _ _ (
        parse_loop-ne-out_of_fuel fuel (parse_packet (b ∷ s)).remain
          (omega (arith, remain-lt b s ok))))
  | inr bad ↦ rw bad (λ e. cc)
]

-- A packet as the handler relies on it: it has a payload, and the test for a stream begin reads
-- bytes that are there.
abbrev pub Readable : RtmpControlPacket → Type 0
Readable q = (body : Bytes) × (q.payload ≡ some body) × (is_stream_begin q.msg_length body ≢ none)

-- The possible ends of the loop when it does not run out of fuel.
data Ends : Packets → Type 0 where
  cut : (qs : List RtmpControlPacket) → All Readable qs → Ends (packets qs)
  refused : Ends unparsed
  starved : Ends out_of_fuel

Ends-push : (q : RtmpControlPacket) (r : Packets) → Readable q → Ends r → Ends (push q r)
Ends-push q (packets qs) h (cut _ hs) = cut (q ∷ qs) (h, hs)
Ends-push q unparsed h e = refused
Ends-push q out_of_fuel h e = starved

parse_loop-Ends : (fuel : ℕ) (content : Bytes) → Ends (parse_loop fuel content)
unfolding parse_loop
parse_loop-Ends zero [] = cut [] tt
parse_loop-Ends (suc fuel) [] = cut [] tt
parse_loop-Ends zero (b ∷ s) = starved
parse_loop-Ends (suc fuel) (b ∷ s) = elim (Bool-cases (parse_packet (b ∷ s)).parsed) [
  | inl ok ↦ simp ok (
      Ends-push (parse_packet (b ∷ s)) _ (is_stream_begin_total (b ∷ s) ok)
        (parse_loop-Ends fuel (parse_packet (b ∷ s)).remain))
  | inr bad ↦ simp bad refused
]

Ends-cases :
    (r : Packets)
    → Ends r
    → r ≢ out_of_fuel
    → (r ≡ unparsed) ⊎ ((qs : List RtmpControlPacket) × (r ≡ packets qs) × All Readable qs)
Ends-cases (packets qs) (cut _ h) ne = inr (qs, refl, h)
Ends-cases unparsed e ne = inl refl
Ends-cases out_of_fuel e ne = absurd (ne refl)

-- The loop ends on every content: it gives the content up, or it returns packets that all have a
-- payload and that can all be asked for a stream begin with no IndexError.
pub parse_all_total :
    (content : Bytes)
    → (parse_all content ≡ unparsed)
      ⊎ ((qs : List RtmpControlPacket) × (parse_all content ≡ packets qs) × All Readable qs)
unfolding parse_all
parse_all_total content =
    Ends-cases _ (parse_loop-Ends (length content) content)
      (parse_loop-ne-out_of_fuel (length content) content (omega arith))
