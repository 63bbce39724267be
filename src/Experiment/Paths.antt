-- ===== src/Experiment/Paths.antt =====
-- The time stamps in the logs, and the shape of the networks.
use p2p_livestreaming.Prelude.{
  ℕ, zero, suc, ◌+◌, ◌≡◌, ◌≢◌, refl, sym, ap, ◌∙◌, Option, some, List, [], ◌∷◌, ◌++◌, map, arith,
  length, length-append, All, All-append, Bool-cases, Bytes, codes, IsSolid, strip,
  strip_of_IsSolid, ◌==◌, ◌⊎◌, inl, inr, append_nil,
}
use mathlib.Core.List.{append_assoc}
use p2p_livestreaming.Experiment.{Link, count, lan, cdn, single_topo}
use p2p_livestreaming.Experiment.Live.{split_lines, stripped, last_line, to_int, stamp_of}

last_line-stripped :
    (l : Bytes) (ls : List Bytes) (w : Bytes)
    → last_line (stripped ls) ≡ some w
    → last_line (stripped (l ∷ ls)) ≡ some w
last_line-stripped [] ls w h = h
last_line-stripped (c ∷ l) ls w h = behind (strip (c ∷ l)) (stripped ls) h
  where
    behind : (x : Bytes) (xs : List Bytes) → last_line xs ≡ some w → last_line (x ∷ xs) ≡ some w
    behind x [] e = cc
    behind x (y ∷ ys) e = e

pub split_lines-word :
    (line w : Bytes) → IsSolid w → split_lines line (w ++ 10 ∷ []) ≡ (line ++ w) ∷ [] ∷ []
unfolding split_lines
split_lines-word line [] h = ap (λ l. l ∷ [] ∷ []) (sym (append_nil line))
split_lines-word line (c ∷ w) h =
    plain
    ∙ split_lines-word (line ++ c ∷ []) w h.1
    ∙ ap (λ l. l ∷ [] ∷ []) (append_assoc line (c ∷ []) w)
  where
    plain : split_lines line ((c ∷ w) ++ 10 ∷ []) ≡ split_lines (line ++ c ∷ []) (w ++ 10 ∷ [])
    plain = ground (arith, h.0)

last_line-word :
    (line w : Bytes) → IsSolid w → w ≢ [] → last_line (stripped (line ∷ w ∷ [] ∷ [])) ≡ some w
last_line-word line [] h ne = absurd (ne refl)
last_line-word line (b ∷ w) h ne =
    last_line-stripped line ((b ∷ w) ∷ [] ∷ []) (b ∷ w) (ap some (strip_of_IsSolid (b ∷ w) h))

last_line-log :
    (line text w : Bytes)
    → IsSolid w
    → w ≢ []
    → last_line (stripped (split_lines line (text ++ 10 ∷ (w ++ 10 ∷ [])))) ≡ some w
unfolding split_lines
last_line-log line [] w h ne =
    ap (λ ls. last_line (stripped (line ∷ ls))) (split_lines-word [] w h)
    ∙ last_line-word line w h ne
last_line-log line (c ∷ text) w h ne = elim (Bool-cases (c == 10)) [
  | inl cut ↦ rw cut (
      last_line-stripped line (split_lines [] (text ++ 10 ∷ (w ++ 10 ∷ []))) w
        (last_line-log [] text w h ne))
  | inr more ↦ rw more (last_line-log (line ++ c ∷ []) text w h ne)
]

-- A log that ends in a line with a time stamp, a text without white space, is read as that stamp,
-- whatever stands before it.
pub stamp_of-append :
    (int : Bytes → Option ℕ) (text : Bytes) (b : ℕ) (w : Bytes)
    → IsSolid (b ∷ w)
    → stamp_of int (text ++ 10 ∷ ((b ∷ w) ++ 10 ∷ [])) ≡ int (b ∷ w)
unfolding stamp_of
stamp_of-append int text b w h = ap (to_int int) (last_line-log [] text (b ∷ w) h (λ e. cc))

length-map : {A B : Type 0} (f : A → B) (xs : List A) → length (map f xs) ≡ length xs
length-map f [] = refl
length-map f (x ∷ xs) = ap suc (length-map f xs)

length-count : (first n : ℕ) → length (count first n) ≡ n
length-count first zero = refl
length-count first (suc n) = ap suc (length-count (suc first) n)

abbrev pub AtSwitch : Link → Type 0
AtSwitch l = (l.node1 ≡ codes "s1") ⊎ (l.node2 ≡ codes "s1")

All-lan : (hvs : List Bytes) → All AtSwitch (map (λ hv. lan hv (codes "s1")) hvs)
All-lan [] = tt
All-lan (hv ∷ hvs) = (inr refl, All-lan hvs)

-- For any number of viewers, every link of the single-switch network has the switch at one end, and
-- there is one link less than there are nodes.
pub single_topo-links :
    (str : ℕ → Bytes) (n : ℕ)
    → let t = single_topo str n in
      All AtSwitch t.links × (suc (length t.links) ≡ length t.hosts + length t.switches)
unfolding single_topo
single_topo-links str n =
    let hvs = map (λ i. codes "hv" ++ str i) (count 1 n) in
    let viewers = map (λ hv. lan hv (codes "s1")) hvs in
    (
      (
        inr refl,
        All-append AtSwitch viewers (cdn (codes "s1") (codes "hs") ∷ []) (All-lan hvs)
            (inl refl, tt),
      ),
      omega (
        arith,
        length-append viewers (cdn (codes "s1") (codes "hs") ∷ []),
        length-map (λ hv. lan hv (codes "s1")) hvs,
      ),
    )
