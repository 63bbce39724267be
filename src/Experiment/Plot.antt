-- ===== src/Experiment/Plot.antt =====
-- src/plot.py: the delays that are read from the ping logs. `int` is Python's, `none` where it raises;
-- what is drawn is the list of the calls of matplotlib.
use p2p_livestreaming.Prelude.{
  ◌>>=◌, ℕ, zero, suc, ◌+◌, ◌-◌, ◌/◌, ◌≡◌, refl, sym, ap, ◌∙◌, Option, none, some, List, [], ◌∷◌,
  ◌++◌, arith, length, take, drop, Bytes, codes, Lacks, starts_with, strip, if◌then◌else◌,
  length-append, take-append_length,
}
use mathlib.Core.List.{append_assoc}

-- `line.rfind(p)`; `none` is -1.
unfoldable pub rfind : Bytes → Bytes → Option ℕ
unfolding starts_with
rfind p [] = if starts_with p [] then some 0 else none
rfind p (b ∷ s) = elim (rfind p s) [
  | some i ↦ some (suc i)
  | none ↦ if starts_with p (b ∷ s) then some 0 else none
]

-- `line.rfind('=')+1`
abbrev pub first : Option ℕ → ℕ
first none = 0
first (some i) = suc i

-- `line.rfind('ms')-1`, counted from the end where it is negative.
abbrev pub stop : ℕ → Option ℕ → ℕ
stop len none = len - 2
stop len (some zero) = len - 1
stop len (some (suc i)) = i

-- `line[line.rfind('=')+1:line.rfind('ms')-1]`
unfoldable pub rtt_text : Bytes → Bytes
unfolding rfind
rtt_text line =
    drop (first (rfind (codes "=") line)) (take (stop (length line) (rfind (codes "ms") line)) line)

-- `fd.readline()`, empty behind the last line.
abbrev pub readline : List Bytes → Bytes × List Bytes
readline [] = ([], [])
readline (l ∷ ls) = (l, ls)

-- The calls of matplotlib, without the styles of the lines.
pub data Drawing : Type 0 where
  plot : List ℕ → (label : Bytes) → Drawing
  axvline : ℕ → (label : Option Bytes) → Drawing
  xlabel ylabel savefig : Bytes → Drawing
  legend : Drawing

abbrev pub stream_interval : ℕ × ℕ
stream_interval = (15, 45)

-- `delays.append(rtt/2)` in front of what the later lines give; `none` where a line raises.
abbrev pub half_of : Option ℕ → Option (List ℕ) → Option (List ℕ)
half_of none more = none
half_of (some rtt) none = none
half_of (some rtt) (some ds) = some (rtt / 2 ∷ ds)

-- The sums of the delays of the two paths.
abbrev pub add_each : List ℕ → List ℕ → List ℕ
add_each (a ∷ as₁) (b ∷ bs) = (a + b) ∷ add_each as₁ bs
add_each _ _ = []

module _ (result_dir : Bytes) (int : Bytes → Option ℕ) where
  -- The loop over so many lines of one file.
  unfoldable pub read_delays : ℕ → List Bytes → Option (List ℕ)
  unfolding rtt_text
  read_delays zero ls = some []
  read_delays (suc n) ls =
      let (line, rest) = readline ls in
      let more = read_delays n rest in half_of (int (rtt_text (strip line))) more

  -- One file: the first line is skipped, and 60 are read.
  unfoldable pub file_delays : List Bytes → Option (List ℕ)
  unfolding read_delays
  file_delays ls = read_delays 60 (readline ls).1

  -- The two curves of `plot_delays`: the original delays and the bypassed ones. `fd` is what a path
  -- opens, `none` where there is no such file.
  unfoldable pub curves : (fd : Bytes → Option (List Bytes)) → Option (List ℕ × List ℕ)
  unfolding file_delays
  curves fd = do
    b2s ← fd (result_dir ++ codes "/direct-b2s.ping")
    to_service ← file_delays b2s
    s2v ← fd (result_dir ++ codes "/direct-s2v.ping")
    to_viewer ← file_delays s2v
    b2v ← fd (result_dir ++ codes "/bypass-b2v.ping")
    bypassed ← file_delays b2v
    some (add_each to_service to_viewer, bypassed)

  -- `plot_delays`
  unfoldable pub plot_delays : (fd : Bytes → Option (List Bytes)) → Option (List Drawing)
  unfolding curves
  plot_delays fd = do
    (direct_delays, bypass_delays) ← curves fd
    some (
        plot direct_delays (codes "Original")
        ∷ plot bypass_delays (codes "Bypassed")
        ∷ axvline stream_interval.0 none
        ∷ axvline stream_interval.1 (some (codes "Streaming interval"))
        ∷ xlabel (codes "Time (s)")
        ∷ ylabel (codes "Delay (ms)")
        ∷ legend
        ∷ savefig (result_dir ++ codes "/delay-plot.png")
        ∷ [])

rfind_of_Lacks : (c : ℕ) (s : Bytes) → Lacks c s → rfind (c ∷ []) s ≡ none
unfolding rfind
rfind_of_Lacks c [] h = ground arith
rfind_of_Lacks c (b ∷ s) h = ground (arith, rfind_of_Lacks c s h.1)

rfind-append : (c : ℕ) (s t : Bytes) → Lacks c t → rfind (c ∷ []) (s ++ c ∷ t) ≡ some (length s)
unfolding rfind
rfind-append c [] t h = ground (arith, rfind_of_Lacks c t h)
rfind-append c (b ∷ s) t h = ground (arith, rfind-append c s t h)

rfind_ms : (s : Bytes) → rfind (codes "ms") (s ++ codes "ms") ≡ some (length s)
unfolding rfind
rfind_ms [] = refl
rfind_ms (b ∷ s) = ground (arith, rfind_ms s)

drop-cons : (pre : Bytes) (c : ℕ) (d : Bytes) → drop (suc (length pre)) (pre ++ c ∷ d) ≡ d
drop-cons [] c d = refl
drop-cons (b ∷ pre) c d = drop-cons pre c d

stop-suc : (len n m : ℕ) → m ≡ suc n → stop len (some m) ≡ n
stop-suc len n m e = ap (λ k. stop len (some k)) e

-- From a line that ends in `=`, a text without another `=`, a blank and `ms`, the script reads the
-- text between `=` and the blank.
pub rtt_text-append :
    (pre rtt : Bytes)
    → Lacks b'=' (rtt ++ codes " ms")
    → rtt_text (pre ++ (b'=' ∷ (rtt ++ codes " ms"))) ≡ rtt
unfolding rtt_text
rtt_text-append pre rtt h =
    let line = pre ++ (b'=' ∷ (rtt ++ codes " ms")) in
    let front = pre ++ b'=' ∷ rtt in
    let blank = append_assoc pre (b'=' ∷ rtt) (codes " ") in
    let whole = append_assoc pre (b'=' ∷ rtt) (codes " ms") in
    let ends =
      ap (rfind (codes "ms")) (sym whole ∙ sym (append_assoc front (codes " ") (codes "ms")))
      ∙ rfind_ms (front ++ codes " ") in
    let cut =
      ap (stop (length line)) ends
      ∙ stop-suc (length line) (length front) (length (front ++ codes " "))
          (omega (arith, length-append front (codes " "))) in
    ap (λ o. drop (first o) (take (stop (length line) (rfind (codes "ms") line)) line))
      (rfind-append b'=' pre (rtt ++ codes " ms") h)
    ∙ ap (λ n. drop (suc (length pre)) (take n line)) cut
    ∙ ap (λ s. drop (suc (length pre)) (take (length front) s)) (sym whole)
    ∙ ap (drop (suc (length pre))) (take-append_length front (codes " ms"))
    ∙ drop-cons pre b'=' rtt
