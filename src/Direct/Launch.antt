-- ===== src/Direct/Launch.antt =====
-- src/pox/pox/livestreaming/direct.py, `DirectLivestreaming` and `launch`: which switches get a
-- controller. POX's `str_to_dpid` and `str_to_bool` are parameters.
use p2p_livestreaming.Prelude.{
  ◌>>=◌, inl, inr, Bool-cases, ◌&&◌, ◌⊎◌, ℕ, ◌≡◌, ◌≢◌, refl, sym, ap, ◌∙◌, Bool, true, false,
  is_some, ◌||◌, Option, none, some, List, [], ◌∷◌, ◌++◌, map, arith, ◌==◌, if◌then◌else◌, All,
  Bytes, codes, is_space, join, append_nil,
}
use mathlib.Core.List.{append_assoc}
use p2p_livestreaming.Direct.{DirectSwitch, new}

-- `s.replace(',', ' ')`
abbrev pub unset_comma : ℕ → ℕ
unset_comma c = if c == b',' then b' ' else c

abbrev pub flush : Bytes → List Bytes
flush [] = []
flush (c ∷ s) = (c ∷ s) ∷ []

-- `s.split()`, behind the part of a word that was read.
unfoldable pub split_from : Bytes → Bytes → List Bytes
split_from word [] = flush word
split_from word (c ∷ s) =
    let cut = split_from [] s in
    let more = split_from (word ++ c ∷ []) s in if is_space c then flush word ++ cut else more

unfoldable pub elem : ℕ → List ℕ → Bool
elem x [] = false
elem x (y ∷ ys) = x == y || elem x ys

-- `DirectLivestreaming`; a set of datapath ids is a list.
pub record DirectLivestreaming : Type 0 where
  pub transparent : Bool
  pub ignore : List ℕ

-- `_handle_ConnectionUp`; `none` is an ignored connection.
unfoldable pub connection_up : DirectLivestreaming → ℕ → Option DirectSwitch
unfolding elem
connection_up d dpid = if elem dpid d.ignore then none else some (new d.transparent)

-- `DirectLivestreaming(str_to_bool(transparent), ignore)`
abbrev pub registered : Bool → List ℕ → DirectLivestreaming
registered transparent ignore = record { transparent = transparent; ignore = ignore }

-- `str_to_dpid` raises `ValueError` on a malformed word, which is `none`.
module _ (str_to_dpid : Bytes → Option ℕ) (str_to_bool : Bytes → Bool) where
  -- `str_to_dpid(dpid) for dpid in words`: the first word that raises ends it.
  unfoldable pub read_dpids : List Bytes → Option (List ℕ)
  read_dpids [] = some []
  read_dpids (w ∷ ws) = do dpid ← str_to_dpid w; dpids ← read_dpids ws; some (dpid ∷ dpids)

  -- The set of ids of the option `ignore`, where `None` and the empty text are false.
  unfoldable pub parse_ignore : Option Bytes → Option (List ℕ)
  unfolding split_from read_dpids
  parse_ignore none = some []
  parse_ignore (some text) = read_dpids (split_from [] (map unset_comma text))

  -- `launch`; where it raises, `none`, nothing is registered.
  unfoldable pub launch : Bytes → Option Bytes → Option DirectLivestreaming
  unfolding parse_ignore
  launch transparent ignore = do
    ids ← parse_ignore ignore
    some (registered (str_to_bool transparent) ids)

-- A word of the option: no white space and no comma, and not empty.
pub record IsWord (w : Bytes) : Type 0 where
  pub plain : All (λ c. (is_space c ≡ false) × (c ≢ b',')) w
  pub filled : w ≢ []

unset_comma_plain : (c : ℕ) → (is_space c ≡ false) × (c ≢ b',') → unset_comma c ≡ c
unset_comma_plain c h = ground (arith, h.1)

split_from-plain :
    (word s : Bytes) (c : ℕ)
    → is_space c ≡ false
    → split_from word (c ∷ s) ≡ split_from (word ++ c ∷ []) s
unfolding split_from
split_from-plain word s c h = rw h

split_from-word :
    (word w s : Bytes)
    → All (λ c. (is_space c ≡ false) × (c ≢ b',')) w
    → split_from word (map unset_comma (w ++ s)) ≡ split_from (word ++ w) (map unset_comma s)
split_from-word word [] s h = ap (λ v. split_from v (map unset_comma s)) (sym (append_nil word))
split_from-word word (c ∷ w) s h =
    ap (λ b. split_from word (b ∷ map unset_comma (w ++ s))) (unset_comma_plain c h.0)
    ∙ split_from-plain word (map unset_comma (w ++ s)) c h.0.0
    ∙ split_from-word (word ++ c ∷ []) w s h.1
    ∙ ap (λ v. split_from v (map unset_comma s)) (append_assoc word (c ∷ []) w)

flush-filled : (w : Bytes) → w ≢ [] → flush w ≡ w ∷ []
flush-filled [] h = absurd (h refl)
flush-filled (c ∷ w) h = refl

split_from-comma :
    (w s : Bytes)
    → w ≢ []
    → split_from w (map unset_comma (b',' ∷ s)) ≡ w ∷ split_from [] (map unset_comma s)
unfolding split_from
split_from-comma w s h = ap (λ ws. ws ++ split_from [] (map unset_comma s)) (flush-filled w h)

split_from-end : (w : Bytes) → w ≢ [] → split_from w (map unset_comma []) ≡ w ∷ []
unfolding split_from
split_from-end w h = flush-filled w h

split_from-join :
    (ws : List Bytes) → All IsWord ws → split_from [] (map unset_comma (join (codes ",") ws)) ≡ ws
unfolding join
split_from-join [] h = unfold split_from in refl
split_from-join (w ∷ []) h =
    ap (λ v. split_from [] (map unset_comma v)) (sym (append_nil w))
    ∙ split_from-word [] w [] h.0.plain
    ∙ split_from-end w h.0.filled
split_from-join (w ∷ v ∷ ws) h =
    ap (λ v. split_from [] (map unset_comma v))
      (append_assoc w (b',' ∷ []) (join (codes ",") (v ∷ ws)))
    ∙ split_from-word [] w (b',' ∷ join (codes ",") (v ∷ ws)) h.0.plain
    ∙ split_from-comma w (join (codes ",") (v ∷ ws)) h.0.filled
    ∙ ap (◌∷◌ w) (split_from-join (v ∷ ws) h.1)

elem-cons : (x y : ℕ) (ys : List ℕ) → elem x (y ∷ ys) ≡ (x == y || elem x ys)
unfolding elem
elem-cons x y ys = refl

abbrev pub is_id : ℕ → Option ℕ → Bool
is_id dpid none = false
is_id dpid (some x) = dpid == x

some_of_is_some {ℓ} : {A : Type ℓ} (o : Option A) → is_some o ≡ true → (a : A) × (o ≡ some a)
some_of_is_some none h = cc
some_of_is_some (some a) h = (a, refl)

-- A switch whose id is the reading of a word.
abbrev pub reads : (Bytes → Option ℕ) → ℕ → List Bytes → Bool
reads str_to_dpid dpid [] = false
reads str_to_dpid dpid (w ∷ ws) = is_id dpid (str_to_dpid w) || reads str_to_dpid dpid ws

abbrev pub readable : (Bytes → Option ℕ) → List Bytes → Bool
readable str_to_dpid [] = true
readable str_to_dpid (w ∷ ws) = is_some (str_to_dpid w) && readable str_to_dpid ws

read_dpids-reads :
    (str_to_dpid : Bytes → Option ℕ) (str_to_bool : Bytes → Bool) (ws : List Bytes)
    → readable str_to_dpid ws ≡ true
    → (ids : List ℕ) × (read_dpids str_to_dpid str_to_bool ws ≡ some ids)
      × ((dpid : ℕ) → elem dpid ids ≡ reads str_to_dpid dpid ws)
unfolding read_dpids
read_dpids-reads str_to_dpid str_to_bool [] h = ([], refl, λ dpid. unfold elem in refl)
read_dpids-reads str_to_dpid str_to_bool (w ∷ ws) h =
    let (ids, read, same) = read_dpids-reads str_to_dpid str_to_bool ws (ground arith) in
    let (x, word) = some_of_is_some (str_to_dpid w) (ground arith) in
    (
      x ∷ ids,
      simp (word, read) refl,
      λ dpid. elem-cons dpid x ids ∙ simp word (ap (◌||◌ (dpid == x)) (same dpid)),
    )

read_dpids-raises :
    (str_to_dpid : Bytes → Option ℕ) (str_to_bool : Bytes → Bool) (ws : List Bytes)
    → readable str_to_dpid ws ≡ false
    → read_dpids str_to_dpid str_to_bool ws ≡ none
unfolding read_dpids
read_dpids-raises str_to_dpid str_to_bool [] h = cc
read_dpids-raises str_to_dpid str_to_bool (w ∷ ws) h =
    ground (arith, read_dpids-raises str_to_dpid str_to_bool ws)

-- With an option `ignore` that lists words with commas between them, `launch` raises and registers
-- nothing if one of the words cannot be read as an id. If all can, it registers a component that
-- leaves exactly the switches without a controller whose id is the reading of one of the words, and
-- gives every other switch a new one.
pub connection_up-launch :
    (str_to_dpid : Bytes → Option ℕ) (str_to_bool : Bytes → Bool) (transparent : Bytes)
    (ws : List Bytes)
    → All IsWord ws
    → let l = launch str_to_dpid str_to_bool transparent (some (join (codes ",") ws)) in
      ((readable str_to_dpid ws ≡ false) × (l ≡ none))
      ⊎ ((readable str_to_dpid ws ≡ true)
          × (d : DirectLivestreaming) × (l ≡ some d)
          × ((dpid : ℕ)
              → connection_up d dpid ≡ (
                  if reads str_to_dpid dpid ws
                  then none
                  else some (new (str_to_bool transparent)))))
unfolding connection_up launch parse_ignore
connection_up-launch str_to_dpid str_to_bool transparent ws h =
    let split = split_from-join ws h in
    elim (Bool-cases (readable str_to_dpid ws)) [
      | inl good ↦
          let (ids, are, same) = read_dpids-reads str_to_dpid str_to_bool ws good in
          inr (
            good,
            registered (str_to_bool transparent) ids,
            simp (split, are) refl,
            λ dpid. ap (λ b. if b then none else some (new (str_to_bool transparent))) (same dpid),
          )
      | inr bad ↦ inl (bad, simp (split, read_dpids-raises str_to_dpid str_to_bool ws bad) refl)
    ]
