-- ===== src/System/Grouped.antt =====
-- What `recv` makes of the texts that arrive: it may return several of them as one.
use p2p_livestreaming.Prelude.{
  ℕ, ◌≡◌, ◌≢◌, ◌<◌, sym, ap, ◌∙◌, ◌⊎◌, inl, inr, false, List, [], ◌∷◌, ◌++◌, some, length, All,
  All-append, Bytes, codes, strip, strip_of_IsSolid, IsSolid, Lacks, contains, contains-append,
  contains_of_Lacks, is_space,
}
use mathlib.Core.Path.{subst}
use mathlib.Core.List.{append_assoc}
use p2p_livestreaming.Bypass.NotifyHandler.{peer_payload}
use p2p_livestreaming.Hosts.{heartbeat_data, heartbeat_clue, notify_is_heartbeat, parse_notify_ip}
use p2p_livestreaming.Hosts.Viewer.Turn.{IsBeat}
use p2p_livestreaming.Notification.{
  IsAddress, IsSolid-heartbeat_data, IsSolid-peer_payload, Lacks-peer_payload,
  parse_notify_ip-peer_payload_behind,
}

abbrev pub flat : List Bytes → Bytes
flat [] = []
flat (t ∷ ts) = t ++ flat ts

-- The results of `recv` are texts that stand together, each at least one; some at the end may not be
-- read yet.
pub data Grouped : (texts received : List Bytes) → Type 0 where
  unread : (ts : List Bytes) → Grouped ts []
  read :
      (t : Bytes) (g ts rs : List Bytes)
      → Grouped ts rs
      → Grouped (t ∷ (g ++ ts)) (flat (t ∷ g) ∷ rs)

All-split : (P : Bytes → Type 0) (g ts : List Bytes) → All P (g ++ ts) → All P g × All P ts
All-split P [] ts h = (tt, h)
All-split P (t ∷ g) ts h = let (a, b) = All-split P g ts h.1 in ((h.0, a), b)

-- What holds of every group of texts holds of the results.
All-Grouped :
    (P Q : Bytes → Type 0)
    → ((t : Bytes) (g : List Bytes) → All P (t ∷ g) → Q (flat (t ∷ g)))
    → {ts rs : List Bytes} → Grouped ts rs
    → All P ts
    → All Q rs
All-Grouped P Q f (unread ts) h = tt
All-Grouped P Q f (read t g ts rs later) h =
    let (mine, others) = All-split P g ts h.1 in (f t g (h.0, mine), All-Grouped P Q f later others)

IsSolid-flat : (ts : List Bytes) → All IsSolid ts → IsSolid (flat ts)
IsSolid-flat [] h = tt
IsSolid-flat (t ∷ ts) h = All-append (λ b. is_space b ≡ false) t (flat ts) h.0 (IsSolid-flat ts h.1)

Lacks-flat : (c : ℕ) (ts : List Bytes) → All (Lacks c) ts → Lacks c (flat ts)
Lacks-flat c [] h = tt
Lacks-flat c (t ∷ ts) h = All-append (λ b. b ≢ c) t (flat ts) h.0 (Lacks-flat c ts h.1)

-- A text with a whole clue in it.
HasClue : Bytes → Type 0
HasClue text = (s : Bytes) × (t : Bytes) × (text ≡ s ++ (heartbeat_clue ++ t))

HasClue-IsBeat : (text : Bytes) → IsSolid text → HasClue text → IsBeat text
unfolding HasClue notify_is_heartbeat
HasClue-IsBeat text solid (s, t, eq) =
    ap (contains heartbeat_clue) (strip_of_IsSolid text solid ∙ eq)
    ∙ contains-append heartbeat_clue s t

HasClue-beat : (t : Bytes) (g : List Bytes) → t ≡ heartbeat_data → HasClue (flat (t ∷ g))
unfolding HasClue
HasClue-beat t g beat = (codes "xxx", codes "xxx" ++ flat g, ap (λ u. u ++ flat g) beat)

All-each :
    (P Q : Bytes → Type 0) → ((t : Bytes) → P t → Q t) → (ts : List Bytes) → All P ts → All Q ts
All-each P Q f [] h = tt
All-each P Q f (t ∷ ts) h = (f t h.0, All-each P Q f ts h.1)

IsSolid-beat : (t : Bytes) → t ≡ heartbeat_data → IsSolid t
IsSolid-beat t beat = subst IsSolid (sym beat) IsSolid-heartbeat_data

-- Heartbeats that `recv` returns together are a heartbeat.
pub beats-IsBeat :
    {ts rs : List Bytes} → Grouped ts rs → All (λ t. t ≡ heartbeat_data) ts → All IsBeat rs
beats-IsBeat =
    All-Grouped (λ t. t ≡ heartbeat_data) IsBeat
      (λ t g h.
        HasClue-IsBeat (flat (t ∷ g))
          (IsSolid-flat (t ∷ g) (All-each (λ t. t ≡ heartbeat_data) IsSolid IsSolid-beat (t ∷ g) h))
          (HasClue-beat t g h.0))

-- A result that is taken for the address `ip`.
abbrev pub Names : (ip text : Bytes) → Type 0
Names ip text = (notify_is_heartbeat (strip text) ≡ false) × (parse_notify_ip (strip text) ≡ ip)

module _ (show_ip : ℕ → Bytes) (x : ℕ) (address : IsAddress (show_ip x))
    (short : length (show_ip x) < 15) where
  -- The viewer's address as it is pushed.
  abbrev p : Bytes
  p = peer_payload show_ip (some x)

  abbrev pub Text : Bytes → Type 0
  Text t = (t ≡ heartbeat_data) ⊎ (t ≡ p)

  IsSolid-Text : (t : Bytes) → Text t → IsSolid t
  IsSolid-Text t (inl beat) = IsSolid-beat t beat
  IsSolid-Text t (inr push) = subst IsSolid (sym push) (IsSolid-peer_payload show_ip x address)

  HasClue-cases : (ts : List Bytes) → All Text ts → HasClue (flat ts) ⊎ All (λ t. t ≡ p) ts
  unfolding HasClue
  HasClue-cases [] h = inr tt
  HasClue-cases (t ∷ ts) h = elim h.0 [
    | inl beat ↦ inl (HasClue-beat t ts beat)
    | inr push ↦ elim (HasClue-cases ts h.1) [
      | inl (u, v, eq) ↦
          inl (t ++ u, v, ap (λ s. t ++ s) eq ∙ sym (append_assoc t u (heartbeat_clue ++ v)))
      | inr rest ↦ inr (push, rest)
    ]
  ]

  pushes-Names :
      (t : Bytes) (g : List Bytes) → All (λ t. t ≡ p) (t ∷ g) → Names (show_ip x) (flat (t ∷ g))
  unfolding notify_is_heartbeat
  pushes-Names t g h =
      let text = flat (t ∷ g) in
      let solid = strip_of_IsSolid text (
        IsSolid-flat (t ∷ g)
          (All-each (λ t. t ≡ p) IsSolid (λ t e. IsSolid-Text t (inr e)) (t ∷ g) h)) in
      let lacks = Lacks-flat b'h' (t ∷ g) (
        All-each (λ t. t ≡ p) (Lacks b'h')
          (λ t e. subst (Lacks b'h') (sym e) (Lacks-peer_payload show_ip x address)) (t ∷ g) h) in
      (
        ap (contains heartbeat_clue) solid ∙ contains_of_Lacks b'h' (codes "eartbeat") text lacks,
        ap parse_notify_ip (solid ∙ ap (λ u. u ++ flat g) h.0)
            ∙ parse_notify_ip-peer_payload_behind show_ip x address (flat g) short,
      )

  group_lem :
      (t : Bytes) (g : List Bytes)
      → All Text (t ∷ g)
      → IsBeat (flat (t ∷ g)) ⊎ Names (show_ip x) (flat (t ∷ g))
  group_lem t g h = elim (HasClue-cases (t ∷ g) h) [
    | inl clue ↦ inl (
        HasClue-IsBeat (flat (t ∷ g))
          (IsSolid-flat (t ∷ g) (All-each Text IsSolid IsSolid-Text (t ∷ g) h)) clue)
    | inr pushes ↦ inr (pushes-Names t g pushes)
  ]

  -- Each result of `recv` on heartbeats and pushed addresses is taken for a heartbeat, or for the
  -- address that was pushed.
  pub texts-Names :
      {ts rs : List Bytes}
      → Grouped ts rs
      → All Text ts
      → All (λ r. IsBeat r ⊎ Names (show_ip x) r) rs
  texts-Names = All-Grouped Text (λ r. IsBeat r ⊎ Names (show_ip x) r) group_lem
