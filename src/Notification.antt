-- ===== src/Notification.antt =====
-- The notification channel from end to end: what the controller of
-- src/pox/pox/livestreaming/bypass.py writes into a heartbeat, and what src/hosts/common.py and the
-- hosts read from it.
pub mod EndToEnd
pub mod Peers
pub mod Replaced
pub mod Rendezvous
use Prim.Native.Nat.{pred}
use mathlib.Core.List.{append_assoc}
use p2p_livestreaming.Prelude.{
  ℕ, zero, suc, ◌+◌, ◌-◌, ◌≤◌, ◌<◌, ◌≡◌, ◌≢◌, refl, sym, ap, ◌∙◌, Bool, true, false, ◌&&◌, ◌||◌,
  ◌⊎◌, inl, inr, Option, some, none, List, [], ◌∷◌, ◌++◌, arith, leb, ◌==◌, All, All-append,
  All-replicate, All-map, length, replicate, length-append, length-replicate, length-take, take,
  take_of_le, take-append_length, append_nil, if◌then◌else◌, Bytes, codes, Lacks, IsSolid, is_space,
  find, find-append, find_of_Lacks, slice_to, pad_right, strip, strip_of_IsSolid, contains,
  contains_of_Lacks, contains-append,
}
use p2p_livestreaming.Bypass.NotifyHandler.{peer_payload}
use p2p_livestreaming.Hosts.{heartbeat_data, heartbeat_clue, notify_is_heartbeat, parse_notify_ip}

-- A dotted decimal address: digits and dots, at most 15 of them.
abbrev pub is_dotted : ℕ → Bool
is_dotted b = b == b'.' || (leb b'0' b && leb b b'9')

pub record IsAddress (s : Bytes) : Type 0 where
  pub dotted : All (λ b. is_dotted b ≡ true) s
  pub short : length s ≤ 15

abbrev pub pad : ℕ → Bytes
pad n = replicate n b'|'

abbrev IsPrinted : Bytes → Type 0
IsPrinted = All (λ b. (b ≡ b'|') ⊎ (is_dotted b ≡ true))

Lacks-padding : (s : Bytes) → All (λ b. is_dotted b ≡ true) s → Lacks b'|' s
Lacks-padding s = All-map (λ b. is_dotted b ≡ true) (λ b. b ≢ b'|') s (λ b h. ground arith)

IsPrinted-padded : (s : Bytes) (n : ℕ) → All (λ b. is_dotted b ≡ true) s → IsPrinted (s ++ pad n)
IsPrinted-padded s n h =
    All-append (λ b. (b ≡ b'|') ⊎ (is_dotted b ≡ true)) s (pad n)
      (All-map (λ b. is_dotted b ≡ true) (λ b. (b ≡ b'|') ⊎ (is_dotted b ≡ true)) s (λ b. inr) h)
      (All-replicate (λ b. (b ≡ b'|') ⊎ (is_dotted b ≡ true)) n b'|' (inl refl))

IsSolid-printed : (s : Bytes) → IsPrinted s → IsSolid s
IsSolid-printed s =
    All-map (λ b. (b ≡ b'|') ⊎ (is_dotted b ≡ true)) (λ b. is_space b ≡ false) s
      (λ b h. ground arith)

Lacks-printed : (s : Bytes) → IsPrinted s → Lacks b'h' s
Lacks-printed s =
    All-map (λ b. (b ≡ b'|') ⊎ (is_dotted b ≡ true)) (λ b. b ≢ b'h') s (λ b h. ground arith)

pub IsSolid-heartbeat_data : IsSolid heartbeat_data
IsSolid-heartbeat_data = ground arith

module _ (show_ip : ℕ → Bytes) (a : ℕ) (address : IsAddress (show_ip a)) where
  pub peer_payload_padded :
      peer_payload show_ip (some a) ≡ show_ip a ++ pad (15 - length (show_ip a))
  unfolding peer_payload
  peer_payload_padded = refl

  IsPrinted-peer_payload : IsPrinted (peer_payload show_ip (some a))
  IsPrinted-peer_payload =
      rw peer_payload_padded (IsPrinted-padded (show_ip a) (15 - length (show_ip a)) address.dotted)

  pub IsSolid-peer_payload : IsSolid (peer_payload show_ip (some a))
  IsSolid-peer_payload = IsSolid-printed _ IsPrinted-peer_payload

  -- A pushed address has the length of a heartbeat.
  pub length-peer_payload : length (peer_payload show_ip (some a)) ≡ length heartbeat_data
  length-peer_payload = rw peer_payload_padded (
      omega (
        arith,
        address.short,
        length-append (show_ip a) (pad (15 - length (show_ip a))),
        length-replicate {A = ℕ} (15 - length (show_ip a)) b'|',
      ))

  -- The hosts do not take a pushed address for a heartbeat.
  pub peer_payload_no_heartbeat :
      notify_is_heartbeat (strip (peer_payload show_ip (some a))) ≡ false
  unfolding notify_is_heartbeat
  peer_payload_no_heartbeat =
      ap (contains heartbeat_clue)
        (strip_of_IsSolid (peer_payload show_ip (some a)) IsSolid-peer_payload)
      ∙ contains_of_Lacks b'h' (codes "eartbeat") (peer_payload show_ip (some a))
          (Lacks-printed _ IsPrinted-peer_payload)

  pub Lacks-peer_payload : Lacks b'h' (peer_payload show_ip (some a))
  Lacks-peer_payload = Lacks-printed _ IsPrinted-peer_payload

  -- A text that starts with a pushed address is read as this address, whatever stands behind it.
  pub parse_notify_ip-peer_payload_behind :
      (rest : Bytes)
      → length (show_ip a) < 15
      → parse_notify_ip (peer_payload show_ip (some a) ++ rest) ≡ show_ip a
  unfolding parse_notify_ip
  parse_notify_ip-peer_payload_behind rest lt =
      let k = 14 - length (show_ip a) in
      let text = show_ip a ++ b'|' ∷ (pad k ++ rest) in
      let split =
        ap (λ s. s ++ rest)
          (peer_payload_padded ∙ ap (λ n. show_ip a ++ pad n) {y = suc k} (omega arith))
        ∙ append_assoc (show_ip a) (pad (suc k)) rest in
      ap parse_notify_ip {y = text} split
      ∙ ap (λ i. slice_to i text)
          (find-append b'|' (show_ip a) (pad k ++ rest) (Lacks-padding (show_ip a) address.dotted))
      ∙ take-append_length (show_ip a) (b'|' ∷ (pad k ++ rest))

  parse_padded : (k : ℕ) → parse_notify_ip (show_ip a ++ pad (suc k)) ≡ show_ip a
  unfolding parse_notify_ip
  parse_padded k =
      ap (λ i. slice_to i (show_ip a ++ pad (suc k)))
        (find-append b'|' (show_ip a) (pad k) (Lacks-padding (show_ip a) address.dotted))
      ∙ take-append_length (show_ip a) (pad (suc k))

  parse_unpadded : length (show_ip a) ≡ 15 → parse_notify_ip (show_ip a) ≡ take 14 (show_ip a)
  unfolding parse_notify_ip
  parse_unpadded full =
      ap (λ i. slice_to i (show_ip a))
        (find_of_Lacks b'|' (show_ip a) (Lacks-padding (show_ip a) address.dotted))
      ∙ ap (λ n. take (pred n) (show_ip a)) full

  -- An address of digits and dots, of fewer than 15 characters, is read back by the hosts as it was
  -- pushed.
  pub parse_notify_ip-peer_payload :
      length (show_ip a) < 15 → parse_notify_ip (strip (peer_payload show_ip (some a))) ≡ show_ip a
  parse_notify_ip-peer_payload lt =
      ap parse_notify_ip (
        strip_of_IsSolid (peer_payload show_ip (some a)) IsSolid-peer_payload
        ∙ peer_payload_padded
        ∙ ap (λ n. show_ip a ++ pad n) {y = suc (14 - length (show_ip a))} (omega arith))
      ∙ parse_padded (14 - length (show_ip a))

  -- An address of digits and dots of 15 characters leaves no padding, and the hosts lose its last
  -- character.
  pub parse_notify_ip_cut :
      length (show_ip a) ≡ 15
      → (parse_notify_ip (strip (peer_payload show_ip (some a))) ≡ take 14 (show_ip a))
        × (take 14 (show_ip a) ≢ show_ip a)
  parse_notify_ip_cut full = (
    ap parse_notify_ip (
          strip_of_IsSolid (peer_payload show_ip (some a)) IsSolid-peer_payload
          ∙ peer_payload_padded
          ∙ ap (λ n. show_ip a ++ pad n) {y = 0} (omega arith)
          ∙ append_nil (show_ip a))
        ∙ parse_unpadded full,
    λ e. omega (arith, full, ap length e, length-take 14 (show_ip a)),
  )

  -- A pushed address of digits and dots that `recv` returns together with a heartbeat, before or
  -- behind it, is taken for a heartbeat.
  pub peer_payload_coalesced :
      (notify_is_heartbeat (strip (heartbeat_data ++ peer_payload show_ip (some a))) ≡ true)
      × (notify_is_heartbeat (strip (peer_payload show_ip (some a) ++ heartbeat_data)) ≡ true)
  unfolding notify_is_heartbeat
  peer_payload_coalesced = (
    ap (contains heartbeat_clue) (
          strip_of_IsSolid (heartbeat_data ++ peer_payload show_ip (some a))
            (All-append _ heartbeat_data _ IsSolid-heartbeat_data IsSolid-peer_payload))
        ∙ contains-append heartbeat_clue (codes "xxx")
            (codes "xxx" ++ peer_payload show_ip (some a)),
    ap (contains heartbeat_clue) (
          strip_of_IsSolid (peer_payload show_ip (some a) ++ heartbeat_data) (
            All-append _ (peer_payload show_ip (some a)) heartbeat_data IsSolid-peer_payload
              IsSolid-heartbeat_data)
          ∙ sym (
              append_assoc (peer_payload show_ip (some a)) (codes "xxx")
                (heartbeat_clue ++ codes "xxx")))
        ∙ contains-append heartbeat_clue (peer_payload show_ip (some a) ++ codes "xxx")
            (codes "xxx"),
  )
