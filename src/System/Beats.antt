-- ===== src/System/Beats.antt =====
-- What is heard on the two notification connections, by the stage of the controller.
use p2p_livestreaming.Prelude.{
  some_injective, ℕ, ◌≡◌, sym, ◌∙◌, ◌⊎◌, inl, inr, false, some, List, [], ◌∷◌, arith, All, Bytes,
}
use p2p_livestreaming.Bypass.{Switch}
use p2p_livestreaming.Hosts.{heartbeat_data}
use p2p_livestreaming.System.Channel.{told, Heard}

-- Where only heartbeats can be heard.
pub All-beats :
    (show_ip : ℕ → Bytes) (a : ℕ) (c : Switch) (ts : List Bytes)
    → c.p2p_enabled ≡ false
    → All (Heard show_ip a c) ts
    → All (λ t. t ≡ heartbeat_data) ts
All-beats show_ip a c [] off h = tt
All-beats show_ip a c (t ∷ ts) off h = (
  (elim h.0 [ inl beat ↦ beat | inr (on, _) ↦ absurd (ground arith) ]),
  All-beats show_ip a c ts off h.1,
)

pub All-pushed :
    (show_ip : ℕ → Bytes) (a : ℕ) (c : Switch) (p : Bytes) (ts : List Bytes)
    → told show_ip a c ≡ some p
    → All (Heard show_ip a c) ts
    → All (λ t. (t ≡ heartbeat_data) ⊎ (t ≡ p)) ts
All-pushed show_ip a c p [] known h = tt
All-pushed show_ip a c p (t ∷ ts) known h = (
  (elim h.0 [ inl beat ↦ inl beat | inr (on, e) ↦ inr (some_injective (sym e ∙ known)) ]),
  All-pushed show_ip a c p ts known h.1,
)
