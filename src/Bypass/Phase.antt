-- ===== src/Bypass/Phase.antt =====
-- One phase of a session: packets without a keyword and then a signal; and the two phases by which the
-- viewer comes to be served.
use p2p_livestreaming.Prelude.{
  ℕ, ◌≡◌, ◌&&◌, Bool, refl, sym, ap, ◌∙◌, false, none, List, [], ◌∷◌, ◌++◌, arith, All, Bytes,
  is_some,
}
use mathlib.Core.Path.{subst}
use p2p_livestreaming.OpenFlow.{TcpFrame, Event}
use p2p_livestreaming.Bypass.{Switch, Roles, Status, new, ok, state, normal_send}
use p2p_livestreaming.Bypass.Dispatch.{handle_packet_in, run}
use p2p_livestreaming.Bypass.Invariant.{Inv, Inv-new, run-Inv}
use p2p_livestreaming.Bypass.Stage.{SameStage}
use p2p_livestreaming.Bypass.Signal.{asks_play, starts_play}
use p2p_livestreaming.Bypass.Steps.{
  IsRequest, IsAnswer, viewer_asked, viewer_served, behind, behind-Inv, run-cons, play_req-step,
  play_start-step,
}
use p2p_livestreaming.Bypass.Quiet.{IsQuiet, IsCalm, run-quiet}

-- The roles, the statuses and the kept bytes of `u`, with the table and the messages of `s`.
abbrev pub moved : Switch → Switch → Switch
moved u s = record s { roles = u.roles; status = u.status; prepend_buf = u.prepend_buf }

moved_of_SameStage : (u s : Switch) → SameStage u s → s ≡ moved u s
moved_of_SameStage u s h = λ i. record s { roles = h.0 i; status = h.1 i; prepend_buf = h.2 i }

-- A function that reads neither the table nor the messages for these three.
abbrev pub IsLocal : (Switch → Switch) → Switch → Type 0
IsLocal change u = (s : Switch) → SameStage (change u) (change (moved u s))

SameStage-local :
    (change : Switch → Switch) (u s : Switch)
    → IsLocal change u
    → SameStage u s
    → SameStage (change u) (change s)
SameStage-local change u s l h =
    subst (λ t. SameStage (change u) (change t)) (sym (moved_of_SameStage u s h)) (l s)

IsCalm-SameStage : (u s : Switch) → SameStage u s → IsCalm u → IsCalm s
IsCalm-SameStage u s h calm = ground (arith, h)

pub IsCalm-fields :
    (u : Switch)
    → u.prepend_buf ≡ none
    → u.status_stream_begin ≡ false
    → (u.status_vready && u.status_bready) ≡ false
    → IsCalm u
IsCalm-fields u kept begun due = record { nothing_kept = kept; not_begun = begun; not_due = due }

abbrev pub on : Status → Bool
on c = c.p2p_enabled

abbrev pub off : Status → Bool
off c = c.p2p_set_off

module _ (show_ip : ℕ → Bytes) where
  pub run-append :
      (es rest : List Event) (s : Switch)
      → run show_ip (es ++ rest) s ≡ run show_ip rest (run show_ip es s)
  unfolding run
  run-append [] rest s = refl
  run-append (e ∷ es) rest s = run-append es rest (state (handle_packet_in show_ip e s))

  -- Quiet packets and then a signal, from a state that agrees with `u`.
  pub phase :
      (qs rest : List Event) (e : Event) (change : Switch → Switch) (u s : Switch)
      → Inv s
      → SameStage u s
      → IsCalm u
      → All IsQuiet qs
      → IsLocal (behind e change) u
      → ((t : Switch)
          → Inv t
          → SameStage u t
          → handle_packet_in show_ip e t ≡ ok (behind e change t))
      → (t : Switch) × Inv t
        × SameStage (behind e change u) t
        × (run show_ip (qs ++ e ∷ rest) s ≡ run show_ip rest t)
  phase qs rest e change u s inv h calm quiet l step =
      let t = run show_ip qs s in
      let still = run-quiet show_ip qs s quiet (IsCalm-SameStage u s h calm) in
      let same : SameStage u t = (still.0 ∙ h.0, still.1 ∙ h.1, still.2 ∙ h.2) in
      let inv_t = run-Inv show_ip qs s inv in
      let done = step t inv_t same in
      (
        behind e change t,
        behind-Inv show_ip e t (behind e change t) inv_t done,
        SameStage-local (behind e change) u t l same,
        run-append qs (e ∷ rest) s ∙ run-cons show_ip e rest t (behind e change t) done,
      )

-- The viewer's two signals, and then the broadcaster's.
pub viewer_phase :
    (show_ip : ℕ → Bytes) (f₁ f₂ : TcpFrame) (e₁ e₂ : Event) (q₁ q₂ rest : List Event)
    → IsRequest asks_play f₁ e₁
    → IsAnswer starts_play f₂ e₂
    → All IsQuiet q₁
    → All IsQuiet q₂
    → (t : Switch) × Inv t
      × SameStage (behind e₂ (viewer_served f₂ e₂) (behind e₁ (viewer_asked f₁ e₁) new)) t
      × (run show_ip (q₁ ++ e₁ ∷ (q₂ ++ e₂ ∷ rest)) new ≡ run show_ip rest t)
unfolding normal_send
viewer_phase show_ip f₁ f₂ e₁ e₂ q₁ q₂ rest r₁ r₂ k₁ k₂ =
    let u₁ = behind e₁ (viewer_asked f₁ e₁) new in
    let (s₁, i₁, h₁, x₁) =
      phase show_ip q₁ (q₂ ++ e₂ ∷ rest) e₁ (viewer_asked f₁ e₁) new new Inv-new (refl, refl, refl)
        (IsCalm-fields new refl refl refl) k₁ (λ s. (refl, refl, refl))
        (λ t i h. play_req-step show_ip f₁ e₁ t i h.2 (ap on h.1) (ap off h.1) r₁) in
    let (s₂, i₂, h₂, x₂) =
      phase show_ip q₂ rest e₂ (viewer_served f₂ e₂) u₁ s₁ i₁ h₁ (IsCalm-fields u₁ refl refl refl)
        k₂ (λ s. (refl, refl, refl))
        (λ t i h.
          play_start-step show_ip f₂ e₂ t i h.2 (ap on h.1) (ap off h.1) r₂
            (ap (λ (r : Roles). r.sport) h.0) (ap (λ (r : Roles). is_some r.vport) h.0)
            (ap (λ (c : Status). c.status_vplay) h.1)) in
    (s₂, i₂, h₂, x₁ ∙ x₂)
