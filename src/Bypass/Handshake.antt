-- ===== src/Bypass/Handshake.antt =====
-- The order of messages that the controller waits for: a viewer's play request and its answer, then
-- a broadcaster's publish request and its answer, take a new controller to the P2P stage.
use p2p_livestreaming.Prelude.{
  ℕ, ◌≡◌, ◌<◌, refl, sym, ap, ◌∙◌, true, some, [], ◌∷◌, arith, Bytes, length,
}
use p2p_livestreaming.OpenFlow.{TcpFrame, Event}
use p2p_livestreaming.Bypass.{Switch, new, normal_send}
use p2p_livestreaming.Bypass.Dispatch.{run}
use p2p_livestreaming.Bypass.Invariant.{Inv-new}
use p2p_livestreaming.Bypass.Steps.{
  IsRequest, IsAnswer, viewer_asked, broadcaster_asked, viewer_served, broadcaster_served, behind,
  run-nil, run-cons, behind-Inv, play_req-step, publish_req-step, play_start-step,
  publish_start-step,
}
use p2p_livestreaming.Bypass.Signal.{asks_play, starts_play, asks_publish, starts_publish}

-- The state behind the four signals.
abbrev session : (f₁ f₂ f₃ : TcpFrame) (e₁ e₂ e₃ e₄ : Event) → Switch
session f₁ f₂ f₃ e₁ e₂ e₃ e₄ = behind e₄ broadcaster_served (
    behind e₃ (broadcaster_asked f₃ e₃)
      (behind e₂ (viewer_served f₂ e₂) (behind e₁ (viewer_asked f₁ e₁) new)))

run-session :
    (show_ip : ℕ → Bytes) (f₁ f₂ f₃ f₄ : TcpFrame) (e₁ e₂ e₃ e₄ : Event)
    → IsRequest asks_play f₁ e₁
    → IsAnswer starts_play f₂ e₂
    → IsRequest asks_publish f₃ e₃
    → IsAnswer starts_publish f₄ e₄
    → 0 < e₂.port
    → e₄.port ≡ e₂.port
    → e₄.src ≡ e₂.src
    → f₄.srcip ≡ f₂.srcip
    → run show_ip (e₁ ∷ e₂ ∷ e₃ ∷ e₄ ∷ []) new ≡ session f₁ f₂ f₃ e₁ e₂ e₃ e₄
unfolding normal_send
run-session show_ip f₁ f₂ f₃ f₄ e₁ e₂ e₃ e₄ r₁ r₂ r₃ r₄ pos port src ip =
    let s₁ = behind e₁ (viewer_asked f₁ e₁) new in
    let s₂ = behind e₂ (viewer_served f₂ e₂) s₁ in
    let s₃ = behind e₃ (broadcaster_asked f₃ e₃) s₂ in
    let h₁ = play_req-step show_ip f₁ e₁ new Inv-new refl refl refl r₁ in
    let i₁ = behind-Inv show_ip e₁ new s₁ Inv-new h₁ in
    let h₂ = play_start-step show_ip f₂ e₂ s₁ i₁ refl refl refl r₂ refl refl refl in
    let i₂ = behind-Inv show_ip e₂ s₁ s₂ i₁ h₂ in
    let h₃ = publish_req-step show_ip f₃ e₃ s₂ i₂ refl refl refl r₃ in
    let i₃ = behind-Inv show_ip e₃ s₂ s₃ i₂ h₃ in
    let h₄ =
      publish_start-step show_ip f₄ e₄ s₃ i₃ refl refl refl r₄ (omega arith) (ap some (sym port))
        (ap some (sym src)) (ap some (sym ip)) refl refl in
    run-cons show_ip e₁ _ new s₁ h₁
    ∙ run-cons show_ip e₂ _ s₁ s₂ h₂
    ∙ run-cons show_ip e₃ _ s₂ s₃ h₃
    ∙ run-cons show_ip e₄ [] s₃ _ h₄
    ∙ run-nil show_ip (session f₁ f₂ f₃ e₁ e₂ e₃ e₄)

-- A play request of the viewer, the service's answer, a publish request of the broadcaster and the
-- service's answer, one RTMP packet in each frame and both answers from one place, take a new
-- controller to the P2P stage, with the addresses of the three hosts learned and four messages sent.
pub handshake-p2p_enabled :
    (show_ip : ℕ → Bytes) (f₁ f₂ f₃ f₄ : TcpFrame) (e₁ e₂ e₃ e₄ : Event)
    → IsRequest asks_play f₁ e₁
    → IsAnswer starts_play f₂ e₂
    → IsRequest asks_publish f₃ e₃
    → IsAnswer starts_publish f₄ e₄
    → 0 < e₂.port
    → e₄.port ≡ e₂.port
    → e₄.src ≡ e₂.src
    → f₄.srcip ≡ f₂.srcip
    → let s = run show_ip (e₁ ∷ e₂ ∷ e₃ ∷ e₄ ∷ []) new in
      (s.p2p_enabled ≡ true)
      × (s.v_nw_addr ≡ some f₁.srcip)
      × (s.b_nw_addr ≡ some f₃.srcip)
      × (s.s_nw_addr ≡ some f₂.srcip)
      × (length s.sent ≡ 4)
handshake-p2p_enabled show_ip f₁ f₂ f₃ f₄ e₁ e₂ e₃ e₄ r₁ r₂ r₃ r₄ pos port src ip =
    rw (run-session show_ip f₁ f₂ f₃ f₄ e₁ e₂ e₃ e₄ r₁ r₂ r₃ r₄ pos port src ip)
      (unfold normal_send in (refl, refl, refl, refl, refl))
