-- ===== src/System/Channel.antt =====
-- What a host hears on its notification connection.
use p2p_livestreaming.Prelude.{
  ℕ, ◌≡◌, refl, sym, ap, ◌∙◌, ◌⊎◌, inl, inr, Bool, true, false, Bool-cases, not, ◌&&◌, ◌==◌,
  if◌then◌else◌, Option, none, some, List, [], ◌∷◌, ◌++◌, arith, length, drop, drop-append_length,
  drop_of_le, All, Bytes, is_some,
}
use mathlib.Core.Path.{subst}
use mathlib.Core.List.{append_assoc}
use p2p_livestreaming.OpenFlow.{TcpFrame, Event, PortTable, learn, out_port}
use p2p_livestreaming.Bypass.Rules.{assert_rule}
use p2p_livestreaming.Bypass.{notify_port, Switch, Roles, Status, state, learn_source, is_attr}
use p2p_livestreaming.Bypass.NotifyHandler.{peer_payload, push_peer, handle_notify}
use p2p_livestreaming.Bypass.Dispatch.{handle_tcp, handle_packet_in}
use p2p_livestreaming.Bypass.Stage.{handle_tcp-SameStage}
use p2p_livestreaming.Bypass.Forwarding.{forwarded}
use p2p_livestreaming.Notification.EndToEnd.{peer_packet, drop_entry}
use p2p_livestreaming.Hosts.{heartbeat_data}
use p2p_livestreaming.System.{payload_of, leaves, texts, delivered, after, IsHeartbeat}

module _ (show_ip : ℕ → Bytes) where
  -- The text that the controller has for a host.
  abbrev pub text_for : ℕ → Roles → Option Bytes
  text_for a r =
      if is_attr a r.b_nw_addr
      then some (peer_payload show_ip r.v_nw_addr)
      else if is_attr a r.v_nw_addr
      then some (peer_payload show_ip r.b_nw_addr)
      else none

  abbrev pub told : ℕ → Switch → Option Bytes
  told a s = text_for a s.roles

  -- What a host `a` may hear: heartbeats, and in the P2P stage the text that the controller has for it.
  abbrev pub Heard : ℕ → Switch → Bytes → Type 0
  Heard a s text = (text ≡ heartbeat_data) ⊎ ((s.p2p_enabled ≡ true) × (told a s ≡ some text))

  -- What the notification handler newly sends.
  data Sends (e : Event) (f : TcpFrame) (s t : Switch) : Type 0 where
    nothing : t.sent ≡ s.sent → Sends e f s t
    passed : (table : PortTable) → t.sent ≡ s.sent ++ forwarded e table ∷ [] → Sends e f s t
    pushes :
        (p : Bytes)
        → s.p2p_enabled ≡ true
        → told f.dstip s ≡ some p
        → t.sent ≡ s.sent ++ peer_packet e s p ∷ [] ++ drop_entry e ∷ []
        → Sends e f s t

  push_peer-Sends :
      (o : Option Bytes) (f : TcpFrame) (e : Event) (s : Switch)
      → s.p2p_enabled ≡ true
      → told f.dstip s ≡ o
      → Sends e f s (state (push_peer show_ip o e (learn_source e s)))
  unfolding push_peer
  push_peer-Sends none f e s on h = nothing refl
  push_peer-Sends (some p) f e s on h = pushes p on h refl

  handle_notify-Sends :
      (f : TcpFrame) (e : Event) (s : Switch) → Sends e f s (state (handle_notify show_ip f e s))
  unfolding handle_notify
  handle_notify-Sends f e s =
      let s₁ = learn_source e s in
      assert_rule (Sends e f s) (not (f.srcport == f.dstport)) s₁ _ (nothing refl)
        (elim (Bool-cases (s.p2p_enabled && (f.srcport == notify_port))) [
          | inl on ↦ rw on (
              assert_rule (Sends e f s) (is_some s.vport && is_some s.bport && is_some s.sport) s₁ _
                (nothing refl)
                (assert_rule (Sends e f s) (is_attr f.srcip s.s_nw_addr) s₁ _ (nothing refl)
                  (push_peer-Sends (told f.dstip s) f e s (ground (arith, on)) refl)))
          | inr off ↦ rw off (passed (s₁.mac_to_port) refl)
        ])

  pub handle_packet_in-heartbeat :
      (a : ℕ) (f : TcpFrame) (e : Event) (s : Switch)
      → IsHeartbeat a f e
      → handle_packet_in show_ip e s ≡ handle_notify show_ip f e s
  unfolding handle_packet_in handle_tcp
  handle_packet_in-heartbeat a f e s n =
      simp (n.carried) (ground (arith, n.from_notify, n.client_port))

  -- What leaves at one port, or does not.
  Heard-if :
      (a : ℕ) (s : Switch) (b : Bool) (text : Bytes)
      → Heard a s text
      → All (Heard a s) (((if b then text ∷ [] else []) ++ []) ++ [])
  Heard-if a s true text h = (h, tt)
  Heard-if a s false text h = tt

  Heard-Sends :
      (a q : ℕ) (f : TcpFrame) (e : Event) (s t : Switch)
      → IsHeartbeat a f e
      → Sends e f s t
      → All (Heard a s) (delivered q s t)
  Heard-Sends a q f e s t n (nothing eq) =
      subst (λ ms. All (Heard a s) (texts q ms))
        (sym (ap (drop (length s.sent)) eq ∙ drop_of_le (length s.sent) s.sent (omega arith))) tt
  Heard-Sends a q f e s t n (passed table eq) =
      subst (λ ms. All (Heard a s) (texts q ms))
        (sym (ap (drop (length s.sent)) eq ∙ drop-append_length s.sent (forwarded e table ∷ [])))
        (subst
          (λ o.
            All (Heard a s) (
              ((if leaves q e.port (out_port (table e.dst)) then payload_of o else []) ++ [])
              ++ []))
          (sym n.carried)
          (Heard-if a s (leaves q e.port (out_port (table e.dst))) f.payload (inl n.beat)))
  Heard-Sends a q f e s t n (pushes p on h eq) =
      subst (λ ms. All (Heard a s) (texts q ms))
        (sym (
          ap (drop (length s.sent))
            (eq ∙ append_assoc s.sent (peer_packet e s p ∷ []) (drop_entry e ∷ []))
          ∙ drop-append_length s.sent (peer_packet e s p ∷ drop_entry e ∷ [])))
        (Heard-if a s (leaves q e.port (out_port (learn e.src e.port s.mac_to_port e.dst))) p
          (inr (on, subst (λ b. told b s ≡ some p) n.to_host h)))

  -- A heartbeat of the service arrives as it was sent, or not at all, or with the text in it that the
  -- controller has for the host in the P2P stage.
  pub Heard-delivered :
      (a q : ℕ) (f : TcpFrame) (e : Event) (s : Switch)
      → IsHeartbeat a f e
      → All (Heard a s) (delivered q s (after show_ip e s))
  Heard-delivered a q f e s n = Heard-Sends a q f e s (after show_ip e s) n (
      subst (λ m. Sends e f s (state m)) (sym (handle_packet_in-heartbeat a f e s n))
        (handle_notify-Sends f e s))

  -- What was heard once stays so: in the P2P stage the controller's texts do not change.
  Heard-after :
      (a : ℕ) (e : Event) (s : Switch) (text : Bytes)
      → Heard a s text
      → Heard a (after show_ip e s) text
  unfolding handle_packet_in
  Heard-after a e s text (inl beat) = inl beat
  Heard-after a e s text (inr (on, h)) =
      let same = handle_tcp-SameStage show_ip e.tcp e s (inl on) in
      inr (ap (λ (c : Status). c.p2p_enabled) same.1 ∙ on, ap (text_for a) same.0 ∙ h)

  pub All-Heard-after :
      (a : ℕ) (e : Event) (s : Switch) (heard : List Bytes)
      → All (Heard a s) heard
      → All (Heard a (after show_ip e s)) heard
  All-Heard-after a e s [] h = tt
  All-Heard-after a e s (t ∷ heard) h = (Heard-after a e s t h.0, All-Heard-after a e s heard h.1)
