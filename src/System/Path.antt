-- ===== src/System/Path.antt =====
-- A heartbeat that passes several switches on its way, each with a controller of its own: the networks
-- of src/topo.py with more than one switch.
use p2p_livestreaming.Prelude.{
  if◌then◌else◌, ℕ, ◌≡◌, ◌≢◌, refl, ap, ◌∙◌, ◌⊎◌, inl, inr, false, some, List, [], ◌∷◌, ◌++◌, arith,
  drop-append_length, All, append_nil, Bytes,
}
use p2p_livestreaming.OpenFlow.{TcpFrame, Event, out_port}
use p2p_livestreaming.Rtmp.{rtmp_port}
use p2p_livestreaming.Bypass.{notify_port, Switch, ok, state, learn_source, normal_send}
use p2p_livestreaming.Bypass.NotifyHandler.{peer_payload, handle_notify}
use p2p_livestreaming.Bypass.Dispatch.{handle_packet_in, handle_tcp}
use p2p_livestreaming.Bypass.Session.{IsPaired}
use p2p_livestreaming.Bypass.Forwarding.{forwarded}
use p2p_livestreaming.Notification.Peers.{push_viewer}
use p2p_livestreaming.System.{payload_of, leaves, IsOnward, texts, delivered, after}
use p2p_livestreaming.System.Served.{delivered-pushed, leaves-out_port}

-- A switch on the way, with the state of its controller, the event of the frame there but for the
-- frame, and the port at which the way goes on.
pub record Hop : Type 0 where
  pub onward : ℕ
  pub controller : Switch
  pub event : Event

-- The event of the frame `f` with the payload `t`.
abbrev pub carrying : TcpFrame → Event → Bytes → Event
carrying f e t = record e { tcp = some (record f { payload = t }) }

abbrev pub each : (Bytes → List Bytes) → List Bytes → List Bytes
each g [] = []
each g (t ∷ ts) = g t ++ each g ts

module _ (show_ip : ℕ → Bytes) where
  -- The texts that arrive behind the switches when the frame starts out with the text `t`.
  abbrev pub travel : TcpFrame → List Hop → Bytes → List Bytes
  travel f [] t = t ∷ []
  travel f (hop ∷ hops) t =
      each (travel f hops) (
        delivered hop.onward hop.controller (after show_ip (carrying f hop.event t) hop.controller))

  handle_notify-off :
      (f : TcpFrame) (e : Event) (s : Switch)
      → e.tcp ≡ some f
      → f.srcport ≡ notify_port
      → f.dstport ≢ rtmp_port
      → f.srcport ≢ f.dstport
      → s.p2p_enabled ≡ false
      → handle_packet_in show_ip e s ≡ ok (normal_send e (learn_source e s))
  unfolding handle_packet_in handle_tcp handle_notify
  handle_notify-off f e s carried from to ports off =
      simp (carried, off) (ground (arith, from, to, ports))

  delivered-normal_send :
      (q : ℕ) (e : Event) (f : TcpFrame) (s : Switch)
      → e.tcp ≡ some f
      → IsOnward q e s
      → delivered q s (normal_send e (learn_source e s)) ≡ f.payload ∷ []
  unfolding normal_send
  delivered-normal_send q e f s carried onward =
      let table = (learn_source e s).mac_to_port in
      ap (texts q) (drop-append_length s.sent (forwarded e table ∷ []))
      ∙ ap
          (λ o.
            ((if leaves q e.port (out_port (table e.dst)) then payload_of o else []) ++ []) ++ [])
          carried
      ∙ ap (λ b. ((if b then f.payload ∷ [] else []) ++ []) ++ [])
          (leaves-out_port q e.port (table e.dst) onward.0 onward.1)

  -- A controller that is not in the P2P stage sends the text on as it is.
  hop-passes :
      (q : ℕ) (f : TcpFrame) (e : Event) (t : Bytes) (s : Switch)
      → IsOnward q e s
      → f.srcport ≡ notify_port
      → f.dstport ≢ rtmp_port
      → f.srcport ≢ f.dstport
      → s.p2p_enabled ≡ false
      → delivered q s (after show_ip (carrying f e t) s) ≡ t ∷ []
  hop-passes q f e t s onward from to ports off =
      let g = record f { payload = t } in
      let u = carrying f e t in
      ap (λ m. delivered q s (state m)) (handle_notify-off g u s refl from to ports off)
      ∙ delivered-normal_send q u g s refl onward

  -- A controller after the session writes the viewer's address.
  hop-writes :
      (v b h q : ℕ) (f : TcpFrame) (e : Event) (t : Bytes) (s : Switch)
      → IsOnward q e s
      → IsPaired v b h s
      → f.srcip ≡ h
      → f.dstip ≡ b
      → f.srcport ≡ notify_port
      → f.srcport ≢ f.dstport
      → delivered q s (after show_ip (carrying f e t) s) ≡ peer_payload show_ip (some v) ∷ []
  hop-writes v b h q f e t s onward paired service host from ports =
      let u = carrying f e t in
      ap (λ m. delivered q s (state m))
        (push_viewer show_ip v b h (record f { payload = t }) u s paired
          (record {
            carried = refl;
            from_service = service;
            from_notify = from;
            ports_differ = ports;
            to_host = host;
          }))
      ∙ delivered-pushed q u s (peer_payload show_ip (some v)) onward

  -- The controller sends the frame on to where the way goes on.
  abbrev pub Leads : Hop → Type 0
  Leads hop = IsOnward hop.onward hop.event hop.controller

  -- Behind a session, or not in the P2P stage.
  abbrev pub Settles : (v b h : ℕ) → Hop → Type 0
  Settles v b h hop =
      Leads hop × (IsPaired v b h hop.controller ⊎ (hop.controller.p2p_enabled ≡ false))

  travel-cons :
      (f : TcpFrame) (hop : Hop) (hops : List Hop) (t u : Bytes)
      → delivered hop.onward hop.controller (after show_ip (carrying f hop.event t) hop.controller)
        ≡ u ∷ []
      → travel f (hop ∷ hops) t ≡ travel f hops u
  travel-cons f hop hops t u sent = ap (each (travel f hops)) sent ∙ append_nil (travel f hops u)

  module _ (v b h : ℕ) (f : TcpFrame) (service : f.srcip ≡ h) (host : f.dstip ≡ b)
      (from : f.srcport ≡ notify_port) (to : f.dstport ≢ rtmp_port)
      (ports : f.srcport ≢ f.dstport) where
    -- The viewer's address as it is pushed.
    abbrev p : Bytes
    p = peer_payload show_ip (some v)

    travel-writes :
        (hop : Hop) (hops : List Hop) (t : Bytes)
        → Leads hop
        → IsPaired v b h hop.controller
        → travel f (hop ∷ hops) t ≡ travel f hops p
    travel-writes hop hops t onward paired = travel-cons f hop hops t p (
        hop-writes v b h hop.onward f hop.event t hop.controller onward paired service host from
          ports)

    travel-passes :
        (hop : Hop) (hops : List Hop) (t : Bytes)
        → Leads hop
        → hop.controller.p2p_enabled ≡ false
        → travel f (hop ∷ hops) t ≡ travel f hops t
    travel-passes hop hops t onward off =
        travel-cons f hop hops t t
          (hop-passes hop.onward f hop.event t hop.controller onward from to ports off)

    -- What was written stays.
    travel-written : (hops : List Hop) → All (Settles v b h) hops → travel f hops p ≡ p ∷ []
    travel-written [] settled = refl
    travel-written (hop ∷ hops) settled = elim settled.0.1 [
      | inl paired ↦ travel-writes hop hops p settled.0.0 paired ∙ travel-written hops settled.1
      | inr off ↦ travel-passes hop hops p settled.0.0 off ∙ travel-written hops settled.1
    ]

    -- A frame of the service from the notification port to the broadcaster, neither to the RTMP
    -- port nor to the notification port, which passes any number of switches, arrives once and with
    -- the viewer's address in it, whatever it carried when it started out, if one of the
    -- controllers on the way has been through a session as in `IsSession` of Bypass/Session, each
    -- other one either has been through it, too, or is not in the P2P stage, and at each switch the
    -- way goes on by another port than the one that the frame came in by and the controller has
    -- learned no other port for the destination.
    pub travel-paired :
        (before : List Hop) (hop : Hop) (behind : List Hop) (t : Bytes)
        → All (Settles v b h) before
        → Leads hop
        → IsPaired v b h hop.controller
        → All (Settles v b h) behind
        → travel f (before ++ hop ∷ behind) t ≡ p ∷ []
    travel-paired [] hop behind t settled onward paired still =
        travel-writes hop behind t onward paired ∙ travel-written behind still
    travel-paired (first ∷ before) hop behind t settled onward paired still =
        let rest = before ++ hop ∷ behind in
        elim settled.0.1 [
          | inl written ↦
              travel-writes first rest t settled.0.0 written
              ∙ travel-paired before hop behind p settled.1 onward paired still
          | inr off ↦
              travel-passes first rest t settled.0.0 off
              ∙ travel-paired before hop behind t settled.1 onward paired still
        ]
