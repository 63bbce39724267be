-- ===== src/Bypass/Network.antt =====
-- src/pox/pox/livestreaming/bypass.py, `BypassLivestreaming` and `launch`: one `LearningSwitch` for
-- every connection that a switch makes. The nexus of POX, `core.openflow`, raises the events. A
-- connection is named by a number, and `switches` holds the objects that listen on it.
use p2p_livestreaming.Prelude.{
  ◌+◌, suc, length, length-append, arith, ℕ, ◌≡◌, refl, sym, ap, List, [], ◌∷◌, ◌++◌, ◌==◌,
  if◌then◌else◌, Bytes, Bool-cases, inl, inr,
}
use mathlib.Core.Path.{subst}
use p2p_livestreaming.OpenFlow.{Event}
use p2p_livestreaming.Bypass.{Switch, Outcome, ok, raised, new, state}
use p2p_livestreaming.Bypass.Dispatch.{handle_packet_in, run}

pub record BypassLivestreaming : Type 0 where
  pub switches : ℕ → List Switch

pub data NexusEvent : Type 0 where
  connection_up : ℕ → NexusEvent
  packet_in : ℕ → Event → NexusEvent

-- `core.registerNew(BypassLivestreaming)`
unfoldable pub launch : BypassLivestreaming
launch = record { switches = λ _. [] }

-- `_handle_ConnectionUp`: `LearningSwitch(event.connection)`, which listens on the connection.
unfoldable pub handle_connection_up : ℕ → BypassLivestreaming → BypassLivestreaming
handle_connection_up c b = record {
  switches = λ d. if d == c then b.switches d ++ new ∷ [] else b.switches d;
}

-- A listener behind which the others have handled the packet, or been skipped.
abbrev pub after_listener : Outcome → (handled skipped : List Switch) → List Switch
after_listener (ok s) handled skipped = s ∷ handled
after_listener (raised x s) handled skipped = s ∷ skipped

module _ (show_ip : ℕ → Bytes) where
  -- What listens on a connection handles a packet in the order in which it came to listen, and
  -- `raiseEventNoErrors` of POX's `revent` ends with the first exception: the listeners behind do not
  -- get the packet.
  unfoldable pub raise_event : Event → List Switch → List Switch
  raise_event e [] = []
  raise_event e (s ∷ ss) =
      let rest = raise_event e ss in after_listener (handle_packet_in show_ip e s) rest ss

  -- A packet of a connection goes to what listens on this connection.
  unfoldable pub handle_event : NexusEvent → BypassLivestreaming → BypassLivestreaming
  unfolding handle_connection_up raise_event
  handle_event (connection_up c) b = handle_connection_up c b
  handle_event (packet_in c e) b = record {
    switches = λ d. if d == c then raise_event e (b.switches d) else b.switches d;
  }

  unfoldable pub handle_events : List NexusEvent → BypassLivestreaming → BypassLivestreaming
  unfolding handle_event
  handle_events [] b = b
  handle_events (g ∷ gs) b = handle_events gs (handle_event g b)

-- The packets of a connection.
abbrev pub packets_of : ℕ → List NexusEvent → List Event
packets_of c [] = []
packets_of c (connection_up d ∷ gs) = packets_of c gs
packets_of c (packet_in d e ∷ gs) = if c == d then e ∷ packets_of c gs else packets_of c gs

-- For each time that the connection comes up, its packets from then on.
abbrev pub sessions_of : ℕ → List NexusEvent → List (List Event)
sessions_of c [] = []
sessions_of c (connection_up d ∷ gs) =
    if c == d then packets_of c gs ∷ sessions_of c gs else sessions_of c gs
sessions_of c (packet_in d e ∷ gs) = sessions_of c gs

-- Behind the packets of a connection: nothing listens if it never came up, and otherwise one
-- controller for each time that it came up, of which the first has run over all packets since then.
pub data Listeners (show_ip : ℕ → Bytes) : List (List Event) → List Switch → Type 0 where
  never : Listeners show_ip [] []
  came_up :
      (es : List Event) (more : List (List Event)) (rest : List Switch)
      → length rest ≡ length more
      → Listeners show_ip (es ∷ more) (run show_ip es new ∷ rest)

length-after_listener :
    (o : Outcome) (handled skipped : List Switch)
    → length handled ≡ length skipped
    → length (after_listener o handled skipped) ≡ suc (length skipped)
length-after_listener (ok s) handled skipped h = ap suc h
length-after_listener (raised x s) handled skipped h = refl

after_listener-cons :
    (o : Outcome) (handled skipped : List Switch)
    → length handled ≡ length skipped
    → (rest : List Switch) × (after_listener o handled skipped ≡ state o ∷ rest)
      × (length rest ≡ length skipped)
after_listener-cons (ok s) handled skipped h = (handled, refl, h)
after_listener-cons (raised x s) handled skipped h = (skipped, refl, refl)

module _ (show_ip : ℕ → Bytes) where
  length-raise_event :
      (e : Event) (ss : List Switch) → length (raise_event show_ip e ss) ≡ length ss
  unfolding raise_event
  length-raise_event e [] = refl
  length-raise_event e (s ∷ ss) =
      length-after_listener (handle_packet_in show_ip e s) (raise_event show_ip e ss) ss
        (length-raise_event e ss)

  raise_event-cons :
      (e : Event) (s : Switch) (ss : List Switch)
      → (rest : List Switch) × (raise_event show_ip e (s ∷ ss)
          ≡ state (handle_packet_in show_ip e s) ∷ rest)
        × (length rest ≡ length ss)
  unfolding raise_event
  raise_event-cons e s ss =
      after_listener-cons (handle_packet_in show_ip e s) (raise_event show_ip e ss) ss
        (length-raise_event e ss)

  module _ (c : ℕ) where
    -- The first controller of the connection sees all its packets, whatever listens behind it.
    first_listener :
        (gs : List NexusEvent) (b : BypassLivestreaming) (s : Switch) (ss : List Switch)
        → b.switches c ≡ s ∷ ss
        → (rest : List Switch) × ((handle_events show_ip gs b).switches c
            ≡ run show_ip (packets_of c gs) s ∷ rest)
          × (length rest ≡ length ss + length (sessions_of c gs))
    unfolding handle_events run
    first_listener [] b s ss h = (ss, h, omega arith)
    first_listener (connection_up d ∷ gs) b s ss h = elim (Bool-cases (c == d)) [
      | inl same ↦
          let (rest, eq, n) =
            first_listener gs (handle_event show_ip (connection_up d) b) s (ss ++ new ∷ [])
              (unfold handle_event in simp (same, h) refl) in
          (rest, eq, simp same (omega (arith, n, length-append ss (new ∷ []))))
      | inr other ↦
          let (rest, eq, n) =
            first_listener gs (handle_event show_ip (connection_up d) b) s ss
              (unfold handle_event in simp (other, h) refl) in
          (rest, eq, simp other n)
    ]
    first_listener (packet_in d e ∷ gs) b s ss h = elim (Bool-cases (c == d)) [
      | inl same ↦
          let (tail, raised_eq, k) = raise_event-cons e s ss in
          let (rest, eq, n) =
            first_listener gs (handle_event show_ip (packet_in d e) b)
              (state (handle_packet_in show_ip e s)) tail
              (unfold handle_event in simp (same, h) raised_eq) in
          (rest, simp same eq, omega (arith, n, k))
      | inr other ↦
          let (rest, eq, n) =
            first_listener gs (handle_event show_ip (packet_in d e) b) s ss
              (unfold handle_event in simp (other, h) refl) in
          (rest, simp other eq, n)
    ]

    Listeners_lem :
        (gs : List NexusEvent) (b : BypassLivestreaming)
        → b.switches c ≡ []
        → Listeners show_ip (sessions_of c gs) ((handle_events show_ip gs b).switches c)
    unfolding handle_events
    Listeners_lem [] b h = subst (Listeners show_ip []) (sym h) never
    Listeners_lem (connection_up d ∷ gs) b h = elim (Bool-cases (c == d)) [
      | inl same ↦
          let (rest, eq, n) =
            first_listener gs (handle_event show_ip (connection_up d) b) new []
              (unfold handle_event in simp (same, h) refl) in
          simp same (
            subst (Listeners show_ip (packets_of c gs ∷ sessions_of c gs)) (sym eq)
              (came_up (packets_of c gs) (sessions_of c gs) rest (omega (arith, n))))
      | inr other ↦ simp other (
          Listeners_lem gs (handle_event show_ip (connection_up d) b)
            (unfold handle_event in simp (other, h) refl))
    ]
    Listeners_lem (packet_in d e ∷ gs) b h =
        Listeners_lem gs (handle_event show_ip (packet_in d e) b) (
          unfold handle_event raise_event in
          elim (Bool-cases (c == d)) [
            | inl same ↦ simp (same, h) refl
            | inr other ↦ simp (other, h) refl
          ])

    -- In a network of any number of switches, whose connections come up and whose packets arrive in
    -- any order, one controller listens on a connection for each time that it came up, and the first
    -- of these has run over exactly the packets of this connection since then: neither another switch
    -- nor a controller that came to listen later has an influence on it.
    pub handle_events-run :
        (gs : List NexusEvent)
        → Listeners show_ip (sessions_of c gs) ((handle_events show_ip gs launch).switches c)
    unfolding launch
    handle_events-run gs = Listeners_lem gs launch refl
