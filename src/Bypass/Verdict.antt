-- ===== src/Bypass/Verdict.antt =====
-- The stages of the controller as a state machine: it watches, and it enters the P2P stage or leaves
-- the stream alone at most once, for the reasons that the statuses give.
use p2p_livestreaming.Prelude.{
  ℕ, ◌≡◌, sym, ap, ◌∙◌, ◌⊎◌, inl, inr, true, false, Option, none, some, List, [], ◌∷◌, arith, Bytes,
  Bool-cases,
}
use p2p_livestreaming.OpenFlow.{TcpFrame, Event}
use p2p_livestreaming.Bypass.{Switch, Status, new, state, handle_normal}
use p2p_livestreaming.Bypass.NotifyHandler.{handle_notify}
use p2p_livestreaming.Bypass.Dispatch.{handle_tcp, handle_packet_in, run}
use p2p_livestreaming.Bypass.Stage.{IsSettled, SameStage, handle_tcp-SameStage}
use p2p_livestreaming.Bypass.Watching.{IsOpen, IsVerdict, IsVerdict-IsOpen, handle_rtmp-IsVerdict}

-- What one packet may do to the stage.
pub data Move (s t : Switch) : Type 0 where
  stays : t.p2p_enabled ≡ s.p2p_enabled → t.p2p_set_off ≡ s.p2p_set_off → Move s t
  enters :
      IsOpen s
      → t.p2p_enabled ≡ true
      → t.p2p_set_off ≡ false
      → t.status_vready ≡ true
      → t.status_bready ≡ true
      → Move s t
  leaves :
      IsOpen s
      → t.p2p_enabled ≡ false
      → t.p2p_set_off ≡ true
      → t.status_stream_begin ≡ true
      → t.status_bready ≡ false
      → Move s t

Move-IsVerdict : (s t : Switch) → IsOpen s → IsVerdict t → Move s t
Move-IsVerdict s t h v = elim (Bool-cases t.p2p_enabled) [
  | inl on ↦ let (off, vready, bready) = v.enabled_for on in enters h on off vready bready
  | inr not_on ↦ elim (Bool-cases t.p2p_set_off) [
    | inl off ↦ let (_, begun, unready) = v.off_for off in leaves h not_on off begun unready
    | inr not_off ↦ stays (not_on ∙ sym h.not_enabled) (not_off ∙ sym h.not_off)
  ]
]

IsVerdict-SameStage : (s t : Switch) → SameStage s t → IsVerdict s → IsVerdict t
IsVerdict-SameStage s t same v = ground (arith, same.1)

Move-SameStage : (s t : Switch) → SameStage s t → Move s t
Move-SameStage s t same =
    stays (ap (λ (u : Status). u.p2p_enabled) same.1) (ap (λ (u : Status). u.p2p_set_off) same.1)

IsOpen-cases : (s : Switch) → IsOpen s ⊎ IsSettled s
IsOpen-cases s = elim (Bool-cases s.p2p_enabled) [
  | inl on ↦ inr (inl on)
  | inr not_on ↦ elim (Bool-cases s.p2p_set_off) [
    | inl off ↦ inr (inr off)
    | inr not_off ↦ inl (record { not_enabled = not_on; not_off = not_off })
  ]
]

pub IsVerdict-new : IsVerdict new
IsVerdict-new = IsVerdict-IsOpen new (ground arith)

module _ (show_ip : ℕ → Bytes) where
  handle_tcp-IsVerdict :
      (o : Option TcpFrame) (e : Event) (s : Switch)
      → IsOpen s
      → IsVerdict (state (handle_tcp show_ip o e s))
  unfolding handle_tcp handle_normal handle_notify
  handle_tcp-IsVerdict none e s h = ground arith
  handle_tcp-IsVerdict (some f) e s h = ground (arith, handle_rtmp-IsVerdict f e s h)

  -- In a state whose stage has its reasons, one packet leaves the stage as it is, or it takes a
  -- controller that still watches to the P2P stage with both ends ready, or has it leave alone a
  -- stream that began without a ready broadcaster. The stage keeps its reasons, also where a handler
  -- raises.
  pub handle_packet_in-Move :
      (e : Event) (s : Switch)
      → IsVerdict s
      → let t = state (handle_packet_in show_ip e s) in IsVerdict t × Move s t
  unfolding handle_packet_in
  handle_packet_in-Move e s v = elim (IsOpen-cases s) [
    | inl open_s ↦
        let after = handle_tcp-IsVerdict e.tcp e s open_s in
        (after, Move-IsVerdict s _ open_s after)
    | inr settled ↦
        let same = handle_tcp-SameStage show_ip e.tcp e s settled in
        (IsVerdict-SameStage s _ same v, Move-SameStage s _ same)
  ]

  run-IsVerdict_lem : (es : List Event) (s : Switch) → IsVerdict s → IsVerdict (run show_ip es s)
  unfolding run
  run-IsVerdict_lem [] s v = v
  run-IsVerdict_lem (e ∷ es) s v =
      run-IsVerdict_lem es (state (handle_packet_in show_ip e s)) (handle_packet_in-Move e s v).0

  -- Whatever packets a new controller has seen, it has entered the P2P stage only with a ready viewer
  -- and a ready broadcaster, it has set the stage off only with a stream that began and no ready
  -- broadcaster, and never both.
  pub run-IsVerdict : (es : List Event) → IsVerdict (run show_ip es new)
  run-IsVerdict es = run-IsVerdict_lem es new IsVerdict-new
