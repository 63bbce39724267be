-- ===== src/System/Streams.antt =====
-- Which peers the two hosts turn to in the states of the system that are reached.
use p2p_livestreaming.Prelude.{
  ℕ, ◌≡◌, ◌<◌, refl, sym, ap, ◌∙◌, ◌⊎◌, inl, inr, Bool, true, false, Bool-cases, none, some, List,
  [], ◌∷◌, ◌++◌, arith, length, All, Bytes, bytes_eq_refl,
}
use mathlib.Core.Path.{subst}
use p2p_livestreaming.Bypass.{Switch}
use p2p_livestreaming.Bypass.NotifyHandler.{peer_payload}
use p2p_livestreaming.Bypass.Invariant.{enabled_known}
use p2p_livestreaming.Hosts.Broadcaster
use p2p_livestreaming.Hosts.Broadcaster.{
  Broadcaster, member, add_viewer, on_recv, listen, begin, broadcast, peer_job,
}
use p2p_livestreaming.Hosts.Viewer
use p2p_livestreaming.Hosts.Viewer.{Viewer, waited, watch}
use p2p_livestreaming.Hosts.Viewer.Turn.{IsBeat, watch-beats}
use p2p_livestreaming.Notification.{IsAddress}
use p2p_livestreaming.Notification.Peers.{on_recv-beat, listen-only_beats}
use p2p_livestreaming.System.{System, Reach}
use p2p_livestreaming.System.Channel.{told}
use p2p_livestreaming.System.Safety.{Reach-IsSound}
use p2p_livestreaming.System.Beats.{All-beats, All-pushed}
use p2p_livestreaming.System.Grouped.{Grouped, Names, beats-IsBeat, texts-Names}

-- A broadcaster with no peer stream, or with the one to `ip`.
pub data Streams (root_dir ip : Bytes) (b : Broadcaster) : Type 0 where
  idle : b.p2p_viewers ≡ [] → b.b2v_procs ≡ [] → Streams root_dir ip b
  one : b.p2p_viewers ≡ ip ∷ [] → b.b2v_procs ≡ peer_job root_dir ip ∷ [] → Streams root_dir ip b

member-none : (ip : Bytes) → member ip [] ≡ false
unfolding member
member-none ip = refl

member-one : (ip : Bytes) → member ip (ip ∷ []) ≡ true
unfolding member
member-one ip = ground (arith, bytes_eq_refl ip)

module _ (root_dir : Bytes) (exists : Bytes → Bool) (ip : Bytes) where
  on_recv-Names :
      (t : Bytes) (b : Broadcaster)
      → Names ip t
      → on_recv root_dir exists t b ≡ add_viewer root_dir exists ip b
  unfolding on_recv
  on_recv-Names t b h = rw (h.0, h.1) refl

  -- A result that is taken for the address leaves the one stream, whether or not it was there.
  pub on_recv-streams :
      (t : Bytes) (b : Broadcaster)
      → Names ip t
      → Streams root_dir ip b
      → ((on_recv root_dir exists t b).p2p_viewers ≡ ip ∷ [])
        × ((on_recv root_dir exists t b).b2v_procs ≡ peer_job root_dir ip ∷ [])
  unfolding add_viewer
  on_recv-streams t b h (idle none_known none_started) =
      let fresh = ap (member ip) none_known ∙ member-none ip in
      rw (on_recv-Names t b h) (
        rw fresh (
          ap (λ l. l ++ ip ∷ []) none_known,
          ap (λ l. l ++ peer_job root_dir ip ∷ []) none_started,
        ))
  on_recv-streams t b h (one known started) =
      let old = ap (member ip) known ∙ member-one ip in
      rw (on_recv-Names t b h) (rw old (known, started))

  on_recv-Streams :
      (t : Bytes) (b : Broadcaster)
      → IsBeat t ⊎ Names ip t
      → Streams root_dir ip b
      → Streams root_dir ip (on_recv root_dir exists t b)
  on_recv-Streams t b (inl beat) h =
      subst (Streams root_dir ip) (sym (on_recv-beat root_dir exists t b beat)) h
  on_recv-Streams t b (inr names) h =
      let (known, started) = on_recv-streams t b names h in one known started

  listen-Streams :
      (ts : List Bytes) (b : Broadcaster)
      → All (λ t. IsBeat t ⊎ Names ip t) ts
      → Streams root_dir ip b
      → Streams root_dir ip (listen root_dir exists ts b)
  unfolding listen
  listen-Streams [] b h s = s
  listen-Streams (t ∷ ts) b h s =
      listen-Streams ts (on_recv root_dir exists t b) h.1 (on_recv-Streams t b h.0 s)

  pub broadcast-Streams :
      (ts : List Bytes) (my_ip video_file service_ip : Bytes)
      → All (λ t. IsBeat t ⊎ Names ip t) ts
      → Streams root_dir ip
          (broadcast root_dir exists ts (Broadcaster.new root_dir my_ip video_file service_ip))
  unfolding broadcast begin Broadcaster.new
  broadcast-Streams ts my_ip video_file service_ip h =
      listen-Streams ts
        (begin root_dir exists (Broadcaster.new root_dir my_ip video_file service_ip)) h
        (idle refl refl)

broadcast-only_beats :
    (root_dir : Bytes) (exists : Bytes → Bool) (ts : List Bytes)
    (my_ip video_file service_ip : Bytes)
    → All IsBeat ts
    → (broadcast root_dir exists ts
        (Broadcaster.new root_dir my_ip video_file service_ip)).b2v_procs
      ≡ []
unfolding broadcast begin Broadcaster.new
broadcast-only_beats root_dir exists ts my_ip video_file service_ip h =
    ap (λ (w : Broadcaster). w.b2v_procs)
      (listen-only_beats root_dir exists ts
        (begin root_dir exists (Broadcaster.new root_dir my_ip video_file service_ip)) h)

watch-only_beats :
    (root_dir : Bytes) (exists : Bytes → Bool) (ts : List Bytes)
    (my_ip dump_file service_ip : Bytes)
    → All IsBeat ts
    → (watch root_dir exists ts (Viewer.new root_dir my_ip dump_file service_ip)).vfp_proc ≡ none
unfolding waited begin Viewer.new Viewer.begin
watch-only_beats root_dir exists ts my_ip dump_file service_ip h =
    ap (λ (w : Viewer). w.vfp_proc)
      (watch-beats root_dir exists ts (Viewer.new root_dir my_ip dump_file service_ip) h)

pub told-broadcaster :
    (show_ip : ℕ → Bytes) (b x : ℕ) (c : Switch)
    → c.b_nw_addr ≡ some b
    → c.v_nw_addr ≡ some x
    → told show_ip b c ≡ some (peer_payload show_ip (some x))
told-broadcaster show_ip b x c known viewer = simp (known, viewer) (ground arith)

module _ (show_ip : ℕ → Bytes) (b v : ℕ) (s : System) (r : Reach show_ip b v s) (root_dir : Bytes)
    (exists : Bytes → Bool) where
  -- In every state that the system reaches, the recorded broadcaster runs no peer stream, or the P2P
  -- stage is on and it runs exactly one, to the recorded viewer, if the viewer's address is digits and
  -- dots of fewer than 15 characters: whatever packets the controller sees, however often and in
  -- whatever order the heartbeats of the service pass, and however `recv` groups the texts.
  pub Reach-broadcast :
      (received : List Bytes) (my_ip video_file service_ip : Bytes)
      → Grouped s.at_broadcaster received
      → s.controller.b_nw_addr ≡ some b
      → ((x : ℕ)
          → s.controller.v_nw_addr ≡ some x
          → IsAddress (show_ip x) × (length (show_ip x) < 15))
      → let w =
          broadcast root_dir exists received
            (Broadcaster.new root_dir my_ip video_file service_ip) in
        (w.b2v_procs ≡ [])
        ⊎ ((x : ℕ) × (s.controller.p2p_enabled ≡ true)
            × (s.controller.v_nw_addr ≡ some x)
            × (w.b2v_procs ≡ peer_job root_dir (show_ip x) ∷ []))
  Reach-broadcast received my_ip video_file service_ip grouped known printed =
      let i = Reach-IsSound show_ip b v r in
      let o = Broadcaster.new root_dir my_ip video_file service_ip in
      elim (Bool-cases s.controller.p2p_enabled) [
        | inl on ↦
            let ((x, viewer), _) = enabled_known s.controller i.valid on in
            let (address, short) = printed x viewer in
            let heard =
              All-pushed show_ip b s.controller (peer_payload show_ip (some x)) s.at_broadcaster
                (told-broadcaster show_ip b x s.controller known viewer) i.broadcaster_heard in
            let results = texts-Names show_ip x address short grouped heard in
            elim (broadcast-Streams root_dir exists (show_ip x) received my_ip video_file service_ip
              results) [
                | idle _ none_started ↦ inl none_started
                | one _ started ↦ inr (x, on, viewer, started)
              ]
        | inr off ↦ inl (
            broadcast-only_beats root_dir exists received my_ip video_file service_ip (
              beats-IsBeat grouped
                (All-beats show_ip b s.controller s.at_broadcaster off i.broadcaster_heard)))
      ]

  -- In every state that the system reaches, the viewer has not turned to its peer, or the P2P stage is
  -- on, with both ends ready.
  pub Reach-watch :
      (received : List Bytes) (my_ip dump_file service_ip : Bytes)
      → Grouped s.at_viewer received
      → let w = watch root_dir exists received (Viewer.new root_dir my_ip dump_file service_ip) in
        (w.vfp_proc ≡ none)
        ⊎ ((s.controller.p2p_enabled ≡ true)
            × (s.controller.status_vready ≡ true)
            × (s.controller.status_bready ≡ true))
  Reach-watch received my_ip dump_file service_ip grouped =
      let i = Reach-IsSound show_ip b v r in
      elim (Bool-cases s.controller.p2p_enabled) [
        | inl on ↦ let (_, vready, bready) = i.reasons.enabled_for on in inr (on, vready, bready)
        | inr off ↦ inl (
            watch-only_beats root_dir exists received my_ip dump_file service_ip (
              beats-IsBeat grouped
                (All-beats show_ip v s.controller s.at_viewer off i.viewer_heard)))
      ]
