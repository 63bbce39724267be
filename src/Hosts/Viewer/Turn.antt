-- ===== src/Hosts/Viewer/Turn.antt =====
-- When the viewer turns from the service to its peer.
use p2p_livestreaming.Prelude.{
  inl, inr, Bool-cases, ◌≡◌, refl, sym, ap, ◌∙◌, Bool, true, false, none, some, List, [], ◌∷◌, ◌++◌,
  All, Bytes, codes, strip, append_nil,
}
use mathlib.Core.Path.{subst}
use p2p_livestreaming.Hosts.{
  notify_is_heartbeat, Job, Effect, notify_port, connect, starts, view_service, view_peer, start,
  system, join_process, remove_if,
}
use p2p_livestreaming.Hosts.Viewer.{
  Viewer, vfs_log, vfp_log, begin, turn_to_peer, listen, waited, watch,
}

abbrev pub IsBeat : Bytes → Type 0
IsBeat r = notify_is_heartbeat (strip r) ≡ true

-- The viewer `w` has turned to its peer: from the start of `u` on, it has killed the service's player,
-- removed the dump file and the log, if they were there, started the peer's player and waited for it.
abbrev pub HasTurned : Bytes → (Bytes → Bool) → (u w : Viewer) → Type 0
HasTurned root_dir exists u w =
    let job = view_peer (vfp_log root_dir u.my_ip) in
    (w.vfs_proc ≡ none)
    × (w.vfp_proc ≡ some job)
    × (w.effects
        ≡ (begin root_dir exists u).effects
          ++ (system (codes "killall mplayer")
              ∷ (remove_if (exists u.dump_file) u.dump_file
                  ++ (remove_if (exists (vfp_log root_dir u.my_ip)) (vfp_log root_dir u.my_ip)
                      ++ (start job ∷ []))))
          ++ (join_process job ∷ []))

-- The effects of a viewer that turns, behind `es`.
abbrev effects_of :
    List Effect
    → (a b c : Bool) → (first dump second ip : Bytes) → (service peer : Job) → List Effect
effects_of es a b c first dump second ip service peer =
    (es ++ (remove_if a first ++ (start service ∷ connect ip notify_port ∷ [])))
    ++ (system (codes "killall mplayer")
        ∷ (remove_if b dump ++ (remove_if c second ++ (start peer ∷ []))))
    ++ (join_process peer ∷ [])

starts-effects_of :
    (a b c : Bool) (first dump second ip : Bytes) (service peer : Job)
    → starts (effects_of [] a b c first dump second ip service peer) ≡ service ∷ peer ∷ []
starts-effects_of true true true first dump second ip service peer = refl
starts-effects_of true true false first dump second ip service peer = refl
starts-effects_of true false true first dump second ip service peer = refl
starts-effects_of true false false first dump second ip service peer = refl
starts-effects_of false true true first dump second ip service peer = refl
starts-effects_of false true false first dump second ip service peer = refl
starts-effects_of false false true first dump second ip service peer = refl
starts-effects_of false false false first dump second ip service peer = refl

module _ (root_dir : Bytes) (exists : Bytes → Bool) where
  listen-append :
      (beats rs : List Bytes) (v : Viewer)
      → All IsBeat beats
      → listen root_dir exists (beats ++ rs) v ≡ listen root_dir exists rs v
  unfolding listen
  listen-append [] rs v h = refl
  listen-append (r ∷ beats) rs v h = rw h.0 (listen-append beats rs v h.1)

  listen-nil : (v : Viewer) → listen root_dir exists [] v ≡ (v, [])
  unfolding listen
  listen-nil v = refl

  listen-turn :
      (r : Bytes) (rs : List Bytes) (v : Viewer)
      → notify_is_heartbeat (strip r) ≡ false
      → listen root_dir exists (r ∷ rs) v ≡ (turn_to_peer root_dir exists v, rs)
  unfolding listen
  listen-turn r rs v h = rw h

  -- As long as only heartbeats arrive the viewer stays with the service's stream: nothing is stopped
  -- or started behind the first process.
  pub watch-beats :
      (beats : List Bytes) (v : Viewer)
      → All IsBeat beats
      → watch root_dir exists beats v ≡ waited (begin root_dir exists v)
  unfolding watch
  watch-beats beats v h =
      ap (λ (p : Viewer × List Bytes). waited p.0)
        (ap (λ rs. listen root_dir exists rs (begin root_dir exists v)) (sym (append_nil beats))
          ∙ listen-append beats [] (begin root_dir exists v) h
          ∙ listen-nil (begin root_dir exists v))

  watch-turn_lem :
      (beats : List Bytes) (r : Bytes) (rs : List Bytes) (v : Viewer)
      → All IsBeat beats
      → notify_is_heartbeat (strip r) ≡ false
      → watch root_dir exists (beats ++ r ∷ rs) v
        ≡ waited (turn_to_peer root_dir exists (begin root_dir exists v))
  unfolding watch
  watch-turn_lem beats r rs v h nb =
      ap (λ (p : Viewer × List Bytes). waited p.0)
        (listen-append beats (r ∷ rs) (begin root_dir exists v) h
          ∙ listen-turn r rs (begin root_dir exists v) nb)

  turned-HasTurned :
      (u : Viewer)
      → HasTurned root_dir exists u
          (waited (turn_to_peer root_dir exists (begin root_dir exists u)))
  unfolding waited turn_to_peer begin
  turned-HasTurned u = (refl, refl, refl)

  -- At the first text that is no heartbeat the viewer turns, and reads no later text.
  pub watch-turn :
      (beats : List Bytes) (r : Bytes) (rs : List Bytes) (u : Viewer)
      → All IsBeat beats
      → notify_is_heartbeat (strip r) ≡ false
      → HasTurned root_dir exists u (watch root_dir exists (beats ++ r ∷ rs) u)
  watch-turn beats r rs u h nb =
      subst (HasTurned root_dir exists u) (sym (watch-turn_lem beats r rs u h nb))
        (turned-HasTurned u)

  listen-some :
      (ts : List Bytes) (t : Bytes) (v : Viewer)
      → notify_is_heartbeat (strip t) ≡ false
      → (listen root_dir exists (ts ++ t ∷ []) v).0 ≡ turn_to_peer root_dir exists v
  unfolding listen
  listen-some [] t v h = rw h refl
  listen-some (u ∷ ts) t v h = elim (Bool-cases (notify_is_heartbeat (strip u))) [
    | inl beat ↦ rw beat (listen-some ts t v h)
    | inr other ↦ rw other refl
  ]

  -- A text that is no heartbeat has turned the viewer, whatever it heard before.
  pub watch-HasTurned :
      (ts : List Bytes) (t : Bytes) (u : Viewer)
      → notify_is_heartbeat (strip t) ≡ false
      → HasTurned root_dir exists u (watch root_dir exists (ts ++ t ∷ []) u)
  unfolding watch
  watch-HasTurned ts t u h =
      subst (HasTurned root_dir exists u)
        (sym (ap waited (listen-some ts t (begin root_dir exists u) h))) (turned-HasTurned u)

  -- A viewer that has turned has started the service's player and then its peer's.
  pub HasTurned-starts :
      (u w : Viewer)
      → u.effects ≡ []
      → HasTurned root_dir exists u w
      → starts w.effects
        ≡ view_service u.service_ip (vfs_log root_dir u.my_ip)
          ∷ view_peer (vfp_log root_dir u.my_ip)
          ∷ []
  unfolding begin
  HasTurned-starts u w h (_, _, made) =
      ap starts made
      ∙ ap
          (λ es. starts (
            effects_of es (exists (vfs_log root_dir u.my_ip)) (exists u.dump_file)
              (exists (vfp_log root_dir u.my_ip)) (vfs_log root_dir u.my_ip) u.dump_file
              (vfp_log root_dir u.my_ip) u.service_ip
              (view_service u.service_ip (vfs_log root_dir u.my_ip))
              (view_peer (vfp_log root_dir u.my_ip))))
          h
      ∙ starts-effects_of (exists (vfs_log root_dir u.my_ip)) (exists u.dump_file)
          (exists (vfp_log root_dir u.my_ip)) (vfs_log root_dir u.my_ip) u.dump_file
          (vfp_log root_dir u.my_ip) u.service_ip
          (view_service u.service_ip (vfs_log root_dir u.my_ip))
          (view_peer (vfp_log root_dir u.my_ip))
