-- ===== src/Hosts/Broadcaster/Streams.antt =====
-- Which peer streams the broadcaster starts, and what it ends.
use p2p_livestreaming.Prelude.{
  ◌≡◌, refl, sym, ap, ◌∙◌, inl, inr, Bool, true, false, not, ◌&&◌, ◌||◌, List, [], ◌∷◌, ◌++◌, map,
  arith, All, Bool-cases, Bytes, bytes_eq, eq_of_bytes_eq, codes, strip,
}
use p2p_livestreaming.Hosts.{
  notify_is_heartbeat, parse_notify_ip, Job, stream_service, Effect, remove_file, start,
  join_process, connect, sleep, remove_if, starts, terminate, system, exit,
}
use p2p_livestreaming.Hosts.Broadcaster.{
  Broadcaster, member, new, b2s_log, b2v_log, peer_job, begin, add_viewer, on_recv, listen,
  broadcast, terminate_all, started, exit_on_kill,
}

abbrev pub Distinct : List Bytes → Type 0
Distinct [] = Unit
Distinct (x ∷ xs) = (member x xs ≡ false) × Distinct xs

-- The broadcaster's peer streams, which it has started behind the stream to the service, and no other
-- process.
abbrev pub Runs : (root_dir service_ip : Bytes) → List Job → Broadcaster → Type 0
Runs root_dir service_ip js b =
    (b.b2v_procs ≡ js) × (starts b.effects ≡ stream_service service_ip (b2s_log root_dir) ∷ js)

-- One process for each peer, in the same order, and no peer twice; these processes have been started,
-- in this order, behind the stream to the service, and no other.
pub record IsConsistent (root_dir service_ip : Bytes) (b : Broadcaster) : Type 0 where
  pub launched : starts b.effects ≡ stream_service service_ip (b2s_log root_dir) ∷ b.b2v_procs
  pub paired : b.b2v_procs ≡ map (peer_job root_dir) b.p2p_viewers
  pub distinct : Distinct b.p2p_viewers

starts-append : (es fs : List Effect) → starts (es ++ fs) ≡ starts es ++ starts fs
starts-append [] fs = refl
starts-append (start j ∷ es) fs = ap (◌∷◌ j) (starts-append es fs)
starts-append (remove_file _ ∷ es) fs = starts-append es fs
starts-append (terminate _ ∷ es) fs = starts-append es fs
starts-append (join_process _ ∷ es) fs = starts-append es fs
starts-append (connect _ _ ∷ es) fs = starts-append es fs
starts-append (sleep _ ∷ es) fs = starts-append es fs
starts-append (system _ ∷ es) fs = starts-append es fs
starts-append (exit _ ∷ es) fs = starts-append es fs

starts-remove_if :
    (there : Bool) (path : Bytes) (es : List Effect)
    → starts (remove_if there path ++ es) ≡ starts es
starts-remove_if true path es = refl
starts-remove_if false path es = refl

bytes_eq_comm : (s t : Bytes) → bytes_eq s t ≡ bytes_eq t s
unfolding bytes_eq
bytes_eq_comm [] [] = refl
bytes_eq_comm [] (_ ∷ _) = refl
bytes_eq_comm (_ ∷ _) [] = refl
bytes_eq_comm (a ∷ s) (b ∷ t) = ground (arith, bytes_eq_comm s t)

member-append :
    (x y : Bytes) (ys : List Bytes) → member x (ys ++ y ∷ []) ≡ (member x ys || bytes_eq x y)
unfolding member
member-append x y [] = ground arith
member-append x y (z ∷ ys) = ground (arith, member-append x y ys)

Distinct-append :
    (xs : List Bytes) (x : Bytes) → Distinct xs → member x xs ≡ false → Distinct (xs ++ x ∷ [])
unfolding member
Distinct-append [] x d h = (refl, tt)
Distinct-append (y ∷ xs) x d h = (
  ground (arith, member-append y x xs, bytes_eq_comm x y, d.0),
  Distinct-append xs x d.1 (ground arith),
)

map-snoc {ℓ κ} :
    {A : Type ℓ} {B : Type κ} (f : A → B) (xs : List A) (x : A)
    → map f (xs ++ x ∷ []) ≡ map f xs ++ f x ∷ []
map-snoc f [] x = refl
map-snoc f (y ∷ xs) x = ap (◌∷◌ (f y)) (map-snoc f xs x)

or_false : (a : Bool) → a ≡ (a || false)
or_false true = refl
or_false false = refl

member_old :
    (x y : Bytes) (ys : List Bytes)
    → member y ys ≡ true
    → member x ys ≡ (member x ys || bytes_eq x y)
member_old x y ys h = elim (Bool-cases (bytes_eq x y)) [
  | inl same ↦ rw (eq_of_bytes_eq x y same) (ground arith)
  | inr differ ↦ rw differ (or_false (member x ys))
]

-- A received text that names a peer.
abbrev pub names : Bytes → Bytes → Bool
names ip received =
    not (notify_is_heartbeat (strip received)) && bytes_eq ip (parse_notify_ip (strip received))

abbrev pub named : Bytes → List Bytes → Bool
named ip [] = false
named ip (r ∷ rs) = names ip r || named ip rs

module _ (root_dir : Bytes) (exists : Bytes → Bool) where
  add_viewer-IsConsistent :
      (service_ip ip : Bytes) (b : Broadcaster)
      → IsConsistent root_dir service_ip b
      → IsConsistent root_dir service_ip (add_viewer root_dir exists ip b)
  unfolding add_viewer
  add_viewer-IsConsistent service_ip ip b h = elim (Bool-cases (member ip b.p2p_viewers)) [
    | inl old ↦ rw old h
    | inr fresh ↦ simp fresh (record {
      launched =
          starts-append b.effects _
          ∙ ap (◌++◌ (starts b.effects)) (starts-remove_if (exists (b2v_log root_dir ip)) _ _)
          ∙ ap (λ js. js ++ peer_job root_dir ip ∷ []) h.launched;
      paired =
          ap (λ js. js ++ peer_job root_dir ip ∷ []) h.paired
          ∙ sym (map-snoc (peer_job root_dir) b.p2p_viewers ip);
      distinct = Distinct-append b.p2p_viewers ip h.distinct fresh;
    })
  ]

  on_recv-IsConsistent :
      (service_ip r : Bytes) (b : Broadcaster)
      → IsConsistent root_dir service_ip b
      → IsConsistent root_dir service_ip (on_recv root_dir exists r b)
  unfolding on_recv
  on_recv-IsConsistent service_ip r b h = elim (Bool-cases (notify_is_heartbeat (strip r))) [
    | inl beat ↦ rw beat h
    | inr other ↦ rw other (add_viewer-IsConsistent service_ip (parse_notify_ip (strip r)) b h)
  ]

  listen-IsConsistent :
      (service_ip : Bytes) (rs : List Bytes) (b : Broadcaster)
      → IsConsistent root_dir service_ip b
      → IsConsistent root_dir service_ip (listen root_dir exists rs b)
  unfolding listen
  listen-IsConsistent service_ip [] b h = h
  listen-IsConsistent service_ip (r ∷ rs) b h =
      listen-IsConsistent service_ip rs (on_recv root_dir exists r b)
        (on_recv-IsConsistent service_ip r b h)

  -- Whatever the notification socket delivers, a new broadcaster starts the stream to the service and
  -- then exactly one process for each peer that it knows, with the peer's address and log, in the order
  -- in which it came to know them, and starts no other; it knows no peer twice.
  pub broadcast-IsConsistent :
      (rs : List Bytes) (my_ip video_file service_ip : Bytes)
      → IsConsistent root_dir service_ip
          (broadcast root_dir exists rs (new root_dir my_ip video_file service_ip))
  unfolding broadcast new begin
  broadcast-IsConsistent rs my_ip video_file service_ip =
      listen-IsConsistent service_ip rs
        (begin root_dir exists (new root_dir my_ip video_file service_ip))
        (record {
          launched = starts-remove_if (exists (b2s_log root_dir)) _ _;
          paired = refl;
          distinct = tt;
        })

  -- What a new broadcaster has started, by its peer streams.
  pub broadcast-Runs :
      (rs : List Bytes) (my_ip video_file service_ip : Bytes) (js : List Job)
      → (broadcast root_dir exists rs (new root_dir my_ip video_file service_ip)).b2v_procs ≡ js
      → Runs root_dir service_ip js
          (broadcast root_dir exists rs (new root_dir my_ip video_file service_ip))
  broadcast-Runs rs my_ip video_file service_ip js h =
      let c = broadcast-IsConsistent rs my_ip video_file service_ip in
      (h, c.launched ∙ ap (◌∷◌ (stream_service service_ip (b2s_log root_dir))) h)

  member-add_viewer :
      (ip v : Bytes) (b : Broadcaster)
      → member ip (add_viewer root_dir exists v b).p2p_viewers
        ≡ (member ip b.p2p_viewers || bytes_eq ip v)
  unfolding add_viewer
  member-add_viewer ip v b = elim (Bool-cases (member v b.p2p_viewers)) [
    | inl old ↦ rw old (member_old ip v b.p2p_viewers old)
    | inr fresh ↦ rw fresh (member-append ip v b.p2p_viewers)
  ]

  member-on_recv :
      (ip r : Bytes) (b : Broadcaster)
      → member ip (on_recv root_dir exists r b).p2p_viewers
        ≡ (member ip b.p2p_viewers || names ip r)
  unfolding on_recv
  member-on_recv ip r b = elim (Bool-cases (notify_is_heartbeat (strip r))) [
    | inl beat ↦ rw beat (or_false (member ip b.p2p_viewers))
    | inr other ↦ rw other (member-add_viewer ip (parse_notify_ip (strip r)) b)
  ]

  member-listen :
      (ip : Bytes) (rs : List Bytes) (b : Broadcaster)
      → member ip (listen root_dir exists rs b).p2p_viewers
        ≡ (member ip b.p2p_viewers || named ip rs)
  unfolding listen
  member-listen ip [] b = ground arith
  member-listen ip (r ∷ rs) b =
      ground (arith, member-on_recv ip r b, member-listen ip rs (on_recv root_dir exists r b))

  -- The addresses to which a new broadcaster starts a stream, behind the stream to the service and
  -- one stream for each, are exactly those that a received text named: one that is not taken for a
  -- heartbeat and whose parse is the address.
  pub broadcast-member :
      (rs : List Bytes) (my_ip video_file service_ip : Bytes)
      → let w = broadcast root_dir exists rs (new root_dir my_ip video_file service_ip) in
        (peers : List Bytes) × (starts w.effects
          ≡ stream_service service_ip (b2s_log root_dir) ∷ map (peer_job root_dir) peers)
        × Distinct peers
        × ((ip : Bytes) → member ip peers ≡ named ip rs)
  unfolding broadcast new
  broadcast-member rs my_ip video_file service_ip =
      let c = broadcast-IsConsistent rs my_ip video_file service_ip in
      let w = broadcast root_dir exists rs (new root_dir my_ip video_file service_ip) in
      (
        w.p2p_viewers,
        c.launched ∙ ap (◌∷◌ (stream_service service_ip (b2s_log root_dir))) c.paired,
        c.distinct,
        λ ip.
            member-listen ip rs (begin root_dir exists (new root_dir my_ip video_file service_ip)),
      )

pub terminate_all-map :
    (raises : Job → Bool) (js : List Job)
    → All (λ j. raises j ≡ false) js
    → terminate_all raises js ≡ map terminate js
unfolding terminate_all
terminate_all-map raises [] h = refl
terminate_all-map raises (j ∷ js) h = ground (arith, terminate_all-map raises js h.1)

-- A killed broadcaster whose processes can all be terminated terminates the stream to the service
-- and every peer stream, in the order of their start, then every `ffmpeg`, and exits.
pub exit_on_kill-terminate :
    (raises : Job → Bool) (b : Broadcaster)
    → All (λ j. raises j ≡ false) (started b.b2s_proc ++ b.b2v_procs)
    → exit_on_kill raises b
      ≡ map terminate (started b.b2s_proc ++ b.b2v_procs)
        ++ (system (codes "killall ffmpeg") ∷ exit 0 ∷ [])
unfolding exit_on_kill
exit_on_kill-terminate raises b h =
    ap (λ es. es ++ (system (codes "killall ffmpeg") ∷ exit 0 ∷ []))
      (terminate_all-map raises (started b.b2s_proc ++ b.b2v_procs) h)
