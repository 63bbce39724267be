-- ===== src/Prototype/Serve.antt =====
-- A whole broadcast at the CDN server of the prototype.
use mathlib.Core.List.{append_assoc}
use p2p_livestreaming.Prelude.{
  ℕ, zero, suc, ◌+◌, ◌≤◌, ◌<◌, ◌≡◌, refl, sym, ap, ◌∙◌, Option, none, some, List, [], ◌∷◌, ◌++◌,
  arith, All, length, take, if◌then◌else◌, Bytes, bytes_eq, append_nil,
}
use p2p_livestreaming.Prototype.{
  bcast_beg, bcast_end, frame_beg, frame_end, frame_size, Sock, rest_sizes, recv, recv_frame,
  Received, got, ended, spinning, assertion_error,
}
use p2p_livestreaming.Prototype.Sockets.{sock, IsCoarse, IsCoarse-rest_sizes, recv_one}
use p2p_livestreaming.Prototype.Stream.{
  Gap, none_before, end_before, recv_frame-frame, recv_frame-over,
}
use p2p_livestreaming.Prototype.Broadcaster.{sent, broadcast}
use p2p_livestreaming.Prototype.Wire.{
  IsPacking, IsFrame, frames_from, broadcast-frames_from, regroup,
}
use p2p_livestreaming.Prototype.CdnServer.{
  CdnServer, Serving, served, serving, raised, struct_error, assertion_failed, last, store, push,
  push_frame, serve_loop, idle, run,
}

-- The times that the server puts into the headers of its frames, from the count of frames on.
abbrev pub stamps : {Time Tick : Type 0} → (ℕ → Time) → ℕ → List Tick → List Time
stamps clock n [] = []
stamps clock n (_ ∷ ticks) = clock n ∷ stamps clock (suc n) ticks

abbrev pub server : List Bytes → Bytes → ℕ → CdnServer
server storage pushed n = record { storage = storage; pushed = pushed; frame_cnt = n }

pub length-stamps :
    {Time Tick : Type 0} (clock : ℕ → Time) (n : ℕ) (ticks : List Tick)
    → length (stamps clock n ticks) ≡ length ticks
length-stamps clock n [] = refl
length-stamps clock n (_ ∷ ticks) = ap suc (length-stamps clock (suc n) ticks)

server_eq :
    {a a' : List Bytes} {b b' : Bytes} {n n' : ℕ}
    → a ≡ a'
    → b ≡ b'
    → n ≡ n'
    → server a b n ≡ server a' b' n'
server_eq {a = a} {a' = a'} {b = b} {b' = b'} {n = n} p q r =
    ap (λ x. server x b n) p ∙ ap (λ y. server a' y n) q ∙ ap (server a' b') r

last-append : (xs : List Bytes) (x : Bytes) → last (xs ++ x ∷ []) ≡ some x
unfolding last
last-append [] x = refl
last-append (y ∷ []) x = refl
last-append (y ∷ z ∷ xs) x = last-append (z ∷ xs) x

module _ {Time : Type 0} (pack_time : Time → Bytes) (unpack_time : Bytes → Option Time)
    (packing : IsPacking pack_time unpack_time) (clock : ℕ → Time) where
  next : (fuel inner : ℕ) → Sock → Serving → Serving
  next fuel inner s (raised x c) = raised x c
  next fuel inner s serving = serving
  next fuel inner s (served c) = serve_loop pack_time unpack_time clock fuel inner c s

  timed : (fuel inner : ℕ) → CdnServer → Bytes → Sock → Option Time → Serving
  timed fuel inner c frame s none = raised struct_error c
  timed fuel inner c frame s (some t) =
      next fuel inner s (push_frame pack_time unpack_time clock (clock c.frame_cnt) (store frame c))

  abbrev seen : (fuel inner : ℕ) → CdnServer → Received → Serving
  seen fuel inner c spinning = serving
  seen fuel inner c assertion_error = raised assertion_failed c
  seen fuel inner c (ended s) = served (push bcast_end c)
  seen fuel inner c (got header frame s) = timed fuel inner c frame s (unpack_time header)

  serve_loop-seen :
      (fuel inner : ℕ) (c : CdnServer) (s : Sock)
      → serve_loop pack_time unpack_time clock (suc fuel) inner c s
        ≡ seen fuel inner c (recv_frame inner s)
  unfolding serve_loop timed next
  serve_loop-seen fuel inner c s = elim (recv_frame inner s) [
    | spinning ↦ refl
    | assertion_error ↦ refl
    | ended _ ↦ refl
    | got header frame _ ↦ elim (unpack_time header) [
      | none ↦ refl
      | some t ↦ elim (push_frame pack_time unpack_time clock (clock c.frame_cnt) (store frame c)) [
        | raised _ _ ↦ refl
        | serving ↦ refl
        | served _ ↦ refl
      ]
    ]
  ]

  relayed : CdnServer → Bytes → CdnServer
  relayed c frame =
      push (frame_beg ++ ((pack_time (clock c.frame_cnt) ++ frame) ++ frame_end)) (store frame c)

  push_frame-store :
      (c : CdnServer) (frame : Bytes)
      → push_frame pack_time unpack_time clock (clock c.frame_cnt) (store frame c)
        ≡ served (relayed c frame)
  unfolding push_frame relayed
  push_frame-store c frame = ground (arith, last-append c.storage frame)

  seen-got :
      (fuel inner : ℕ) (c : CdnServer) (t : Time) (frame : Bytes) (s : Sock)
      → seen fuel inner c (got (pack_time t) frame s)
        ≡ serve_loop pack_time unpack_time clock fuel inner (relayed c frame) s
  unfolding timed next
  seen-got fuel inner c t frame s =
      ap (timed fuel inner c frame s) (packing.reads t)
      ∙ ap (next fuel inner s) (push_frame-store c frame)

  -- The state behind a broadcast of the frames.
  abbrev after : CdnServer → List Time → List Bytes → CdnServer
  after c ts video = record {
    storage = c.storage ++ take (length ts) video;
    pushed = c.pushed ++ frames_from pack_time (stamps clock c.frame_cnt ts) video;
    frame_cnt = c.frame_cnt + length ts;
  }

  after-relayed :
      (c : CdnServer) (t : Time) (ts : List Time) (frame : Bytes) (video : List Bytes)
      → after (relayed c frame) ts video ≡ after c (t ∷ ts) (frame ∷ video)
  unfolding relayed
  after-relayed c t ts frame video =
      server_eq (append_assoc c.storage (frame ∷ []) (take (length ts) video))
        (regroup c.pushed (pack_time (clock c.frame_cnt)) frame
          (frames_from pack_time (stamps clock (suc c.frame_cnt) ts) video))
        (omega arith)

  serve_loop-frames_from :
      (fuel inner : ℕ) (ks : List ℕ) (gap : Bytes) (c : CdnServer) (ts : List Time)
      (video : List Bytes)
      → Gap gap
      → IsCoarse ks
      → All IsFrame video
      → length ts ≤ length video
      → length ts < fuel
      → frame_size ≤ inner
      → serve_loop pack_time unpack_time clock fuel
          (suc inner)
          c
          (sock ks (gap ++ frames_from pack_time ts video))
        ≡ served (after c ts video)
  serve_loop-frames_from zero inner ks gap c ts video g k h le lt i = absurd (omega arith)
  serve_loop-frames_from (suc fuel) zero ks gap c ts video g k h le lt i = absurd (omega arith)
  serve_loop-frames_from (suc fuel) (suc inner) ks gap c [] video g k h le lt i =
      let (ks', k', e) = recv_frame-over inner ks gap [] g k in
      serve_loop-seen fuel (suc (suc inner)) c (sock ks (gap ++ (4 ∷ [])))
      ∙ ap (seen fuel (suc (suc inner)) c) e
      ∙ ap served (server_eq (sym (append_nil c.storage)) refl (omega arith))
  serve_loop-frames_from (suc fuel) inner ks gap c (t ∷ ts) [] g k h le lt i = absurd (omega arith)
  serve_loop-frames_from (suc fuel) (suc inner) ks gap c (t ∷ ts) (frame ∷ video) g k h le lt i =
      let r = 2 ∷ frames_from pack_time ts video in
      let (ks', k', e) =
        recv_frame-frame (suc inner) ks gap (pack_time t) frame r g (packing.eight t) h.0 i k in
      serve_loop-seen fuel (suc (suc inner)) c
        (sock ks (gap ++ (1 ∷ (pack_time t ++ (frame ++ r)))))
      ∙ ap (seen fuel (suc (suc inner)) c) e
      ∙ seen-got fuel (suc (suc inner)) c t frame (sock ks' r)
      ∙ serve_loop-frames_from fuel (suc inner) ks' (2 ∷ []) (relayed c frame) ts video end_before
          k' h.1 (omega arith) (omega arith) i
      ∙ ap served (after-relayed c t ts frame video)

  abbrev opened : ℕ → Bytes × Sock → Serving
  opened fuel (msg, s) =
      if bytes_eq msg bcast_beg
      then serve_loop pack_time unpack_time clock fuel fuel (push bcast_beg idle) s
      else raised assertion_failed idle

  run-opened :
      (fuel : ℕ) (s : Sock) → run pack_time unpack_time clock fuel s ≡ opened fuel (recv 1 s)
  unfolding run
  run-opened fuel s = refl

  opened_beg :
      (fuel : ℕ) (s : Sock)
      → opened fuel (bcast_beg, s)
        ≡ serve_loop pack_time unpack_time clock fuel fuel (push bcast_beg idle) s
  unfolding bytes_eq
  opened_beg fuel s = refl

  -- A CDN server to which a whole broadcast is on its way, over a network that never cuts a header,
  -- with frames of the frame size and enough of them in the video,
  -- finishes with fuel for the frame size and the number of frames: it has stored and counted the
  -- frames that were sent, and what it has pushed is again a broadcast of the same frames, with its
  -- own times in the headers.
  pub run-broadcast :
      (fuel : ℕ) (ks : List ℕ) (ticks : List Time) (video : List Bytes)
      → IsCoarse ks
      → All IsFrame video
      → length ticks ≤ length video
      → length ticks ≤ fuel
      → frame_size ≤ fuel
      → (out : Bytes) × (again : Bytes) × (broadcast pack_time video ticks ≡ sent out)
        × (broadcast pack_time video (stamps clock 0 ticks) ≡ sent again)
        × (run pack_time unpack_time clock (suc fuel) (sock ks out)
            ≡ served (record {
              storage = take (length ticks) video;
              pushed = again;
              frame_cnt = length ticks;
            }))
  run-broadcast fuel ks ticks video c h le lt i = (
    3 ∷ frames_from pack_time ticks video,
    3 ∷ frames_from pack_time (stamps clock 0 ticks) video,
    broadcast-frames_from pack_time video ticks le,
    broadcast-frames_from pack_time video (stamps clock 0 ticks)
        (omega (arith, length-stamps clock 0 ticks)),
    run-opened (suc fuel) (sock ks (3 ∷ frames_from pack_time ticks video))
        ∙ ap (opened (suc fuel)) (recv_one ks 3 (frames_from pack_time ticks video))
        ∙ opened_beg (suc fuel) (sock (rest_sizes ks) (frames_from pack_time ticks video))
        ∙ serve_loop-frames_from (suc fuel) fuel (rest_sizes ks) [] (push bcast_beg idle) ticks
            video none_before (IsCoarse-rest_sizes ks c) h le (omega arith) i
        ∙ ap served (server_eq refl refl (omega arith)),
  )
