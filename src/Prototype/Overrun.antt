-- ===== src/Prototype/Overrun.antt =====
-- A broadcast that outlasts the video: the broadcaster of the prototype raises in the middle of a
-- frame, and the viewer waits for ever for the rest of it.
use p2p_livestreaming.Prelude.{
  ℕ, zero, suc, ◌≤◌, ◌≡◌, refl, ap, ◌∙◌, Option, none, List, [], ◌∷◌, ◌++◌, arith, All, length,
  drop, get_elem?, Bytes, take_of_le, drop_of_le,
}
use p2p_livestreaming.Prototype.{
  frame_beg, frame_end, frame_size, rest_sizes, granted, recv, begun, fill, spinning, checked,
  recv_content, recv_frame,
}
use p2p_livestreaming.Prototype.Sockets.{
  sock, IsCoarse, IsCoarse-rest_sizes, recv_one, fill_from, fill-step, content_of,
  recv_content-recv, await_frame-beg,
}
use p2p_livestreaming.Prototype.Stream.{
  Gap, none_before, end_before, recv_frame-frame, await_frame-Gap, received, recv_frame-await,
}
use p2p_livestreaming.Prototype.Broadcaster.{index_error, ◌>>=◌, send_frame, send_frames, broadcast}
use p2p_livestreaming.Prototype.Wire.{
  IsPacking, IsFrame, send_frame-some, get_elem?-drop, drop-suc, regroup,
}
use p2p_livestreaming.Prototype.Viewer.{watching, view_loop, view}
use p2p_livestreaming.Prototype.EndToEnd.{
  timed, seen, view_loop-seen, timed-some, opened, view-opened, opened_beg,
}

-- What is sent behind the start of a broadcast that runs out of frames: the frames, and the start of
-- one more.
abbrev pub frames_open : {Time : Type 0} → (Time → Bytes) → List Time → List Bytes → Bytes
frames_open pack_time [] video = 1 ∷ []
frames_open pack_time (t ∷ ts) [] = []
frames_open pack_time (t ∷ ts) (frame ∷ video) =
    1 ∷ (pack_time t ++ (frame ++ (2 ∷ frames_open pack_time ts video)))

get_elem?_end : (idx : ℕ) (video : List Bytes) → drop idx video ≡ [] → get_elem? video idx ≡ none
get_elem?_end zero [] d = refl
get_elem?_end (suc idx) [] d = refl
get_elem?_end zero (f ∷ video) d = cc
get_elem?_end (suc idx) (f ∷ video) d = get_elem?_end idx video d

module _ {Time : Type 0} (pack_time : Time → Bytes) where
  send_frame-none :
      (video : List Bytes) (t : Time) (idx : ℕ) (out : Bytes)
      → get_elem? video idx ≡ none
      → send_frame pack_time video t idx out ≡ index_error (out ++ frame_beg)
  unfolding send_frame
  send_frame-none video t idx out e = ground (arith, e)

  send_frames-frames_open :
      (video rest : List Bytes) (ticks later : List Time) (t : Time) (idx : ℕ) (out : Bytes)
      → drop idx video ≡ rest
      → length ticks ≡ length rest
      → send_frames pack_time video (ticks ++ t ∷ later) idx out
        ≡ index_error (out ++ frames_open pack_time ticks rest)
  unfolding send_frames
  send_frames-frames_open video [] [] later t idx out d le =
      ap (λ m. m >>= send_frames pack_time video later (suc idx))
        (send_frame-none video t idx out (get_elem?_end idx video d))
  send_frames-frames_open video (frame ∷ rest) [] later t idx out d le = absurd (omega arith)
  send_frames-frames_open video [] (u ∷ ticks) later t idx out d le = absurd (omega arith)
  send_frames-frames_open video (frame ∷ rest) (u ∷ ticks) later t idx out d le =
      ap (λ m. m >>= send_frames pack_time video (ticks ++ t ∷ later) (suc idx))
        (send_frame-some pack_time video u idx out frame (get_elem?-drop idx video frame rest d))
      ∙ send_frames-frames_open video rest ticks later t (suc idx)
          (out ++ (frame_beg ++ ((pack_time u ++ frame) ++ frame_end)))
          (drop-suc idx video frame rest d) (omega arith)
      ∙ ap index_error (regroup out (pack_time u) frame (frames_open pack_time ticks rest))

  -- A broadcast whose timer ticks once more than the video has frames raises an IndexError, with all
  -- the frames and the start of one more on the wire.
  pub broadcast-frames_open :
      (video : List Bytes) (ticks later : List Time) (t : Time)
      → length ticks ≡ length video
      → broadcast pack_time video (ticks ++ t ∷ later)
        ≡ index_error (3 ∷ frames_open pack_time ticks video)
  unfolding broadcast
  broadcast-frames_open video ticks later t le =
      send_frames-frames_open video video ticks later t 0 (3 ∷ []) refl le

recv_closed : (n : ℕ) (ks : List ℕ) → recv n (sock ks []) ≡ ([], sock (rest_sizes ks) [])
unfolding recv
recv_closed n ks =
    rw
      (
        take_of_le {A = ℕ} (granted n ks) [] (omega arith),
        drop_of_le {A = ℕ} (granted n ks) [] (omega arith),
      )
      refl

fill_closed : (fuel : ℕ) (ks : List ℕ) → fill fuel [] (sock ks []) ≡ none
fill_closed zero ks = unfold fill in refl
fill_closed (suc fuel) ks =
    fill-step fuel [] (sock ks []) (omega arith)
    ∙ ap (fill_from fuel []) (recv_closed frame_size ks)
    ∙ fill_closed fuel (rest_sizes ks)

recv_content_closed : (fuel : ℕ) (ks : List ℕ) → recv_content fuel (sock ks []) ≡ spinning
recv_content_closed fuel ks =
    recv_content-recv fuel (sock ks [])
    ∙ ap (content_of fuel) (recv_closed 8 ks)
    ∙ ap (λ p. checked [] (fill_from fuel [] p)) (recv_closed frame_size (rest_sizes ks))
    ∙ ap (checked []) (fill_closed fuel (rest_sizes (rest_sizes ks)))

-- A frame of which only the start was sent is waited for without an end.
recv_frame_open :
    (fuel : ℕ) (ks : List ℕ) (gap : Bytes)
    → Gap gap
    → IsCoarse ks
    → recv_frame (suc (suc fuel)) (sock ks (gap ++ (1 ∷ []))) ≡ spinning
recv_frame_open fuel ks gap g c =
    let (ks₁, c₁, e₁) =
      await_frame-Gap fuel ks gap [] g c 1 begun (λ n js. await_frame-beg n js []) in
    recv_frame-await (suc (suc fuel)) (sock ks (gap ++ (1 ∷ [])))
    ∙ ap (received (suc (suc fuel))) e₁
    ∙ recv_content_closed (suc (suc fuel)) ks₁

module _ {Time : Type 0} (pack_time : Time → Bytes) (unpack_time : Bytes → Option Time)
    (packing : IsPacking pack_time unpack_time) (sub : Time → Time → Time) (clock : ℕ → Time) where
  view_loop-frames_open :
      (fuel inner : ℕ) (ks : List ℕ) (gap : Bytes) (n : ℕ) (ms ts : List Time) (video : List Bytes)
      → Gap gap
      → IsCoarse ks
      → All IsFrame video
      → length ts ≡ length video
      → frame_size ≤ inner
      → view_loop unpack_time sub clock fuel
          (suc inner)
          n
          ms
          (sock ks (gap ++ frames_open pack_time ts video))
        ≡ watching
  view_loop-frames_open zero inner ks gap n ms ts video g c h le i = unfold view_loop in refl
  view_loop-frames_open (suc fuel) zero ks gap n ms ts video g c h le i = absurd (omega arith)
  view_loop-frames_open (suc fuel) (suc inner) ks gap n ms [] video g c h le i =
      view_loop-seen pack_time unpack_time packing sub clock fuel (suc (suc inner)) n ms
        (sock ks (gap ++ (1 ∷ [])))
      ∙ ap (seen pack_time unpack_time packing sub clock fuel (suc (suc inner)) n ms)
          (recv_frame_open inner ks gap g c)
  view_loop-frames_open (suc fuel) inner ks gap n ms (t ∷ ts) [] g c h le i = absurd (omega arith)
  view_loop-frames_open (suc fuel) (suc inner) ks gap n ms (t ∷ ts) (frame ∷ video) g c h le i =
      let r = 2 ∷ frames_open pack_time ts video in
      let (ks', c', e) =
        recv_frame-frame (suc inner) ks gap (pack_time t) frame r g (packing.eight t) h.0 i c in
      view_loop-seen pack_time unpack_time packing sub clock fuel (suc (suc inner)) n ms
        (sock ks (gap ++ (1 ∷ (pack_time t ++ (frame ++ r)))))
      ∙ ap (seen pack_time unpack_time packing sub clock fuel (suc (suc inner)) n ms) e
      ∙ ap (timed pack_time unpack_time packing sub clock fuel (suc (suc inner)) n ms (sock ks' r))
          (packing.reads t)
      ∙ timed-some pack_time unpack_time packing sub clock fuel (suc (suc inner)) n ms t
          (sock ks' r)
      ∙ view_loop-frames_open fuel (suc inner) ks' (2 ∷ []) (suc n) (ms ++ sub (clock n) t ∷ []) ts
          video end_before c' h.1 (omega arith) i

  -- A broadcast whose timer ticks more often than the video has frames, all of the frame size, leaves
  -- the viewer hanging: the broadcaster raises an IndexError behind the start of a frame, and the
  -- viewer, over a network that never cuts a header, has not finished with any fuel above the frame
  -- size.
  pub view-broadcast_open :
      (fuel : ℕ) (ks : List ℕ) (video : List Bytes) (ticks later : List Time) (t : Time)
      → IsCoarse ks
      → All IsFrame video
      → length ticks ≡ length video
      → frame_size ≤ fuel
      → (out : Bytes) × (broadcast pack_time video (ticks ++ t ∷ later) ≡ index_error out)
        × (view unpack_time sub clock (suc fuel) (sock ks out) ≡ watching)
  view-broadcast_open fuel ks video ticks later t c h le i = (
    3 ∷ frames_open pack_time ticks video,
    broadcast-frames_open pack_time video ticks later t le,
    view-opened pack_time unpack_time packing sub clock (suc fuel)
          (sock ks (3 ∷ frames_open pack_time ticks video))
        ∙ ap (opened pack_time unpack_time packing sub clock (suc fuel))
            (recv_one ks 3 (frames_open pack_time ticks video))
        ∙ opened_beg pack_time unpack_time packing sub clock (suc fuel)
            (sock (rest_sizes ks) (frames_open pack_time ticks video))
        ∙ view_loop-frames_open (suc fuel) fuel (rest_sizes ks) [] 0 [] ticks video none_before
            (IsCoarse-rest_sizes ks c) h le i,
  )
