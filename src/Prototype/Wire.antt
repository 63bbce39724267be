-- ===== src/Prototype/Wire.antt =====
-- What the broadcaster of the prototype sends, as one byte stream, and the video file.
use mathlib.Core.List.{append_assoc}
use p2p_livestreaming.Prelude.{
  ℕ, zero, suc, ◌≤◌, ◌≡◌, refl, sym, ap, ◌∙◌, Option, some, List, [], ◌∷◌, ◌++◌, arith, All, length,
  take, drop, length-append, take-append_length, drop-append_length, get_elem?, Bytes,
}
use p2p_livestreaming.Prototype.{frame_size, frame_beg, frame_end}
use p2p_livestreaming.Prototype.Broadcaster.{
  write_video, load_frames, load_video, sent, ◌>>=◌, send_frame, send_frames, broadcast,
}

-- What `struct` promises of a packed time: 8 bytes that are read back.
pub record IsPacking {Time : Type 0} (pack_time : Time → Bytes) (unpack_time : Bytes → Option Time)
    : Type 0 where
  pub eight : (t : Time) → length (pack_time t) ≡ 8
  pub reads : (t : Time) → unpack_time (pack_time t) ≡ some t

abbrev pub IsFrame : Bytes → Type 0
IsFrame frame = length frame ≡ frame_size

-- What is sent behind the start of the broadcast.
abbrev pub frames_from : {Time : Type 0} → (Time → Bytes) → List Time → List Bytes → Bytes
frames_from pack_time [] video = 4 ∷ []
frames_from pack_time (t ∷ ts) [] = []
frames_from pack_time (t ∷ ts) (frame ∷ video) =
    1 ∷ (pack_time t ++ (frame ++ (2 ∷ frames_from pack_time ts video)))

pub get_elem?-drop :
    (idx : ℕ) (video : List Bytes) (frame : Bytes) (rest : List Bytes)
    → drop idx video ≡ frame ∷ rest
    → get_elem? video idx ≡ some frame
get_elem?-drop zero [] frame rest d = cc
get_elem?-drop (suc idx) [] frame rest d = cc
get_elem?-drop zero (f ∷ video) frame rest d = cc
get_elem?-drop (suc idx) (f ∷ video) frame rest d = get_elem?-drop idx video frame rest d

pub drop-suc :
    (idx : ℕ) (video : List Bytes) (frame : Bytes) (rest : List Bytes)
    → drop idx video ≡ frame ∷ rest
    → drop (suc idx) video ≡ rest
drop-suc zero [] frame rest d = cc
drop-suc (suc idx) [] frame rest d = cc
drop-suc zero (f ∷ video) frame rest d = cc
drop-suc (suc idx) (f ∷ video) frame rest d = drop-suc idx video frame rest d

pub send_frame-some :
    {Time : Type 0} (pack_time : Time → Bytes) (video : List Bytes) (t : Time) (idx : ℕ)
    (out frame : Bytes)
    → get_elem? video idx ≡ some frame
    → send_frame pack_time video t idx out
      ≡ sent (out ++ (frame_beg ++ ((pack_time t ++ frame) ++ frame_end)))
unfolding send_frame
send_frame-some pack_time video t idx out frame e = ground (arith, e)

pub regroup :
    (out header frame r : Bytes)
    → (out ++ (frame_beg ++ ((header ++ frame) ++ frame_end))) ++ r
      ≡ out ++ (1 ∷ (header ++ (frame ++ (2 ∷ r))))
regroup out header frame r =
    append_assoc out (frame_beg ++ ((header ++ frame) ++ frame_end)) r
    ∙ ap (λ v. out ++ (1 ∷ v))
        (append_assoc (header ++ frame) (2 ∷ []) r ∙ append_assoc header frame (2 ∷ r))

module _ {Time : Type 0} (pack_time : Time → Bytes) where
  send_frames-frames_from :
      (video rest : List Bytes) (ticks : List Time) (idx : ℕ) (out : Bytes)
      → drop idx video ≡ rest
      → length ticks ≤ length rest
      → send_frames pack_time video ticks idx out ≡ sent (out ++ frames_from pack_time ticks rest)
  unfolding send_frames
  send_frames-frames_from video rest [] idx out d le = refl
  send_frames-frames_from video [] (t ∷ ticks) idx out d le = absurd (omega arith)
  send_frames-frames_from video (frame ∷ rest) (t ∷ ticks) idx out d le =
      ap (λ m. m >>= send_frames pack_time video ticks (suc idx))
        (send_frame-some pack_time video t idx out frame (get_elem?-drop idx video frame rest d))
      ∙ send_frames-frames_from video rest ticks (suc idx)
          (out ++ (frame_beg ++ ((pack_time t ++ frame) ++ frame_end)))
          (drop-suc idx video frame rest d) (omega arith)
      ∙ ap sent (regroup out (pack_time t) frame (frames_from pack_time ticks rest))

  pub broadcast-frames_from :
      (video : List Bytes) (ticks : List Time)
      → length ticks ≤ length video
      → broadcast pack_time video ticks ≡ sent (3 ∷ frames_from pack_time ticks video)
  unfolding broadcast
  broadcast-frames_from video ticks le =
      send_frames-frames_from video video ticks 0 (3 ∷ []) refl le

load_frames-step :
    (fuel : ℕ) (b : ℕ) (rest file : Bytes)
    → take frame_size file ≡ b ∷ rest
    → load_frames (suc fuel) file ≡ (b ∷ rest) ∷ load_frames fuel (drop frame_size file)
unfolding load_frames
load_frames-step fuel b rest file e = ground (arith, e)

write_video-take :
    (frame : Bytes) (video : List Bytes)
    → IsFrame frame
    → take frame_size (write_video (frame ∷ video)) ≡ frame
unfolding write_video
write_video-take frame video h =
    ap (λ n. take n (frame ++ write_video video)) (sym h)
    ∙ take-append_length frame (write_video video)

write_video-drop :
    (frame : Bytes) (video : List Bytes)
    → IsFrame frame
    → drop frame_size (write_video (frame ∷ video)) ≡ write_video video
unfolding write_video
write_video-drop frame video h =
    ap (λ n. drop n (frame ++ write_video video)) (sym h)
    ∙ drop-append_length frame (write_video video)

length-write_video :
    (video : List Bytes) → All IsFrame video → length video ≤ length (write_video video)
unfolding write_video
length-write_video [] h = omega arith
length-write_video (frame ∷ video) h =
    omega (arith, h.0, length-append frame (write_video video), length-write_video video h.1)

load_frames-write_video :
    (fuel : ℕ) (video : List Bytes)
    → All IsFrame video
    → length video ≤ fuel
    → load_frames fuel (write_video video) ≡ video
load_frames-write_video zero [] h le = unfold load_frames in refl
load_frames-write_video (suc fuel) [] h le = unfold load_frames write_video in refl
load_frames-write_video zero (frame ∷ video) h le = absurd (omega arith)
load_frames-write_video (suc fuel) ([] ∷ video) h le = absurd (omega (arith, h.0))
load_frames-write_video (suc fuel) ((b ∷ frame) ∷ video) h le =
    load_frames-step fuel b frame (write_video ((b ∷ frame) ∷ video))
      (write_video-take (b ∷ frame) video h.0)
    ∙ ap (λ f. (b ∷ frame) ∷ load_frames fuel f) (write_video-drop (b ∷ frame) video h.0)
    ∙ ap (◌∷◌ (b ∷ frame)) (load_frames-write_video fuel video h.1 (omega arith))

-- The broadcaster loads from the file exactly the frames that were written into it, if each has the
-- size of a frame.
pub load_video-write_video :
    (video : List Bytes) → All IsFrame video → load_video (write_video video) ≡ video
unfolding load_video
load_video-write_video video h =
    load_frames-write_video (length (write_video video)) video h (length-write_video video h)
