-- ===== src/Prototype/Video.antt =====
-- prototype/utils/gen-video.py, and the main block of prototype/hosts/broadcaster.py on the video that
-- it writes.
use p2p_livestreaming.Prelude.{
  ℕ, zero, suc, ◌+◌, ◌*◌, ◌≤◌, ◌≡◌, refl, sym, ap, ◌∙◌, Option, List, [], ◌∷◌, ◌++◌, arith, All,
  length, Bytes,
}
use p2p_livestreaming.Prototype.{frame_rate, frame_size}
use p2p_livestreaming.Prototype.Sockets.{sock, IsCoarse}
use p2p_livestreaming.Prototype.Broadcaster.{
  write_video, load_video, Sending, sent, index_error, broadcast,
}
use p2p_livestreaming.Prototype.Viewer.{viewed, watching, view}
use p2p_livestreaming.Prototype.EndToEnd.{latencies, view-broadcast}
use p2p_livestreaming.Prototype.Overrun.{view-broadcast_open}
use p2p_livestreaming.Prototype.Wire.{IsPacking, IsFrame, load_video-write_video}

-- `bytearray(random.getrandbits(8) for _ in xrange(n))`, from the numbers that `random` gives.
abbrev pub random_bytes : (ℕ → ℕ) → ℕ → ℕ → Bytes
random_bytes random first zero = []
random_bytes random first (suc n) = random first ∷ random_bytes random (suc first) n

abbrev pub random_frames : (ℕ → ℕ) → ℕ → ℕ → List Bytes
random_frames random first zero = []
random_frames random first (suc n) =
    random_bytes random first frame_size ∷ random_frames random (first + frame_size) n

-- `video`: frames for 12 seconds.
unfoldable pub gen_video : (ℕ → ℕ) → List Bytes
gen_video random = random_frames random 0 (frame_rate * 12)

-- What the broadcaster sends whose video file the script wrote.
abbrev pub broadcast_generated : {Time : Type 0} → (Time → Bytes) → (ℕ → ℕ) → List Time → Sending
broadcast_generated pack_time random ticks =
    broadcast pack_time (load_video (write_video (gen_video random))) ticks

length-random_bytes : (random : ℕ → ℕ) (first n : ℕ) → length (random_bytes random first n) ≡ n
length-random_bytes random first zero = refl
length-random_bytes random first (suc n) = ap suc (length-random_bytes random (suc first) n)

length-random_frames : (random : ℕ → ℕ) (first n : ℕ) → length (random_frames random first n) ≡ n
length-random_frames random first zero = refl
length-random_frames random first (suc n) =
    ap suc (length-random_frames random (first + frame_size) n)

random_frames-IsFrame : (random : ℕ → ℕ) (first n : ℕ) → All IsFrame (random_frames random first n)
random_frames-IsFrame random first zero = tt
random_frames-IsFrame random first (suc n) = (
  length-random_bytes random first frame_size,
  random_frames-IsFrame random (first + frame_size) n,
)

load_video-gen_video :
    (random : ℕ → ℕ) → load_video (write_video (gen_video random)) ≡ gen_video random
unfolding gen_video
load_video-gen_video random =
    load_video-write_video (gen_video random) (random_frames-IsFrame random 0 (frame_rate * 12))

length-gen_video : (random : ℕ → ℕ) → length (gen_video random) ≡ 120
unfolding gen_video
length-gen_video random = length-random_frames random 0 (frame_rate * 12)

module _ {Time : Type 0} (pack_time : Time → Bytes) (unpack_time : Bytes → Option Time)
    (packing : IsPacking pack_time unpack_time) (sub : Time → Time → Time) (clock : ℕ → Time) where
  -- The video of the script lasts for 120 ticks of the broadcaster's timer: a broadcast of so many or
  -- fewer is sent whole, and the viewer, over a network that never cuts a header and with fuel for
  -- the frame size, counts every frame and measures its time.
  pub view-gen_video :
      (random : ℕ → ℕ) (fuel : ℕ) (ks : List ℕ) (ticks : List Time)
      → IsCoarse ks
      → length ticks ≤ 120
      → frame_size ≤ fuel
      → (out : Bytes) × (broadcast_generated pack_time random ticks ≡ sent out)
        × (view unpack_time sub clock (suc fuel) (sock ks out)
            ≡ viewed (length ticks) (latencies sub clock 0 ticks))
  unfolding gen_video
  view-gen_video random fuel ks ticks c le i =
      let frames = random_frames-IsFrame random 0 (frame_rate * 12) in
      let (out, sent_out, seen_out) =
        view-broadcast pack_time unpack_time packing sub clock fuel ks ticks (gen_video random) c
          frames (omega (arith, length-gen_video random)) (omega arith) i in
      (
        out,
        ap (λ v. broadcast pack_time v ticks) (load_video-gen_video random) ∙ sent_out,
        seen_out,
      )

  -- A broadcast of the script's video that is longer than 120 ticks raises an IndexError, and
  -- leaves the viewer hanging.
  pub view-gen_video_open :
      (random : ℕ → ℕ) (fuel : ℕ) (ks : List ℕ) (ticks later : List Time) (t : Time)
      → IsCoarse ks
      → length ticks ≡ 120
      → frame_size ≤ fuel
      → (out : Bytes) × (broadcast_generated pack_time random (ticks ++ t ∷ later)
          ≡ index_error out)
        × (view unpack_time sub clock (suc fuel) (sock ks out) ≡ watching)
  unfolding gen_video
  view-gen_video_open random fuel ks ticks later t c full i =
      let frames = random_frames-IsFrame random 0 (frame_rate * 12) in
      let (out, sent_out, seen_out) =
        view-broadcast_open pack_time unpack_time packing sub clock fuel ks (gen_video random) ticks
          later t c frames (full ∙ sym (length-gen_video random)) i in
      (
        out,
        ap (λ v. broadcast pack_time v (ticks ++ t ∷ later)) (load_video-gen_video random)
            ∙ sent_out,
        seen_out,
      )
