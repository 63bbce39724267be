-- ===== src/Prototype/Broadcaster.antt =====
-- prototype/hosts/broadcaster.py, and prototype/utils/gen-video.py, which writes the video file. What
-- is sent on the socket is one byte stream; the timer is the list of the times at which the wait for
-- it ran out. `pack_time` is `struct.pack('!d')`.
use p2p_livestreaming.Prelude.{
  ℕ, zero, suc, Option, none, some, List, [], ◌∷◌, ◌++◌, get_elem?, length, take, drop, Bytes,
}
use p2p_livestreaming.Prototype.{
  get_timestamp, frame_size, frame_beg, frame_end, bcast_beg, bcast_end,
}

-- `fvideo.write(frame)` for every frame.
unfoldable pub write_video : List Bytes → Bytes
write_video [] = []
write_video (frame ∷ video) = frame ++ write_video video

-- The reading loop of `__init__`, on what is left of the file.
unfoldable pub load_frames : ℕ → Bytes → List Bytes
load_frames zero file = []
load_frames (suc fuel) file =
    let rest = load_frames fuel (drop frame_size file) in
    elim (take frame_size file) [ [] ↦ [] | b ∷ frame ↦ (b ∷ frame) ∷ rest ]

-- `__init__`: `self.video`
unfoldable pub load_video : Bytes → List Bytes
unfolding load_frames
load_video file = load_frames (length file) file

-- What was sent, also where `video[frame_idx]` raised an IndexError.
pub data Sending : Type 0 where
  sent : Bytes → Sending
  index_error : Bytes → Sending

infixl 5 ◌>>=◌
abbrev pub ◌>>=◌ : Sending → (Bytes → Sending) → Sending
sent out >>= f = f out
index_error out >>= f = index_error out

module _ {Time : Type 0} (pack_time : Time → Bytes) (video : List Bytes) where
  -- `_send_frame`
  unfoldable pub send_frame : Time → ℕ → Bytes → Sending
  send_frame now frame_idx out = elim (get_elem? video frame_idx) [
    | none ↦ index_error (out ++ frame_beg)
    | some frame ↦
        sent (out ++ (frame_beg ++ ((get_timestamp pack_time now ++ frame) ++ frame_end)))
  ]

  unfoldable pub send_frames : List Time → ℕ → Bytes → Sending
  unfolding send_frame
  send_frames [] frame_idx out = sent (out ++ bcast_end)
  send_frames (now ∷ ticks) frame_idx out = do
    out' ← send_frame now frame_idx out
    send_frames ticks (suc frame_idx) out'

  -- `broadcast`
  unfoldable pub broadcast : List Time → Sending
  unfolding send_frames
  broadcast ticks = send_frames ticks 0 bcast_beg

-- The main block, on the arguments behind the script's name and on the file `video.data`; `none` is a
-- failed assertion on their number or a port that `int` rejects. The timer of 10 seconds is `ticks`.
unfoldable pub main :
    {Time : Type 0}
    → (Time → Bytes)
    → (int : Bytes → Option ℕ) → (file : Bytes) → List Time
    → (args : List Bytes) → Option Sending
unfolding broadcast load_video
main pack_time int file ticks (host ∷ port ∷ []) = elim (int port) [
  | none ↦ none
  | some _ ↦ some (broadcast pack_time (load_video file) ticks)
]
main pack_time int file ticks _ = none
