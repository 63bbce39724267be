-- ===== src/Prototype/EndToEnd.antt =====
-- A broadcast of the prototype on its way to the viewer.
use mathlib.Core.List.{append_assoc}
use p2p_livestreaming.Prelude.{
  ℕ, zero, suc, ◌+◌, ◌≤◌, ◌<◌, ◌≡◌, refl, ap, ◌∙◌, Option, none, some, List, [], ◌∷◌, ◌++◌, arith,
  All, length, if◌then◌else◌, Bytes, bytes_eq, append_nil,
}
use p2p_livestreaming.Prototype.{
  bcast_beg, frame_size, Sock, rest_sizes, recv, recv_frame, Received, got, ended, spinning,
  assertion_error,
}
use p2p_livestreaming.Prototype.Sockets.{sock, IsCoarse, IsCoarse-rest_sizes, recv_one}
use p2p_livestreaming.Prototype.Stream.{
  Gap, none_before, end_before, recv_frame-frame, recv_frame-over,
}
use p2p_livestreaming.Prototype.Broadcaster.{sent, broadcast}
use p2p_livestreaming.Prototype.Wire.{IsPacking, IsFrame, frames_from, broadcast-frames_from}
use p2p_livestreaming.Prototype.Viewer.{
  View, viewed, raised, watching, struct_error, assertion_failed, view_loop, view,
}

-- The latencies that the viewer measures, from the count of frames on.
abbrev pub latencies :
    {Time : Type 0} → (Time → Time → Time) → (ℕ → Time) → ℕ → List Time → List Time
latencies sub clock n [] = []
latencies sub clock n (t ∷ ts) = sub (clock n) t ∷ latencies sub clock (suc n) ts

module _ {Time : Type 0} (pack_time : Time → Bytes) (unpack_time : Bytes → Option Time)
    (packing : IsPacking pack_time unpack_time) where
  module _ (sub : Time → Time → Time) (clock : ℕ → Time) where
    pub timed : (fuel inner n : ℕ) → List Time → Sock → Option Time → View Time
    timed fuel inner n ms s none = raised struct_error ms
    timed fuel inner n ms s (some t) =
        view_loop unpack_time sub clock fuel inner (suc n) (ms ++ sub (clock n) t ∷ []) s

    abbrev pub seen : (fuel inner n : ℕ) → List Time → Received → View Time
    seen fuel inner n ms spinning = watching
    seen fuel inner n ms assertion_error = raised assertion_failed ms
    seen fuel inner n ms (ended s) = viewed n ms
    seen fuel inner n ms (got header frame s) = timed fuel inner n ms s (unpack_time header)

    pub view_loop-seen :
        (fuel inner n : ℕ) (ms : List Time) (s : Sock)
        → view_loop unpack_time sub clock (suc fuel) inner n ms s
          ≡ seen fuel inner n ms (recv_frame inner s)
    unfolding view_loop timed
    view_loop-seen fuel inner n ms s = elim (recv_frame inner s) [
      | spinning ↦ refl
      | assertion_error ↦ refl
      | ended _ ↦ refl
      | got header _ _ ↦ elim (unpack_time header) [ none ↦ refl | some t ↦ refl ]
    ]

    pub timed-some :
        (fuel inner n : ℕ) (ms : List Time) (t : Time) (s : Sock)
        → timed fuel inner n ms s (some t)
          ≡ view_loop unpack_time sub clock fuel inner (suc n) (ms ++ sub (clock n) t ∷ []) s
    unfolding timed
    timed-some fuel inner n ms t s = refl

    pub timed-none :
        (fuel inner n : ℕ) (ms : List Time) (s : Sock)
        → timed fuel inner n ms s none ≡ raised struct_error ms
    unfolding timed
    timed-none fuel inner n ms s = refl

    view_loop-frames_from :
        (fuel inner : ℕ) (ks : List ℕ) (gap : Bytes) (n : ℕ) (ms ts : List Time)
        (video : List Bytes)
        → Gap gap
        → IsCoarse ks
        → All IsFrame video
        → length ts ≤ length video
        → length ts < fuel
        → frame_size ≤ inner
        → view_loop unpack_time sub clock fuel
            (suc inner)
            n
            ms
            (sock ks (gap ++ frames_from pack_time ts video))
          ≡ viewed (n + length ts) (ms ++ latencies sub clock n ts)
    view_loop-frames_from zero inner ks gap n ms ts video g c h le lt i = absurd (omega arith)
    view_loop-frames_from (suc fuel) zero ks gap n ms ts video g c h le lt i = absurd (omega arith)
    view_loop-frames_from (suc fuel) (suc inner) ks gap n ms [] video g c h le lt i =
        let (ks', c', e) = recv_frame-over inner ks gap [] g c in
        view_loop-seen fuel (suc (suc inner)) n ms (sock ks (gap ++ (4 ∷ [])))
        ∙ ap (seen fuel (suc (suc inner)) n ms) e
        ∙ rw (append_nil ms) (ap (λ k. viewed k ms) (omega arith))
    view_loop-frames_from (suc fuel) inner ks gap n ms (t ∷ ts) [] g c h le lt i =
        absurd (omega arith)
    view_loop-frames_from (suc fuel) (suc inner) ks gap n ms (t ∷ ts) (frame ∷ video) g c h le lt
          i =
        let r = 2 ∷ frames_from pack_time ts video in
        let (ks', c', e) =
          recv_frame-frame (suc inner) ks gap (pack_time t) frame r g (packing.eight t) h.0 i c in
        view_loop-seen fuel (suc (suc inner)) n ms
          (sock ks (gap ++ (1 ∷ (pack_time t ++ (frame ++ r)))))
        ∙ ap (seen fuel (suc (suc inner)) n ms) e
        ∙ ap (timed fuel (suc (suc inner)) n ms (sock ks' r)) (packing.reads t)
        ∙ timed-some fuel (suc (suc inner)) n ms t (sock ks' r)
        ∙ view_loop-frames_from fuel (suc inner) ks' (2 ∷ []) (suc n) (ms ++ sub (clock n) t ∷ [])
            ts video end_before c' h.1 (omega arith) (omega arith) i
        ∙ ap (λ k. viewed k ((ms ++ sub (clock n) t ∷ []) ++ latencies sub clock (suc n) ts))
            {x = suc n + length ts} {y = n + suc (length ts)} (omega arith)
        ∙ ap (viewed (n + suc (length ts)))
            (append_assoc ms (sub (clock n) t ∷ []) (latencies sub clock (suc n) ts))

    abbrev pub opened : ℕ → Bytes × Sock → View Time
    opened fuel (msg, s) =
        if bytes_eq msg bcast_beg
        then view_loop unpack_time sub clock fuel fuel 0 [] s
        else raised assertion_failed []

    pub view-opened :
        (fuel : ℕ) (s : Sock) → view unpack_time sub clock fuel s ≡ opened fuel (recv 1 s)
    unfolding view
    view-opened fuel s = refl

    pub opened_beg :
        (fuel : ℕ) (s : Sock)
        → opened fuel (bcast_beg, s) ≡ view_loop unpack_time sub clock fuel fuel 0 [] s
    unfolding bytes_eq
    opened_beg fuel s = refl

    -- A viewer to which a whole broadcast is on its way, over a network that never cuts a header,
    -- with frames of the frame size and enough of them in the video,
    -- finishes with fuel for the frame size and the number of frames: it counts every frame and
    -- measures for each the time between its header and its arrival.
    pub view-broadcast :
        (fuel : ℕ) (ks : List ℕ) (ticks : List Time) (video : List Bytes)
        → IsCoarse ks
        → All IsFrame video
        → length ticks ≤ length video
        → length ticks ≤ fuel
        → frame_size ≤ fuel
        → (out : Bytes) × (broadcast pack_time video ticks ≡ sent out)
          × (view unpack_time sub clock (suc fuel) (sock ks out)
              ≡ viewed (length ticks) (latencies sub clock 0 ticks))
    view-broadcast fuel ks ticks video c h le lt i = (
      3 ∷ frames_from pack_time ticks video,
      broadcast-frames_from pack_time video ticks le,
      view-opened (suc fuel) (sock ks (3 ∷ frames_from pack_time ticks video))
          ∙ ap (opened (suc fuel)) (recv_one ks 3 (frames_from pack_time ticks video))
          ∙ opened_beg (suc fuel) (sock (rest_sizes ks) (frames_from pack_time ticks video))
          ∙ view_loop-frames_from (suc fuel) fuel (rest_sizes ks) [] 0 [] ticks video none_before
              (IsCoarse-rest_sizes ks c) h le (omega arith) i
          ∙ ap (λ k. viewed k (latencies sub clock 0 ticks)) {x = 0 + length ticks} (omega arith),
    )
