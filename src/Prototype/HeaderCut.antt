-- ===== src/Prototype/HeaderCut.antt =====
-- A network that cuts the header of a frame: the one `recv` of the header gets a part of it, and the
-- viewer of the prototype cannot read the time in it.
use p2p_livestreaming.Prelude.{
  ℕ, suc, ◌≤◌, ◌<◌, ◌≡◌, sym, ap, ◌∙◌, Option, none, some, List, [], ◌∷◌, ◌++◌, arith, length, take,
  drop, length-take, length-append, take-append-drop, Bytes,
}
use p2p_livestreaming.Prototype.{frame_size, Sock, granted, recv, fill, got, checked, recv_content}
use p2p_livestreaming.Prototype.Sockets.{
  sock, IsCoarse, Leaves, recv_one, recv-append, fill_from, fill-step, fill-part, content_of,
  recv_content-recv, checked_full, await_frame-beg,
}
use p2p_livestreaming.Prototype.Stream.{received, recv_frame-await}
use p2p_livestreaming.Prototype.Broadcaster.{sent, broadcast}
use p2p_livestreaming.Prototype.Wire.{IsPacking, IsFrame, frames_from, broadcast-frames_from}
use p2p_livestreaming.Prototype.Viewer.{raised, struct_error, view}
use p2p_livestreaming.Prototype.EndToEnd.{
  seen, timed, timed-none, view_loop-seen, opened, view-opened, opened_beg,
}

-- What `recv` gives of a header when it hands over `suc k` bytes of it.
recv_cut :
    (k : ℕ) (ks : List ℕ) (header r : Bytes)
    → length header ≡ 8
    → k < 7
    → recv 8 (sock (k ∷ ks) (header ++ r))
      ≡ (take (suc k) header, sock ks (drop (suc k) header ++ r))
recv_cut k ks header r h lt =
    ap (λ n. recv n (sock (k ∷ ks) (header ++ r))) (sym h)
    ∙ recv-append (k ∷ ks) header r
    ∙ ap (λ n. (take n header, sock ks (drop n header ++ r))) {x = granted (length header) (k ∷ ks)}
        {y = suc k} (omega arith)

-- A frame is filled up from whatever follows.
fill_whole :
    (fuel : ℕ) (ks : List ℕ) (s : Bytes)
    → frame_size ≤ length s
    → frame_size ≤ fuel
    → IsCoarse ks
    → Leaves
        (fill_from fuel [] (recv frame_size (sock ks s)))
        (λ s₁. some (take frame_size s, s₁))
        (drop frame_size s)
fill_whole fuel ks s le enough c =
    let (ks₁, c₁, e₁) =
      fill-part (suc fuel) ks [] (take frame_size s) (drop frame_size s)
        (omega (arith, length-take frame_size s)) (omega (arith, length-take frame_size s)) c in
    (
      ks₁,
      c₁,
      sym (fill-step fuel [] (sock ks s) (omega arith))
          ∙ ap (λ v. fill (suc fuel) [] (sock ks v)) (sym (take-append-drop frame_size s))
          ∙ e₁,
    )

recv_content-cut :
    (fuel k : ℕ) (ks : List ℕ) (header frame r : Bytes)
    → length header ≡ 8
    → IsFrame frame
    → k < 7
    → frame_size ≤ fuel
    → IsCoarse ks
    → (s : Sock) × (content : Bytes) × (recv_content fuel (sock (k ∷ ks) (header ++ (frame ++ r)))
        ≡ got (take (suc k) header) content s)
recv_content-cut fuel k ks header frame r h f lt enough c =
    let s = drop (suc k) header ++ (frame ++ r) in
    let long : frame_size ≤ length s =
      omega (arith, length-append (drop (suc k) header) (frame ++ r), length-append frame r) in
    let (ks₁, c₁, e₁) = fill_whole fuel ks s long enough c in
    (
      sock ks₁ (drop frame_size s),
      take frame_size s,
      recv_content-recv fuel (sock (k ∷ ks) (header ++ (frame ++ r)))
          ∙ ap (content_of fuel) (recv_cut k ks header (frame ++ r) h lt)
          ∙ ap (checked (take (suc k) header)) e₁
          ∙ checked_full (take (suc k) header) (take frame_size s) (sock ks₁ (drop frame_size s))
              (omega (arith, length-take frame_size s)),
    )

module _ {Time : Type 0} (pack_time : Time → Bytes) (unpack_time : Bytes → Option Time)
    (packing : IsPacking pack_time unpack_time) (sub : Time → Time → Time) (clock : ℕ → Time) where
  -- A network that hands over fewer than the 8 bytes of the first header, and then never less than 8,
  -- makes the viewer of a broadcast raise `struct.error`, if `struct.unpack` raises it on fewer than 8
  -- bytes: no frame is counted, although the broadcast was sent whole. The video has enough frames,
  -- the first has the frame size, and there is fuel for the frame size.
  pub view-header_cut :
      (fuel a b k : ℕ) (ks : List ℕ) (t : Time) (ticks : List Time) (frame : Bytes)
      (video : List Bytes)
      → ((h : Bytes) → length h < 8 → unpack_time h ≡ none)
      → k < 7
      → IsCoarse ks
      → IsFrame frame
      → length ticks ≤ length video
      → frame_size ≤ fuel
      → (out : Bytes) × (broadcast pack_time (frame ∷ video) (t ∷ ticks) ≡ sent out)
        × (view unpack_time sub clock (suc fuel) (sock (a ∷ b ∷ k ∷ ks) out)
            ≡ raised struct_error [])
  view-header_cut fuel a b k ks t ticks frame video short lt c f le enough =
      let r = 2 ∷ frames_from pack_time ticks video in
      let content = pack_time t ++ (frame ++ r) in
      let (s, got_frame, e) =
        recv_content-cut (suc fuel) k ks (pack_time t) frame r (packing.eight t) f lt (omega arith)
          c in
      (
        3 ∷ frames_from pack_time (t ∷ ticks) (frame ∷ video),
        broadcast-frames_from pack_time (frame ∷ video) (t ∷ ticks) (omega arith),
        view-opened pack_time unpack_time packing sub clock (suc fuel)
              (sock (a ∷ b ∷ k ∷ ks) (3 ∷ (1 ∷ content)))
            ∙ ap (opened pack_time unpack_time packing sub clock (suc fuel))
                (recv_one (a ∷ b ∷ k ∷ ks) 3 (1 ∷ content))
            ∙ opened_beg pack_time unpack_time packing sub clock (suc fuel)
                (sock (b ∷ k ∷ ks) (1 ∷ content))
            ∙ view_loop-seen pack_time unpack_time packing sub clock fuel (suc fuel) 0 []
                (sock (b ∷ k ∷ ks) (1 ∷ content))
            ∙ ap (seen pack_time unpack_time packing sub clock fuel (suc fuel) 0 []) (
                recv_frame-await (suc fuel) (sock (b ∷ k ∷ ks) (1 ∷ content))
                ∙ ap (received (suc fuel)) (await_frame-beg fuel (b ∷ k ∷ ks) content)
                ∙ e)
            ∙ ap (timed pack_time unpack_time packing sub clock fuel (suc fuel) 0 [] s) (
                short (take (suc k) (pack_time t))
                  (omega (arith, length-take (suc k) (pack_time t))))
            ∙ timed-none pack_time unpack_time packing sub clock fuel (suc fuel) 0 [] s,
      )
