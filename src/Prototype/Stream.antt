-- ===== src/Prototype/Stream.antt =====
-- What the routines of the frame protocol read, however the network cuts the stream.
use p2p_livestreaming.Prelude.{
  ℕ, zero, suc, ◌≤◌, ◌≡◌, refl, sym, ap, ◌∙◌, List, [], ◌∷◌, ◌++◌, arith, length, Bytes, bytes_eq,
}
use p2p_livestreaming.Prototype.{
  frame_size, Sock, rest_sizes, recv, Awaited, begun, over, waiting, await_frame, Received, got,
  ended, spinning, checked, recv_content, recv_frame,
}
use p2p_livestreaming.Prototype.Sockets.{
  granted_one, IsCoarse, IsCoarse-rest_sizes, sock, await_frame-beg, await_frame-over,
  await_frame-end, Leaves, fill-step, fill-part, recv_header, content_of, recv_content-recv,
  checked_full,
}

-- Once the frame has begun: a header and a frame are read as they were sent.
recv_content-append :
    (fuel : ℕ) (ks : List ℕ) (header frame r : Bytes)
    → length header ≡ 8
    → length frame ≡ frame_size
    → frame_size ≤ suc fuel
    → IsCoarse ks
    → Leaves (recv_content fuel (sock ks (header ++ (frame ++ r)))) (got header frame) r
recv_content-append fuel ks header frame r h f le c =
    let (ks', c', e) =
      fill-part (suc fuel) (rest_sizes ks) [] frame r (omega arith) (omega arith)
        (IsCoarse-rest_sizes ks c) in
    (
      ks',
      c',
      recv_content-recv fuel (sock ks (header ++ (frame ++ r)))
          ∙ ap (content_of fuel) (recv_header ks header (frame ++ r) h c)
          ∙ ap (checked header)
              (sym (fill-step fuel [] (sock (rest_sizes ks) (frame ++ r)) (omega arith)) ∙ e)
          ∙ checked_full header frame (sock ks' r) f,
    )

abbrev pub received : ℕ → Awaited → Received
received fuel waiting = spinning
received fuel (over s) = ended s
received fuel (begun s) = recv_content fuel s

pub recv_frame-await :
    (fuel : ℕ) (s : Sock) → recv_frame fuel s ≡ received fuel (await_frame fuel s)
unfolding recv_frame
recv_frame-await fuel s = elim (await_frame fuel s) [
  | waiting ↦ refl
  | over s₁ ↦ refl
  | begun s₁ ↦ refl
]

-- The control byte of the frame before is skipped.
pub data Gap : Bytes → Type 0 where
  none_before : Gap []
  end_before : Gap (2 ∷ [])

pub await_frame-Gap :
    (fuel : ℕ) (ks : List ℕ) (gap r : Bytes)
    → Gap gap
    → IsCoarse ks
    → (b : ℕ) (f : Sock → Awaited)
    → ((n : ℕ) (js : List ℕ) → await_frame (suc n) (sock js (b ∷ r)) ≡ f (sock (rest_sizes js) r))
    → Leaves (await_frame (suc (suc fuel)) (sock ks (gap ++ (b ∷ r)))) f r
await_frame-Gap fuel ks _ r none_before c b f h =
    (rest_sizes ks, IsCoarse-rest_sizes ks c, h (suc fuel) ks)
await_frame-Gap fuel ks _ r end_before c b f h = (
  rest_sizes (rest_sizes ks),
  IsCoarse-rest_sizes (rest_sizes ks) (IsCoarse-rest_sizes ks c),
  await_frame-end (suc fuel) ks (b ∷ r) ∙ h fuel (rest_sizes ks),
)

-- A frame of the sender is received whole, however the network cuts it behind the header.
pub recv_frame-frame :
    (fuel : ℕ) (ks : List ℕ) (gap header frame r : Bytes)
    → Gap gap
    → length header ≡ 8
    → length frame ≡ frame_size
    → frame_size ≤ fuel
    → IsCoarse ks
    → Leaves
        (recv_frame (suc fuel) (sock ks (gap ++ (1 ∷ (header ++ (frame ++ r))))))
        (got header frame)
        r
recv_frame-frame zero ks gap header frame r g h f le c = absurd (omega arith)
recv_frame-frame (suc fuel) ks gap header frame r g h f le c =
    let (ks₁, c₁, e₁) =
      await_frame-Gap fuel ks gap (header ++ (frame ++ r)) g c 1 begun
        (λ n js. await_frame-beg n js (header ++ (frame ++ r))) in
    let (ks₂, c₂, e₂) =
      recv_content-append (suc (suc fuel)) ks₁ header frame r h f (omega arith) c₁ in
    (
      ks₂,
      c₂,
      recv_frame-await (suc (suc fuel)) (sock ks (gap ++ (1 ∷ (header ++ (frame ++ r)))))
          ∙ ap (received (suc (suc fuel))) e₁
          ∙ e₂,
    )

-- The end of the broadcast is recognised.
pub recv_frame-over :
    (fuel : ℕ) (ks : List ℕ) (gap r : Bytes)
    → Gap gap
    → IsCoarse ks
    → Leaves (recv_frame (suc (suc fuel)) (sock ks (gap ++ (4 ∷ r)))) ended r
recv_frame-over fuel ks gap r g c =
    let (ks₁, c₁, e₁) =
      await_frame-Gap fuel ks gap r g c 4 over (λ n js. await_frame-over n js r) in
    (
      ks₁,
      c₁,
      recv_frame-await (suc (suc fuel)) (sock ks (gap ++ (4 ∷ r)))
          ∙ ap (received (suc (suc fuel))) e₁,
    )

await_frame_closed : (fuel : ℕ) (ks : List ℕ) → await_frame fuel (sock ks []) ≡ waiting
unfolding await_frame recv bytes_eq
await_frame_closed zero ks = refl
await_frame_closed (suc fuel) ks = rw (granted_one ks) (await_frame_closed fuel (rest_sizes ks))

-- A receiver never notices that the connection is closed between two frames: whatever the fuel, the
-- wait for the next frame has not ended.
pub recv_frame_closed : (fuel : ℕ) (ks : List ℕ) → recv_frame fuel (sock ks []) ≡ spinning
recv_frame_closed fuel ks =
    recv_frame-await fuel (sock ks []) ∙ ap (received fuel) (await_frame_closed fuel ks)
