-- ===== src/Prototype/Sockets.antt =====
-- What `recv` gives of a stream and how a frame is filled up, however the network cuts the stream.
use p2p_livestreaming.Prelude.{
  ℕ, zero, suc, ◌+◌, ◌-◌, ◌≤◌, ◌<◌, ◌≡◌, refl, sym, ap, ◌∙◌, Option, some, List, [], ◌∷◌, ◌++◌,
  arith, All, lt→ltb, length, take, drop, length-append, take-append_length, drop-append_length,
  length-take, length-drop, take-append-drop, Bytes, bytes_eq, append_nil,
}
use mathlib.Core.List.{append_assoc}
use p2p_livestreaming.Prototype.{
  frame_size, Sock, rest_sizes, granted, recv, begun, over, await_frame, fill, Received, got,
  checked, recv_content,
}

-- The network never cuts a header: each call hands over 8 bytes or more, if so many are asked for
-- and there.
abbrev pub IsCoarse : List ℕ → Type 0
IsCoarse = All (λ k. 7 ≤ k)

pub IsCoarse-rest_sizes : (ks : List ℕ) → IsCoarse ks → IsCoarse (rest_sizes ks)
IsCoarse-rest_sizes [] h = tt
IsCoarse-rest_sizes (k ∷ ks) h = h.1

take-append : (n : ℕ) (xs ys : Bytes) → n ≤ length xs → take n (xs ++ ys) ≡ take n xs
take-append zero xs ys h = refl
take-append (suc n) [] ys h = absurd (omega arith)
take-append (suc n) (x ∷ xs) ys h = ap (◌∷◌ x) (take-append n xs ys (omega arith))

drop-append : (n : ℕ) (xs ys : Bytes) → n ≤ length xs → drop n (xs ++ ys) ≡ drop n xs ++ ys
drop-append zero xs ys h = refl
drop-append (suc n) [] ys h = absurd (omega arith)
drop-append (suc n) (x ∷ xs) ys h = drop-append n xs ys (omega arith)

granted-le : (n : ℕ) (ks : List ℕ) → granted n ks ≤ n
granted-le n [] = omega arith
granted-le n (k ∷ ks) = omega arith

granted-pos : (n : ℕ) (ks : List ℕ) → 1 ≤ n → 1 ≤ granted n ks
granted-pos n [] h = h
granted-pos n (k ∷ ks) h = omega arith

pub granted_one : (ks : List ℕ) → granted 1 ks ≡ 1
granted_one [] = refl
granted_one (k ∷ ks) = omega arith

granted_header : (ks : List ℕ) → IsCoarse ks → granted 8 ks ≡ 8
granted_header [] h = refl
granted_header (k ∷ ks) h = omega (arith, h.0)

abbrev pub sock : List ℕ → Bytes → Sock
sock ks s = record { sizes = ks; stream = s }

-- What `recv` gives of a stream that starts with as many bytes as are asked for.
pub recv-append :
    (ks : List ℕ) (part r : Bytes)
    → recv (length part) (sock ks (part ++ r)) ≡ (
      take (granted (length part) ks) part,
      sock (rest_sizes ks) (drop (granted (length part) ks) part ++ r),
    )
unfolding recv
recv-append ks part r =
    rw
      (
        take-append (granted (length part) ks) part r (granted-le (length part) ks),
        drop-append (granted (length part) ks) part r (granted-le (length part) ks),
      )
      refl

pub recv_one :
    (ks : List ℕ) (b : ℕ) (r : Bytes) → recv 1 (sock ks (b ∷ r)) ≡ (b ∷ [], sock (rest_sizes ks) r)
unfolding recv
recv_one ks b r = rw (granted_one ks) refl

pub await_frame-beg :
    (fuel : ℕ) (ks : List ℕ) (r : Bytes)
    → await_frame (suc fuel) (sock ks (1 ∷ r)) ≡ begun (sock (rest_sizes ks) r)
unfolding await_frame recv bytes_eq
await_frame-beg fuel ks r = rw (granted_one ks) refl

pub await_frame-over :
    (fuel : ℕ) (ks : List ℕ) (r : Bytes)
    → await_frame (suc fuel) (sock ks (4 ∷ r)) ≡ over (sock (rest_sizes ks) r)
unfolding await_frame recv bytes_eq
await_frame-over fuel ks r = rw (granted_one ks) refl

pub await_frame-end :
    (fuel : ℕ) (ks : List ℕ) (r : Bytes)
    → await_frame (suc fuel) (sock ks (2 ∷ r)) ≡ await_frame fuel (sock (rest_sizes ks) r)
unfolding await_frame recv bytes_eq
await_frame-end fuel ks r = rw (granted_one ks) refl

-- The outcome of a read that leaves `r` in a stream that is still coarse.
abbrev pub Leaves {ℓ} : {A : Type ℓ} → A → (Sock → A) → Bytes → Type ℓ
Leaves x f r = (ks : List ℕ) × IsCoarse ks × (x ≡ f (sock ks r))

abbrev pub fill_from : ℕ → Bytes → Bytes × Sock → Option (Bytes × Sock)
fill_from fuel frame (more, s) = fill fuel (frame ++ more) s

pub fill-step :
    (fuel : ℕ) (frame : Bytes) (s : Sock)
    → length frame < frame_size
    → fill (suc fuel) frame s ≡ fill_from fuel frame (recv (frame_size - length frame) s)
unfolding fill
fill-step fuel frame s lt = rw (lt→ltb (length frame) frame_size lt) refl

fill_full :
    (fuel : ℕ) (frame : Bytes) (s : Sock)
    → length frame ≡ frame_size
    → fill fuel frame s ≡ some (frame, s)
unfolding fill
fill_full zero frame s full = ground arith
fill_full (suc fuel) frame s full = ground arith

pub fill-part :
    (fuel : ℕ) (ks : List ℕ) (frame part r : Bytes)
    → length frame + length part ≡ frame_size
    → length part ≤ fuel
    → IsCoarse ks
    → Leaves (fill fuel frame (sock ks (part ++ r))) (λ s. some (frame ++ part, s)) r
fill-part fuel ks frame [] r total le c =
    (ks, c, rw (append_nil frame) (fill_full fuel frame (sock ks r) (omega arith)))
fill-part zero ks frame (b ∷ part) r total le c = absurd (omega arith)
fill-part (suc fuel) ks frame (b ∷ part) r total le c =
    let whole = b ∷ part in
    let n = granted (length whole) ks in
    let pos = granted-pos (length whole) ks (omega arith) in
    let below = granted-le (length whole) ks in
    let (ks', c', e) =
      fill-part fuel (rest_sizes ks) (frame ++ take n whole) (drop n whole) r
        (omega
          (arith, length-append frame (take n whole), length-take n whole, length-drop n whole))
        (omega (arith, length-drop n whole)) (IsCoarse-rest_sizes ks c) in
    (
      ks',
      c',
      fill-step fuel frame (sock ks (whole ++ r)) (omega arith)
          ∙ ap (λ m. fill_from fuel frame (recv m (sock ks (whole ++ r))))
              {x = frame_size - length frame} {y = length whole} (omega arith)
          ∙ ap (fill_from fuel frame) (recv-append ks whole r)
          ∙ e
          ∙ ap (λ f. some (f, sock ks' r))
              (append_assoc frame (take n whole) (drop n whole)
                ∙ ap (λ v. frame ++ v) (take-append-drop n whole)),
    )

pub recv_header :
    (ks : List ℕ) (header r : Bytes)
    → length header ≡ 8
    → IsCoarse ks
    → recv 8 (sock ks (header ++ r)) ≡ (header, sock (rest_sizes ks) r)
unfolding recv
recv_header ks header r h c =
    ap (λ n. (take n (header ++ r), sock (rest_sizes ks) (drop n (header ++ r))))
      (granted_header ks c ∙ sym h)
    ∙ rw (take-append_length header r, drop-append_length header r) refl

abbrev pub content_of : ℕ → Bytes × Sock → Received
content_of fuel (header, s) = checked header (fill_from fuel [] (recv frame_size s))

pub recv_content-recv : (fuel : ℕ) (s : Sock) → recv_content fuel s ≡ content_of fuel (recv 8 s)
unfolding recv_content
recv_content-recv fuel s = refl

pub checked_full :
    (header frame : Bytes) (s : Sock)
    → length frame ≡ frame_size
    → checked header (some (frame, s)) ≡ got header frame s
checked_full header frame s f = ground arith
