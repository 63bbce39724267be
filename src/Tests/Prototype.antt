-- ===== src/Tests/Prototype.antt =====
-- The prototype on a broadcast of one frame.
use p2p_livestreaming.Prelude.{
  ℕ, suc, ◌-◌, ◌%◌, ◌==◌, if◌then◌else◌, length, ◌≡◌, refl, Option, none, some, List, [], ◌∷◌,
  arith, All, Bytes, length-replicate, replicate,
}
use p2p_livestreaming.Prototype.{frame_size}
use p2p_livestreaming.Prototype.Sockets.{sock}
use p2p_livestreaming.Prototype.Broadcaster.{sent, index_error, broadcast}
use p2p_livestreaming.Prototype.Wire.{IsPacking, IsFrame}
use p2p_livestreaming.Prototype.Viewer.{viewed, watching, raised, struct_error, view}
use p2p_livestreaming.Prototype.Overrun.{view-broadcast_open}
use p2p_livestreaming.Prototype.HeaderCut.{view-header_cut}
use p2p_livestreaming.Prototype.Video.{broadcast_generated, view-gen_video}
use p2p_livestreaming.Prototype.CdnServer.{CdnServer, served, run}
use p2p_livestreaming.Prototype.Relay.{view-run}

-- Times of one byte, and seven more bytes.
abbrev pack : ℕ → Bytes
pack t = t ∷ replicate 7 0

abbrev unpack : Bytes → Option ℕ
unpack [] = none
unpack (t ∷ _) = some t

abbrev since : ℕ → ℕ → ℕ
since a b = a - b

abbrev later : ℕ → ℕ
later n = 9

pack-IsPacking : IsPacking pack unpack
pack-IsPacking = record { eight = λ t. refl; reads = λ t. refl }

abbrev film : List Bytes
film = replicate frame_size 7 ∷ []

film-IsFrame : All IsFrame film
film-IsFrame = (length-replicate {A = ℕ} frame_size 7, tt)

view-run_example :
    (out : Bytes) × (server : CdnServer) × (broadcast pack film (5 ∷ []) ≡ sent out)
    × (run pack unpack later (suc 20000) (sock [] out) ≡ served server)
    × (view unpack since later (suc 20000) (sock [] server.pushed) ≡ viewed 1 (0 ∷ []))
view-run_example =
    view-run pack unpack pack-IsPacking later since later 20000 [] [] (5 ∷ []) film tt tt
      film-IsFrame (omega arith) (omega arith) (omega arith)

-- A timer that ticks twice for a video of one frame.
view-broadcast_open_example :
    (out : Bytes) × (broadcast pack film (5 ∷ 6 ∷ []) ≡ index_error out)
    × (view unpack since later (suc 20000) (sock (1500 ∷ []) out) ≡ watching)
view-broadcast_open_example =
    view-broadcast_open pack unpack pack-IsPacking since later 20000 (1500 ∷ []) film (5 ∷ []) [] 6
      (omega arith, tt) film-IsFrame refl (omega arith)

view-gen_video_example :
    (out : Bytes) × (broadcast_generated pack (λ n. n % 256) (5 ∷ 6 ∷ []) ≡ sent out)
    × (view unpack since later (suc 20000) (sock (1500 ∷ []) out) ≡ viewed 2 (4 ∷ 3 ∷ []))
view-gen_video_example =
    view-gen_video pack unpack pack-IsPacking since later (λ n. n % 256) 20000 (1500 ∷ [])
      (5 ∷ 6 ∷ []) (omega arith, tt) (omega arith) (omega arith)

-- `struct.unpack` of a time that needs all 8 bytes.
abbrev unpack_whole : Bytes → Option ℕ
unpack_whole s = if length s == 8 then unpack s else none

unpack_whole-IsPacking : IsPacking pack unpack_whole
unpack_whole-IsPacking = record { eight = λ t. refl; reads = λ t. refl }

view-header_cut_example :
    (out : Bytes) × (broadcast pack film (5 ∷ []) ≡ sent out)
    × (view unpack_whole since later (suc 20000) (sock (0 ∷ 0 ∷ 3 ∷ []) out)
        ≡ raised struct_error [])
view-header_cut_example =
    view-header_cut pack unpack_whole unpack_whole-IsPacking since later 20000 0 0 3 [] 5 []
      (replicate frame_size 7) [] (λ h lt. ground arith) (omega arith) tt (film-IsFrame.0)
      (omega arith) (omega arith)
