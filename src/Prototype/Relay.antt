-- ===== src/Prototype/Relay.antt =====
-- The CDN server of the prototype between the broadcaster and the viewer.
use p2p_livestreaming.Prelude.{
  ℕ, suc, ◌≤◌, ◌≡◌, sym, ap, ◌∙◌, Option, List, arith, All, length, take, Bytes,
}
use p2p_livestreaming.Prototype.{frame_size}
use p2p_livestreaming.Prototype.Sockets.{sock, IsCoarse}
use p2p_livestreaming.Prototype.Broadcaster.{Sending, sent, index_error, broadcast}
use p2p_livestreaming.Prototype.Wire.{IsPacking, IsFrame}
use p2p_livestreaming.Prototype.Viewer.{viewed, view}
use p2p_livestreaming.Prototype.EndToEnd.{latencies, view-broadcast}
use p2p_livestreaming.Prototype.CdnServer.{CdnServer, served, run}
use p2p_livestreaming.Prototype.Serve.{stamps, server, length-stamps, run-broadcast}

abbrev out_of : Sending → Bytes
out_of (sent out) = out
out_of (index_error out) = out

module _ {Time : Type 0} (pack_time : Time → Bytes) (unpack_time : Bytes → Option Time)
    (packing : IsPacking pack_time unpack_time) (clock : ℕ → Time) where
  -- Behind the CDN server, too, over networks that never cut a header, with frames of the frame size,
  -- enough of them in the video, and fuel for the frame size and the number of frames, the viewer
  -- finishes and counts every frame that the broadcaster sent; what it measures for each is the time
  -- since the CDN server pushed it.
  pub view-run :
      (sub : Time → Time → Time) (viewer_clock : ℕ → Time) (fuel : ℕ) (ks js : List ℕ)
      (ticks : List Time) (video : List Bytes)
      → IsCoarse ks
      → IsCoarse js
      → All IsFrame video
      → length ticks ≤ length video
      → length ticks ≤ fuel
      → frame_size ≤ fuel
      → (out : Bytes) × (server : CdnServer) × (broadcast pack_time video ticks ≡ sent out)
        × (run pack_time unpack_time clock (suc fuel) (sock ks out) ≡ served server)
        × (view unpack_time sub viewer_clock (suc fuel) (sock js server.pushed)
            ≡ viewed (length ticks) (latencies sub viewer_clock 0 (stamps clock 0 ticks)))
  view-run sub viewer_clock fuel ks js ticks video c d h le lt i =
      let same = length-stamps clock 0 ticks in
      let (out, again, e, e', served_is) =
        run-broadcast pack_time unpack_time packing clock fuel ks ticks video c h le lt i in
      let (again', e'', seen_is) =
        view-broadcast pack_time unpack_time packing sub viewer_clock fuel js (stamps clock 0 ticks)
          video d h (omega (arith, same)) (omega (arith, same)) i in
      (
        out,
        server (take (length ticks) video) again (length ticks),
        e,
        served_is,
        ap (λ b. view unpack_time sub viewer_clock (suc fuel) (sock js b))
              (ap out_of (sym e' ∙ e''))
            ∙ seen_is
            ∙ ap (λ n. viewed n (latencies sub viewer_clock 0 (stamps clock 0 ticks))) same,
      )
