-- ===== src/Bypass/Fleet.antt =====
-- A session at one switch of a network of several.
use mathlib.Core.Path.{subst}
use p2p_livestreaming.Prelude.{refl, arith, ℕ, ◌≡◌, List, [], ◌∷◌, ◌++◌, Bytes}
use p2p_livestreaming.OpenFlow.{Event}
use p2p_livestreaming.Bypass.{Switch, new}
use p2p_livestreaming.Bypass.Dispatch.{run}
use p2p_livestreaming.Bypass.Session.{IsSession, IsPaired, run-IsPaired}
use p2p_livestreaming.Bypass.Network.{
  NexusEvent, Listeners, came_up, sessions_of, launch, handle_events, handle_events-run,
}

only_listener :
    (show_ip : ℕ → Bytes) (es : List Event) (ss : List Switch)
    → Listeners show_ip (es ∷ []) ss
    → ss ≡ run show_ip es new ∷ []
only_listener show_ip es _ (came_up _ _ [] n) = refl
only_listener show_ip es _ (came_up _ _ (_ ∷ _) n) = absurd (omega (arith, n))

-- In a network of several switches, whose packets come in any order, a session as in
-- `IsSession` of Bypass/Session at a connection that
-- came up once takes the one controller of this connection to the P2P stage, with the addresses of
-- the session and the controller's invariant, whatever arrives there later and on the other
-- connections at any time.
pub handle_events-session :
    (show_ip : ℕ → Bytes) (gs : List NexusEvent) (c v b h : ℕ) (es later : List Event)
    → IsSession v b h es
    → sessions_of c gs ≡ (es ++ later) ∷ []
    → (s : Switch) × ((handle_events show_ip gs launch).switches c ≡ s ∷ []) × IsPaired v b h s
handle_events-session show_ip gs c v b h es later d once = (
  run show_ip (es ++ later) new,
  only_listener show_ip (es ++ later) _ (
      subst (λ l. Listeners show_ip l ((handle_events show_ip gs launch).switches c)) once
        (handle_events-run show_ip c gs)),
  run-IsPaired show_ip v b h es later d,
)
