-- ===== src/Experiment.antt =====
-- The experiment scripts: src/topo.py and prototype/topo.py, the networks that Mininet builds.
-- Switches and hosts are named by their texts; a link has its bandwidth in Mbps and its delay in ms.
pub mod Live
pub mod Prototype
pub mod Plot
pub mod Curves
pub mod Launch
pub mod Measured
pub mod Paths
use p2p_livestreaming.Prelude.{
  ℕ, zero, suc, ◌+◌, Option, none, some, List, [], ◌∷◌, ◌++◌, map, Bytes, codes,
}

pub record Link : Type 0 where
  pub node1 : Bytes
  pub node2 : Bytes
  pub bw : ℕ
  pub delay : ℕ

pub record Topo : Type 0 where
  pub switches : List Bytes
  pub hosts : List Bytes
  pub links : List Link

-- `range(1, n + 1)`, from a first number on.
abbrev pub count : ℕ → ℕ → List ℕ
count first zero = []
count first (suc n) = first ∷ count (suc first) n

abbrev pub lan : Bytes → Bytes → Link
lan a b = record { node1 = a; node2 = b; bw = 4; delay = 100 }

abbrev pub cdn : Bytes → Bytes → Link
cdn a b = record { node1 = a; node2 = b; bw = 2; delay = 300 }

-- `LivestreamingSingleTopo.build`; `str` prints a number.
unfoldable pub single_topo : (ℕ → Bytes) → ℕ → Topo
single_topo str num_viewers =
    let hvs = map (λ i. codes "hv" ++ str i) (count 1 num_viewers) in
    record {
      switches = codes "s1" ∷ [];
      hosts = codes "hb" ∷ codes "hs" ∷ hvs;
      links =
          lan (codes "hb") (codes "s1")
          ∷ (map (λ hv. lan hv (codes "s1")) hvs ++ cdn (codes "s1") (codes "hs") ∷ []);
    }

-- `LivestreamingMultiTopo.build`
unfoldable pub multi_topo : Topo
multi_topo = record {
  switches = codes "s1" ∷ codes "s2" ∷ [];
  hosts = codes "hb" ∷ codes "hs" ∷ codes "hv1" ∷ codes "hv2" ∷ [];
  links =
      lan (codes "hb") (codes "s1")
      ∷ lan (codes "hv1") (codes "s1")
      ∷ lan (codes "hv2") (codes "s2")
      ∷ cdn (codes "s1") (codes "hs")
      ∷ cdn (codes "s2") (codes "hs")
      ∷ [];
}

-- The entries of `topos` in src/topo.py: one takes the number of viewers, 1 if it is left out, and
-- one takes nothing.
pub data Entry : Type 0 where
  with_viewers : (ℕ → Topo) → Entry
  fixed : Topo → Entry

unfoldable pub topos : (ℕ → Bytes) → List (Bytes × Entry)
topos str =
    (codes "livestreaming_single", with_viewers (single_topo str))
    ∷ (codes "livestreaming_multi", fixed multi_topo)
    ∷ []

-- What Mininet builds for an entry and its parameters; `none` is a TypeError on their number.
unfoldable pub build : Entry → List ℕ → Option Topo
build (with_viewers f) [] = some (f 1)
build (with_viewers f) (n ∷ []) = some (f n)
build (with_viewers f) (_ ∷ _ ∷ _) = none
build (fixed t) [] = some t
build (fixed t) (_ ∷ _) = none

-- `LivestreamingTopo.build` of the prototype
unfoldable pub prototype_topo : Topo
prototype_topo = record {
  switches = codes "s1" ∷ [];
  hosts = codes "h1" ∷ codes "h2" ∷ codes "h3" ∷ [];
  links =
      record { node1 = codes "h1"; node2 = codes "s1"; bw = 10; delay = 30 }
      ∷ record { node1 = codes "h2"; node2 = codes "s1"; bw = 10; delay = 30 }
      ∷ record { node1 = codes "s1"; node2 = codes "h3"; bw = 2; delay = 100 }
      ∷ [];
}

-- `topos` in prototype/topo.py
unfoldable pub prototype_topos : List (Bytes × Entry)
prototype_topos = (codes "livestreaming", fixed prototype_topo) ∷ []
