-- ===== src/Experiment/Prototype.antt =====
-- prototype/live.py: the original and the bypassed broadcast of the prototype, as the effects of the
-- script in order. A command without `&` is waited for.
use p2p_livestreaming.Prelude.{
  Bool, true, false, ℕ, Option, none, some, List, [], ◌∷◌, ◌++◌, Bytes, codes, strip,
}

pub data Host : Type 0 where
  h1 h2 h3 : Host

pub data Effect : Type 0 where
  net_start dump_connections ping_all net_stop : Effect
  cmd : Host → Bytes → Effect
  sleep : ℕ → Effect
  mkdir : Bytes → Effect
  print_latency : Bytes → Effect

-- `_parse_latency` on the lines of the viewer's output, `none` where an assertion fails.
unfoldable pub parse_latency : List Bytes → Option Bytes
parse_latency [] = none
parse_latency (_ ∷ []) = none
parse_latency (_ ∷ l ∷ []) = elim (strip l) [ [] ↦ none | c ∷ s ↦ some (c ∷ s) ]
parse_latency (_ ∷ l ∷ k ∷ ls) = parse_latency (l ∷ k ∷ ls)

module _ (output_dir : Bytes) (ip : Host → Bytes) where
  -- The ports 50007 and 50008, in decimal.
  abbrev pub viewer_port : Bytes
  viewer_port = codes "50007"

  abbrev pub cdn_port : Bytes
  cdn_port = codes "50008"

  -- `_original_livestreaming`
  unfoldable pub original_livestreaming : List Effect
  original_livestreaming =
      cmd h2 (
        codes "python hosts/viewer.py "
        ++ viewer_port
        ++ codes " > "
        ++ output_dir
        ++ codes "/original-hv.log &")
      ∷ sleep 1
      ∷ cmd h3 (
          codes "python hosts/cdn-server.py "
          ++ cdn_port
          ++ codes " "
          ++ ip h2
          ++ codes " "
          ++ viewer_port
          ++ codes " > "
          ++ output_dir
          ++ codes "/original-hcdn.log &")
      ∷ sleep 1
      ∷ cmd h1 (
          codes "python hosts/broadcaster.py "
          ++ ip h3
          ++ codes " "
          ++ cdn_port
          ++ codes " > "
          ++ output_dir
          ++ codes "/original-hb.log")
      ∷ sleep 1
      ∷ print_latency (output_dir ++ codes "/original-hv.log")
      ∷ []

  -- `_bypassed_livestreaming`
  unfoldable pub bypassed_livestreaming : List Effect
  bypassed_livestreaming =
      cmd h2 (
        codes "python hosts/viewer.py "
        ++ viewer_port
        ++ codes " > "
        ++ output_dir
        ++ codes "/bypassed-hv.log &")
      ∷ sleep 1
      ∷ cmd h1 (
          codes "python hosts/broadcaster.py "
          ++ ip h2
          ++ codes " "
          ++ viewer_port
          ++ codes " > "
          ++ output_dir
          ++ codes "/bypassed-hb.log")
      ∷ sleep 1
      ∷ print_latency (output_dir ++ codes "/bypassed-hv.log")
      ∷ []

  -- `livestremaing_test`
  unfoldable pub livestremaing_test : List Effect
  unfolding original_livestreaming bypassed_livestreaming
  livestremaing_test =
      net_start
      ∷ dump_connections
      ∷ ping_all
      ∷ (original_livestreaming ++ (bypassed_livestreaming ++ (net_stop ∷ [])))

  -- The main block.
  unfoldable pub main : (exists : Bool) → List Effect
  unfolding livestremaing_test
  main true = livestremaing_test
  main false = mkdir output_dir ∷ livestremaing_test
