-- ===== src/Prelude/Text.antt =====
-- Python byte strings as lists of byte values, and the `str` methods that the hosts and the
-- controller use of them: `in`, `find`, slices, `strip`, `join` and the `format` padding.
use Prim.Native.Nat.{ℕ, suc, ◌-◌, pred}
use Prim.Native.Char.{code}
use Prim.Native.String.{String}
use mathlib.Core.Path.{◌≡◌, refl}
use mathlib.Core.Logic.{◌≢◌}
use mathlib.Core.Bool.{Bool, true, false, ◌&&◌, ◌||◌}
use mathlib.Core.Option.{Option, none, some}
use mathlib.Core.List.{List, [], ◌∷◌, ◌++◌, reverse}
use native.Mathlib.Omega.{arith}
use p2p_livestreaming.Prelude.Tests.{◌==◌, leb, if◌then◌else◌}
use p2p_livestreaming.Prelude.Lists.{length, take, replicate, All}

abbrev pub Bytes : Type 0
Bytes = List ℕ

-- The bytes of an ASCII literal.
abbrev pub codes : String → Bytes
codes String.[] = []
codes (String.◌∷◌ c s) = code c ∷ codes s

unfoldable pub bytes_eq : Bytes → Bytes → Bool
bytes_eq [] [] = true
bytes_eq [] (_ ∷ _) = false
bytes_eq (_ ∷ _) [] = false
bytes_eq (a ∷ xs) (b ∷ ys) = a == b && bytes_eq xs ys

-- `s.startswith(p)`.
unfoldable pub starts_with : Bytes → Bytes → Bool
starts_with [] s = true
starts_with (a ∷ p) [] = false
starts_with (a ∷ p) (b ∷ s) = a == b && starts_with p s

-- `s.find(p)`; `none` is the -1 of Python.
unfoldable pub find : Bytes → Bytes → Option ℕ
unfolding starts_with
find p [] = if starts_with p [] then some 0 else none
find p (b ∷ s) =
    let rest = find p s in
    if starts_with p (b ∷ s) then some 0 else elim rest [ none ↦ none | some i ↦ some (suc i) ]

-- `p in s`.
unfoldable pub contains : Bytes → Bytes → Bool
unfolding find
contains p s = elim (find p s) [ none ↦ false | some _ ↦ true ]

-- `s[:i]` for the answer of `find`: with -1 the last byte goes.
unfoldable pub slice_to : Option ℕ → Bytes → Bytes
slice_to none s = take (pred (length s)) s
slice_to (some i) s = take i s

-- The bytes that Python 2's `str.strip()` removes.
abbrev pub is_space : ℕ → Bool
is_space c = c == b' ' || (leb 9 c && leb c 13)

unfoldable pub lstrip : Bytes → Bytes
lstrip [] = []
lstrip (c ∷ s) = let rest = lstrip s in if is_space c then rest else c ∷ s

unfoldable pub strip : Bytes → Bytes
unfolding lstrip
strip s = reverse (lstrip (reverse (lstrip s)))

-- `"{0:<pad><<width>}".format(s)`: padded on the right up to the width, never cut.
unfoldable pub pad_right : ℕ → ℕ → Bytes → Bytes
pad_right pad width s = s ++ replicate (width - length s) pad

-- `sep.join(parts)`.
unfoldable pub join : Bytes → List Bytes → Bytes
join sep [] = []
join sep (p ∷ []) = p
join sep (p ∷ q ∷ ps) = p ++ sep ++ join sep (q ∷ ps)

pub bytes_eq_refl : (s : Bytes) → bytes_eq s s ≡ true
unfolding bytes_eq
bytes_eq_refl [] = refl
bytes_eq_refl (a ∷ s) = ground (arith, bytes_eq_refl s)

pub eq_of_bytes_eq : (s t : Bytes) → bytes_eq s t ≡ true → s ≡ t
unfolding bytes_eq
eq_of_bytes_eq [] [] h = refl
eq_of_bytes_eq [] (_ ∷ _) h = ground arith
eq_of_bytes_eq (_ ∷ _) [] h = ground arith
eq_of_bytes_eq (a ∷ s) (b ∷ t) h = ground (arith, eq_of_bytes_eq s t)

abbrev pub Lacks : ℕ → Bytes → Type 0
Lacks c = All (λ b. b ≢ c)

-- The first occurrence of a byte behind bytes that differ from it.
pub find-append : (c : ℕ) (s t : Bytes) → Lacks c s → find (c ∷ []) (s ++ c ∷ t) ≡ some (length s)
unfolding find
find-append c [] t h = ground arith
find-append c (b ∷ s) t h = ground (arith, find-append c s t)

pub find_of_Lacks : (c : ℕ) (s : Bytes) → Lacks c s → find (c ∷ []) s ≡ none
unfolding find
find_of_Lacks c [] h = refl
find_of_Lacks c (b ∷ s) h = ground (arith, find_of_Lacks c s)
