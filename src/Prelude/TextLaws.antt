-- ===== src/Prelude/TextLaws.antt =====
-- Laws of the `str` methods.
use Prim.Native.Nat.{ℕ, zero, suc}
use mathlib.Core.Path.{◌≡◌, refl, ap, ◌∙◌}
use mathlib.Core.Bool.{true, false}
use mathlib.Core.List.{[], ◌∷◌, ◌++◌, reverse, reverse-cons, reverse-reverse}
use native.Mathlib.Omega.{arith}
use p2p_livestreaming.Prelude.Lists.{replicate, All, All-append}
use p2p_livestreaming.Prelude.Text.{Bytes, Lacks, starts_with, contains, is_space, lstrip, strip}

starts_with-append : (p s : Bytes) → starts_with p (p ++ s) ≡ true
unfolding starts_with
starts_with-append [] s = refl
starts_with-append (a ∷ p) s = ground (arith, starts_with-append p s)

contains-cons : (p : Bytes) (b : ℕ) (s : Bytes) → contains p s ≡ true → contains p (b ∷ s) ≡ true
unfolding contains
contains-cons p b s h = ground arith

contains-start : (p s : Bytes) → contains p (p ++ s) ≡ true
unfolding contains
contains-start [] [] = refl
contains-start [] (b ∷ s) = ground arith
contains-start (a ∷ p) s = ground (arith, starts_with-append (a ∷ p) s)

-- What stands between two texts is found in the whole.
pub contains-append : (p s t : Bytes) → contains p (s ++ (p ++ t)) ≡ true
contains-append p [] t = contains-start p t
contains-append p (b ∷ s) t = contains-cons p b (s ++ (p ++ t)) (contains-append p s t)

-- A text that lacks the first byte of a pattern does not contain it.
pub contains_of_Lacks : (c : ℕ) (p s : Bytes) → Lacks c s → contains (c ∷ p) s ≡ false
unfolding contains
contains_of_Lacks c p [] h = ground arith
contains_of_Lacks c p (b ∷ s) h = ground (arith, contains_of_Lacks c p s h.1)

abbrev pub IsSolid : Bytes → Type 0
IsSolid = All (λ b. is_space b ≡ false)

lstrip_of_IsSolid : (s : Bytes) → IsSolid s → lstrip s ≡ s
unfolding lstrip
lstrip_of_IsSolid [] h = refl
lstrip_of_IsSolid (c ∷ s) h = rw h.0

IsSolid-reverse : (s : Bytes) → IsSolid s → IsSolid (reverse s)
IsSolid-reverse [] h = tt
IsSolid-reverse (c ∷ s) h =
    rw reverse-cons
      (All-append (λ b. is_space b ≡ false) (reverse s) (c ∷ []) (IsSolid-reverse s h.1) (h.0, tt))

pub strip_of_IsSolid : (s : Bytes) → IsSolid s → strip s ≡ s
unfolding strip
strip_of_IsSolid s h =
    ap (λ t. reverse (lstrip (reverse t))) (lstrip_of_IsSolid s h)
    ∙ ap reverse (lstrip_of_IsSolid (reverse s) (IsSolid-reverse s h))
    ∙ reverse-reverse s

pub All-replicate {κ} : (P : ℕ → Type κ) (n : ℕ) (a : ℕ) → P a → All P (replicate n a)
All-replicate P zero a h = tt
All-replicate P (suc n) a h = (h, All-replicate P n a h)

pub All-map {κ μ} :
    (P : ℕ → Type κ) (Q : ℕ → Type μ) (s : Bytes) → ((b : ℕ) → P b → Q b) → All P s → All Q s
All-map P Q [] f h = tt
All-map P Q (b ∷ s) f h = (f b h.0, All-map P Q s f h.1)
