-- ===== src/Experiment/Curves.antt =====
-- The curves that src/plot.py draws.
use p2p_livestreaming.Prelude.{
  ◌>>=◌, some_injective, ℕ, zero, suc, ◌≡◌, refl, sym, ap, ◌∙◌, Option, none, some, List, [], ◌∷◌,
  ◌++◌, arith, length, Bytes, codes, strip,
}
use p2p_livestreaming.Experiment.Plot.{
  half_of, readline, rtt_text, read_delays, file_delays, add_each, curves,
}

bind-some {ℓ κ} :
    {A : Type ℓ} {B : Type κ} (m : Option A) (f : A → Option B) (b : B)
    → (m >>= f) ≡ some b
    → (a : A) × (m ≡ some a) × (f a ≡ some b)
bind-some none f b e = cc
bind-some (some a) f b e = (a, refl, e)

module _ (result_dir : Bytes) (int : Bytes → Option ℕ) where
  half_of-length :
      (n : ℕ) (o : Option ℕ) (more : Option (List ℕ)) (ds : List ℕ)
      → ((xs : List ℕ) → more ≡ some xs → length xs ≡ n)
      → half_of o more ≡ some ds
      → length ds ≡ suc n
  half_of-length n none more ds h e = cc
  half_of-length n (some rtt) none ds h e = cc
  half_of-length n (some rtt) (some xs) [] h e = cc
  half_of-length n (some rtt) (some xs) (d ∷ ds) h e = ap suc (h ds (ground (arith, e)))

  read_delays-length :
      (n : ℕ) (ls : List Bytes) (ds : List ℕ)
      → read_delays result_dir int n ls ≡ some ds
      → length ds ≡ n
  unfolding read_delays
  read_delays-length zero ls [] e = refl
  read_delays-length zero ls (d ∷ ds) e = cc
  read_delays-length (suc n) ls ds e =
      half_of-length n (int (rtt_text (strip (readline ls).0)))
        (read_delays result_dir int n (readline ls).1) ds
        (λ xs. read_delays-length n (readline ls).1 xs) e

  add_each-length :
      (n : ℕ) (xs ys : List ℕ) → length xs ≡ n → length ys ≡ n → length (add_each xs ys) ≡ n
  add_each-length n [] ys h k = h
  add_each-length n (x ∷ xs) [] h k = absurd (omega (arith, h, k))
  add_each-length zero (x ∷ xs) (y ∷ ys) h k = absurd (omega (arith, h))
  add_each-length (suc n) (x ∷ xs) (y ∷ ys) h k =
      ap suc (add_each-length n xs ys (omega (arith, h)) (omega (arith, k)))

  -- Where nothing raises, both curves have one point for each of the 60 seconds.
  pub curves-length :
      (fd : Bytes → Option (List Bytes)) (direct_delays bypass_delays : List ℕ)
      → curves result_dir int fd ≡ some (direct_delays, bypass_delays)
      → (length direct_delays ≡ 60) × (length bypass_delays ≡ 60)
  unfolding curves
  curves-length fd direct_delays bypass_delays e =
      let (b2s, _, e₁) = bind-some (fd (result_dir ++ codes "/direct-b2s.ping")) _ _ e in
      let (to_service, k₁, e₂) = bind-some (file_delays result_dir int b2s) _ _ e₁ in
      let (s2v, _, e₃) = bind-some (fd (result_dir ++ codes "/direct-s2v.ping")) _ _ e₂ in
      let (to_viewer, k₂, e₄) = bind-some (file_delays result_dir int s2v) _ _ e₃ in
      let (b2v, _, e₅) = bind-some (fd (result_dir ++ codes "/bypass-b2v.ping")) _ _ e₄ in
      let (bypassed, k₃, e₆) = bind-some (file_delays result_dir int b2v) _ _ e₅ in
      let n₁ = read_delays-length 60 (readline b2s).1 to_service k₁ in
      let n₂ = read_delays-length 60 (readline s2v).1 to_viewer k₂ in
      let n₃ = read_delays-length 60 (readline b2v).1 bypassed k₃ in
      (
        ap length (sym (ap (λ (p : List ℕ × List ℕ). p.0) (some_injective e₆)))
            ∙ add_each-length 60 to_service to_viewer n₁ n₂,
        ap length (sym (ap (λ (p : List ℕ × List ℕ). p.1) (some_injective e₆))) ∙ n₃,
      )
