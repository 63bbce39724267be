-- ===== src/Rtmp/Position.antt =====
-- `curr_pos` counts the bytes that the generator gave, through every branch of the header.
use native.Mathlib.Nat.{add-zero, add_assoc}
use p2p_livestreaming.Prelude.{
  ℕ, ◌+◌, ◌≤◌, ◌≡◌, refl, ap, ◌∙◌, Bool, true, false, Option, none, some, [], ◌∷◌, arith, drop,
  if◌then◌else◌, ◌==◌, drop-drop, Bytes,
}
use p2p_livestreaming.Rtmp.{
  RtmpControlPacket, blank, Parse, Parsing, going, stopped, ◌>>=◌, u8, u16, u24, u32_le, after,
  read_basic_header, read_extended_id, with_attribute, read_message_header, read_header,
}

-- `P` holds of what a read leaves, if it leaves anything.
pub data Holds (P : Parse → Type 0) : Parsing → Type 0 where
  goes : {p : Parse} → P p → Holds P (going p)
  stops : {q : RtmpControlPacket} → Holds P (stopped q)

pub Holds-bind :
    (P Q : Parse → Type 0) {m : Parsing} (f : Parse → Parsing)
    → Holds P m
    → ((p : Parse) → P p → Holds Q (f p))
    → Holds Q (m >>= f)
Holds-bind P Q f (goes h) k = k _ h
Holds-bind P Q f stops k = stops

u8-drop : (cg : Bytes) {v : ℕ} {s : Bytes} → u8 cg ≡ some (v, s) → s ≡ drop 1 cg
unfolding u8
u8-drop [] h = cc
u8-drop (a ∷ s) h = cc

u16-drop : (cg : Bytes) {v : ℕ} {s : Bytes} → u16 cg ≡ some (v, s) → s ≡ drop 2 cg
unfolding u16
u16-drop (a ∷ b ∷ s) h = cc
u16-drop _ h = cc

u24-drop : (cg : Bytes) {v : ℕ} {s : Bytes} → u24 cg ≡ some (v, s) → s ≡ drop 3 cg
unfolding u24
u24-drop (a ∷ b ∷ c ∷ s) h = cc
u24-drop _ h = cc

u32_le-drop : (cg : Bytes) {v : ℕ} {s : Bytes} → u32_le cg ≡ some (v, s) → s ≡ drop 4 cg
unfolding u32_le
u32_le-drop (a ∷ b ∷ c ∷ d ∷ s) h = cc
u32_le-drop _ h = cc

Holds-if :
    (P : Parse → Type 0) (b : Bool) (m n : Parsing)
    → Holds P m
    → Holds P n
    → Holds P (if b then m else n)
Holds-if P true m n hm hn = hm
Holds-if P false m n hm hn = hn

module _ (content : Bytes) where
  -- The generator is `k` bytes ahead of `curr_pos`, and nothing is cut off yet.
  abbrev pub Ahead : ℕ → Parse → Type 0
  Ahead k p = (p.cg ≡ drop (p.curr_pos + k) content) × (p.packet.remain ≡ [])

  abbrev pub Lag : ℕ → Parse → Type 0
  Lag k p = Ahead k p × (1 ≤ p.curr_pos + k)

  Lag-after :
      (k n : ℕ) (o : Option (ℕ × Bytes)) (p : Parse) (set_field : ℕ → RtmpControlPacket)
      → ((v : ℕ) (s : Bytes) → o ≡ some (v, s) → s ≡ drop n p.cg)
      → ((v : ℕ) → (set_field v).remain ≡ p.packet.remain)
      → 1 ≤ n
      → Ahead k p
      → Holds (Lag (k + n)) (after o p set_field)
  Lag-after k n none p set_field reads same pos h = stops
  Lag-after k n (some (v, s)) p set_field reads same pos h = goes (
    (
      reads v s refl
          ∙ ap (drop n) h.0
          ∙ drop-drop (p.curr_pos + k) n content
          ∙ ap (λ i. drop i content) (add_assoc p.curr_pos k n),
      same v ∙ h.1,
    ),
    omega arith,
  )

  Holds-u8 :
      (k : ℕ) (p : Parse) (set_field : ℕ → RtmpControlPacket)
      → ((v : ℕ) → (set_field v).remain ≡ p.packet.remain)
      → Ahead k p
      → Holds (Lag (k + 1)) (after (u8 p.cg) p set_field)
  Holds-u8 k p set_field same =
      Lag-after k 1 (u8 p.cg) p set_field (λ v s. u8-drop p.cg) same (omega arith)

  Holds-u16 :
      (k : ℕ) (p : Parse) (set_field : ℕ → RtmpControlPacket)
      → ((v : ℕ) → (set_field v).remain ≡ p.packet.remain)
      → Ahead k p
      → Holds (Lag (k + 2)) (after (u16 p.cg) p set_field)
  Holds-u16 k p set_field same =
      Lag-after k 2 (u16 p.cg) p set_field (λ v s. u16-drop p.cg) same (omega arith)

  Holds-u24 :
      (k : ℕ) (p : Parse) (set_field : ℕ → RtmpControlPacket)
      → ((v : ℕ) → (set_field v).remain ≡ p.packet.remain)
      → Ahead k p
      → Holds (Lag (k + 3)) (after (u24 p.cg) p set_field)
  Holds-u24 k p set_field same =
      Lag-after k 3 (u24 p.cg) p set_field (λ v s. u24-drop p.cg) same (omega arith)

  Holds-u32_le :
      (k : ℕ) (p : Parse) (set_field : ℕ → RtmpControlPacket)
      → ((v : ℕ) → (set_field v).remain ≡ p.packet.remain)
      → Ahead k p
      → Holds (Lag (k + 4)) (after (u32_le p.cg) p set_field)
  Holds-u32_le k p set_field same =
      Lag-after k 4 (u32_le p.cg) p set_field (λ v s. u32_le-drop p.cg) same (omega arith)

  Holds-advance :
      (n : ℕ) (p : Parse) → Lag n p → Holds (Lag 0) (going (record p { curr_pos = p.curr_pos + n }))
  Holds-advance n p h = goes ((rw add-zero h.0.0, h.0.1), omega arith)

  read_basic_header-Lag : (p : Parse) → Ahead 0 p → Holds (Lag 0) (read_basic_header p)
  unfolding read_basic_header
  read_basic_header-Lag p h =
      Holds-bind (Lag 1) (Lag 0) _ (Holds-u8 0 p _ (λ v. refl) h) (Holds-advance 1)

  read_extended_id-Lag : (id : ℕ) (p : Parse) → Lag 0 p → Holds (Lag 0) (read_extended_id id p)
  unfolding read_extended_id
  read_extended_id-Lag id p h =
      Holds-if (Lag 0) (id == 0) _ _
        (Holds-bind (Lag 1) (Lag 0) _ (Holds-u8 0 p _ (λ v. refl) h.0) (Holds-advance 1))
        (Holds-if (Lag 0) (id == 1) _ _
          (Holds-bind (Lag 2) (Lag 0) _ (Holds-u16 0 p _ (λ v. refl) h.0) (Holds-advance 2))
          (goes h))

  read_message_header-Lag :
      (kind : ℕ) (p : Parse) → Lag 0 p → Holds (Lag 0) (read_message_header kind p)
  unfolding read_message_header
  read_message_header-Lag kind p h =
      Holds-if (Lag 0) (kind == 0) _ _
        (Holds-bind (Lag 3) (Lag 0) _ (Holds-u24 0 p _ (λ v. refl) h.0) λ p₁ h₁.
          Holds-bind (Lag 6) (Lag 0) _ (Holds-u24 3 p₁ _ (λ v. refl) h₁.0) λ p₂ h₂.
            Holds-bind (Lag 7) (Lag 0) _ (Holds-u8 6 p₂ _ (λ v. refl) h₂.0) λ p₃ h₃.
              Holds-bind (Lag 11) (Lag 0) _ (Holds-u32_le 7 p₃ _ (λ v. refl) h₃.0)
                (Holds-advance 11))
        (Holds-if (Lag 0) (kind == 1) _ _
          (Holds-bind (Lag 3) (Lag 0) _ (Holds-u24 0 p _ (λ v. refl) h.0) λ p₁ h₁.
            Holds-bind (Lag 6) (Lag 0) _ (Holds-u24 3 p₁ _ (λ v. refl) h₁.0) λ p₂ h₂.
              Holds-bind (Lag 7) (Lag 0) _ (Holds-u8 6 p₂ _ (λ v. refl) h₂.0) (Holds-advance 7))
          (Holds-if (Lag 0) (kind == 2) _ _
            (Holds-bind (Lag 3) (Lag 0) _ (Holds-u24 0 p _ (λ v. refl) h.0) (Holds-advance 3))
            (goes h)))

  with_attribute-Lag :
      (o : Option ℕ) (step : ℕ → Parse → Parsing) (p : Parse)
      → ((v : ℕ) → Holds (Lag 0) (step v p))
      → Lag 0 p
      → Holds (Lag 0) (with_attribute o step p)
  unfolding with_attribute
  with_attribute-Lag none step p k h = goes h
  with_attribute-Lag (some v) step p k h = k v

  pub read_header-Lag : Holds (Lag 0) (read_header content)
  unfolding read_header
  read_header-Lag =
      Holds-bind (Lag 0) (Lag 0) _
        (read_basic_header-Lag (record { packet = blank; cg = content; curr_pos = 0 }) (refl, refl))
        λ p h.
          Holds-bind (Lag 0) (Lag 0) _
            (with_attribute-Lag p.packet.chunk_stream_id read_extended_id p
              (λ id. read_extended_id-Lag id p h) h)
            λ q k.
              with_attribute-Lag q.packet.chunk_header_type read_message_header q
                (λ v. read_message_header-Lag v q k) k
