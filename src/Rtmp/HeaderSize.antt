-- ===== src/Rtmp/HeaderSize.antt =====
-- How long the header of a chunk is, by its first byte, and that `curr_pos` stands behind it.
use mathlib.Core.Path.{subst}
use p2p_livestreaming.Prelude.{
  ℕ, ◌+◌, ◌/◌, ◌%◌, ◌≡◌, ◌≤◌, length, refl, sym, ap, ◌∙◌, inl, inr, Bool-cases, Option, none, some,
  [], ◌∷◌, arith, ◌==◌, if◌then◌else◌, Bytes,
}
use p2p_livestreaming.Rtmp.{
  RtmpControlPacket, Parse, Parsing, going, u8, u16, u24, u32_le, after, read_timestamp,
  read_msg_length, read_msg_type, read_msg_stream_id, read_basic_header, read_extended_id,
  with_attribute, read_message_header, read_header,
}
use p2p_livestreaming.Rtmp.Position.{Holds, goes, stops, Holds-bind}

-- The chunk stream id takes one byte, or two or three where the first one says 0 or 1.
abbrev pub basic_size : ℕ → ℕ
basic_size id = if id == 0 then 2 else if id == 1 then 3 else 1

-- The message header, by its kind.
abbrev pub message_size : ℕ → ℕ
message_size kind = if kind == 0 then 11 else if kind == 1 then 7 else if kind == 2 then 3 else 0

abbrev pub header_size : Bytes → ℕ
header_size [] = 0
header_size (b ∷ s) = basic_size (b % 64) + message_size (b / 64)

pub Holds-both :
    (P Q : Parse → Type 0) {m : Parsing} → Holds P m → Holds Q m → Holds (λ p. P p × Q p) m
Holds-both P Q (goes h) (goes k) = goes (h, k)
Holds-both P Q stops k = stops

Holds-map : (P Q : Parse → Type 0) {m : Parsing} → ((p : Parse) → P p → Q p) → Holds P m → Holds Q m
Holds-map P Q f (goes h) = goes (f _ h)
Holds-map P Q f stops = stops

u8-length : (cg : Bytes) (v : ℕ) (s : Bytes) → u8 cg ≡ some (v, s) → length cg ≡ length s + 1
unfolding u8
u8-length [] v r h = cc
u8-length (a ∷ s) v r h = ground arith

u16-length : (cg : Bytes) (v : ℕ) (s : Bytes) → u16 cg ≡ some (v, s) → length cg ≡ length s + 2
unfolding u16
u16-length (a ∷ b ∷ s) v r h = ground arith
u16-length _ v r h = cc

u24-length : (cg : Bytes) (v : ℕ) (s : Bytes) → u24 cg ≡ some (v, s) → length cg ≡ length s + 3
unfolding u24
u24-length (a ∷ b ∷ c ∷ s) v r h = ground arith
u24-length _ v r h = cc

u32_le-length :
    (cg : Bytes) (v : ℕ) (s : Bytes) → u32_le cg ≡ some (v, s) → length cg ≡ length s + 4
unfolding u32_le
u32_le-length (a ∷ b ∷ c ∷ d ∷ s) v r h = ground arith
u32_le-length _ v r h = cc

module _ (total : ℕ) where
  -- `curr_pos`, the bytes that were read, and the kind of the header.
  At : (n read : ℕ) → Option ℕ → Parse → Type 0
  At n read kind p =
      (p.curr_pos ≡ n) × (length p.cg + read ≡ total) × (p.packet.chunk_header_type ≡ kind)

  after-At :
      (n read d to : ℕ) (kind : Option ℕ) (o : Option (ℕ × Bytes)) (p : Parse)
      (set_field : ℕ → RtmpControlPacket)
      → ((v : ℕ) (s : Bytes) → o ≡ some (v, s) → length p.cg ≡ length s + d)
      → ((v : ℕ) → (set_field v).chunk_header_type ≡ p.packet.chunk_header_type)
      → read + d ≡ to
      → At n read kind p
      → Holds (At n to kind) (after o p set_field)
  unfolding At
  after-At n read d to kind none p set_field cut same sum h = stops
  after-At n read d to kind (some (v, s)) p set_field cut same sum h =
      goes (h.0, omega (arith, cut v s refl, h.1, sum), same v ∙ h.2)

  advance-At :
      (n m read : ℕ) (kind : Option ℕ) (p : Parse)
      → At n read kind p
      → Holds (At (n + m) read kind) (going (record p { curr_pos = p.curr_pos + m }))
  unfolding At
  advance-At n m read kind p h = goes (ap (λ i. i + m) h.0, h.1, h.2)

  read_extended_id-At :
      (id : ℕ) (kind : Option ℕ) (p : Parse)
      → At 1 1 kind p
      → Holds (At (basic_size id) (basic_size id) kind) (read_extended_id id p)
  unfolding read_extended_id
  read_extended_id-At id kind p h = elim (Bool-cases (id == 0)) [
    | inl two ↦ rw two (
        Holds-bind (At 1 2 kind) (At 2 2 kind) _
          (after-At 1 1 1 2 kind (u8 p.cg) p _ (u8-length p.cg) (λ v. refl) (omega arith) h)
          (advance-At 1 1 2 kind))
    | inr more ↦ elim (Bool-cases (id == 1)) [
      | inl three ↦
          rw (more, three)
            (Holds-bind (At 1 3 kind) (At 3 3 kind) _
              (after-At 1 1 2 3 kind (u16 p.cg) p _ (u16-length p.cg) (λ v. refl) (omega arith) h)
              (advance-At 1 2 3 kind))
      | inr one ↦ rw (more, one) (goes h)
    ]
  ]

  read_message_header-At :
      (n k : ℕ) (kind : Option ℕ) (p : Parse)
      → At n n kind p
      → Holds (At (n + message_size k) (n + message_size k) kind) (read_message_header k p)
  unfolding read_message_header read_timestamp read_msg_length read_msg_type read_msg_stream_id At
  read_message_header-At n k kind p h = elim (Bool-cases (k == 0)) [
    | inl full ↦ rw full (
        Holds-bind (At n (n + 3) kind) (At (n + 11) (n + 11) kind) _
          (after-At n n 3 (n + 3) kind (u24 p.cg) p _ (u24-length p.cg) (λ v. refl) (omega arith) h)
          λ p₁ h₁.
            Holds-bind (At n (n + 6) kind) (At (n + 11) (n + 11) kind) _
              (after-At n (n + 3) 3 (n + 6) kind (u24 p₁.cg) p₁ _ (u24-length p₁.cg) (λ v. refl)
                (omega arith) h₁)
              λ p₂ h₂.
                Holds-bind (At n (n + 7) kind) (At (n + 11) (n + 11) kind) _
                  (after-At n (n + 6) 1 (n + 7) kind (u8 p₂.cg) p₂ _ (u8-length p₂.cg) (λ v. refl)
                    (omega arith) h₂)
                  λ p₃ h₃.
                    Holds-bind (At n (n + 11) kind) (At (n + 11) (n + 11) kind) _
                      (after-At n (n + 7) 4 (n + 11) kind (u32_le p₃.cg) p₃ _ (u32_le-length p₃.cg)
                        (λ v. refl) (omega arith) h₃)
                      (advance-At n 11 (n + 11) kind))
    | inr more ↦ elim (Bool-cases (k == 1)) [
      | inl no_id ↦
          rw (more, no_id)
            (Holds-bind (At n (n + 3) kind) (At (n + 7) (n + 7) kind) _
              (after-At n n 3 (n + 3) kind (u24 p.cg) p _ (u24-length p.cg) (λ v. refl)
                (omega arith) h)
              λ p₁ h₁.
                Holds-bind (At n (n + 6) kind) (At (n + 7) (n + 7) kind) _
                  (after-At n (n + 3) 3 (n + 6) kind (u24 p₁.cg) p₁ _ (u24-length p₁.cg) (λ v. refl)
                    (omega arith) h₁)
                  λ p₂ h₂.
                    Holds-bind (At n (n + 7) kind) (At (n + 7) (n + 7) kind) _
                      (after-At n (n + 6) 1 (n + 7) kind (u8 p₂.cg) p₂ _ (u8-length p₂.cg)
                        (λ v. refl) (omega arith) h₂)
                      (advance-At n 7 (n + 7) kind))
      | inr fewer ↦ elim (Bool-cases (k == 2)) [
        | inl time ↦
            rw (more, fewer, time)
              (Holds-bind (At n (n + 3) kind) (At (n + 3) (n + 3) kind) _
                (after-At n n 3 (n + 3) kind (u24 p.cg) p _ (u24-length p.cg) (λ v. refl)
                  (omega arith) h)
                (advance-At n 3 (n + 3) kind))
        | inr nothing ↦
            rw (more, fewer, nothing) (goes (omega (arith, h.0), omega (arith, h.1), h.2))
      ]
    ]
  ]

pub read_header-size :
    (content : Bytes)
    → Holds
        (λ p. (p.curr_pos ≡ header_size content) × (p.curr_pos ≤ length content))
        (read_header content)
unfolding read_header read_basic_header with_attribute At u8
read_header-size [] = stops
read_header-size (b ∷ s) =
    let n = basic_size (b % 64) in
    let k = b / 64 in
    let P : Parse → Type 0 =
      λ p. (p.curr_pos ≡ n + message_size k) × (p.curr_pos ≤ length (b ∷ s)) in
    Holds-bind (At (length (b ∷ s)) n n (some k)) P _
      (read_extended_id-At (length (b ∷ s)) (b % 64) (some k) _ (refl, omega arith, refl))
      λ q h.
        subst (λ o. Holds P (with_attribute o read_message_header q)) (sym h.2)
          (Holds-map (At (length (b ∷ s)) (n + message_size k) (n + message_size k) (some k)) P
            (λ p at. (at.0, omega (arith, at.0, at.1)))
            (read_message_header-At (length (b ∷ s)) n k (some k) q h))
