-- ===== src/Rtmp/Widths.antt =====
-- The widths of the fields that the parser reads from bytes.
use p2p_livestreaming.Prelude.{
  ℕ, ◌+◌, ◌/◌, ◌%◌, ◌<◌, Bool, true, false, Option, none, some, [], ◌∷◌, arith, if◌then◌else◌, ◌==◌,
  All, Bytes,
}
use p2p_livestreaming.Rtmp.{
  RtmpControlPacket, blank, Parse, Parsing, going, stopped, ◌>>=◌, u8, u16, u24, u32_le, after,
  read_timestamp, read_msg_length, read_msg_type, read_msg_stream_id, read_basic_header,
  read_extended_id, with_attribute, read_message_header, read_header,
}

abbrev pub IsByte : ℕ → Type 0
IsByte b = b < 256

-- A field that is not set, or set to less than `n`.
abbrev pub Below : ℕ → Option ℕ → Type 0
Below n none = Unit
Below n (some v) = v < n

-- The fields of a packet fit the widths of RTMP: 2 bits of header type, a stream id of one to three
-- bytes, 24 bits of timestamp and of length, 8 bits of type, 32 bits of message stream id. What
-- remains are bytes.
pub record Within (q : RtmpControlPacket) : Type 0 where
  pub header_type : Below 4 q.chunk_header_type
  pub stream_id : Below 65600 q.chunk_stream_id
  pub time : Below 16777216 q.timestamp
  pub long : Below 16777216 q.msg_length
  pub kind : Below 256 q.msg_type
  pub message_stream : Below 4294967296 q.msg_stream_id
  pub rest : All IsByte q.remain

abbrev Reads : ℕ → Option (ℕ × Bytes) → Type 0
Reads n none = Unit
Reads n (some (v, s)) = (v < n) × All IsByte s

abbrev pub Keeps : Parsing → Type 0
Keeps (going p) = Within p.packet × All IsByte p.cg
Keeps (stopped q) = Within q

u8-Reads : (cg : Bytes) → All IsByte cg → Reads 256 (u8 cg)
unfolding u8
u8-Reads [] h = tt
u8-Reads (a ∷ s) h = h

u16-Reads : (cg : Bytes) → All IsByte cg → Reads 65536 (u16 cg)
unfolding u16
u16-Reads [] h = tt
u16-Reads (a ∷ []) h = tt
u16-Reads (a ∷ b ∷ s) h = (omega (arith, h.0, h.1.0), h.1.1)

u24-Reads : (cg : Bytes) → All IsByte cg → Reads 16777216 (u24 cg)
unfolding u24
u24-Reads [] h = tt
u24-Reads (a ∷ []) h = tt
u24-Reads (a ∷ b ∷ []) h = tt
u24-Reads (a ∷ b ∷ c ∷ s) h = (omega (arith, h.0, h.1.0, h.1.1.0), h.1.1.1)

u32_le-Reads : (cg : Bytes) → All IsByte cg → Reads 4294967296 (u32_le cg)
unfolding u32_le
u32_le-Reads [] h = tt
u32_le-Reads (a ∷ []) h = tt
u32_le-Reads (a ∷ b ∷ []) h = tt
u32_le-Reads (a ∷ b ∷ c ∷ []) h = tt
u32_le-Reads (a ∷ b ∷ c ∷ d ∷ s) h = (omega (arith, h.0, h.1.0, h.1.1.0, h.1.1.1.0), h.1.1.1.1)

Keeps-bind :
    (m : Parsing) (f : Parse → Parsing)
    → Keeps m
    → ((p : Parse) → Keeps (going p) → Keeps (f p))
    → Keeps (m >>= f)
Keeps-bind (going p) f h k = k p h
Keeps-bind (stopped q) f h k = h

Keeps-if : (b : Bool) (m n : Parsing) → Keeps m → Keeps n → Keeps (if b then m else n)
Keeps-if true m n hm hn = hm
Keeps-if false m n hm hn = hn

Keeps-after :
    (n : ℕ) (o : Option (ℕ × Bytes)) (p : Parse) (set_field : ℕ → RtmpControlPacket)
    → Reads n o
    → ((v : ℕ) → v < n → Within (set_field v))
    → Within p.packet
    → Keeps (after o p set_field)
Keeps-after n none p set_field r k h = h
Keeps-after n (some (v, s)) p set_field r k h = (k v r.0, r.1)

module _ (p : Parse) (w : Within p.packet) where
  Within-time : (v : ℕ) → v < 16777216 → Within (record p.packet { timestamp = some v })
  Within-time v lt = ground (arith, w)

  Within-long : (v : ℕ) → v < 16777216 → Within (record p.packet { msg_length = some v })
  Within-long v lt = ground (arith, w)

  Within-kind : (v : ℕ) → v < 256 → Within (record p.packet { msg_type = some v })
  Within-kind v lt = ground (arith, w)

  Within-message_stream :
      (v : ℕ) → v < 4294967296 → Within (record p.packet { msg_stream_id = some v })
  Within-message_stream v lt = ground (arith, w)

  Within-stream_id :
      (v : ℕ) → v < 65536 → Within (record p.packet { chunk_stream_id = some (64 + v) })
  Within-stream_id v lt = ground (arith, w)

  Within-basic :
      (v : ℕ)
      → v < 256
      → Within
          (record p.packet { chunk_header_type = some (v / 64); chunk_stream_id = some (v % 64) })
  Within-basic v lt = ground (arith, w)

module _ (p : Parse) (h : Keeps (going p)) where
  Keeps-time : Keeps (read_timestamp p)
  unfolding read_timestamp
  Keeps-time = Keeps-after 16777216 (u24 p.cg) p _ (u24-Reads p.cg h.1) (Within-time p h.0) h.0

  Keeps-long : Keeps (read_msg_length p)
  unfolding read_msg_length
  Keeps-long = Keeps-after 16777216 (u24 p.cg) p _ (u24-Reads p.cg h.1) (Within-long p h.0) h.0

  Keeps-kind : Keeps (read_msg_type p)
  unfolding read_msg_type
  Keeps-kind = Keeps-after 256 (u8 p.cg) p _ (u8-Reads p.cg h.1) (Within-kind p h.0) h.0

  Keeps-message_stream : Keeps (read_msg_stream_id p)
  unfolding read_msg_stream_id
  Keeps-message_stream =
      Keeps-after 4294967296 (u32_le p.cg) p _ (u32_le-Reads p.cg h.1) (Within-message_stream p h.0)
        h.0

  read_basic_header-Keeps : Keeps (read_basic_header p)
  unfolding read_basic_header
  read_basic_header-Keeps =
      Keeps-bind (after (u8 p.cg) p _) _
        (Keeps-after 256 (u8 p.cg) p _ (u8-Reads p.cg h.1) (Within-basic p h.0) h.0) λ p' h'. h'

  read_extended_id-Keeps : (id : ℕ) → Keeps (read_extended_id id p)
  unfolding read_extended_id
  read_extended_id-Keeps id =
      Keeps-if (id == 0) _ _
        (Keeps-bind (after (u8 p.cg) p _) _
          (Keeps-after 256 (u8 p.cg) p _ (u8-Reads p.cg h.1)
            (λ v lt. Within-stream_id p h.0 v (omega arith)) h.0)
          λ p' h'. h')
        (Keeps-if (id == 1) _ _
          (Keeps-bind (after (u16 p.cg) p _) _
            (Keeps-after 65536 (u16 p.cg) p _ (u16-Reads p.cg h.1) (Within-stream_id p h.0) h.0)
            λ p' h'. h')
          h)

read_message_header-Keeps :
    (kind : ℕ) (p : Parse) → Keeps (going p) → Keeps (read_message_header kind p)
unfolding read_message_header
read_message_header-Keeps kind p h =
    Keeps-if (kind == 0) _ _
      (Keeps-bind (read_timestamp p) _ (Keeps-time p h) λ p₁ h₁.
        Keeps-bind (read_msg_length p₁) _ (Keeps-long p₁ h₁) λ p₂ h₂.
          Keeps-bind (read_msg_type p₂) _ (Keeps-kind p₂ h₂)
            λ p₃ h₃. Keeps-bind (read_msg_stream_id p₃) _ (Keeps-message_stream p₃ h₃) λ p₄ h₄. h₄)
      (Keeps-if (kind == 1) _ _
        (Keeps-bind (read_timestamp p) _ (Keeps-time p h) λ p₁ h₁.
          Keeps-bind (read_msg_length p₁) _ (Keeps-long p₁ h₁)
            λ p₂ h₂. Keeps-bind (read_msg_type p₂) _ (Keeps-kind p₂ h₂) λ p₃ h₃. h₃)
        (Keeps-if (kind == 2) _ _ (Keeps-bind (read_timestamp p) _ (Keeps-time p h) λ p₁ h₁. h₁) h))

with_attribute-Keeps :
    (o : Option ℕ) (step : ℕ → Parse → Parsing) (p : Parse)
    → ((v : ℕ) → Keeps (step v p))
    → Keeps (going p)
    → Keeps (with_attribute o step p)
unfolding with_attribute
with_attribute-Keeps none step p k h = h
with_attribute-Keeps (some v) step p k h = k v

pub read_header-Keeps : (content : Bytes) → All IsByte content → Keeps (read_header content)
unfolding read_header
read_header-Keeps content h =
    let p₀ : Parse = record { packet = blank; cg = content; curr_pos = 0 } in
    Keeps-bind (read_basic_header p₀) _ (read_basic_header-Keeps p₀ (ground arith, h)) λ p k.
      Keeps-bind (with_attribute p.packet.chunk_stream_id read_extended_id p) _
        (with_attribute-Keeps p.packet.chunk_stream_id read_extended_id p
          (read_extended_id-Keeps p k) k)
        λ q l.
          with_attribute-Keeps q.packet.chunk_header_type read_message_header q
            (λ v. read_message_header-Keeps v q l) l
