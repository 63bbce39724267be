-- ===== src/Prototype/Viewer.antt =====
-- prototype/hosts/viewer.py. The clock is read once for each frame, so it is a function of the number
-- of frames so far; `unpack_time` is `struct.unpack('!d')`, `none` where it raises, and the arithmetic
-- on times is Python's on floats.
use p2p_livestreaming.Prelude.{
  ℕ, zero, suc, Option, none, some, List, [], ◌∷◌, ◌++◌, length, if◌then◌else◌, Bytes, bytes_eq,
}
use p2p_livestreaming.Prototype.{
  parse_timestamp, bcast_beg, ctrl_msg_len, Sock, recv, got, ended, assertion_error, spinning,
  recv_frame,
}

pub data Fault : Type 0 where
  struct_error assertion_failed : Fault

-- `watching`: a loop did not end within its fuel.
pub data View (Time : Type 0) : Type 0 where
  viewed : (frame_cnt : ℕ) (latency_measures : List Time) → View Time
  raised : Fault → (latency_measures : List Time) → View Time
  watching : View Time

module _ {Time : Type 0} (unpack_time : Bytes → Option Time) (sub : Time → Time → Time)
    (clock : ℕ → Time) where
  -- The loop over `_recv_frame`.
  unfoldable pub view_loop : (fuel inner : ℕ) → ℕ → List Time → Sock → View Time
  unfolding recv_frame
  view_loop zero inner frame_cnt measures s = watching
  view_loop (suc fuel) inner frame_cnt measures s = elim (recv_frame inner s) [
    | spinning ↦ watching
    | assertion_error ↦ raised assertion_failed measures
    | ended s₁ ↦ viewed frame_cnt measures
    | got header frame s₁ ↦ elim (parse_timestamp unpack_time header) [
      | none ↦ raised struct_error measures
      | some sent_at ↦
          view_loop fuel inner (suc frame_cnt) (measures ++ sub (clock frame_cnt) sent_at ∷ []) s₁
    ]
  ]

  -- `view`
  unfoldable pub view : ℕ → Sock → View Time
  unfolding recv view_loop bytes_eq
  view fuel s =
      let (msg, s₁) = recv ctrl_msg_len s in
      if bytes_eq msg bcast_beg then view_loop fuel fuel 0 [] s₁ else raised assertion_failed []

-- `avg_latency_ms`, `none` where the division by the number of frames raises.
unfoldable pub avg_latency_ms :
    {Time : Type 0} (total : List Time → Time) (divide : Time → ℕ → Time) (in_ms : Time → ℕ)
    → List Time
    → Option ℕ
avg_latency_ms total divide in_ms [] = none
avg_latency_ms total divide in_ms (t ∷ ts) =
    some (in_ms (divide (total (t ∷ ts)) (length (t ∷ ts))))

-- What the main block prints of a view; `none` where it raises or goes on.
unfoldable pub report : {Time : Type 0} → (List Time → Option ℕ) → View Time → Option ℕ
report average (viewed frame_cnt measures) = average measures
report average (raised x measures) = none
report average watching = none

-- The main block, on the arguments behind the script's name, the view of what arrives on the port, and
-- `avg_latency_ms`.
unfoldable pub main :
    {Time : Type 0}
    → (int : Bytes → Option ℕ) → (viewing : ℕ → View Time) → (average : List Time → Option ℕ)
    → (args : List Bytes) → Option ℕ
unfolding report
main int viewing average (port ∷ []) = elim (int port) [
  | none ↦ none
  | some p ↦ report average (viewing p)
]
main int viewing average _ = none
