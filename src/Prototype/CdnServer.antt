-- ===== src/Prototype/CdnServer.antt =====
-- prototype/hosts/cdn-server.py: the server that stores the frames of the broadcaster and passes each
-- on to the viewer. `clock` is the time that goes into the header of a pushed frame, by the number of
-- frames so far; the time that is only printed is left out.
use p2p_livestreaming.Prelude.{
  ℕ, zero, suc, Option, none, some, List, [], ◌∷◌, ◌++◌, if◌then◌else◌, Bytes, bytes_eq,
}
use p2p_livestreaming.Prototype.{
  get_timestamp, parse_timestamp, frame_beg, frame_end, bcast_beg, bcast_end, ctrl_msg_len, Sock,
  recv, got, ended, assertion_error, spinning, recv_frame,
}

pub record CdnServer : Type 0 where
  pub storage : List Bytes
  pub pushed : Bytes
  pub frame_cnt : ℕ

pub data Fault : Type 0 where
  struct_error assertion_failed index_error : Fault

-- `serving`: a loop did not end within its fuel.
pub data Serving : Type 0 where
  served : CdnServer → Serving
  raised : Fault → CdnServer → Serving
  serving : Serving

-- `storage[-1]`
unfoldable pub last : List Bytes → Option Bytes
last [] = none
last (x ∷ []) = some x
last (_ ∷ y ∷ ys) = last (y ∷ ys)

abbrev pub push : Bytes → CdnServer → CdnServer
push bytes c = record c { pushed = c.pushed ++ bytes }

-- The server before the broadcast.
abbrev pub idle : CdnServer
idle = record { storage = []; pushed = []; frame_cnt = 0 }

-- What is stored and counted of a received frame.
abbrev pub store : Bytes → CdnServer → CdnServer
store frame c = record c { storage = c.storage ++ frame ∷ []; frame_cnt = suc c.frame_cnt }

module _ {Time : Type 0} (pack_time : Time → Bytes) (unpack_time : Bytes → Option Time)
    (clock : ℕ → Time) where
  -- `_push_frame`
  unfoldable pub push_frame : Time → CdnServer → Serving
  unfolding last
  push_frame now c = elim (last c.storage) [
    | none ↦ raised index_error (push frame_beg c)
    | some frame ↦
        served (push (frame_beg ++ ((get_timestamp pack_time now ++ frame) ++ frame_end)) c)
  ]

  -- The loop over `_recv_frame` and `_push_frame`.
  unfoldable pub serve_loop : (fuel inner : ℕ) → CdnServer → Sock → Serving
  unfolding recv_frame push_frame
  serve_loop zero inner c s = serving
  serve_loop (suc fuel) inner c s = elim (recv_frame inner s) [
    | spinning ↦ serving
    | assertion_error ↦ raised assertion_failed c
    | ended s₁ ↦ served (push bcast_end c)
    | got header frame s₁ ↦ elim (parse_timestamp unpack_time header) [
      | none ↦ raised struct_error c
      | some sent_at ↦ elim (push_frame (clock c.frame_cnt) (store frame c)) [
        | raised x c₁ ↦ raised x c₁
        | serving ↦ serving
        | served c₁ ↦ serve_loop fuel inner c₁ s₁
      ]
    ]
  ]

  -- `run`
  unfoldable pub run : ℕ → Sock → Serving
  unfolding recv serve_loop bytes_eq
  run fuel s =
      let (msg, s₁) = recv ctrl_msg_len s in
      if bytes_eq msg bcast_beg
      then serve_loop fuel fuel (push bcast_beg idle) s₁
      else raised assertion_failed idle

-- The main block, on the arguments behind the script's name; `none` is a failed assertion on their
-- number or a port that `int` rejects. What arrives on the port and what `run` makes of it is
-- `serving_on`.
unfoldable pub main :
    (int : Bytes → Option ℕ) → (serving_on : ℕ → Serving) → (args : List Bytes) → Option Serving
main int serving_on (listen_port ∷ viewer_host ∷ viewer_port ∷ []) = elim (int listen_port) [
  | none ↦ none
  | some p ↦ elim (int viewer_port) [ none ↦ none | some _ ↦ some (serving_on p) ]
]
main int serving_on _ = none
