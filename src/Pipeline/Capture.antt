-- ===== src/Pipeline/Capture.antt =====
-- proxy/pipeline.rs, `capture_stream_chunk`: the bytes of a stream that the log keeps.
pub mod Laws
use ai_open_router.Prelude.{
  ℕ, ◌-◌, Bool, true, not, ◌&&◌, List, ◌++◌, leb, eqb, if◌then◌else◌, length, take, ◌*◌, ◌≤◌, ◌≡◌,
  arith, suc, false, ◌∷◌, ap, [],
}

-- The buffers that a stream's chunks are captured in.
pub record Capture : Type 0 where
  pub stream_body : List ℕ
  pub stream_body_truncated : Bool
  pub stream_debug_body : List ℕ

-- proxy.rs.
abbrev pub max_stream_log_body_bytes : ℕ
max_stream_log_body_bytes = 256 * 1024

-- `remaining` as in the source.
abbrev remaining : Capture → ℕ
remaining s = max_stream_log_body_bytes - length s.stream_body

-- The first part: the body, up to the limit.
unfoldable pub capture_body : List ℕ → Bool → Capture → Capture
capture_body outgoing stream_capture_body s =
    if stream_capture_body && not s.stream_body_truncated
    then (if eqb (remaining s) 0
        then record s { stream_body_truncated = true }
        else if leb (length outgoing) (remaining s)
        then record s { stream_body = s.stream_body ++ outgoing }
        else record s {
          stream_body = s.stream_body ++ take (remaining s) outgoing;
          stream_body_truncated = true;
        })
    else s

unfoldable pub capture_stream_chunk : List ℕ → Bool → Bool → Capture → Capture
unfolding capture_body
capture_stream_chunk outgoing stream_capture_body stream_debug_capture_body s =
    let t = capture_body outgoing stream_capture_body s in
    if stream_debug_capture_body
    then record t { stream_debug_body = t.stream_debug_body ++ outgoing }
    else t

-- The chunks of a stream, one after the other.
unfoldable pub capture_all : Bool → Bool → List (List ℕ) → Capture → Capture
unfolding capture_stream_chunk
capture_all stream_capture_body stream_debug_capture_body [] s = s
capture_all stream_capture_body stream_debug_capture_body (chunk ∷ chunks) s =
    capture_all stream_capture_body stream_debug_capture_body chunks
      (capture_stream_chunk chunk stream_capture_body stream_debug_capture_body s)

abbrev pub empty_capture : Capture
empty_capture = record { stream_body = []; stream_body_truncated = false; stream_debug_body = [] }
