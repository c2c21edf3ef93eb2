-- ===== src/Pipeline/Framing.antt =====
-- proxy/pipeline.rs: the events of a stream, cut at blank lines. A buffer is its list of bytes.
pub mod Laws
pub mod Events
pub mod Chunks
use ai_open_router.Prelude.{
  ℕ, zero, suc, Bool, true, false, ◌&&◌, Option, none, some, List, [], ◌∷◌, ◌+◌, eqb, if◌then◌else◌,
  length, take, drop, ◌>>=◌,
}

abbrev has_prefix : List ℕ → List ℕ → Bool
has_prefix [] bytes = true
has_prefix (p ∷ ps) [] = false
has_prefix (p ∷ ps) (b ∷ bytes) = eqb b p && has_prefix ps bytes

-- The length of the delimiter at the head of the bytes.
unfoldable pub delimiter_len : List ℕ → Option ℕ
delimiter_len bytes =
    if has_prefix (b'\n' ∷ b'\n' ∷ []) bytes
    then some 2
    else if has_prefix (b'\r' ∷ b'\n' ∷ b'\r' ∷ b'\n' ∷ []) bytes
    then some 4
    else none

-- The loop of `find_sse_delimiter` at `idx`, with the bytes from there on.
unfoldable pub find_from : ℕ → List ℕ → Option (ℕ × ℕ)
unfolding delimiter_len
find_from idx [] = none
find_from idx (b ∷ bytes) =
    let rest = find_from (suc idx) bytes in
    elim (delimiter_len (b ∷ bytes)) [ none ↦ rest | some n ↦ some (idx, n) ]

unfoldable pub find_sse_delimiter : List ℕ → Option (ℕ × ℕ)
unfolding find_from
find_sse_delimiter buffer = find_from 0 buffer

-- The event and the buffer that is left.
unfoldable pub pop_sse_event : List ℕ → Option (List ℕ × List ℕ)
unfolding find_sse_delimiter
pop_sse_event buffer = find_sse_delimiter buffer >>= λ found.
    let end = found.0 + found.1 in some (take end buffer, drop end buffer)

-- `while let Some(event) = pop_sse_event(&mut sse_pending)`, on fuel.
unfoldable pub pop_events : ℕ → List ℕ → List (List ℕ) × List ℕ
unfolding pop_sse_event
pop_events zero buffer = ([], buffer)
pop_events (suc fuel) buffer = elim (pop_sse_event buffer) [
  | none ↦ ([], buffer)
  | some (event, tail) ↦ let (events, rest) = pop_events fuel tail in (event ∷ events, rest)
]

-- The bytes of the buffer are fuel enough: an event takes at least two.
unfoldable pub all_events : List ℕ → List (List ℕ) × List ℕ
unfolding pop_events
all_events buffer = pop_events (suc (length buffer)) buffer
