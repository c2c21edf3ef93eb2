-- ===== src/Pipeline/Framing/Events.antt =====
-- What the loop over the events takes from a buffer, and what it leaves.
use ai_open_router.Prelude.{
  concat, append_assoc, ℕ, zero, suc, ◌≡◌, refl, ap, ◌∙◌, ◌≤◌, ◌<◌, none, some, List, [], ◌∷◌, ◌++◌,
  arith, length, Option-cases, inl, inr, All, length-append, Absent-elim,
}
use ai_open_router.Pipeline.Framing.{pop_sse_event, pop_events, all_events}
use ai_open_router.Pipeline.Framing.Laws.{
  IsEvent, HasNoEvent, pop_sse_event-some, pop_sse_event-none,
}

IsEvent-length : (event : List ℕ) → IsEvent event → 1 ≤ length event
IsEvent-length [] h = absurd (Absent-elim h)
IsEvent-length (b ∷ event) h = omega arith

-- The events and the rest are the buffer, the events are cut at their first delimiter, and the
-- rest has none.
abbrev pub IsFraming : List ℕ → List (List ℕ) × List ℕ → Type 0
IsFraming buffer r = (concat r.0 ++ r.1 ≡ buffer) × All IsEvent r.0 × HasNoEvent r.1

pub pop_events-more :
    (fuel : ℕ) (buffer event tail : List ℕ)
    → pop_sse_event buffer ≡ some (event, tail)
    → pop_events (suc fuel) buffer ≡ (event ∷ (pop_events fuel tail).0, (pop_events fuel tail).1)
unfolding pop_events
pop_events-more fuel buffer event tail h = rw (pop_events, h)

pub pop_events-last :
    (fuel : ℕ) (buffer : List ℕ)
    → pop_sse_event buffer ≡ none
    → pop_events fuel buffer ≡ ([], buffer)
unfolding pop_events
pop_events-last zero buffer h = refl
pop_events-last (suc fuel) buffer h = rw (pop_events, h)

pub tail-shorter :
    (buffer event tail : List ℕ)
    → pop_sse_event buffer ≡ some (event, tail)
    → length tail < length buffer
tail-shorter buffer event tail h =
    let (split, first) = pop_sse_event-some buffer event tail h in
    omega (arith, ap (length {A = ℕ}) split, length-append event tail, IsEvent-length event first)

pop_events-IsFraming :
    (fuel : ℕ) (buffer : List ℕ) → length buffer < fuel → IsFraming buffer (pop_events fuel buffer)
pop_events-IsFraming zero buffer h = absurd (omega arith)
pop_events-IsFraming (suc fuel) buffer h = elim (Option-cases (pop_sse_event buffer)) [
  | inl last ↦
      rw (pop_events-last (suc fuel) buffer last) (refl, tt, pop_sse_event-none buffer last)
  | inr ((event, tail), popped) ↦
      let (split, first) = pop_sse_event-some buffer event tail popped in
      let (whole, events, rest) =
        pop_events-IsFraming fuel tail (omega (arith, tail-shorter buffer event tail popped)) in
      rw (pop_events-more fuel buffer event tail popped)
        (append_assoc event _ _ ∙ ap (◌++◌ event) whole ∙ split, (first, events), rest)
]

-- Framing loses no byte: the events and the bytes that stay are the buffer, each event ends at
-- its first delimiter, and no delimiter is left.
pub all_events-IsFraming : (buffer : List ℕ) → IsFraming buffer (all_events buffer)
unfolding all_events
all_events-IsFraming buffer = pop_events-IsFraming (suc (length buffer)) buffer (omega arith)
