-- ===== src/Pipeline/Framing/Chunks.antt =====
-- The events of a stream that comes in chunks.
use ai_open_router.Prelude.{
  ℕ, zero, suc, ◌≡◌, refl, sym, ap, ◌∙◌, ◌≤◌, ◌<◌, none, some, List, [], ◌∷◌, ◌++◌, ◌+◌, arith,
  length, take, drop, Option-cases, inl, inr, length-append, append_assoc, take-full, concat,
}
use ai_open_router.Pipeline.Framing.{
  delimiter_len, find_from, find_sse_delimiter, pop_sse_event, pop_events, all_events,
}
use ai_open_router.Pipeline.Framing.Laws.{
  find_from-hit, find_from-miss, delimiter_len-append, delimiter_len-front, find_from-Splits,
  pop_sse_event-found, pop_sse_event-missing, IsEvent,
}
use ai_open_router.Pipeline.Framing.Events.{
  all_events-IsFraming, pop_events-more, pop_events-last, tail-shorter,
}

-- Bytes that end in a delimiter do not make one with the byte before them and what follows.
no_straddle :
    (b : ℕ) (bytes more : List ℕ)
    → IsEvent bytes
    → delimiter_len (b ∷ bytes) ≡ none
    → delimiter_len (b ∷ bytes ++ more) ≡ none
unfolding delimiter_len
no_straddle b [] more h e = absurd (ground arith)
no_straddle b (w ∷ []) more h e = absurd (ground arith)
no_straddle b (w ∷ x ∷ []) more h e = ground arith
no_straddle b (w ∷ x ∷ y ∷ bytes) more h e = ground arith

find_from-append :
    (i : ℕ) (bytes more : List ℕ) (s n : ℕ)
    → find_from i bytes ≡ some (s, n)
    → find_from i (bytes ++ more) ≡ some (s, n)
unfolding find_from
find_from-append i [] more s n h = absurd (ground arith)
find_from-append i (b ∷ bytes) more s n h = elim (Option-cases (delimiter_len (b ∷ bytes))) [
  | inl miss ↦
      let next = rw (find_from-miss i b bytes miss) at h in
      let (event, tail, split, end, first) = find_from-Splits (suc i) bytes s n next in
      let front : delimiter_len (b ∷ event) ≡ none =
        delimiter_len-front (b ∷ event) tail (sym (ap (λ t. delimiter_len (b ∷ t)) split) ∙ miss) in
      let still : delimiter_len (b ∷ bytes ++ more) ≡ none =
        ap (λ t. delimiter_len (b ∷ t ++ more)) split
        ∙ ap (λ t. delimiter_len (b ∷ t)) (append_assoc event tail more)
        ∙ no_straddle b event (tail ++ more) first front in
      find_from-miss i b (bytes ++ more) still ∙ find_from-append (suc i) bytes more s n next
  | inr (m, hit) ↦
      find_from-hit i b (bytes ++ more) m (delimiter_len-append (b ∷ bytes) more m hit)
      ∙ sym (find_from-hit i b bytes m hit)
      ∙ h
]

drop-append : (n : ℕ) (xs ys : List ℕ) → n ≤ length xs → drop n (xs ++ ys) ≡ drop n xs ++ ys
drop-append zero xs ys h = refl
drop-append (suc n) [] ys h = absurd (omega arith)
drop-append (suc n) (x ∷ xs) ys h = drop-append n xs ys (omega arith)

-- More bytes do not change the event that is popped.
pop_sse_event-append :
    (buffer more event tail : List ℕ)
    → pop_sse_event buffer ≡ some (event, tail)
    → pop_sse_event (buffer ++ more) ≡ some (event, tail ++ more)
unfolding find_sse_delimiter
pop_sse_event-append buffer more event tail h = elim (Option-cases (find_sse_delimiter buffer)) [
  | inl missing ↦ absurd (ground (arith, pop_sse_event-missing buffer missing))
  | inr ((s, n), found) ↦
      let (front, back, split, end, first) = find_from-Splits 0 buffer s n found in
      let inside : s + n ≤ length buffer =
        omega (arith, end, ap (length {A = ℕ}) split, length-append front back) in
      let popped : (take (s + n) buffer ≡ event) × (drop (s + n) buffer ≡ tail) =
        ground (arith, pop_sse_event-found buffer s n found) in
      pop_sse_event-found (buffer ++ more) s n (find_from-append 0 buffer more s n found)
      ∙ rw (take-full (s + n) buffer more inside, drop-append (s + n) buffer more inside)
          (ground arith)
]

-- More fuel than bytes is enough.
pop_events-fuel :
    (f g : ℕ) (buffer : List ℕ)
    → length buffer < f
    → length buffer < g
    → pop_events f buffer ≡ pop_events g buffer
pop_events-fuel zero g buffer h k = absurd (omega arith)
pop_events-fuel (suc f) zero buffer h k = absurd (omega arith)
pop_events-fuel (suc f) (suc g) buffer h k = elim (Option-cases (pop_sse_event buffer)) [
  | inl last ↦ pop_events-last (suc f) buffer last ∙ sym (pop_events-last (suc g) buffer last)
  | inr ((event, tail), popped) ↦
      let same =
        pop_events-fuel f g tail (omega (arith, tail-shorter buffer event tail popped))
          (omega (arith, tail-shorter buffer event tail popped)) in
      pop_events-more f buffer event tail popped
      ∙ ap (λ r. (event ∷ r.0, r.1)) same
      ∙ sym (pop_events-more g buffer event tail popped)
]

-- The events of a buffer, and then those of what stays with more bytes.
abbrev pub then_more : ℕ → List ℕ → List (List ℕ) × List ℕ → List (List ℕ) × List ℕ
then_more fuel more first =
    let second = pop_events fuel (first.1 ++ more) in (first.0 ++ second.0, second.1)

pop_events-append :
    (f g : ℕ) (buffer more : List ℕ)
    → length (buffer ++ more) < f
    → length (buffer ++ more) < g
    → pop_events f (buffer ++ more) ≡ then_more g more (pop_events f buffer)
pop_events-append zero g buffer more h k = absurd (omega arith)
pop_events-append (suc f) g buffer more h k = elim (Option-cases (pop_sse_event buffer)) [
  | inl last ↦
      pop_events-fuel (suc f) g (buffer ++ more) h k
      ∙ sym (ap (then_more g more) (pop_events-last (suc f) buffer last))
  | inr ((event, tail), popped) ↦
      let longer = pop_sse_event-append buffer more event tail popped in
      let shorter = tail-shorter (buffer ++ more) event (tail ++ more) longer in
      let rest =
        pop_events-append f g tail more (omega (arith, shorter)) (omega (arith, shorter)) in
      pop_events-more f (buffer ++ more) event (tail ++ more) longer
      ∙ ap (λ r. (event ∷ r.0, r.1)) rest
      ∙ sym (ap (then_more g more) (pop_events-more f buffer event tail popped))
]

-- Cutting a stream into two chunks gives the same events, and leaves the same bytes, as the
-- joined bytes do.
pub all_events-append :
    (a b : List ℕ)
    → all_events (a ++ b) ≡ (
      (all_events a).0 ++ (all_events ((all_events a).1 ++ b)).0,
      (all_events ((all_events a).1 ++ b)).1,
    )
unfolding all_events
all_events-append a b =
    let fuel = suc (length (a ++ b)) in
    let (whole, events, rest) = all_events-IsFraming a in
    let left : length (all_events a).1 ≤ length a = omega (
      arith,
      ap (length {A = ℕ}) whole,
      length-append (concat (all_events a).0) (all_events a).1,
    ) in
    let small : length ((all_events a).1 ++ b) < fuel =
      omega (arith, left, length-append (all_events a).1 b, length-append a b) in
    pop_events-append fuel fuel a b (omega arith) (omega arith)
    ∙ ap (then_more fuel b)
        (pop_events-fuel fuel (suc (length a)) a (omega (arith, length-append a b)) (omega arith))
    ∙ ap (λ r. ((all_events a).0 ++ r.0, r.1))
        (pop_events-fuel fuel (suc (length ((all_events a).1 ++ b))) ((all_events a).1 ++ b) small
          (omega arith))
