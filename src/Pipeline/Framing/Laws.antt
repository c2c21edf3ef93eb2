-- ===== src/Pipeline/Framing/Laws.antt =====
-- What a delimiter is found at, and what is popped.
use ai_open_router.Prelude.{
  ℕ, suc, ◌≡◌, refl, sym, ap, ◌∙◌, ◌≤◌, none, some, List, [], ◌∷◌, ◌++◌, ◌+◌, arith, eqb, length,
  take, drop, Option-cases, inl, inr, Absent, Bool-cases, subst, ◌⊎◌,
}
use ai_open_router.Pipeline.Framing.{delimiter_len, find_from, find_sse_delimiter, pop_sse_event}

-- Some bytes, then a delimiter that is the first one.
abbrev pub IsEvent : List ℕ → Type 0
IsEvent [] = Absent
IsEvent (b ∷ bytes) =
    (delimiter_len (b ∷ bytes) ≡ some (length (b ∷ bytes)))
    ⊎ ((delimiter_len (b ∷ bytes) ≡ none) × IsEvent bytes)

delimiter_len-small :
    (bytes : List ℕ) (n : ℕ)
    → delimiter_len bytes ≡ some n
    → (2 ≤ n) × (n ≤ length bytes) × (delimiter_len (take n bytes) ≡ some n)
unfolding delimiter_len
delimiter_len-small [] n h = ground arith
delimiter_len-small (a ∷ []) n h = ground arith
delimiter_len-small (a ∷ b ∷ []) n h = ground arith
delimiter_len-small (a ∷ b ∷ c ∷ []) n h = ground arith
delimiter_len-small (a ∷ b ∷ c ∷ d ∷ bytes) n h = ground arith

pub delimiter_len-append :
    (a b : List ℕ) (n : ℕ) → delimiter_len a ≡ some n → delimiter_len (a ++ b) ≡ some n
unfolding delimiter_len
delimiter_len-append [] b n h = ground arith
delimiter_len-append (w ∷ []) b n h = ground arith
delimiter_len-append (w ∷ x ∷ []) b n h = ground arith
delimiter_len-append (w ∷ x ∷ y ∷ []) b n h = ground arith
delimiter_len-append (w ∷ x ∷ y ∷ z ∷ a) b n h = ground arith

pub delimiter_len-front : (a b : List ℕ) → delimiter_len (a ++ b) ≡ none → delimiter_len a ≡ none
delimiter_len-front a b h = elim (Option-cases (delimiter_len a)) [
  | inl e ↦ e
  | inr (n, e) ↦ absurd (ground (arith, delimiter_len-append a b n e))
]

pub find_from-hit :
    (i : ℕ) (b : ℕ) (bytes : List ℕ) (n : ℕ)
    → delimiter_len (b ∷ bytes) ≡ some n
    → find_from i (b ∷ bytes) ≡ some (i, n)
unfolding find_from
find_from-hit i b bytes n h = rw (find_from, h)

pub find_from-miss :
    (i : ℕ) (b : ℕ) (bytes : List ℕ)
    → delimiter_len (b ∷ bytes) ≡ none
    → find_from i (b ∷ bytes) ≡ find_from (suc i) bytes
unfolding find_from
find_from-miss i b bytes h = rw (find_from, h)

-- No delimiter starts anywhere in the bytes.
abbrev pub HasNoEvent : List ℕ → Type 0
HasNoEvent [] = Unit
HasNoEvent (b ∷ bytes) = (delimiter_len (b ∷ bytes) ≡ none) × HasNoEvent bytes

find_from-none : (i : ℕ) (bytes : List ℕ) → find_from i bytes ≡ none → HasNoEvent bytes
unfolding find_from
find_from-none i [] h = tt
find_from-none i (b ∷ bytes) h = elim (Option-cases (delimiter_len (b ∷ bytes))) [
  | inl miss ↦ (miss, find_from-none (suc i) bytes (rw (find_from-miss i b bytes miss) at h))
  | inr (n, hit) ↦ absurd (ground (arith, find_from-hit i b bytes n hit))
]

-- The event at the front of the bytes, up to the end of the delimiter that was found.
abbrev pub Splits : ℕ → List ℕ → ℕ → Type 0
Splits i bytes end =
    (event tail : List ℕ) × (bytes ≡ event ++ tail) × (end ≡ i + length event) × IsEvent event

delimiter_len-Splits :
    (i b : ℕ) (bytes : List ℕ) (n : ℕ)
    → delimiter_len (b ∷ bytes) ≡ some n
    → Splits i (b ∷ bytes) (i + n)
unfolding delimiter_len
delimiter_len-Splits i b [] n h = absurd (ground arith)
delimiter_len-Splits i b (c ∷ []) n h = (b ∷ c ∷ [], [], refl, ground arith, inl (ground arith))
delimiter_len-Splits i b (c ∷ d ∷ []) n h =
    (b ∷ c ∷ [], d ∷ [], refl, ground arith, inl (ground arith))
delimiter_len-Splits i b (c ∷ d ∷ e ∷ bytes) n h = elim (Bool-cases (eqb b 10)) [
  | inl two ↦ (b ∷ c ∷ [], d ∷ e ∷ bytes, refl, ground arith, inl (ground arith))
  | inr four ↦ (b ∷ c ∷ d ∷ e ∷ [], bytes, refl, ground arith, inl (ground arith))
]

pub find_from-Splits :
    (i : ℕ) (bytes : List ℕ) (s n : ℕ) → find_from i bytes ≡ some (s, n) → Splits i bytes (s + n)
unfolding find_from
find_from-Splits i [] s n h = absurd (ground arith)
find_from-Splits i (b ∷ bytes) s n h = elim (Option-cases (delimiter_len (b ∷ bytes))) [
  | inl miss ↦
      let (event, tail, split, end, first) =
        find_from-Splits (suc i) bytes s n (rw (find_from-miss i b bytes miss) at h) in
      (
        b ∷ event,
        tail,
        ap (◌∷◌ b) split,
        omega arith,
        inr (
          delimiter_len-front (b ∷ event) tail (sym (ap (λ t. delimiter_len (b ∷ t)) split) ∙ miss),
          first,
        ),
      )
  | inr (m, hit) ↦
      let found = find_from-hit i b bytes m hit in
      subst (λ e. Splits i (b ∷ bytes) e) (ground arith) (delimiter_len-Splits i b bytes m hit)
]

pub take-length : (xs ys : List ℕ) → take (length xs) (xs ++ ys) ≡ xs
take-length [] ys = refl
take-length (x ∷ xs) ys = ap (◌∷◌ x) (take-length xs ys)

pub drop-length : (xs ys : List ℕ) → drop (length xs) (xs ++ ys) ≡ ys
drop-length [] ys = refl
drop-length (x ∷ xs) ys = drop-length xs ys

pub pop_sse_event-found :
    (buffer : List ℕ) (s n : ℕ)
    → find_sse_delimiter buffer ≡ some (s, n)
    → pop_sse_event buffer ≡ some (take (s + n) buffer, drop (s + n) buffer)
unfolding pop_sse_event
pop_sse_event-found buffer s n h = rw (pop_sse_event, h)

pub pop_sse_event-missing :
    (buffer : List ℕ) → find_sse_delimiter buffer ≡ none → pop_sse_event buffer ≡ none
unfolding pop_sse_event
pop_sse_event-missing buffer h = rw (pop_sse_event, h)

-- An event that is popped is the front of the buffer up to its first delimiter, and the rest
-- stays.
pub pop_sse_event-some :
    (buffer event tail : List ℕ)
    → pop_sse_event buffer ≡ some (event, tail)
    → (event ++ tail ≡ buffer) × IsEvent event
unfolding find_sse_delimiter
pop_sse_event-some buffer event tail h = elim (Option-cases (find_sse_delimiter buffer)) [
  | inl missing ↦ absurd (ground (arith, pop_sse_event-missing buffer missing))
  | inr ((s, n), found) ↦
      let (front, back, split, end, first) = find_from-Splits 0 buffer s n found in
      let popped : (take (s + n) buffer ≡ event) × (drop (s + n) buffer ≡ tail) =
        ground (arith, pop_sse_event-found buffer s n found) in
      let length_front : s + n ≡ length front = omega (arith, end) in
      let is_front : event ≡ front =
        sym popped.0
        ∙ ap (λ k. take k buffer) length_front
        ∙ ap (take (length front)) split
        ∙ take-length front back in
      let is_back : tail ≡ back =
        sym popped.1
        ∙ ap (λ k. drop k buffer) length_front
        ∙ ap (drop (length front)) split
        ∙ drop-length front back in
      rw (is_front, is_back) (sym split, first)
]

pub pop_sse_event-none : (buffer : List ℕ) → pop_sse_event buffer ≡ none → HasNoEvent buffer
unfolding find_sse_delimiter
pop_sse_event-none buffer h = elim (Option-cases (find_sse_delimiter buffer)) [
  | inl missing ↦ find_from-none 0 buffer missing
  | inr ((s, n), found) ↦ absurd (ground (arith, pop_sse_event-found buffer s n found))
]
