-- ===== src/Observability/Stream/Laws.antt =====
-- The accumulator on the chunks of a stream.
use ai_open_router.Text.Lines.{strip_carriage_return}
use Prim.Native.Char.{Char, code}
use Prim.Native.String.{[], ◌∷◌, ◌++◌, count}
use text.Mathlib.TextLemmas.{
  append-nil, append_assoc, nil-append, cons-append, length-append, length-cons,
}
use ai_open_router.Prelude.{
  Bool-cases, inl, inr, ℕ, zero, suc, String, ◌≤◌, ◌<◌, ◌≡◌, refl, sym, ap, ◌∙◌, true, false,
  Option, none, some, List, ◌++◌ as append, arith, eqb, if◌then◌else◌,
}
use ai_open_router.Text.Search.{split_once}
use ai_open_router.Text.Decode.{from_utf8_lossy}
use ai_open_router.Text.Decode.Laws.{IsWhole, from_utf8_lossy-append}
use ai_open_router.Json.{Value}
use ai_open_router.Entities.{TokenUsage}
use ai_open_router.Observability.Stream.{
  StreamTokenAccumulator, consume_line, drain, consume_text, consume_chunk,
}

-- No line feed.
abbrev pub IsLine : String → Type 0
IsLine [] = Unit
IsLine (c ∷ s) = (eqb (code c) 10 ≡ false) × IsLine s

split_once_of_IsLine : (s : String) → IsLine s → split_once 10 s ≡ none
unfolding split_once
split_once_of_IsLine [] h = refl
split_once_of_IsLine (c ∷ s) h = rw (h.0, split_once_of_IsLine s h.1)

split_once-append :
    (b : String) (c : Char) (s : String)
    → IsLine b
    → eqb (code c) 10 ≡ true
    → split_once 10 (b ++ (c ∷ s)) ≡ some (b, s)
unfolding split_once
split_once-append [] c s h e = rw (nil-append, split_once, e)
split_once-append (d ∷ b) c s h e = rw (cons-append, split_once, h.0, split_once-append b c s h.1 e)

IsLine-push : (b : String) (c : Char) → IsLine b → eqb (code c) 10 ≡ false → IsLine (b ++ (c ∷ []))
IsLine-push [] c h e = rw nil-append (e, tt)
IsLine-push (d ∷ b) c h e = rw cons-append (h.0, IsLine-push b c h.1 e)

regroup : (b : String) (c : Char) (s : String) → b ++ (c ∷ s) ≡ (b ++ (c ∷ [])) ++ s
regroup b c s = rw (append_assoc, cons-append, nil-append)

-- Every count of `a` is at least that of `b`.
pub record Covers (a b : TokenUsage) : Type 0 where
  pub input : b.input_tokens ≤ a.input_tokens
  pub output : b.output_tokens ≤ a.output_tokens
  pub cache_read : b.cache_read_tokens ≤ a.cache_read_tokens
  pub cache_write : b.cache_write_tokens ≤ a.cache_write_tokens

Covers-refl : (a : TokenUsage) → Covers a a
Covers-refl a = omega arith

Covers-trans : (a b c : TokenUsage) → Covers a b → Covers b c → Covers a c
Covers-trans a b c h k = omega arith

module _ (from_str : String → Option Value) where
  -- The same machine, character by character.
  unfoldable pub feed : String → StreamTokenAccumulator → StreamTokenAccumulator
  feed [] acc = acc
  feed (c ∷ s) acc = feed s (
      if eqb (code c) 10
      then record {
        line_buffer = "";
        counts = consume_line from_str (strip_carriage_return acc.line_buffer) acc.counts;
      }
      else record acc { line_buffer = acc.line_buffer ++ (c ∷ []) })

  feed-newline :
      (c : Char) (s : String) (acc : StreamTokenAccumulator)
      → eqb (code c) 10 ≡ true
      → feed (c ∷ s) acc
        ≡ feed s (record {
          line_buffer = "";
          counts = consume_line from_str (strip_carriage_return acc.line_buffer) acc.counts;
        })
  unfolding feed
  feed-newline c s acc e = rw (feed, e)

  feed-other :
      (c : Char) (s : String) (acc : StreamTokenAccumulator)
      → eqb (code c) 10 ≡ false
      → feed (c ∷ s) acc ≡ feed s (record acc { line_buffer = acc.line_buffer ++ (c ∷ []) })
  unfolding feed
  feed-other c s acc e = rw (feed, e)

  drain-none :
      (fuel : ℕ) (buffer : String) (counts : TokenUsage)
      → split_once 10 buffer ≡ none
      → drain from_str (suc fuel) (record { line_buffer = buffer; counts = counts })
        ≡ record { line_buffer = buffer; counts = counts }
  unfolding drain
  drain-none fuel buffer counts e = rw (drain, e)

  drain-some :
      (fuel : ℕ) (buffer line rest : String) (counts : TokenUsage)
      → split_once 10 buffer ≡ some (line, rest)
      → drain from_str (suc fuel) (record { line_buffer = buffer; counts = counts })
        ≡ drain from_str fuel (record {
          line_buffer = rest;
          counts = consume_line from_str (strip_carriage_return line) counts;
        })
  unfolding drain
  drain-some fuel buffer line rest counts e = rw (drain, e)

  drain-feed :
      (s : String) (fuel : ℕ) (b : String) (counts : TokenUsage)
      → IsLine b
      → count s < fuel
      → drain from_str fuel (record { line_buffer = b ++ s; counts = counts })
        ≡ feed s (record { line_buffer = b; counts = counts })
  unfolding feed
  drain-feed s zero b counts h f = absurd (omega arith)
  drain-feed [] (suc fuel) b counts h f =
      rw (append-nil b) (drain-none fuel b counts (split_once_of_IsLine b h))
  drain-feed (c ∷ s) (suc fuel) b counts h f = elim (Bool-cases (eqb (code c) 10)) [
    | inl feeds ↦ rw feeds (
        drain-some fuel (b ++ (c ∷ s)) b s counts (split_once-append b c s h feeds)
        ∙ ap
            (λ t. drain from_str fuel (record {
              line_buffer = t;
              counts = consume_line from_str (strip_carriage_return b) counts;
            }))
            (sym (nil-append s))
        ∙ drain-feed s fuel "" _ tt (omega (arith, length-cons c s)))
    | inr other ↦ rw other (
        ap (λ t. drain from_str (suc fuel) (record { line_buffer = t; counts = counts }))
          (regroup b c s)
        ∙ drain-feed s (suc fuel) (b ++ (c ∷ [])) counts (IsLine-push b c h other)
            (omega (arith, length-cons c s)))
  ]

  feed-append :
      (s t : String) (acc : StreamTokenAccumulator) → feed (s ++ t) acc ≡ feed t (feed s acc)
  unfolding feed
  feed-append [] t acc = rw nil-append
  feed-append (c ∷ s) t acc = rw cons-append (feed-append s t _)

  feed-IsLine :
      (s : String) (acc : StreamTokenAccumulator)
      → IsLine acc.line_buffer
      → IsLine (feed s acc).line_buffer
  unfolding feed
  feed-IsLine [] acc h = h
  feed-IsLine (c ∷ s) acc h = elim (Bool-cases (eqb (code c) 10)) [
    | inl feeds ↦ rw (feed-newline c s acc feeds) (feed-IsLine s _ tt)
    | inr other ↦
        rw (feed-other c s acc other) (feed-IsLine s _ (IsLine-push acc.line_buffer c h other))
  ]

  -- A chunk is the run of its characters, and all lines of the buffer are consumed.
  pub consume_text-feed :
      (chunk : String) (acc : StreamTokenAccumulator)
      → IsLine acc.line_buffer
      → consume_text from_str chunk acc ≡ feed chunk acc
  unfolding consume_text
  consume_text-feed chunk acc h =
      drain-feed chunk (suc (count (acc.line_buffer ++ chunk))) acc.line_buffer acc.counts h
        (omega (arith, length-append acc.line_buffer chunk))

  -- From a buffer without a line feed, two chunks of bytes leave the accumulator as their join
  -- does, and the buffer between them is an unfinished line, if the first chunk does not end
  -- within a character.
  pub consume_chunk-append :
      (a b : List ℕ) (acc : StreamTokenAccumulator)
      → IsWhole a
      → IsLine acc.line_buffer
      → (consume_chunk from_str b (consume_chunk from_str a acc)
          ≡ consume_chunk from_str (append a b) acc)
        × IsLine (consume_chunk from_str a acc).line_buffer
  unfolding consume_chunk
  consume_chunk-append a b acc w h =
      let s = from_utf8_lossy a in
      let t = from_utf8_lossy b in
      let line = feed-IsLine s acc h in
      rw
        (
          from_utf8_lossy-append a b w,
          consume_text-feed s acc h,
          consume_text-feed (s ++ t) acc h,
          feed-append s t acc,
        )
        (consume_text-feed t (feed s acc) line, line)

  consume_line_grows :
      (line : String) (counts : TokenUsage) → Covers (consume_line from_str line counts) counts
  unfolding consume_line
  consume_line_grows line counts = ground arith

  feed_grows : (s : String) (acc : StreamTokenAccumulator) → Covers (feed s acc).counts acc.counts
  unfolding feed
  feed_grows [] acc = Covers-refl acc.counts
  feed_grows (c ∷ s) acc = elim (Bool-cases (eqb (code c) 10)) [
    | inl feeds ↦ rw (feed-newline c s acc feeds) (
        Covers-trans _ _ _ (feed_grows s _)
          (consume_line_grows (strip_carriage_return acc.line_buffer) acc.counts))
    | inr other ↦ rw (feed-other c s acc other) (feed_grows s _)
  ]

  -- Counts only grow, whatever a chunk holds.
  pub consume_chunk_grows :
      (chunk : List ℕ) (acc : StreamTokenAccumulator)
      → IsLine acc.line_buffer
      → Covers (consume_chunk from_str chunk acc).counts acc.counts
  unfolding consume_chunk
  consume_chunk_grows chunk acc h =
      rw (consume_text-feed (from_utf8_lossy chunk) acc h) (feed_grows (from_utf8_lossy chunk) acc)
