-- ===== src/Pipeline/Capture/Laws.antt =====
-- What the log holds of a stream.
use ai_open_router.Prelude.{
  ℕ, ◌≡◌, refl, ◌≤◌, ◌-◌, Bool, true, false, List, [], ◌∷◌, ◌++◌, arith, leb, eqb, length, take,
  Bool-cases, inl, inr, length-append, take-append, take_of_length, length-take, take-full, concat,
  append_assoc, eqb_iff, leb_iff, ap, sym, ◌∙◌,
}
use mathlib.Core.List.{append-nil}
use ai_open_router.Pipeline.Capture.{
  Capture, max_stream_log_body_bytes, capture_body, capture_stream_chunk, capture_all,
  empty_capture,
}

-- What the log holds of the bytes that were sent: their first 256 KiB, and all of them unless it
-- is marked as truncated.
pub record Holds (sent : List ℕ) (s : Capture) : Type 0 where
  pub body : s.stream_body ≡ take max_stream_log_body_bytes sent
  pub whole : s.stream_body_truncated ≡ false → s.stream_body ≡ sent
  pub full : s.stream_body_truncated ≡ true → max_stream_log_body_bytes ≤ length sent
  pub bound : length s.stream_body ≤ max_stream_log_body_bytes

abbrev Fills : List ℕ → List ℕ → Capture → Type 0
Fills sent outgoing s = Holds (sent ++ outgoing) (capture_body outgoing true s)

capture_body-stopped :
    (outgoing sent : List ℕ) (s : Capture)
    → Holds sent s
    → s.stream_body_truncated ≡ true
    → Fills sent outgoing s
unfolding capture_body
capture_body-stopped outgoing sent s h t =
    rw (capture_body, t)
      (record {
        body = h.body ∙ sym (take-full max_stream_log_body_bytes sent outgoing (h.full t));
        whole = λ f. absurd (ground arith);
        full = λ _. omega (arith, h.full t, length-append sent outgoing);
        bound = h.bound;
      })

capture_body-at_limit :
    (outgoing sent : List ℕ) (s : Capture)
    → Holds sent s
    → s.stream_body_truncated ≡ false
    → eqb (max_stream_log_body_bytes - length s.stream_body) 0 ≡ true
    → Fills sent outgoing s
unfolding capture_body
capture_body-at_limit outgoing sent s h t e =
    let long : max_stream_log_body_bytes ≤ length sent = omega (
      arith,
      (eqb_iff (max_stream_log_body_bytes - length s.stream_body) 0).0 e,
      ap (length {A = ℕ}) (h.whole t),
    ) in
    rw (capture_body, t, e)
      (record {
        body = h.body ∙ sym (take-full max_stream_log_body_bytes sent outgoing long);
        whole = λ f. absurd (ground arith);
        full = λ _. omega (arith, long, length-append sent outgoing);
        bound = h.bound;
      })

capture_body-fits :
    (outgoing sent : List ℕ) (s : Capture)
    → Holds sent s
    → s.stream_body_truncated ≡ false
    → eqb (max_stream_log_body_bytes - length s.stream_body) 0 ≡ false
    → length outgoing ≤ max_stream_log_body_bytes - length s.stream_body
    → Fills sent outgoing s
unfolding capture_body
capture_body-fits outgoing sent s h t e fits =
    let small : leb (length outgoing) (max_stream_log_body_bytes - length s.stream_body) ≡ true =
      (leb_iff _ _).1 fits in
    let all : s.stream_body ++ outgoing ≡ sent ++ outgoing = ap (λ b. b ++ outgoing) (h.whole t) in
    let bound : length (s.stream_body ++ outgoing) ≤ max_stream_log_body_bytes =
      omega (arith, length-append s.stream_body outgoing, fits, h.bound) in
    rw (capture_body, t, e, small)
      (record {
        body =
            sym (take_of_length max_stream_log_body_bytes (s.stream_body ++ outgoing) bound)
            ∙ ap (take max_stream_log_body_bytes) all;
        whole = λ _. all;
        full = λ f. absurd (ground arith);
        bound = bound;
      })

capture_body-cut :
    (outgoing sent : List ℕ) (s : Capture)
    → Holds sent s
    → s.stream_body_truncated ≡ false
    → eqb (max_stream_log_body_bytes - length s.stream_body) 0 ≡ false
    → leb (length outgoing) (max_stream_log_body_bytes - length s.stream_body) ≡ false
    → Fills sent outgoing s
unfolding capture_body
capture_body-cut outgoing sent s h t e long =
    let left = max_stream_log_body_bytes - length s.stream_body in
    let more : left ≤ length outgoing = ground arith in
    let size : length (s.stream_body ++ take left outgoing) ≡ max_stream_log_body_bytes = omega (
      arith,
      length-append s.stream_body (take left outgoing),
      length-take left outgoing more,
      h.bound,
    ) in
    let whole : s.stream_body ++ outgoing ≡ sent ++ outgoing =
      ap (λ b. b ++ outgoing) (h.whole t) in
    rw (capture_body, t, e, long)
      (record {
        body =
            sym (take-append max_stream_log_body_bytes s.stream_body outgoing h.bound)
            ∙ ap (take max_stream_log_body_bytes) whole;
        whole = λ f. absurd (ground arith);
        full = λ _.
            omega
              (arith, more, h.bound, length-append sent outgoing, ap (length {A = ℕ}) (h.whole t));
        bound = omega (arith, size);
      })

capture_body-Fills : (outgoing sent : List ℕ) (s : Capture) → Holds sent s → Fills sent outgoing s
capture_body-Fills outgoing sent s h = elim (Bool-cases s.stream_body_truncated) [
  | inl t ↦ capture_body-stopped outgoing sent s h t
  | inr t ↦ elim (Bool-cases (eqb (max_stream_log_body_bytes - length s.stream_body) 0)) [
    | inl e ↦ capture_body-at_limit outgoing sent s h t e
    | inr e ↦
        elim (Bool-cases
          (leb (length outgoing) (max_stream_log_body_bytes - length s.stream_body))) [
            | inl fits ↦ capture_body-fits outgoing sent s h t e ((leb_iff _ _).0 fits)
            | inr long ↦ capture_body-cut outgoing sent s h t e long
          ]
  ]
]

capture_stream_chunk-body :
    (outgoing : List ℕ) (debug : Bool) (s : Capture)
    → ((capture_stream_chunk outgoing true debug s).stream_body
        ≡ (capture_body outgoing true s).stream_body)
      × ((capture_stream_chunk outgoing true debug s).stream_body_truncated
          ≡ (capture_body outgoing true s).stream_body_truncated)
unfolding capture_stream_chunk
capture_stream_chunk-body outgoing true s = (refl, refl)
capture_stream_chunk-body outgoing false s = (refl, refl)

capture_all-from :
    (chunks : List (List ℕ)) (debug : Bool) (sent : List ℕ) (s : Capture)
    → Holds sent s
    → Holds (sent ++ concat chunks) (capture_all true debug chunks s)
unfolding capture_all
capture_all-from [] debug sent s h = rw (append-nil sent) h
capture_all-from (chunk ∷ chunks) debug sent s h =
    let (body, mark) = capture_stream_chunk-body chunk debug s in
    let next = capture_body-Fills chunk sent s h in
    rw (sym (append_assoc sent chunk (concat chunks))) (
      capture_all-from chunks debug (sent ++ chunk) (capture_stream_chunk chunk true debug s)
        (record {
          body = body ∙ next.body;
          whole = λ f. body ∙ next.whole (sym mark ∙ f);
          full = λ f. next.full (sym mark ∙ f);
          bound = omega (arith, next.bound, ap (length {A = ℕ}) body);
        }))

-- However a stream is cut into chunks, the captured body is its first 256 KiB; it is the whole
-- stream unless it is marked as truncated, and a marked stream was at least that long.
pub capture_all-Holds :
    (chunks : List (List ℕ)) (debug : Bool)
    → Holds (concat chunks) (capture_all true debug chunks empty_capture)
capture_all-Holds chunks debug = capture_all-from chunks debug [] empty_capture (record {
  body = refl;
  whole = λ _. refl;
  full = λ f. absurd (ground arith);
  bound = omega arith;
})
