-- ===== src/Pipeline/Relay/Reference.antt =====
-- What a client should receive of a stream through proxy/pipeline.rs, whatever its chunks are.
use ai_open_router.Prelude.{
  ℕ, ◌≡◌, refl, ap, sym, ◌∙◌, Option, none, some, List, [], ◌∷◌, ◌++◌, ◌>>=◌, length, length-append,
  inl, inr, arith, append_assoc,
}
use mathlib.Core.List.{append-nil}
use ai_open_router.Transform.Context.{StreamContext}
use ai_open_router.Pipeline.Framing.{all_events}
use ai_open_router.Pipeline.Framing.Chunks.{all_events-append}
use ai_open_router.Pipeline.Relay.{Setup, Relay}
use ai_open_router.Pipeline.Relay.Events.{translate, shift}
use ai_open_router.Pipeline.Relay.Transform.{Result-cases, translate-ok, translate-err}
use ai_open_router.Pipeline.Relay.End.{Delivers, translate_end}

abbrev pub after : List ℕ → Option (List ℕ) → Option (List ℕ)
after out none = none
after out (some more) = some (out ++ more)

pub Delivers-after :
    (o : Option (List ℕ)) (received out : List ℕ) (s : Relay)
    → Delivers o (received ++ out) s
    → Delivers (after out o) received s
Delivers-after none received out s h = h
Delivers-after (some more) received out s h = (h.0, h.1 ∙ append_assoc received out more)

after-nil : (o : Option (List ℕ)) → after [] o ≡ o
after-nil none = refl
after-nil (some out) = refl

nil_of_append : (xs ys : List (List ℕ)) → xs ≡ xs ++ ys → ys ≡ []
nil_of_append xs [] h = refl
nil_of_append xs (y ∷ ys) h =
    absurd (omega (arith, ap (length {A = List ℕ}) h, length-append xs (y ∷ ys)))

-- No event is left in what follows the events.
pub all_events-rest :
    (buffer : List ℕ) → all_events (all_events buffer).1 ≡ ([], (all_events buffer).1)
all_events-rest buffer =
    let rest = (all_events buffer).1 in
    let split =
      ap all_events (sym (append-nil buffer))
      ∙ all_events-append buffer []
      ∙ ap (λ r. ((all_events buffer).0 ++ (all_events r).0, (all_events r).1)) (append-nil rest) in
    let none_left = nil_of_append (all_events buffer).0 (all_events rest).0 (ap (λ r. r.0) split) in
    let same = ap (λ r. r.1) split in λ i. (none_left i, sym same i)

shift-nil : (o : Option (StreamContext × List ℕ)) → shift [] o ≡ o
shift-nil none = refl
shift-nil (some last) = refl

after-shift :
    (out : List ℕ) (o : Option (StreamContext × List ℕ)) (k : StreamContext → Option (List ℕ))
    → (shift out o >>= λ mid. after mid.1 (k mid.0))
      ≡ after out (o >>= λ mid. after mid.1 (k mid.0))
after-shift out none k = refl
after-shift out (some (ctx, more)) k = assoc (k ctx)
  where
    assoc : (o : Option (List ℕ)) → after (out ++ more) o ≡ after out (after more o)
    assoc none = refl
    assoc (some last) = ap some (append_assoc out more last)

-- Conversions of events, one after the other.
bind-after :
    (o : Option (StreamContext × List ℕ)) (f : StreamContext → Option (StreamContext × List ℕ))
    (k : StreamContext → Option (List ℕ))
    → ((o >>= λ mid. shift mid.1 (f mid.0)) >>= λ mid. after mid.1 (k mid.0))
      ≡ (o >>= λ mid. after mid.1 (f mid.0 >>= λ last. after last.1 (k last.0)))
bind-after none f k = refl
bind-after (some (ctx, out)) f k = after-shift out (f ctx) k

bind-shift :
    (converted : List ℕ) (o : Option (StreamContext × List ℕ))
    (f : StreamContext → Option (StreamContext × List ℕ))
    → shift converted (o >>= λ mid. shift mid.1 (f mid.0))
      ≡ (shift converted o >>= λ mid. shift mid.1 (f mid.0))
bind-shift converted none f = refl
bind-shift converted (some (ctx, out)) f = twice (f ctx)
  where
    twice :
        (r : Option (StreamContext × List ℕ))
        → shift converted (shift out r) ≡ shift (converted ++ out) r
    twice none = refl
    twice (some (last, more)) = ap (λ l. some (last, l)) (sym (append_assoc converted out more))

module _ (setup : Setup) where
  -- All events of the stream are converted, and then what is left at its end.
  unfoldable pub reference : List ℕ → StreamContext → Option (List ℕ)
  unfolding all_events translate translate_end
  reference stream ctx = translate setup (all_events stream).0 ctx >>= λ mid.
      after mid.1 (translate_end setup (all_events stream).1 mid.0)

  translate-append :
      (events more : List (List ℕ)) (ctx : StreamContext)
      → translate setup (events ++ more) ctx
        ≡ (translate setup events ctx >>= λ mid. shift mid.1 (translate setup more mid.0))
  unfolding translate
  translate-append [] more ctx = sym (shift-nil (translate setup more ctx))
  translate-append (event ∷ events) more ctx =
      let next = (setup.transform_sse_event event ctx).0 in
      elim (Result-cases (setup.transform_sse_event event ctx).1) [
        | inl (message, e) ↦
            translate-err setup event (events ++ more) ctx message e
            ∙ ap (λ o. o >>= λ mid. shift mid.1 (translate setup more mid.0))
                (sym (translate-err setup event events ctx message e))
        | inr (converted, e) ↦
            translate-ok setup event (events ++ more) ctx converted e
            ∙ ap (shift converted) (translate-append events more next)
            ∙ bind-shift converted (translate setup events next) (translate setup more)
            ∙ ap (λ o. o >>= λ mid. shift mid.1 (translate setup more mid.0))
                (sym (translate-ok setup event events ctx converted e))
      ]

  pub reference-append :
      (stream more : List ℕ) (ctx : StreamContext)
      → reference (stream ++ more) ctx ≡ (
          translate setup (all_events stream).0 ctx >>= λ mid.
          after mid.1 (reference ((all_events stream).1 ++ more) mid.0))
  unfolding reference
  reference-append stream more ctx =
      let later = all_events ((all_events stream).1 ++ more) in
      ap (λ r. translate setup r.0 ctx >>= λ mid. after mid.1 (translate_end setup r.1 mid.0))
        (all_events-append stream more)
      ∙ ap (λ o. o >>= λ mid. after mid.1 (translate_end setup later.1 mid.0))
          (translate-append (all_events stream).0 later.0 ctx)
      ∙ bind-after (translate setup (all_events stream).0 ctx) (translate setup later.0)
          (translate_end setup later.1)

  -- Of bytes without an event only the end is converted.
  pub reference-rest :
      (rest : List ℕ) (ctx : StreamContext)
      → all_events rest ≡ ([], rest)
      → reference rest ctx ≡ translate_end setup rest ctx
  unfolding reference translate
  reference-rest rest ctx h =
      ap (λ r. translate setup r.0 ctx >>= λ mid. after mid.1 (translate_end setup r.1 mid.0)) h
      ∙ after-nil (translate_end setup rest ctx)
