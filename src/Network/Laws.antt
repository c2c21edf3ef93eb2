-- ===== src/Network/Laws.antt =====
-- Which address proxy/net.rs binds.
use ai_open_router.Prelude.{
  ℕ, String, ◌≡◌, refl, ap, List, [], ◌∷◌, ◌++◌ as append, All, Result, ok, err,
}
use ai_open_router.Network.{
  format_bind_target, bind_candidates, try_candidates, bound, bind_proxy_listener,
}

module _ {L : Type 0} (bind : String → Result String L) (port : ℕ) where
  -- An address that cannot be bound.
  abbrev pub Fails : String → Type 0
  Fails candidate = (e : String) × (bind (format_bind_target candidate port) ≡ err e)

  -- The listener of the first candidate that can be bound.
  pub record IsFirst (candidates : List String) (listener : L) (candidate : String) : Type 0 where
    pub before : List String
    pub after : List String
    pub candidates_are : candidates ≡ append before (candidate ∷ after)
    pub all_fail : All Fails before
    pub binds : bind (format_bind_target candidate port) ≡ ok listener

  abbrev pub Outcome : List String → Result String (L × String) → Type 0
  Outcome candidates (ok (listener, candidate)) = IsFirst candidates listener candidate
  Outcome candidates (err message) = All Fails candidates

  skip-Outcome :
      (first : String) (rest : List String) (r : Result String (L × String))
      → Fails first
      → Outcome rest r
      → Outcome (first ∷ rest) r
  skip-Outcome first rest (err message) f h = (f, h)
  skip-Outcome first rest (ok (listener, candidate)) f h = record {
    before = first ∷ h.before;
    after = h.after;
    candidates_are = ap (λ xs. first ∷ xs) h.candidates_are;
    all_fail = (f, h.all_fail);
    binds = h.binds;
  }

  tried-Outcome :
      (first : String) (rest errors : List String) (r : Result String L)
      → bind (format_bind_target first port) ≡ r
      → ((more : List String) → Outcome rest (bound bind port (try_candidates bind port more rest)))
      → Outcome (first ∷ rest) (bound bind port (try_candidates bind port errors (first ∷ rest)))
  unfolding try_candidates
  tried-Outcome first rest errors (ok listener) e h =
      rw (try_candidates, e)
        (record { before = []; after = rest; candidates_are = refl; all_fail = tt; binds = e })
  tried-Outcome first rest errors (err message) e h =
      rw (try_candidates, e) (skip-Outcome first rest _ (message, e) (h _))

  try_candidates-Outcome :
      (candidates errors : List String)
      → Outcome candidates (bound bind port (try_candidates bind port errors candidates))
  unfolding try_candidates
  try_candidates-Outcome [] errors = tt
  try_candidates-Outcome (first ∷ rest) errors =
      tried-Outcome first rest errors (bind (format_bind_target first port)) refl
        λ more. try_candidates-Outcome rest more

  -- The proxy listens on the first candidate address that can be bound; it fails only if none
  -- can.
  pub bind_proxy_listener-Outcome :
      (host : String) → Outcome (bind_candidates host) (bind_proxy_listener bind port host)
  unfolding bind_proxy_listener
  bind_proxy_listener-Outcome host = try_candidates-Outcome (bind_candidates host) []
