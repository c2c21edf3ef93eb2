-- ===== src/LogStore/Trace.antt =====
-- The log as a map from trace ids, for the upsert.
use ai_open_router.Prelude.{
  ℕ, String, ◌≡◌, refl, Option, none, some, List, [], ◌∷◌, ◌++◌, map, ◌==◌, eq_iff, arith,
  Option-cases, inl, inr, ◌or_else◌, if◌then◌else◌,
}
use ai_open_router.LogStore.{
  LogEntry, LogStore, evict, replace_newest, upsert_inner, upsert_by_trace_id_with_dev_entry,
  append_with_dev_entry,
}

abbrev pub ids : List LogEntry → List String
ids es = map (λ e. e.trace_id) es

-- The newest entry with a trace id.
abbrev pub newest : String → List LogEntry → Option LogEntry
newest id [] = none
newest id (e ∷ es) = newest id es or_else (if e.trace_id == id then some e else none)

module _ (entry : LogEntry) where
  ids-replace_newest : (es fs : List LogEntry) → replace_newest entry es ≡ some fs → ids fs ≡ ids es
  unfolding replace_newest
  ids-replace_newest [] fs h = cc
  ids-replace_newest (e ∷ es) fs h = elim (Option-cases (replace_newest entry es)) [
    | inl miss ↦ ground (arith, eq_iff e.trace_id entry.trace_id)
    | inr (gs, hit) ↦ ground (arith, ids-replace_newest es gs hit)
  ]

  replace_newest-none :
      (es : List LogEntry) → replace_newest entry es ≡ none → newest entry.trace_id es ≡ none
  unfolding replace_newest
  replace_newest-none [] h = refl
  replace_newest-none (e ∷ es) h = elim (Option-cases (replace_newest entry es)) [
    | inl miss ↦ ground (arith, replace_newest-none es miss)
    | inr (gs, hit) ↦ ground arith
  ]

  replace_newest-some :
      (es fs : List LogEntry)
      → replace_newest entry es ≡ some fs
      → (old : LogEntry) × (newest entry.trace_id es ≡ some old)
  unfolding replace_newest
  replace_newest-some [] fs h = cc
  replace_newest-some (e ∷ es) fs h = elim (Option-cases (replace_newest entry es)) [
    | inl miss ↦ (e, ground (arith, replace_newest-none es miss, eq_iff e.trace_id entry.trace_id))
    | inr (gs, hit) ↦ let (old, found) = replace_newest-some es gs hit in (old, rw found)
  ]

  newest-replace_newest :
      (es fs : List LogEntry) (id : String)
      → replace_newest entry es ≡ some fs
      → newest id fs ≡ (if entry.trace_id == id then some entry else newest id es)
  unfolding replace_newest
  newest-replace_newest [] fs id h = cc
  newest-replace_newest (e ∷ es) fs id h = elim (Option-cases (replace_newest entry es)) [
    | inl miss ↦ ground (
      arith,
      replace_newest-none es miss,
      eq_iff entry.trace_id id,
      eq_iff e.trace_id entry.trace_id,
      eq_iff e.trace_id id,
    )
    | inr (gs, hit) ↦ ground (arith, newest-replace_newest es gs id hit, eq_iff entry.trace_id id)
  ]

  upsert_inner-hit :
      (limit : ℕ) (es fs : List LogEntry)
      → replace_newest entry es ≡ some fs
      → upsert_inner limit entry es ≡ fs
  unfolding upsert_inner
  upsert_inner-hit limit es fs h = rw (upsert_inner, h)

  upsert_inner-miss :
      (limit : ℕ) (es : List LogEntry)
      → replace_newest entry es ≡ none
      → upsert_inner limit entry es ≡ evict limit (es ++ entry ∷ [])
  unfolding upsert_inner
  upsert_inner-miss limit es h = rw (upsert_inner, h)

-- An upsert of a trace id that the log holds keeps the number and the order of the entries,
-- makes the entry the newest with that id, and leaves the newest of every other id alone.
pub upsert_present :
    (s : LogStore) (entry old : LogEntry) (dev : Option LogEntry)
    → newest entry.trace_id s.inner ≡ some old
    → (ids (upsert_by_trace_id_with_dev_entry entry dev s).inner ≡ ids s.inner)
      × ((id : String)
          → newest id (upsert_by_trace_id_with_dev_entry entry dev s).inner
            ≡ (if entry.trace_id == id then some entry else newest id s.inner))
unfolding upsert_by_trace_id_with_dev_entry
upsert_present s entry old dev h = elim (Option-cases (replace_newest entry s.inner)) [
  | inl miss ↦ absurd (ground (arith, replace_newest-none entry s.inner miss))
  | inr (fs, hit) ↦
      rw (upsert_inner-hit entry s.limit s.inner fs hit) (
        ids-replace_newest entry s.inner fs hit,
        λ id. newest-replace_newest entry s.inner fs id hit,
      )
]

-- An upsert of a trace id that the log does not hold is an append.
pub upsert_absent :
    (s : LogStore) (entry : LogEntry) (dev : Option LogEntry)
    → newest entry.trace_id s.inner ≡ none
    → upsert_by_trace_id_with_dev_entry entry dev s ≡ append_with_dev_entry entry dev s
unfolding upsert_by_trace_id_with_dev_entry append_with_dev_entry
upsert_absent s entry dev h = elim (Option-cases (replace_newest entry s.inner)) [
  | inl miss ↦ rw (upsert_inner-miss entry s.limit s.inner miss)
  | inr (fs, hit) ↦
      absurd (let (old, found) = replace_newest-some entry s.inner fs hit in ground arith)
]
