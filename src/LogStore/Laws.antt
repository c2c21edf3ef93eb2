-- ===== src/LogStore/Laws.antt =====
-- The bound of the log, which entries it keeps, and which `list` shows.
use mathlib.Core.List.{append-nil, append_assoc}
use Prim.Native.Nat.{zero-le}
use ai_open_router.Prelude.{
  suc, reverse-take-reverse, ℕ, ◌-◌, ◌≤◌, ◌≡◌, refl, sym, true, Option, none, some, List, [], ◌∷◌,
  ◌++◌, arith, ltb, length, length-append, drop, length-drop, ap, ◌∙◌, Bool-cases, Option-cases,
  inl, inr, drop-nil,
}
use ai_open_router.LogStore.{
  LogEntry, LogStore, evict, append_with_dev_entry, replace_newest, upsert_inner,
  upsert_by_trace_id_with_dev_entry, list, clear,
}

pub evict-drop : (limit : ℕ) (es : List LogEntry) → evict limit es ≡ drop (length es - limit) es
unfolding evict
evict-drop limit [] = sym (drop-nil _)
evict-drop limit (e ∷ es) = elim (Bool-cases (ltb limit (length (e ∷ es)))) [
  | inl over ↦
      let k : suc (length es) - limit ≡ suc (length es - limit) = ground arith in
      rw (over, k) (evict-drop limit es)
  | inr fits ↦ let k : suc (length es) - limit ≡ 0 = ground arith in rw (fits, k)
]

pub length-evict-le : (limit : ℕ) (es : List LogEntry) → length (evict limit es) ≤ limit
length-evict-le limit es = rw evict-drop (omega (arith, length-drop (length es - limit) es))

-- Never more entries than the limit.
abbrev pub IsBounded : LogStore → Type 0
IsBounded s = length s.inner ≤ s.limit

length-replace_newest :
    (entry : LogEntry) (es fs : List LogEntry)
    → replace_newest entry es ≡ some fs
    → length fs ≡ length es
unfolding replace_newest
length-replace_newest entry [] fs h = cc
length-replace_newest entry (e ∷ es) fs h = elim (Option-cases (replace_newest entry es)) [
  | inl miss ↦ ground arith
  | inr (gs, hit) ↦ ground (arith, length-replace_newest entry es gs hit)
]

length-upsert_inner-le :
    (limit : ℕ) (entry : LogEntry) (es : List LogEntry)
    → length es ≤ limit
    → length (upsert_inner limit entry es) ≤ limit
unfolding upsert_inner
length-upsert_inner-le limit entry es h = elim (Option-cases (replace_newest entry es)) [
  | inl miss ↦ rw (miss, upsert_inner) (length-evict-le limit (es ++ entry ∷ []))
  | inr (fs, hit) ↦ rw (hit, upsert_inner) (omega (arith, length-replace_newest entry es fs hit))
]

-- Every operation keeps a bounded log bounded.
pub operations-IsBounded :
    (s : LogStore) (entry : LogEntry) (dev : Option LogEntry)
    → IsBounded s
    → IsBounded (append_with_dev_entry entry dev s)
      × IsBounded (upsert_by_trace_id_with_dev_entry entry dev s)
      × IsBounded (clear s)
unfolding append_with_dev_entry upsert_by_trace_id_with_dev_entry clear
operations-IsBounded s entry dev h =
    (length-evict-le s.limit _, length-upsert_inner-le s.limit entry s.inner h, zero-le)

-- Listing shows the newest entries, as many as asked for, the oldest of them first.
pub list-drop : (max : ℕ) (s : LogStore) → list max s ≡ drop (length s.inner - max) s.inner
unfolding list
list-drop max s = reverse-take-reverse max s.inner

evict-evict-append :
    (limit : ℕ) (es fs : List LogEntry)
    → evict limit (evict limit es ++ fs) ≡ evict limit (es ++ fs)
unfolding evict
evict-evict-append limit [] fs = refl
evict-evict-append limit (e ∷ es) fs = elim (Bool-cases (ltb limit (length (e ∷ es)))) [
  | inl over ↦
      let more : ltb limit (suc (length (es ++ fs))) ≡ true = ground (arith, length-append es fs) in
      rw (over, more) (evict-evict-append limit es fs)
  | inr fits ↦ rw fits
]

evict_of_IsBounded : (limit : ℕ) (es : List LogEntry) → length es ≤ limit → evict limit es ≡ es
unfolding evict
evict_of_IsBounded limit [] h = refl
evict_of_IsBounded limit (e ∷ es) h = ground arith

-- A run of appends.
unfoldable pub appended : List LogEntry → LogStore → LogStore
appended [] s = s
appended (e ∷ es) s = appended es (append_with_dev_entry e none s)

inner-appended-evict :
    (es : List LogEntry) (s : LogStore)
    → IsBounded s
    → (appended es s).inner ≡ evict s.limit (s.inner ++ es)
unfolding appended append_with_dev_entry
inner-appended-evict [] s h = rw append-nil (sym (evict_of_IsBounded s.limit s.inner h))
inner-appended-evict (e ∷ es) s h =
    inner-appended-evict es (append_with_dev_entry e none s) (length-evict-le s.limit _)
    ∙ evict-evict-append s.limit (s.inner ++ e ∷ []) es
    ∙ ap (evict s.limit) (append_assoc s.inner (e ∷ []) es)

-- From a bounded log, after a run of appends the log is the newest entries of the history, as
-- many as the limit allows.
pub inner-appended :
    (es : List LogEntry) (s : LogStore)
    → IsBounded s
    → (appended es s).inner ≡ drop (length (s.inner ++ es) - s.limit) (s.inner ++ es)
inner-appended es s h = inner-appended-evict es s h ∙ evict-drop s.limit (s.inner ++ es)
