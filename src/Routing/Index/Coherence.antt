-- ===== src/Routing/Index/Coherence.antt =====
-- Requests refresh the route index while the configuration is saved: `refresh_route_index_if_needed`
-- in several threads, one load, store or lock at a time, interleaved with
-- `ConfigStore::set_in_memory` (config_store.rs), which swaps the configuration and then adds one
-- to the revision, under the write lock of the configuration. A lock that is poisoned, which ends
-- a refresh early, is left out.
use native.Mathlib.Nat.{le_refl}
use ai_open_router.Prelude.{
  ℕ, ◌+◌, ◌%◌, ◌≤◌, ◌<◌, ◌≡◌, ◌≢◌, refl, Bool, true, false, List, [], ◌∷◌, ◌++◌, arith, All, subst,
  sym,
}
use ai_open_router.Entities.{ProxyConfig}
use ai_open_router.Routing.Types.{RouteIndex}
use ai_open_router.Routing.Index.{build_route_index}

-- Where a thread stands in the refresh: it has loaded the configuration's revision, has seen that
-- the index has another one, has built the next index, or has written it and holds its lock.
pub data Thread : Type 0 where
  observed stale : ℕ → Thread
  built : ℕ → RouteIndex → Thread
  written : ℕ → Thread

pub record Shared : Type 0 where
  pub config : ProxyConfig
  pub config_revision : ℕ
  -- The writer holds the lock of the configuration: it has swapped it, and not yet counted.
  pub writing : Bool
  pub route_index : RouteIndex
  pub route_index_revision : ℕ
  pub threads : List Thread

-- A thread that does not hold the lock of the index.
abbrev pub IsWaiting : Thread → Type 0
IsWaiting (observed r) = Unit
IsWaiting (stale r) = Unit
IsWaiting (built r index) = Unit
IsWaiting (written r) = ⊥

-- `fetch_add` wraps at 64 bits.
abbrev pub next_revision : ℕ → ℕ
next_revision revision = (revision + 1) % 0x10000000000000000

pub data Step : Shared → Shared → Type 0 where
  swap_config :
      (s : Shared) (c : ProxyConfig)
      → s.writing ≡ false
      → Step s (record s { config = c; writing = true })
  count_revision :
      (s : Shared)
      → s.writing ≡ true
      → Step s (record s { config_revision = next_revision s.config_revision; writing = false })
  observe : (s : Shared) → Step s (record s { threads = observed s.config_revision ∷ s.threads })
  -- The second load, and its comparison with the first.
  leave :
      (s : Shared) (ts us : List Thread) (r : ℕ)
      → s.threads ≡ ts ++ observed r ∷ us
      → r ≡ s.route_index_revision
      → Step s (record s { threads = ts ++ us })
  compare :
      (s : Shared) (ts us : List Thread) (r : ℕ)
      → s.threads ≡ ts ++ observed r ∷ us
      → r ≢ s.route_index_revision
      → Step s (record s { threads = ts ++ stale r ∷ us })
  -- Reading the configuration waits for the writer.
  build :
      (s : Shared) (ts us : List Thread) (r : ℕ)
      → s.writing ≡ false
      → s.threads ≡ ts ++ stale r ∷ us
      → Step s (record s { threads = ts ++ built r (build_route_index s.config) ∷ us })
  -- The lock of the index is free.
  write :
      (s : Shared) (ts us : List Thread) (r : ℕ) (index : RouteIndex)
      → s.threads ≡ ts ++ built r index ∷ us
      → All IsWaiting s.threads
      → Step s (record s { route_index = index; threads = ts ++ written r ∷ us })
  store :
      (s : Shared) (ts us : List Thread) (r : ℕ)
      → s.threads ≡ ts ++ written r ∷ us
      → Step s (record s { route_index_revision = r; threads = ts ++ us })

-- A run of any number of refreshes, in which the revision does not wrap.
pub data Run (s : Shared) : Shared → Type 0 where
  here : Run s s
  next : {t u : Shared} → Run s t → Step t u → t.config_revision ≤ u.config_revision → Run s u

-- A revision is not from the future, and an index of the present revision is the present one.
abbrev IsFresh : ProxyConfig → ℕ → Bool → ℕ → RouteIndex → Type 0
IsFresh config revision writing r index =
    (r ≤ revision) × (writing ≡ false → r ≡ revision → index ≡ build_route_index config)

-- What a thread promises of what it has loaded or built, or of the index that it has written.
abbrev IsSound : ProxyConfig → ℕ → Bool → RouteIndex → Thread → Type 0
IsSound config revision writing index (observed r) = r ≤ revision
IsSound config revision writing index (stale r) = r ≤ revision
IsSound config revision writing index (built r fresh) = IsFresh config revision writing r fresh
IsSound config revision writing index (written r) = IsFresh config revision writing r index

abbrev HasSound : Shared → Thread → Type 0
HasSound s t = IsSound s.config s.config_revision s.writing s.route_index t

-- While no thread holds its lock, the index is coherent with its revision.
record IsCoherent (s : Shared) : Type 0 where
  sound : All (HasSound s) s.threads
  fresh :
      All IsWaiting s.threads
      → IsFresh s.config s.config_revision s.writing s.route_index_revision s.route_index

module _ (P S : Thread → Type 0) where
  All-map : (ts : List Thread) → ((t : Thread) → P t → S t) → All P ts → All S ts
  All-map [] f h = tt
  All-map (t ∷ ts) f h = (f t h.0, All-map ts f h.1)

  All-zip : (ts : List Thread) → All P ts → All S ts → All (λ t. P t × S t) ts
  All-zip [] h k = tt
  All-zip (t ∷ ts) h k = ((h.0, k.0), All-zip ts h.1 k.1)

  All-replaced :
      (ts us : List Thread) (t u : Thread)
      → ((v : Thread) → P v → S v)
      → (P t → S u)
      → All P (ts ++ t ∷ us)
      → All S (ts ++ u ∷ us)
  All-replaced [] us t u f g h = (g h.0, All-map us f h.1)
  All-replaced (v ∷ ts) us t u f g h = (f v h.0, All-replaced ts us t u f g h.1)

  All-added :
      (ts us : List Thread) (t : Thread)
      → ((v : Thread) → P v → S v)
      → S t
      → All P (ts ++ us)
      → All S (ts ++ t ∷ us)
  All-added [] us t f g h = (g, All-map us f h)
  All-added (v ∷ ts) us t f g h = (f v h.0, All-added ts us t f g h.1)

  All-removed :
      (ts us : List Thread) (t : Thread)
      → ((v : Thread) → P v → S v)
      → All P (ts ++ t ∷ us)
      → All S (ts ++ us)
  All-removed [] us t f h = All-map us f h.1
  All-removed (v ∷ ts) us t f h = (f v h.0, All-removed ts us t f h.1)

picked : (P : Thread → Type 0) (ts us : List Thread) (t : Thread) → All P (ts ++ t ∷ us) → P t
picked P [] us t h = h.0
picked P (v ∷ ts) us t h = picked P ts us t h.1

IsSound-swap :
    (config c : ProxyConfig) (revision : ℕ) (w : Bool) (index : RouteIndex) (t : Thread)
    → IsSound config revision w index t
    → IsSound c revision true index t
IsSound-swap config c revision w index (observed r) h = h
IsSound-swap config c revision w index (stale r) h = h
IsSound-swap config c revision w index (built r fresh) h = (h.0, λ e. cc)
IsSound-swap config c revision w index (written r) h = (h.0, λ e. cc)

IsFresh-later :
    (config : ProxyConfig) (revision later : ℕ) (w : Bool) (r : ℕ) (index : RouteIndex)
    → revision < later
    → IsFresh config revision w r index
    → IsFresh config later false r index
IsFresh-later config revision later w r index l h = (omega arith, λ _ e. absurd (omega arith))

IsSound-later :
    (config : ProxyConfig) (revision later : ℕ) (w : Bool) (index : RouteIndex) (t : Thread)
    → revision < later
    → IsSound config revision w index t
    → IsSound config later false index t
IsSound-later config revision later w index (observed r) l h = omega arith
IsSound-later config revision later w index (stale r) l h = omega arith
IsSound-later config revision later w index (built r fresh) l h =
    IsFresh-later config revision later w r fresh l h
IsSound-later config revision later w index (written r) l h =
    IsFresh-later config revision later w r index l h

-- A waiting thread does not depend on the index.
IsSound-waiting :
    (config : ProxyConfig) (revision : ℕ) (w : Bool) (index other : RouteIndex) (t : Thread)
    → IsSound config revision w index t × IsWaiting t
    → IsSound config revision w other t
IsSound-waiting config revision w index other (observed r) h = h.0
IsSound-waiting config revision w index other (stale r) h = h.0
IsSound-waiting config revision w index other (built r fresh) h = h.0
IsSound-waiting config revision w index other (written r) h = absurd h.1

-- A revision that does not wrap grows.
next_revision_grows :
    (revision : ℕ) → revision ≤ next_revision revision → revision < next_revision revision
next_revision_grows revision h = omega arith

-- A thread that waits takes a step and still waits: the index is not touched.
moved :
    (s : Shared) (ts us : List Thread) (t u : Thread)
    → s.threads ≡ ts ++ t ∷ us
    → IsWaiting t
    → (HasSound s t → HasSound s u)
    → IsCoherent s
    → IsCoherent (record s { threads = ts ++ u ∷ us })
moved s ts us t u e waiting f h = record {
  sound =
      All-replaced (HasSound s) (HasSound s) ts us t u (λ _ g. g) f
        (subst (All (HasSound s)) e h.sound);
  fresh = λ w. h.fresh (
      subst (All IsWaiting) (sym e)
        (All-replaced IsWaiting IsWaiting ts us u t (λ _ g. g) (λ _. waiting) w));
}

Step-IsCoherent :
    {s t : Shared} → Step s t → s.config_revision ≤ t.config_revision → IsCoherent s → IsCoherent t
Step-IsCoherent (swap_config s c free) l h =
    let t = record s { config = c; writing = true } in
    record {
      sound =
          All-map (HasSound s) (HasSound t) s.threads
            (IsSound-swap s.config c s.config_revision s.writing s.route_index) h.sound;
      fresh = λ w. ((h.fresh w).0, λ e. cc);
    }
Step-IsCoherent (count_revision s w) l h =
    let later = next_revision s.config_revision in
    let t = record s { config_revision = later; writing = false } in
    let grows = next_revision_grows s.config_revision l in
    record {
      sound =
          All-map (HasSound s) (HasSound t) s.threads
            (λ u k.
              IsSound-later s.config s.config_revision later s.writing s.route_index u grows k)
            h.sound;
      fresh = λ waiting.
          IsFresh-later s.config s.config_revision later s.writing s.route_index_revision
            s.route_index grows (h.fresh waiting);
    }
Step-IsCoherent (observe s) l h = record {
  sound = (le_refl s.config_revision, h.sound);
  fresh = λ w. h.fresh w.1;
}
Step-IsCoherent (leave s ts us r e same) l h = record {
  sound =
      All-removed (HasSound s) (HasSound s) ts us (observed r) (λ _ g. g)
        (subst (All (HasSound s)) e h.sound);
  fresh = λ w. h.fresh (
      subst (All IsWaiting) (sym e)
        (All-added IsWaiting IsWaiting ts us (observed r) (λ _ g. g) tt w));
}
Step-IsCoherent (compare s ts us r e differ) l h =
    moved s ts us (observed r) (stale r) e tt (λ g. g) h
Step-IsCoherent (build s ts us r free e) l h =
    moved s ts us (stale r) (built r (build_route_index s.config)) e tt (λ g. (g, λ _ _. refl)) h
Step-IsCoherent (write s ts us r index e waiting) l h =
    let t = record s { route_index = index; threads = ts ++ written r ∷ us } in
    record {
      sound =
          All-replaced (λ v. HasSound s v × IsWaiting v) (HasSound t) ts us (built r index)
            (written r) (IsSound-waiting s.config s.config_revision s.writing s.route_index index)
            (λ g. g.0)
            (subst (All (λ v. HasSound s v × IsWaiting v)) e
              (All-zip (HasSound s) IsWaiting s.threads h.sound waiting));
      fresh = λ w. absurd (picked IsWaiting ts us (written r) w);
    }
Step-IsCoherent (store s ts us r e) l h =
    let sound = subst (All (HasSound s)) e h.sound in
    record {
      sound = All-removed (HasSound s) (HasSound s) ts us (written r) (λ _ g. g) sound;
      fresh = λ _. picked (HasSound s) ts us (written r) sound;
    }

Run-IsCoherent : {s t : Shared} → IsCoherent s → Run s t → IsCoherent t
Run-IsCoherent h here = h
Run-IsCoherent h (next r st l) = Step-IsCoherent st l (Run-IsCoherent h r)

-- The state that `ProxyRuntime::new` starts with (proxy.rs), if no save comes between its reading
-- of the configuration and of the revision.
abbrev pub initial_state : ProxyConfig → ℕ → Shared
initial_state config revision = record {
  config = config;
  config_revision = revision;
  writing = false;
  route_index = build_route_index config;
  route_index_revision = revision;
  threads = [];
}

initial_state-IsCoherent :
    (config : ProxyConfig) (revision : ℕ) → IsCoherent (initial_state config revision)
initial_state-IsCoherent config revision = record {
  sound = tt;
  fresh = λ _. (le_refl revision, λ _ _. refl);
}

-- From the state that the proxy starts with, however many requests refresh the route index while
-- the configuration is saved, when no refresh holds the lock of the index, no save is under way
-- and the revisions agree, the index is that of the present configuration, provided that the
-- revision does not wrap at 64 bits.
pub route_index-current :
    (config : ProxyConfig) (revision : ℕ) {t : Shared}
    → Run (initial_state config revision) t
    → All IsWaiting t.threads
    → t.writing ≡ false
    → t.route_index_revision ≡ t.config_revision
    → t.route_index ≡ build_route_index t.config
route_index-current config revision r waiting free same =
    ((Run-IsCoherent (initial_state-IsCoherent config revision) r).fresh waiting).1 free same
