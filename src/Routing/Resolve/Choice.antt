-- ===== src/Routing/Resolve/Choice.antt =====
-- Which entry of a routing table is chosen for a request model.
use native.Mathlib.Nat.{le_trans}
use mathlib.Core.Option.{some-injective}
use ai_open_router.Prelude.{leb_iff, sym, subst, Absent-elim}
use Prim.Native.String.{len, ◌++◌}
use native.Mathlib.Nat.{le_refl}
use ai_open_router.Prelude.{
  String, ◌≡◌, ◌≢◌, ◌≤◌, ◌⊎◌, inl, inr, refl, true, false, some, List, [], ◌∷◌, eq_iff, arith, leb,
  Bool-cases, Option-cases, Occurs, find?, retain, any, find?_sound, find?-any, retain_sound,
  retain_complete,
}
use ai_open_router.Text.Search.{contains_sound}
use ai_open_router.Entities.{RouteEntry}
use ai_open_router.Routing.Index.{is_default}
use ai_open_router.Routing.Resolve.{fits, longest_from, select_from, select_entry}

abbrev pub NotLonger : RouteEntry → RouteEntry → Type 0
NotLonger e f = len f.request_model ≤ len e.request_model

-- The chosen entry is listed; the model contains its pattern and no longer one, or no pattern of
-- the table is contained and it is a default entry.
pub record IsChosen (table : List RouteEntry) (model : String) (e : RouteEntry) : Type 0 where
  pub listed : Occurs e table
  pub reason :
      (fits model e ≡ true)
        × ((f : RouteEntry) → Occurs f table → fits model f ≡ true → NotLonger e f)
      ⊎ (e.request_model ≡ "default") × ((f : RouteEntry) → Occurs f table → fits model f ≡ false)

module _ (best e : RouteEntry) (es : List RouteEntry) where
  longer_step :
      leb (len best.request_model) (len e.request_model) ≡ true
      → longest_from best (e ∷ es) ≡ longest_from e es
  unfolding longest_from
  longer_step h = rw (longest_from, h)

  shorter_step :
      leb (len best.request_model) (len e.request_model) ≡ false
      → longest_from best (e ∷ es) ≡ longest_from best es
  unfolding longest_from
  shorter_step h = rw (longest_from, h)

Occurs-skip :
    (best e : RouteEntry) (es : List RouteEntry) (f : RouteEntry)
    → Occurs f (best ∷ es)
    → Occurs f (best ∷ (e ∷ es))
Occurs-skip best e es f (inl here) = inl here
Occurs-skip best e es f (inr m) = inr (inr m)

longest_from-Occurs :
    (best : RouteEntry) (es : List RouteEntry) → Occurs (longest_from best es) (best ∷ es)
unfolding longest_from
longest_from-Occurs best [] = inl refl
longest_from-Occurs best (e ∷ es) =
    elim (Bool-cases (leb (len best.request_model) (len e.request_model))) [
      | inl longer ↦
          subst (λ t. Occurs t (best ∷ (e ∷ es))) (sym (longer_step best e es longer))
            (inr (longest_from-Occurs e es))
      | inr shorter ↦
          subst (λ t. Occurs t (best ∷ (e ∷ es))) (sym (shorter_step best e es shorter))
            (Occurs-skip best e es _ (longest_from-Occurs best es))
    ]

longest_from-longest :
    (best : RouteEntry) (es : List RouteEntry) (f : RouteEntry)
    → Occurs f (best ∷ es)
    → NotLonger (longest_from best es) f
unfolding longest_from
longest_from-longest best [] f (inl e) = rw e (le_refl _)
longest_from-longest best [] f (inr m) = elim m [ ]
longest_from-longest best (e ∷ es) f m =
    elim (Bool-cases (leb (len best.request_model) (len e.request_model))) [
      | inl longer ↦ rw (longer_step best e es longer) (elim m [
        | inl here ↦
            le_trans (rw here ((leb_iff _ _).0 longer)) (longest_from-longest e es e (inl refl))
        | inr later ↦ longest_from-longest e es f later
      ])
      | inr shorter ↦ rw (shorter_step best e es shorter) (elim m [
        | inl here ↦ longest_from-longest best es f (inl here)
        | inr (inl here) ↦
            le_trans (rw here (ground arith)) (longest_from-longest best es best (inl refl))
        | inr (inr later) ↦ longest_from-longest best es f (inr later)
      ])
    ]

-- The two ways to select, by what `retain` leaves.
select_from-IsChosen :
    (table kept : List RouteEntry) (model : String) (e : RouteEntry)
    → kept ≡ retain (fits model) table
    → select_from table kept ≡ some e
    → IsChosen table model e
unfolding select_from
select_from-IsChosen table [] model e k h =
    let (listed, named) = find?_sound is_default table e h in
    record {
      listed = listed;
      reason = inr (
        (eq_iff e.request_model "default").0 named,
        λ f m. elim (Bool-cases (fits model f)) [
          | inl fit ↦
              absurd (Absent-elim (rw (← k) at (retain_complete (fits model) table f m fit)))
          | inr unfit ↦ unfit
        ],
      );
    }
select_from-IsChosen table (x ∷ xs) model e k h =
    let same : longest_from x xs ≡ e = some-injective _ _ h in
    let kept : Occurs e (retain (fits model) table) =
      subst (Occurs e) k (subst (λ t. Occurs t (x ∷ xs)) same (longest_from-Occurs x xs)) in
    let (listed, fit) = retain_sound (fits model) table e kept in
    record {
      listed = listed;
      reason = inl (
        fit,
        λ f m fits_f.
            subst (λ t. NotLonger t f) same
              (longest_from-longest x xs f
                (subst (Occurs f) (sym k) (retain_complete (fits model) table f m fits_f))),
      );
    }

-- Whatever is selected is a best choice.
pub select_entry-IsChosen :
    (table : List RouteEntry) (model : String) (e : RouteEntry)
    → select_entry table model ≡ some e
    → IsChosen table model e
unfolding select_entry
select_entry-IsChosen table model e h =
    select_from-IsChosen table (retain (fits model) table) model e refl h

select_from_total :
    (table kept : List RouteEntry)
    → any is_default table ≡ true
    → (e : RouteEntry) × (select_from table kept ≡ some e)
unfolding select_from
select_from_total table [] h = elim (Option-cases (find? is_default table)) [
  | inl e ↦ absurd (ground (arith, find?-any is_default table))
  | inr (d, e) ↦ (d, e)
]
select_from_total table (x ∷ xs) h = (longest_from x xs, refl)

-- With a default entry the selection never fails.
pub select_entry_total :
    (table : List RouteEntry) (model : String)
    → any is_default table ≡ true
    → (e : RouteEntry) × (select_entry table model ≡ some e)
unfolding select_entry
select_entry_total table model h = select_from_total table (retain (fits model) table) h

-- If an entry other than a default one is chosen, the model is its pattern with something in
-- front and behind.
pub chosen_pattern_is_literal :
    (table : List RouteEntry) (model : String) (e : RouteEntry)
    → select_entry table model ≡ some e
    → e.request_model ≢ "default"
    → (a : String) × (b : String) × (model ≡ a ++ (e.request_model ++ b))
chosen_pattern_is_literal table model e h k =
    elim ((select_entry-IsChosen table model e h).reason) [
      | inl (fit, _) ↦ contains_sound e.request_model model fit
      | inr (named, _) ↦ absurd (k named)
    ]
