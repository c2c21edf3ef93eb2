-- ===== src/Routing/Headers/Laws.antt =====
-- Which downstream headers reach the upstream provider.
use mathlib.Core.Option.{none-ne-some}
use Prim.Native.String.{◌++◌}
use ai_open_router.Prelude.{
  String, ◌≡◌, refl, Bool, true, false, ◌||◌, Option, none, some, List, [], ◌∷◌, ◌==◌, arith,
  eq_iff, if◌then◌else◌, ◌or_else◌, ◌⊎◌, inl, inr, Bool-cases, Option-cases, ◌∙◌,
}
use ai_open_router.Text.{is_empty, trim}
use ai_open_router.Dict.{
  Dict, HashSet, lookup, contains_key, lookup-insert, lookup-extend, lookup-insert_self,
}
use ai_open_router.Entities.{Rule, RuleProtocol}
use ai_open_router.Routing.Types.{EntryProtocol}
use ai_open_router.Routing.Headers.Blocked.{is_hard_blocked_passthrough_header}
use ai_open_router.Routing.Headers.{
  Header, Forwarded, normalize_header_name, normalized_header_set, build_rule_headers,
  should_passthrough_anthropic_version, forward_value, forward_header, forward_headers, set_version,
  passed_through, build_forward_headers, is_anthropic,
}

module _ (entry : EntryProtocol) (target : RuleProtocol) (allow_set deny_set : HashSet) where
  -- What the loop keeps: a withheld name is never stored, and a version only if it passes its test.
  record IsClean (acc : Forwarded) : Type 0 where
    blocked :
        (k : String) → is_hard_blocked_passthrough_header k ≡ true → lookup k acc.headers ≡ none
    denied : (k : String) → contains_key k deny_set ≡ true → lookup k acc.headers ≡ none
    unversioned : lookup "anthropic-version" acc.headers ≡ none
    undenied :
        contains_key "anthropic-version" deny_set ≡ true → acc.passthrough_anthropic_version ≡ none
    checked :
        (v : String)
        → acc.passthrough_anthropic_version ≡ some v
        → should_passthrough_anthropic_version entry target allow_set v ≡ true

  forward_value-IsClean :
      (name value : String) (acc : Forwarded)
      → contains_key name deny_set ≡ false
      → IsClean acc
      → IsClean (forward_value entry target allow_set deny_set name value acc)
  unfolding forward_value
  forward_value-IsClean name value acc allowed c = record {
    blocked =
        λ k h. ground (arith, c.blocked k h, lookup-insert name k value acc.headers, eq_iff name k);
    denied =
        λ k h. ground (arith, c.denied k h, lookup-insert name k value acc.headers, eq_iff name k);
    unversioned =
        ground (arith, c.unversioned, lookup-insert name "anthropic-version" value acc.headers);
    undenied = λ h. ground (arith, c.undenied h, eq_iff name "anthropic-version");
    checked = λ v h. ground (arith, c.checked v);
  }

  forward_header-IsClean :
      (h : Header) (acc : Forwarded)
      → IsClean acc
      → IsClean (forward_header entry target allow_set deny_set h acc)
  unfolding forward_header
  forward_header-IsClean (raw_name, none) acc c = c
  forward_header-IsClean (raw_name, some raw) acc c =
      let name = normalize_header_name raw_name in
      elim (Bool-cases (is_empty name || contains_key name deny_set)) [
        | inl e ↦ rw e c
        | inr e ↦ rw e (forward_value-IsClean name (trim raw) acc (ground arith) c)
      ]

  forward_headers-IsClean :
      (hs : List Header) (acc : Forwarded)
      → IsClean acc
      → IsClean (forward_headers entry target allow_set deny_set hs acc)
  unfolding forward_headers
  forward_headers-IsClean [] acc c = c
  forward_headers-IsClean (h ∷ hs) acc c =
      forward_headers-IsClean hs _ (forward_header-IsClean h acc c)

  IsClean-start : IsClean (record { headers = []; passthrough_anthropic_version = none })
  unfolding lookup
  IsClean-start = record {
    blocked = λ k h. refl;
    denied = λ k h. refl;
    unversioned = refl;
    undenied = λ h. refl;
    checked = λ v h. absurd (none-ne-some v h);
  }

pub lookup-set_version :
    (version : Option String) (k : String) (d : Dict String)
    → lookup k (set_version version d)
      ≡ (if "anthropic-version" == k then (version or_else lookup k d) else lookup k d)
lookup-set_version none k d = ground arith
lookup-set_version (some v) k d = lookup-insert "anthropic-version" k v d

or_else-none : {o p : Option String} → o ≡ p → (o or_else none) ≡ p
or_else-none {o = none} e = e
or_else-none {o = some a} e = e

version_not_blocked : is_hard_blocked_passthrough_header "anthropic-version" ≡ false
unfolding is_hard_blocked_passthrough_header
version_not_blocked = refl

authorization_blocked : is_hard_blocked_passthrough_header "authorization" ≡ true
unfolding is_hard_blocked_passthrough_header
authorization_blocked = refl

api_key_blocked : is_hard_blocked_passthrough_header "x-api-key" ≡ true
unfolding is_hard_blocked_passthrough_header
api_key_blocked = refl

rule_authorization :
    (target : RuleProtocol) (rule : Rule)
    → lookup "authorization" (build_rule_headers target rule)
      ≡ (if is_anthropic target then none else some ("Bearer " ++ rule.token))
unfolding build_rule_headers lookup
rule_authorization RuleProtocol.anthropic rule = refl
rule_authorization _ rule = refl

rule_api_key :
    (target : RuleProtocol) (rule : Rule)
    → lookup "x-api-key" (build_rule_headers target rule)
      ≡ (if is_anthropic target then some rule.token else none)
unfolding build_rule_headers lookup
rule_api_key RuleProtocol.anthropic rule = refl
rule_api_key _ rule = refl

rule_version :
    (target : RuleProtocol) (rule : Rule)
    → lookup "anthropic-version" (build_rule_headers target rule)
      ≡ (if is_anthropic target then some "2023-06-01" else none)
unfolding build_rule_headers lookup
rule_version RuleProtocol.anthropic rule = refl
rule_version _ rule = refl

module _ (entry : EntryProtocol) (target : RuleProtocol) (rule : Rule) (downstream : List Header)
    (enabled : Bool) where
  abbrev allow_set : HashSet
  allow_set = normalized_header_set rule.header_passthrough_allow

  abbrev deny_set : HashSet
  deny_set = normalized_header_set rule.header_passthrough_deny

  abbrev forwarded : Dict String
  forwarded = build_forward_headers entry target rule downstream enabled

  passed_through-IsClean :
      (on : Bool)
      → IsClean entry target allow_set deny_set (passed_through entry target rule downstream on)
  unfolding passed_through
  passed_through-IsClean false = IsClean-start entry target allow_set deny_set
  passed_through-IsClean true =
      forward_headers-IsClean entry target allow_set deny_set downstream _
        (IsClean-start entry target allow_set deny_set)

  abbrev acc : Forwarded
  acc = passed_through entry target rule downstream enabled

  lookup-forwarded :
      (k : String)
      → lookup k forwarded ≡ (
          lookup k (set_version acc.passthrough_anthropic_version (build_rule_headers target rule))
          or_else lookup k acc.headers)
  unfolding build_forward_headers
  lookup-forwarded k = lookup-extend k _ _

  clean : IsClean entry target allow_set deny_set acc
  clean = passed_through-IsClean enabled

  -- A header that is blocked, or denied by the rule, reaches the upstream only with the value
  -- that the rule gives it.
  pub withheld_header :
      (k : String)
      → (is_hard_blocked_passthrough_header k || contains_key k deny_set) ≡ true
      → lookup k forwarded ≡ lookup k (build_rule_headers target rule)
  withheld_header k h = elim (Bool-cases (is_hard_blocked_passthrough_header k)) [
    | inl blocked ↦ ground (
      arith,
      lookup-forwarded k,
      clean.blocked k blocked,
      version_not_blocked,
      lookup-set_version acc.passthrough_anthropic_version k (build_rule_headers target rule),
      eq_iff "anthropic-version" k,
    )
    | inr other ↦ ground (
      arith,
      lookup-forwarded k,
      clean.denied k (rw other at h),
      clean.undenied,
      lookup-set_version acc.passthrough_anthropic_version k (build_rule_headers target rule),
      eq_iff "anthropic-version" k,
    )
  ]

  -- The credentials sent upstream are the rule's, whatever the client sends: a bearer token or
  -- an API key by the protocol, and never both.
  pub credentials_of_rule :
      (lookup "authorization" forwarded
        ≡ (if is_anthropic target then none else some ("Bearer " ++ rule.token)))
      × (lookup "x-api-key" forwarded ≡ (if is_anthropic target then some rule.token else none))
  credentials_of_rule = (
    withheld_header "authorization" (rw authorization_blocked) ∙ rule_authorization target rule,
    withheld_header "x-api-key" (rw api_key_blocked) ∙ rule_api_key target rule,
  )

  -- The version header is absent towards the other protocols and fixed towards Anthropic, unless
  -- a version of the client passes the test.
  pub version_header :
      (lookup "anthropic-version" forwarded
        ≡ (if is_anthropic target then some "2023-06-01" else none))
      ⊎ ((v : String) × (lookup "anthropic-version" forwarded ≡ some v)
          × (should_passthrough_anthropic_version entry target allow_set v ≡ true))
  version_header = elim (Option-cases acc.passthrough_anthropic_version) [
    | inl e ↦ inl (
        rw (lookup-forwarded "anthropic-version", e, clean.unversioned)
          (or_else-none (rule_version target rule)))
    | inr (v, e) ↦
        inr (v, rw (lookup-forwarded "anthropic-version", e, lookup-insert_self), clean.checked v e)
  ]
