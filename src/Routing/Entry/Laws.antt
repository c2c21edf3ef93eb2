-- ===== src/Routing/Entry/Laws.antt =====
-- Which request paths are accepted, and as what.
use Prim.Native.Char.{Char, code}
use Prim.Native.String.{[], ◌∷◌, ◌++◌, char_at}
use text.Mathlib.TextLemmas.{
  cons-append, nil-append, cons≢nil, tail-eq_of_cons-eq, head-eq_of_cons-eq, cons-ne-nil,
}
use ai_open_router.Prelude.{
  ◌↔◌, ≢→==, sym, ◌≡⟨◌⟩◌, ◌∎, String, ◌≡◌, ◌≢◌, refl, false, arith, eqb, eq_iff, ap, Bool-cases,
  inl, inr, some,
}
use ai_open_router.Text.{starts_with, trim_end_by}
use ai_open_router.Routing.Entry.{
  is_slash, normalize_suffix, path_entry, detect_entry_protocol, add_slash, pop_slashes, is_empty,
  PathEntry, EntryProtocol, messages,
}

trim_end_by-slash : (s : String) → trim_end_by is_slash (s ++ "/") ≡ trim_end_by is_slash s
unfolding trim_end_by
trim_end_by-slash [] = refl
trim_end_by-slash (c ∷ s) = rw (cons-append, trim_end_by, trim_end_by-slash s)

two_characters : (c d : Char) (s : String) → c ∷ (d ∷ s) ≢ "/"
two_characters c d s = λ e. cons≢nil (tail-eq_of_cons-eq e)

abbrev slash : Char
slash = char_at "/" 0

not_slash : (c : Char) (s : String) → starts_with "/" (c ∷ s) ≡ false → eqb b'/' (code c) ≡ false
unfolding starts_with
not_slash c s k = ground arith

not_just_slash : (c : Char) (s : String) → eqb b'/' (code c) ≡ false → c ∷ s ≢ "/"
not_just_slash c s k =
    λ e. let same : c ≡ slash = head-eq_of_cons-eq e in absurd (ground (arith, ap code same))

longer : (c : Char) (s : String) → c ∷ (s ++ "/") ≢ "/"
longer c [] = λ e. cons≢nil (tail-eq_of_cons-eq e)
longer c (d ∷ s) = rw cons-append (two_characters c d (s ++ "/"))

normalize_suffix-trailing_slash :
    (suffix : String) → suffix ≢ "/" → normalize_suffix (suffix ++ "/") ≡ normalize_suffix suffix
unfolding normalize_suffix
normalize_suffix-trailing_slash [] h = refl
normalize_suffix-trailing_slash (c ∷ s) h =
    rw (cons-append, trim_end_by-slash s)
      (ground (arith, eq_iff (c ∷ (s ++ "/")) "/", eq_iff (c ∷ s) "/", longer c s))

-- A slash at the end of a path suffix changes nothing, unless the suffix is a single slash.
pub detect_entry_protocol-trailing_slash :
    (suffix : String)
    → suffix ≢ "/"
    → detect_entry_protocol (suffix ++ "/") ≡ detect_entry_protocol suffix
unfolding detect_entry_protocol
detect_entry_protocol-trailing_slash suffix h =
    ap path_entry (normalize_suffix-trailing_slash suffix h)

normalize_suffix_of_proper :
    (s : String) → s ≢ "" → s ≢ "/" → normalize_suffix s ≡ add_slash (pop_slashes s)
unfolding normalize_suffix
normalize_suffix_of_proper [] h k = absurd (h refl)
normalize_suffix_of_proper (c ∷ s) h k = rw (≢→== (c ∷ s) "/" k)

pop_slashes-slash :
    (c : Char) (s : String)
    → eqb b'/' (code c) ≡ false
    → pop_slashes (slash ∷ (c ∷ s)) ≡ slash ∷ pop_slashes (c ∷ s)
unfolding pop_slashes
pop_slashes-slash c s k = elim (Bool-cases (is_empty (trim_end_by is_slash s))) [
  | inl e ↦ rw e (ground arith)
  | inr e ↦ rw e refl
]

add_slash-pop_slashes :
    (c : Char) (s : String)
    → eqb b'/' (code c) ≡ false
    → add_slash (slash ∷ pop_slashes (c ∷ s)) ≡ add_slash (pop_slashes (c ∷ s))
unfolding add_slash pop_slashes
add_slash-pop_slashes c s k = rw (k, cons-append, nil-append)

normalize_suffix-leading_slash :
    (suffix : String)
    → suffix ≢ ""
    → starts_with "/" suffix ≡ false
    → normalize_suffix ("/" ++ suffix) ≡ normalize_suffix suffix
normalize_suffix-leading_slash [] h k = absurd (h refl)
normalize_suffix-leading_slash (c ∷ s) h k =
    let k' : eqb b'/' (code c) ≡ false = not_slash c s k in
    normalize_suffix ("/" ++ (c ∷ s))
    ≡⟨ ap normalize_suffix (rw (cons-append, nil-append)) ⟩ normalize_suffix (slash ∷ (c ∷ s))
    ≡⟨ normalize_suffix_of_proper _ (cons-ne-nil _ _) (two_characters slash c s) ⟩
      add_slash (pop_slashes (slash ∷ (c ∷ s)))
    ≡⟨ ap add_slash (pop_slashes-slash c s k') ⟩ add_slash (slash ∷ pop_slashes (c ∷ s))
    ≡⟨ add_slash-pop_slashes c s k' ⟩ add_slash (pop_slashes (c ∷ s))
    ≡⟨ sym (normalize_suffix_of_proper (c ∷ s) h (not_just_slash c s k')) ⟩
      normalize_suffix (c ∷ s) ∎

-- Nor does a slash in front of a suffix that has none.
pub detect_entry_protocol-leading_slash :
    (suffix : String)
    → suffix ≢ ""
    → starts_with "/" suffix ≡ false
    → detect_entry_protocol ("/" ++ suffix) ≡ detect_entry_protocol suffix
unfolding detect_entry_protocol
detect_entry_protocol-leading_slash suffix h k =
    ap path_entry (normalize_suffix-leading_slash suffix h k)

path_entry-protocol_iff :
    (path : String) (e : PathEntry)
    → path_entry path ≡ some e
    → (e.protocol ≡ EntryProtocol.anthropic) ↔ (e.endpoint ≡ messages)
unfolding path_entry
path_entry-protocol_iff path e h = ground arith

-- An accepted path speaks the Anthropic protocol exactly when its endpoint is `/messages`.
pub detect_entry_protocol-protocol_iff :
    (suffix : String) (e : PathEntry)
    → detect_entry_protocol suffix ≡ some e
    → (e.protocol ≡ EntryProtocol.anthropic) ↔ (e.endpoint ≡ messages)
unfolding detect_entry_protocol
detect_entry_protocol-protocol_iff suffix e h =
    path_entry-protocol_iff (normalize_suffix suffix) e h
