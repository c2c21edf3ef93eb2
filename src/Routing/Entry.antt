-- ===== src/Routing/Entry.antt =====
-- proxy/routing.rs, `detect_entry_protocol` and `resolve_upstream_path`.
pub mod Laws
use ai_open_router.Prelude.{ℕ, String, Bool, ◌||◌, Option, none, some, eqb, if◌then◌else◌, ◌==◌}
use ai_open_router.Text.{is_empty, starts_with, trim_end_by}
use ai_open_router.Entities.{RuleProtocol}
use ai_open_router.Routing.Types.{EntryProtocol, PathEntry, chat_completions, responses, messages}
use Prim.Native.String.{[], ◌∷◌, ◌++◌}

abbrev pub is_slash : ℕ → Bool
is_slash c = eqb c b'/'

-- `while s.ends_with('/') && s.len() > 1 { s.pop(); }`: all slashes at the end go, but for the
-- first character.
unfoldable pub pop_slashes : String → String
unfolding trim_end_by
pop_slashes [] = []
pop_slashes (c ∷ s) = c ∷ trim_end_by is_slash s

-- `if !s.starts_with('/') { s = format!("/{s}"); }`
unfoldable pub add_slash : String → String
unfolding starts_with
add_slash s = if starts_with "/" s then s else "/" ++ s

unfoldable pub normalize_suffix : String → String
unfolding pop_slashes add_slash
normalize_suffix suffix =
    if is_empty suffix || suffix == "/" then "/chat/completions" else add_slash (pop_slashes suffix)

-- The `match` on the normalized path.
unfoldable pub path_entry : String → Option PathEntry
path_entry path =
    if path == "/messages" || path == "/v1/messages"
    then some (record { protocol = EntryProtocol.anthropic; endpoint = messages })
    else if path == "/chat/completions" || path == "/v1/chat/completions"
    then some (record { protocol = EntryProtocol.openai; endpoint = chat_completions })
    else if path == "/responses" || path == "/v1/responses"
    then some (record { protocol = EntryProtocol.openai; endpoint = responses })
    else none

unfoldable pub detect_entry_protocol : String → Option PathEntry
unfolding normalize_suffix path_entry
detect_entry_protocol suffix = path_entry (normalize_suffix suffix)

unfoldable pub resolve_upstream_path : RuleProtocol → String
resolve_upstream_path RuleProtocol.anthropic = "/v1/messages"
resolve_upstream_path RuleProtocol.openai = "/responses"
resolve_upstream_path RuleProtocol.openai_completion = "/chat/completions"
