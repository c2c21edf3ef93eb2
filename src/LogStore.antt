-- ===== src/LogStore.antt =====
-- log_store.rs: the bounded log of requests in memory, and the optional file for developers. The
-- file is the list of the entries written to it; an error of the file system, which the source
-- only prints, is not modelled.
mod Tests
pub mod Laws
pub mod Trace
use mathlib.Core.List.{reverse}
use ai_open_router.Prelude.{
  ℕ, String, Bool, Option, none, some, get_or, List, [], ◌∷◌, ◌++◌, ◌==◌, ltb, if◌then◌else◌,
  length, take,
}
use ai_open_router.Dict.{Dict}
use ai_open_router.Json.{Value, F64}
use ai_open_router.Entities.{TokenUsage}

pub record CostSnapshot : Type 0 where
  pub enabled : Bool
  pub currency : String
  pub input_price_per_m : F64
  pub output_price_per_m : F64
  pub cache_input_price_per_m : F64
  pub cache_output_price_per_m : F64
  pub total_cost : F64

pub record LogEntryError : Type 0 where
  pub message : String
  pub code : String

pub record LogEntry : Type 0 where
  pub timestamp : String
  pub trace_id : String
  pub phase : String
  pub status : String
  pub method : String
  pub request_path : String
  pub request_address : String
  pub client_address : Option String
  pub group_path : Option String
  pub group_name : Option String
  pub rule_id : Option String
  pub direction : Option String
  pub entry_protocol : Option String
  pub downstream_protocol : Option String
  pub model : Option String
  pub forwarded_model : Option String
  pub forwarding_address : Option String
  pub request_headers : Option (Dict String)
  pub forward_request_headers : Option (Dict String)
  pub upstream_response_headers : Option (Dict String)
  pub response_headers : Option (Dict String)
  pub request_body : Option Value
  pub forward_request_body : Option Value
  pub response_body : Option Value
  pub transformed_response_body : Option Value
  pub transform_debug : Option Value
  pub token_usage : Option TokenUsage
  pub cost_snapshot : Option CostSnapshot
  pub http_status : Option ℕ
  pub upstream_status : Option ℕ
  pub duration_ms : ℕ
  pub error : Option LogEntryError

-- The oldest entry stands first.
pub record LogStore : Type 0 where
  pub inner : List LogEntry
  pub limit : ℕ
  pub dev_log_sink : Option (List LogEntry)

-- `LogStore::with_dev_log_file`, the file as it is found.
unfoldable pub new : ℕ → Option (List LogEntry) → LogStore
new limit sink = record { inner = []; limit = limit; dev_log_sink = sink }

-- `while guard.len() > self.limit { guard.pop_front(); }`
unfoldable pub evict : ℕ → List LogEntry → List LogEntry
evict limit [] = []
evict limit (e ∷ es) = if ltb limit (length (e ∷ es)) then evict limit es else e ∷ es

abbrev append_to_dev_file : LogEntry → Option (List LogEntry) → Option (List LogEntry)
append_to_dev_file entry none = none
append_to_dev_file entry (some lines) = some (lines ++ entry ∷ [])

unfoldable pub append_with_dev_entry : LogEntry → Option LogEntry → LogStore → LogStore
unfolding evict
append_with_dev_entry entry dev_entry s = record s {
  inner = evict s.limit (s.inner ++ entry ∷ []);
  dev_log_sink = append_to_dev_file (get_or dev_entry entry) s.dev_log_sink;
}

-- The loop from the back that replaces the newest entry with the trace id, if there is one.
unfoldable pub replace_newest : LogEntry → List LogEntry → Option (List LogEntry)
replace_newest entry [] = none
replace_newest entry (e ∷ es) = elim (replace_newest entry es) [
  | some fs ↦ some (e ∷ fs)
  | none ↦ if e.trace_id == entry.trace_id then some (entry ∷ es) else none
]

unfoldable pub upsert_inner : ℕ → LogEntry → List LogEntry → List LogEntry
unfolding replace_newest evict
upsert_inner limit entry es = elim (replace_newest entry es) [
  | some fs ↦ fs
  | none ↦ evict limit (es ++ entry ∷ [])
]

unfoldable pub upsert_by_trace_id_with_dev_entry : LogEntry → Option LogEntry → LogStore → LogStore
unfolding upsert_inner
upsert_by_trace_id_with_dev_entry entry dev_entry s = record s {
  inner = upsert_inner s.limit entry s.inner;
  dev_log_sink = append_to_dev_file (get_or dev_entry entry) s.dev_log_sink;
}

-- `LogStore::list`.
unfoldable pub list : ℕ → LogStore → List LogEntry
list max s = reverse (take max (reverse s.inner))

abbrev truncate : Option (List LogEntry) → Option (List LogEntry)
truncate none = none
truncate (some lines) = some []

-- `LogStore::clear`.
unfoldable pub clear : LogStore → LogStore
clear s = record s { inner = []; dev_log_sink = truncate s.dev_log_sink }
