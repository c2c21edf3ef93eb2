-- ===== src/LogStore/Tests.antt =====
-- The theorems on the log at a store of two entries.
use ai_open_router.Prelude.{
  String, ◌≡◌, ◌-◌, refl, none, some, [], ◌∷◌, ◌++◌, arith, length, drop, if◌then◌else◌, ◌==◌,
}
use ai_open_router.LogStore.{
  LogEntry, LogStore, append_with_dev_entry, upsert_by_trace_id_with_dev_entry,
}
use ai_open_router.LogStore.Laws.{IsBounded, inner-appended, appended}
use ai_open_router.LogStore.Trace.{ids, newest, upsert_present}

abbrev first : LogEntry
first = record {
  timestamp = "2026-01-01T00:00:00Z";
  trace_id = "t1";
  phase = "processing";
  status = "processing";
  method = "POST";
  request_path = "/oc/dev/messages";
  request_address = "";
  client_address = none;
  group_path = none;
  group_name = none;
  rule_id = none;
  direction = none;
  entry_protocol = none;
  downstream_protocol = none;
  model = none;
  forwarded_model = none;
  forwarding_address = none;
  request_headers = none;
  forward_request_headers = none;
  upstream_response_headers = none;
  response_headers = none;
  request_body = none;
  forward_request_body = none;
  response_body = none;
  transformed_response_body = none;
  transform_debug = none;
  token_usage = none;
  cost_snapshot = none;
  http_status = none;
  upstream_status = none;
  duration_ms = 0;
  error = none;
}

abbrev second : LogEntry
second = record first { trace_id = "t2" }

abbrev finished : LogEntry
finished = record first { status = "ok"; http_status = some 200 }

abbrev third : LogEntry
third = record first { trace_id = "t3" }

-- The log is full.
abbrev store : LogStore
store = record { inner = first ∷ second ∷ []; limit = 2; dev_log_sink = some [] }

evicts_first : (append_with_dev_entry third none store).inner ≡ second ∷ third ∷ []
unfolding append_with_dev_entry
evicts_first = refl

store-IsBounded : IsBounded store
store-IsBounded = omega arith

inner-appended_example :
    (appended (third ∷ []) store).inner
    ≡ drop (length (store.inner ++ third ∷ []) - 2) (store.inner ++ third ∷ [])
inner-appended_example = inner-appended (third ∷ []) store store-IsBounded

upsert_present_example :
    (ids (upsert_by_trace_id_with_dev_entry finished none store).inner ≡ ids store.inner)
    × ((id : String)
        → newest id (upsert_by_trace_id_with_dev_entry finished none store).inner
          ≡ (if "t1" == id then some finished else newest id store.inner))
upsert_present_example = upsert_present store finished first none refl
