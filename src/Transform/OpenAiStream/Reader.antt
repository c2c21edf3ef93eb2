-- ===== src/Transform/OpenAiStream/Reader.antt =====
-- What a Claude client expects of the events of a stream (the protocol that
-- transformer/convert/claude_openai.rs writes): a message starts once, its content blocks do not
-- overlap, and a delta adds to the block that is open.
use ai_open_router.Prelude.{
  ◌≡◌, Bool, true, Option, none, some, List, [], ◌∷◌, ◌++◌, if◌then◌else◌, ◌>>=◌, arith,
  Option-cases, inl, inr, eqb_refl,
}
use ai_open_router.Transform.Context.{ℤ, pos, negsuc, eq_int}
use ai_open_router.Transform.Events.{
  ClaudeEvent, BlockKind, text, thinking, tool_use, Payload, text_delta, thinking_delta,
  input_json_delta, message_start, content_block_start, content_block_delta, content_block_stop,
  message_delta, usage_delta, message_stop,
}

-- The block that is open, with its index.
pub data Block : Type 0 where
  closed : Block
  in_text in_thinking in_tool : ℤ → Block

pub data Reader : Type 0 where
  waiting finished : Reader
  reading : Block → Reader

abbrev pub block_of : ℤ → BlockKind → Block
block_of i text = in_text i
block_of i thinking = in_thinking i
block_of i (tool_use id name) = in_tool i

abbrev keep_if : Bool → Block → Option Block
keep_if same b = if same then some b else none

-- A delta fits the block of its kind and index.
abbrev add : ℤ → Payload → Block → Option Block
add i (text_delta s) (in_text j) = keep_if (eq_int j i) (in_text j)
add i (thinking_delta s) (in_thinking j) = keep_if (eq_int j i) (in_thinking j)
add i (input_json_delta s) (in_tool j) = keep_if (eq_int j i) (in_tool j)
add i payload b = none

abbrev stop : ℤ → Block → Option Block
stop i closed = none
stop i (in_text j) = keep_if (eq_int j i) closed
stop i (in_thinking j) = keep_if (eq_int j i) closed
stop i (in_tool j) = keep_if (eq_int j i) closed

abbrev when_closed : Block → Block → Option Block
when_closed closed next = some next
when_closed b next = none

unfoldable pub read_block : ClaudeEvent → Block → Option Block
read_block (message_start id model) b = none
read_block (content_block_start i kind) b = when_closed b (block_of i kind)
read_block (content_block_delta i payload) b = add i payload b
read_block (content_block_stop i) b = stop i b
read_block (message_delta stop_reason) b = when_closed b closed
read_block (usage_delta input output) b = some b
read_block message_stop b = none

abbrev finish_when : Block → Option Reader
finish_when closed = some finished
finish_when b = none

-- The next state, unless the event is out of place.
unfoldable pub read : Reader → ClaudeEvent → Option Reader
unfolding read_block
read waiting (message_start id model) = some (reading closed)
read waiting event = none
read finished event = none
read (reading b) message_stop = finish_when b
read (reading b) event = read_block event b >>= λ next. some (reading next)

unfoldable pub read_all : Reader → List ClaudeEvent → Option Reader
unfolding read
read_all r [] = some r
read_all r (event ∷ events) = read r event >>= λ next. read_all next events

pub eq_int_refl : (i : ℤ) → eq_int i i ≡ true
unfolding eq_int
eq_int_refl (pos n) = eqb_refl n
eq_int_refl (negsuc n) = eqb_refl n

pub read_all-push :
    (from to next : Reader) (events : List ClaudeEvent) (event : ClaudeEvent)
    → read_all from events ≡ some to
    → read to event ≡ some next
    → read_all from (events ++ event ∷ []) ≡ some next
unfolding read_all
read_all-push from to next [] event h k = ground arith
read_all-push from to next (first ∷ events) event h k = elim (Option-cases (read from first)) [
  | inl e ↦ absurd (ground arith)
  | inr (mid, e) ↦ rw (read_all, e) (read_all-push mid to next events event (ground arith) k)
]
