-- ===== src/Transform/Formats.antt =====
-- The texts that the converters put together with `format!` and `push_str`.
use Prim.Native.Char.{Char}
use Prim.Native.String.{◌∷◌, char_at, ◌++◌}
use ai_open_router.Prelude.{ℕ, zero, suc, String, ◌+◌, ◌/◌, ◌%◌, ltb, if◌then◌else◌, ◌≡◌, refl}
use ai_open_router.Transform.Context.{ℤ, pos, negsuc}

abbrev digit : ℕ → Char
digit n = char_at "0123456789" n

-- The decimal digits of a number of at most `fuel` of them, before `rest`.
unfoldable pub push_digits : (fuel : ℕ) → ℕ → String → String
push_digits zero n rest = rest
push_digits (suc fuel) n rest =
    let more = digit (n % 10) ∷ rest in if ltb n 10 then more else push_digits fuel (n / 10) more

-- `format!("{}", index)`: an `i32` has at most ten digits.
unfoldable pub show : ℤ → String
unfolding push_digits
show (pos n) = push_digits 10 n ""
show (negsuc n) = "-" ++ push_digits 10 (n + 1) ""

-- `format!("tool_{}", index)`.
unfoldable pub tool_id : ℤ → String
unfolding show
tool_id index = "tool_" ++ show index

-- `String::push_str`.
abbrev pub push_str : String → String → String
push_str s more = s ++ more

-- `format!("event: {}\ndata: {}\n\n", event_type, json_str)`.
unfoldable pub sse_text : String → String → String
sse_text event_type json_str = "event: " ++ (event_type ++ ("\ndata: " ++ (json_str ++ "\n\n")))

formats : (tool_id (pos 120) ≡ "tool_120") × (show (negsuc 0x7fffffff) ≡ "-2147483648")
unfolding tool_id
formats = (refl, refl)
