-- ===== src/Text.antt =====
-- The `str` methods of the source: trimming, prefixes, containment, splitting, ASCII case.
-- A `String` is a list of Unicode Scalar values, and `len` counts the bytes of its UTF-8 form.
pub mod Trim
pub mod Search
pub mod Utf8
pub mod Decode
pub mod Lines
unfoldable pub use Trim.{is_whitespace, is_empty, trim_start_by, trim_end_by, trim, is_blank}
unfoldable pub use Search.{
  strip_prefix, starts_with, contains, split_on, split_once, lower, to_ascii_lowercase,
  eq_ignore_ascii_case,
}
