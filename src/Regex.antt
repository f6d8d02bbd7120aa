-- ===== src/Regex.antt =====
-- The part of Python's module re that the title rules use: patterns over ASCII, matched by
-- backtracking, the leftmost match first. A pattern is compared without case if it is `folded`.
pub mod Syntax
pub mod Find
mod RegexTests
pub use Syntax.{Regex, regex, any_case, regex_of, any_case_of, escaped}
pub use Find.{Match}
unfoldable pub use Syntax.{read_pattern}
unfoldable pub use Find.{search, match_start, is_found, find_all, sub, sub_text, group_of}
