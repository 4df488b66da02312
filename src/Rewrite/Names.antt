-- ===== src/Rewrite/Names.antt =====
-- The name functions of rewrite/rewrite.go. A string is a list of bytes and a *string an Option.
use kroxy.Base.{
  Bool, true, ◌||◌, Option, none, some, ◌++◌, if◌then◌else◌, Bytes, is_empty, has_prefix,
  trim_prefix,
}

unfoldable pub prefix_in : Bytes → Bytes → Bytes
prefix_in prefix name = if is_empty prefix || is_empty name then name else prefix ++ name

unfoldable pub prefix_in_ptr : Bytes → Option Bytes → Option Bytes
prefix_in_ptr prefix none = none
prefix_in_ptr prefix (some name) =
    if is_empty name || is_empty prefix then some name else some (prefix ++ name)

unfoldable pub strip_out : Bytes → Bytes → Bytes
strip_out prefix name = if is_empty prefix then name else trim_prefix name prefix

unfoldable pub strip_out_ptr : Bytes → Option Bytes → Option Bytes
strip_out_ptr prefix none = none
strip_out_ptr prefix (some name) =
    if is_empty prefix then some name else some (trim_prefix name prefix)

unfoldable pub belongs_to_tenant : Bytes → Bytes → Bool
belongs_to_tenant prefix name = if is_empty prefix then true else has_prefix name prefix
