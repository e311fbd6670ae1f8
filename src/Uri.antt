-- ===== src/Uri.antt =====
-- esio/uri.c: the length of a URI scheme prefix such as `ufs:`, after RFC 3986, section 3.1.
pub mod Scheme
use esio.Prelude.{
  ℕ, ◌+◌, List, [], ◌∷◌, Bool, ◌&&◌, ◌||◌, Option, none, some, ◌==◌, leb, if◌then◌else◌,
}
use esio.Io.{Text}

-- isalpha and isdigit of <ctype.h> in the C locale.
abbrev pub isalpha : ℕ → Bool
isalpha c = leb b'A' c && leb c b'Z' || leb b'a' c && leb c b'z'

abbrev pub isdigit : ℕ → Bool
isdigit c = leb b'0' c && leb c b'9'

-- The test `valid` in the loop: the characters of a scheme after its first.
abbrev pub is_scheme_char : ℕ → Bool
is_scheme_char c = isalpha c || c == b'.' || c == b'-' || isdigit c || c == b'+'

-- The loop `while (++t)`, where `n` is `t - s`. The terminating NUL is no valid character.
scan : ℕ → Text → ℕ
scan n [] = 0
scan n (c ∷ t) = if c == b':' then n + 1 else if is_scheme_char c then scan (n + 1) t else 0

unfoldable pub scheme_prefix_len : Option Text → ℕ
unfolding scan
scheme_prefix_len none = 0
scheme_prefix_len (some []) = 0
scheme_prefix_len (some (c ∷ t)) = if isalpha c then scan 1 t else 0
