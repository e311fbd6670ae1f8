-- ===== src/Apps/Text.antt =====
-- What the programs use of ctype.h and of sscanf, on the bytes of a text.
pub mod Trim
use esio.Prelude.{
  ℤ, pos, neg_ℤ, ℕ, ◌-◌, Bool, ◌&&◌, ◌||◌, Option, none, some, List, [], ◌∷◌, leb, ◌==◌,
  if◌then◌else◌, drop,
}
use esio.Io.{Text}
use esio.Restart.NextIndex.{read_digits}

-- `isspace` in the C locale: tab, newline, vertical tab, form feed, carriage return and space.
abbrev pub isspace : ℕ → Bool
isspace c = (leb 9 c && leb c 13) || c == 32

abbrev pub toupper : ℕ → ℕ
toupper c = if leb b'a' c && leb c b'z' then c - 32 else c

-- `while (isspace(*s)) ++s;`
unfoldable pub skip_space : Text → Text
skip_space [] = []
skip_space (c ∷ s) = if isspace c then skip_space s else c ∷ s

-- The digits of `%d`: at least one.
unfoldable pub scan_digits : Text → Option (ℕ × Text)
unfolding read_digits
scan_digits s =
    let (value, count) = read_digits 0 0 s in
    if count == 0 then none else some (value, drop count s)

abbrev negate : Option (ℕ × Text) → Option (ℤ × Text)
negate none = none
negate (some (n, rest)) = some (neg_ℤ (pos n), rest)

abbrev as_ℤ : Option (ℕ × Text) → Option (ℤ × Text)
as_ℤ none = none
as_ℤ (some (n, rest)) = some (pos n, rest)

-- `%d` behind the white space that it skips.
unfoldable pub scan_int : Text → Option (ℤ × Text)
unfolding scan_digits
scan_int [] = none
scan_int (c ∷ s) =
    if c == b'-'
    then negate (scan_digits s)
    else if c == b'+'
    then as_ℤ (scan_digits s)
    else as_ℤ (scan_digits (c ∷ s))

-- `%d`, a blank, an ordinary character and `%c` of a format.
pub data Directive : Type 0 where
  integer blank character : Directive
  ordinary : ℕ → Directive

-- The values that sscanf assigns, whose number is its result where that is positive. A number
-- outside the range of int is handed on, and its reader finds it.
unfoldable pub sscanf : List Directive → Text → List ℤ
unfolding skip_space scan_int
sscanf [] s = []
sscanf (integer ∷ format) s = elim (scan_int (skip_space s)) [
  | none ↦ []
  | some (n, rest) ↦ n ∷ sscanf format rest
]
sscanf (blank ∷ format) s = sscanf format (skip_space s)
sscanf (character ∷ format) [] = []
sscanf (character ∷ format) (c ∷ s) = pos c ∷ sscanf format s
sscanf (ordinary k ∷ format) [] = []
sscanf (ordinary k ∷ format) (c ∷ s) = let rest = sscanf format s in if c == k then rest else []
