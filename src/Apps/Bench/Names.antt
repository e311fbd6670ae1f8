-- ===== src/Apps/Bench/Names.antt =====
-- The names of fields, planes and lines in apps/esio_bench.c.
pub mod Fit
use esio.Prelude.{
  pos, is_zero, ℕ, zero, suc, ◌+◌, ◌*◌, not, List, [], ◌∷◌, ltb, if◌then◌else◌, length,
}
use esio.Io.{Text, malloc, Proc, pure, undefined, gets, external, ◌>>=◌, ◌>>◌, assert}
use esio.Restart.Format.{padded}

-- `sprintf(n, "X%0*d", ndigits, i)` into a slot of `namelen` bytes, and the letter that then stands
-- for the X. A text that does not fit its slot with its NUL runs past the end of the buffer, or
-- into the next name.
unfoldable pub print_name : {R : Type 0} → ℕ → ℕ → ℕ → Proc R Text
unfolding padded
print_name namelen ndigits i =
    let digits = padded ndigits i in
    if ltb namelen (1 + length digits + 1) then undefined else pure (b'X' ∷ digits)

-- The largest number of fields, planes and lines.
abbrev pub most : ℕ → ℕ → ℕ → ℕ
most nfields nplanes nlines =
    let m = if ltb nplanes nfields then nfields else nplanes in if ltb nlines m then m else nlines

-- The loop over the slots, from the slot `i` on.
unfoldable pub print_names : {R : Type 0} → ℕ → ℕ → ℕ → ℕ → Proc R (List Text)
unfolding print_name
print_names namelen ndigits i zero = pure []
print_names namelen ndigits i (suc rounds) = do
  name ← print_name namelen ndigits i
  names ← print_names namelen ndigits (i + 1) rounds
  pure (name ∷ names)

-- `namelen` has room for the letter, the digits and the NUL.
unfoldable pub allocate_names : {R : Type 0} → ℕ → Proc R (List Text)
unfolding print_names
allocate_names m = do
  env ← gets (λ s. s.env)
  let ndigits = env.ceil_log10 m
  let namelen = 1 + ndigits + 1
  names ← external (malloc (pos (m * namelen)))
  assert (not (is_zero names))
  print_names namelen ndigits 0 m

-- `*n = letter;`
abbrev pub lettered : ℕ → Text → Text
lettered letter [] = []
lettered letter (c ∷ name) = letter ∷ name
