-- ===== src/Restart/Format.antt =====
-- The formats of esio/restart-rename.c: `%0*d` of a natural number, the split of a template at its
-- hashes, and `snprintf_realloc`.
pub mod Buffer
pub mod Digits
pub mod Width
use mathlib.Core.List.{reverse}
use esio.Prelude.{
  is_neg, ℤ, pos, negsuc, eq_ℤ, ℕ, zero, suc, ◌+◌, ◌-◌, ◌*◌, ◌/◌, ◌%◌, [], ◌∷◌, ◌++◌, ltb, ◌==◌,
  if◌then◌else◌, length, replicate,
}
use esio.Io.{Text, realloc, vsnprintf, Proc, pure, return, out_of_fuel, external, ◌>>=◌}

-- The decimal digits of `n`, the last one first, with fuel for more digits than `n` has.
reversed_digits : ℕ → ℕ → Text
reversed_digits zero n = []
reversed_digits (suc fuel) n =
    let rest = reversed_digits fuel (n / 10) in
    if ltb n 10 then (n + b'0') ∷ [] else (n % 10 + b'0') ∷ rest

unfoldable pub decimal : ℕ → Text
unfolding reversed_digits
decimal n = reverse (reversed_digits (suc n) n)

-- `%0*d`
unfoldable pub padded : ℕ → ℕ → Text
unfolding decimal
padded width n = let digits = decimal n in replicate (width - length digits) b'0' ++ digits

-- `strchr(s, '#')`: what stands before the first hash, and the text from it on.
unfoldable pub before_hash : Text → Text
before_hash [] = []
before_hash (c ∷ s) = if c == b'#' then [] else c ∷ before_hash s

unfoldable pub from_hash : Text → Text
from_hash [] = []
from_hash (c ∷ s) = if c == b'#' then c ∷ s else from_hash s

-- `while (*suffix == '#') { ++ndigits; *suffix++ = 0; }`
unfoldable pub count_hashes : Text → ℕ
count_hashes [] = 0
count_hashes (c ∷ s) = if c == b'#' then suc (count_hashes s) else 0

unfoldable pub after_hashes : Text → Text
after_hashes [] = []
after_hashes (c ∷ s) = if c == b'#' then after_hashes s else c ∷ s

-- A file path, `%s/%s`.
unfoldable pub join : Text → Text → Text
join dirname name = dirname ++ (b'/' ∷ name)

-- The name for an index, `%s%0*d%s`.
unfoldable pub indexed_name : Text → ℕ → ℕ → Text → Text
unfolding padded
indexed_name prefix ndigits index suffix = prefix ++ (padded ndigits index ++ suffix)

-- The loop of snprintf_realloc, where `size` is the size of the buffer: the result is the length of
-- the text, or negative where vsnprintf fails or memory runs out, and the new size. A call of
-- vsnprintf that does not fail gives the length of the text. The sizes are taken to fit a size_t.
realloc_loop : ℕ → ℕ → Text → Proc (ℤ × ℕ) (ℤ × ℕ)
realloc_loop zero size text = out_of_fuel
realloc_loop (suc fuel) size text =
    let needed = length text + 1 in
    let doubled = size * 2 in
    let larger = if ltb doubled needed then needed else doubled in
    let again = realloc_loop fuel larger text in
    do
      retval ← external (vsnprintf text size)
      if is_neg retval
          then return (retval, size)
          else if ltb size needed
          then (do
            p ← external (realloc larger)
            if eq_ℤ p (pos 0) then return (negsuc 0, 0) else again)
          else pure (pos (length text), size)

-- After one reallocation the text fits, so that two rounds are enough.
unfoldable pub snprintf_realloc : ℕ → Text → Proc (ℤ × ℕ) (ℤ × ℕ)
unfolding realloc_loop
snprintf_realloc = realloc_loop 2
