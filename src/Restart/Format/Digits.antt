-- ===== src/Restart/Format/Digits.antt =====
-- The digits that restart files are named with: what `%0*d` prints reads back as its argument.
use esio.Prelude.{
  ℤ, pos, ℕ, zero, suc, ◌+◌, ◌-◌, ◌*◌, ◌/◌, ◌%◌, ◌<◌, ◌≡◌, refl, ap, ◌∙◌, ◌≢◌, inl, inr, true, [],
  ◌∷◌, ◌++◌, arith, ltb, Bool-cases, length, replicate,
}
use esio.Io.{Text}
use esio.Restart.Format.{decimal, padded, indexed_name}
use esio.Restart.Format.{reversed_digits}
use esio.Uri.{isdigit}
use esio.Restart.NextIndex.{restart_nextindex, int_max}
use esio.Restart.NextIndex.RoundTrip.{
  AreDigits, HasNoHash, BeginsNoDigit, decimal_from, hashes, restart_nextindex-digits,
}
use mathlib.Core.List.{reverse, reverse-cons}

decimal_from-snoc :
    (v : ℕ) (xs : Text) (c : ℕ)
    → decimal_from v (xs ++ c ∷ []) ≡ decimal_from v xs * 10 + (c - b'0')
decimal_from-snoc v [] c = refl
decimal_from-snoc v (x ∷ xs) c = decimal_from-snoc (v * 10 + (x - b'0')) xs c

AreDigits-append : (xs ys : Text) → AreDigits xs → AreDigits ys → AreDigits (xs ++ ys)
AreDigits-append [] ys h k = k
AreDigits-append (x ∷ xs) ys h k = (h.0, AreDigits-append xs ys h.1 k)

isdigit-value : (n : ℕ) → n < 10 → isdigit (n + b'0') ≡ true
isdigit-value n lt = ground arith

-- What the digits of a number are, in the order of `%d`.
record Prints (n : ℕ) (t : Text) : Type 0 where
  value : decimal_from 0 t ≡ n
  digits : AreDigits t
  some_digit : t ≢ []

not_empty : (xs : Text) (c : ℕ) → (xs ++ c ∷ []) ≢ []
not_empty [] c e = absurd (ground arith)
not_empty (x ∷ xs) c e = absurd (ground arith)

reversed_digits-Prints : (fuel n : ℕ) → n < fuel → Prints n (reverse (reversed_digits fuel n))
unfolding reversed_digits
reversed_digits-Prints zero n lt = absurd (omega arith)
reversed_digits-Prints (suc fuel) n lt = elim (Bool-cases (ltb n 10)) [
  | inl small ↦ rw small (record {
    value = omega arith;
    digits = (isdigit-value n (ground arith), tt);
    some_digit = not_empty [] (n + b'0');
  })
  | inr large ↦
      let rest = reversed_digits-Prints fuel (n / 10) (ground arith) in
      rw (large, reverse-cons)
        (record {
          value =
              decimal_from-snoc 0 (reverse (reversed_digits fuel (n / 10))) (n % 10 + b'0')
              ∙ (omega (arith, rest.value));
          digits =
              AreDigits-append (reverse (reversed_digits fuel (n / 10))) ((n % 10 + b'0') ∷ [])
                rest.digits (isdigit-value (n % 10) (omega arith), tt);
          some_digit = not_empty (reverse (reversed_digits fuel (n / 10))) (n % 10 + b'0');
        })
]

zeros-Prints : (k n : ℕ) (t : Text) → Prints n t → Prints n (replicate k b'0' ++ t)
zeros-Prints zero n t p = p
zeros-Prints (suc k) n t p =
    let q = zeros-Prints k n t p in
    record { value = q.value; digits = (refl, q.digits); some_digit = λ e. absurd (ground arith) }

padded-Prints : (width n : ℕ) → Prints n (padded width n)
unfolding padded decimal
padded-Prints width n =
    zeros-Prints (width - length (decimal n)) n (decimal n)
      (reversed_digits-Prints (suc n) n (omega arith))

nextindex-Prints :
    (prefix suffix t : Text) (index n : ℕ) (errval : ℤ)
    → Prints index t
    → HasNoHash suffix
    → BeginsNoDigit suffix
    → index < int_max
    → restart_nextindex (prefix ++ (hashes (suc n) ++ suffix)) (prefix ++ (t ++ suffix)) errval
      ≡ pos (index + 1)
nextindex-Prints prefix suffix [] index n errval p hs hb lt = absurd (p.some_digit refl)
nextindex-Prints prefix suffix (d ∷ t) index n errval p hs hb lt =
    restart_nextindex-digits prefix suffix t d n errval p.digits hs hb (omega (arith, p.value))
    ∙ ap (λ i. pos (i + 1)) p.value

-- The same for a template that may have hashes in its prefix.
pub restart_nextindex-formatted :
    (prefix suffix : Text) (n width index : ℕ) (errval : ℤ)
    → HasNoHash suffix
    → BeginsNoDigit suffix
    → index < int_max
    → restart_nextindex
        (prefix ++ (hashes (suc n) ++ suffix))
        (indexed_name prefix width index suffix)
        errval
      ≡ pos (index + 1)
unfolding indexed_name
restart_nextindex-formatted prefix suffix n width index errval hs hb lt =
    nextindex-Prints prefix suffix (padded width index) index n errval (padded-Prints width index)
      hs hb lt

-- The name that is formatted for an index below INT_MAX, at any width, gives that index plus one
-- under a template with the same prefix and suffix and one run of hashes, where the suffix does
-- not begin with a digit.
pub restart_nextindex-indexed_name :
    (prefix suffix : Text) (n width index : ℕ) (errval : ℤ)
    → HasNoHash prefix
    → HasNoHash suffix
    → BeginsNoDigit suffix
    → index < int_max
    → restart_nextindex
        (prefix ++ (hashes (suc n) ++ suffix))
        (indexed_name prefix width index suffix)
        errval
      ≡ pos (index + 1)
unfolding indexed_name
restart_nextindex-indexed_name prefix suffix n width index errval one_run hs hb lt =
    nextindex-Prints prefix suffix (padded width index) index n errval (padded-Prints width index)
      hs hb lt
