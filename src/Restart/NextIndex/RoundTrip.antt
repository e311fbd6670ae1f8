-- ===== src/Restart/NextIndex/RoundTrip.antt =====
-- `restart_nextindex` reads back the index of a name that fits its template.
use mathlib.Core.Path.{subst, subst₂}
use esio.Prelude.{
  ℤ, pos, ℕ, zero, suc, ◌+◌, ◌-◌, ◌*◌, ◌≤◌, ◌<◌, ◌≡◌, refl, sym, ap, ◌∙◌, true, false, [], ◌∷◌,
  ◌++◌, arith, ◌==◌, ==-refl, length, get_or, drop, replicate, All, length-append,
  drop-append_length, length-replicate, drop_past, get_or-append,
}
use esio.Io.{Text}
use esio.Uri.{isdigit}
use esio.Restart.NextIndex.{char_at, int_max, restart_nextindex}
use esio.Restart.NextIndex.{
  common_prefix, last_hash, scan_back, read_digits, all_hashes, index_between,
}
use mathlib.Core.List.{append_assoc}
use native.Mathlib.Nat.{zero-add}

abbrev pub HasNoHash : Text → Type 0
HasNoHash = All (λ c. (c == b'#') ≡ false)

abbrev pub AreDigits : Text → Type 0
AreDigits = All (λ c. isdigit c ≡ true)

-- The suffix does not begin with a digit, which would read as part of the index.
abbrev pub BeginsNoDigit : Text → Type 0
BeginsNoDigit [] = Unit
BeginsNoDigit (c ∷ s) = isdigit c ≡ false

-- The number that a text of decimal digits stands for.
abbrev pub decimal_from : ℕ → Text → ℕ
decimal_from value [] = value
decimal_from value (c ∷ digits) = decimal_from (value * 10 + (c - b'0')) digits

abbrev pub hashes : ℕ → Text
hashes n = replicate n b'#'

common_prefix-append :
    (prefix rest₁ rest₂ : Text) (a b : ℕ)
    → (a == b) ≡ false
    → common_prefix (prefix ++ a ∷ rest₁) (prefix ++ b ∷ rest₂) ≡ length prefix
unfolding common_prefix
common_prefix-append [] rest₁ rest₂ a b h = rw h
common_prefix-append (c ∷ prefix) rest₁ rest₂ a b h =
    rw (==-refl c) (ap suc (common_prefix-append prefix rest₁ rest₂ a b h))

last_hash-plain :
    (j k : ℕ) (suffix : Text) → HasNoHash suffix → last_hash j k suffix ≡ (j, k + length suffix)
unfolding last_hash
last_hash-plain j k [] h = ground arith
last_hash-plain j k (c ∷ suffix) h = rw (h.0, last_hash-plain j (k + 1) suffix h.1) (ground arith)

last_hash-hashes :
    (j n : ℕ) (suffix : Text)
    → HasNoHash suffix
    → last_hash j (j + 1) (hashes n ++ suffix) ≡ (j + n, j + 1 + n + length suffix)
unfolding last_hash
last_hash-hashes j zero suffix h = rw (last_hash-plain j (j + 1) suffix h) (ground arith)
last_hash-hashes j (suc n) suffix h = rw (last_hash-hashes (j + 1) n suffix h) (ground arith)

-- From the ends of two texts with a common suffix the scan comes back to what is before it.
scan_back-suffix :
    (a b suffix : Text) (i j m k l : ℕ)
    → length a ≡ j + 1
    → i < length b
    → k ≡ j + m
    → l + 1 ≡ length b + m
    → m ≤ length suffix + 1
    → scan_back (a ++ suffix) (b ++ suffix) i j k l ≡ (j, length b - 1)
unfolding scan_back
scan_back-suffix a b suffix i j m zero l ha hb hk hl hm = ground arith
scan_back-suffix a b suffix i j zero (suc k) l ha hb hk hl hm = ground arith
scan_back-suffix a b suffix i j (suc m) (suc k) l ha hb hk hl hm =
    let same : char_at (a ++ suffix) (suc k) ≡ char_at (b ++ suffix) l =
      subst₂ (λ x y. char_at (a ++ suffix) x ≡ char_at (b ++ suffix) y) (omega arith) (omega arith)
        (get_or-append a suffix m 0 ∙ sym (get_or-append b suffix m 0)) in
    ground (arith, same, scan_back-suffix a b suffix i j m k (l - 1))

read_digits-digits :
    (value count : ℕ) (digits suffix : Text)
    → AreDigits digits
    → BeginsNoDigit suffix
    → read_digits value count (digits ++ suffix)
      ≡ (decimal_from value digits, count + length digits)
unfolding read_digits
read_digits-digits value count [] [] hd hs = ground arith
read_digits-digits value count [] (c ∷ suffix) hd hs = rw hs (ground arith)
read_digits-digits value count (c ∷ digits) suffix hd hs =
    rw (hd.0, read_digits-digits (value * 10 + (c - b'0')) (count + 1) digits suffix hd.1 hs)
      (ground arith)

get_or-hashes : (n t : ℕ) (rest : Text) → t < n → get_or (hashes n ++ rest) t 0 ≡ b'#'
get_or-hashes zero t rest h = absurd (omega arith)
get_or-hashes (suc n) zero rest h = refl
get_or-hashes (suc n) (suc t) rest h = get_or-hashes n t rest (omega arith)

char_at-hashes :
    (prefix rest : Text) (n t : ℕ)
    → t < n
    → char_at (prefix ++ (hashes n ++ rest)) (length prefix + t) ≡ b'#'
char_at-hashes prefix rest n t h =
    get_or-append prefix (hashes n ++ rest) t 0 ∙ get_or-hashes n t rest h

all_hashes-hashes :
    (prefix rest : Text) (n t rounds : ℕ)
    → t + rounds ≤ n
    → all_hashes (prefix ++ (hashes n ++ rest)) (length prefix + t) rounds ≡ true
unfolding all_hashes
all_hashes-hashes prefix rest n t zero h = refl
all_hashes-hashes prefix rest n t (suc rounds) h =
    let later : all_hashes (prefix ++ (hashes n ++ rest)) (length prefix + t + 1) rounds ≡ true =
      subst (λ i. all_hashes (prefix ++ (hashes n ++ rest)) i rounds ≡ true) (omega arith)
        (all_hashes-hashes prefix rest n (t + 1) rounds (omega arith)) in
    rw (char_at-hashes prefix rest n t (omega arith), later)

index_between-ok :
    (tmpl name : Text) (errval : ℤ) (i j k l v count : ℕ)
    → read_digits 0 0 (drop i name) ≡ (v, count)
    → char_at tmpl k ≡ b'#'
    → i + count ≡ l + 1
    → v ≤ int_max - 1
    → all_hashes tmpl i (j - i) ≡ true
    → index_between tmpl name errval i j k l ≡ pos (v + 1)
unfolding index_between
index_between-ok tmpl name errval i j k l v count hr hk hl hv ha =
    rw (hr, hk, hl, ha, ==-refl (l + 1)) (ground arith)

char_at-first : (prefix rest : Text) (c : ℕ) → char_at (prefix ++ c ∷ rest) (length prefix) ≡ c
char_at-first [] rest c = refl
char_at-first (x ∷ prefix) rest c = char_at-first prefix rest c

restart_nextindex-steps :
    (tmpl name : Text) (errval r : ℤ) (i j k₀ k l : ℕ)
    → common_prefix tmpl name ≡ i
    → char_at tmpl i ≡ b'#'
    → isdigit (char_at name i) ≡ true
    → last_hash i (i + 1) (drop (i + 1) tmpl) ≡ (j, k₀)
    → scan_back tmpl name i j k₀ (length name) ≡ (k, l)
    → index_between tmpl name errval i j k l ≡ r
    → restart_nextindex tmpl name errval ≡ r
unfolding restart_nextindex
restart_nextindex-steps tmpl name errval r i j k₀ k l hi ht hn hl hs hr = rw (hi, ht, hn, hl, hs) hr

hash_is_no_digit : (d : ℕ) → isdigit d ≡ true → (b'#' == d) ≡ false
hash_is_no_digit d h = ground arith

scan_back-template :
    (prefix suffix digits : Text) (d n : ℕ)
    → scan_back
        (prefix ++ (hashes (suc n) ++ suffix))
        (prefix ++ (d ∷ digits ++ suffix))
        (length prefix)
        (length prefix + n)
        (length prefix + 1 + n + length suffix)
        (length (prefix ++ (d ∷ digits ++ suffix)))
      ≡ (length prefix + n, length prefix + length digits)
scan_back-template prefix suffix digits d n =
    let p = length prefix in
    let name : Text = prefix ++ (d ∷ digits ++ suffix) in
    let a : Text = prefix ++ hashes (suc n) in
    let b : Text = prefix ++ d ∷ digits in
    let in_b : length b ≡ p + suc (length digits) = length-append prefix (d ∷ digits) in
    let last : length b - 1 ≡ p + length digits = omega (arith, in_b) in
    subst₂
      (λ x y.
        scan_back x y p (p + n) (p + 1 + n + length suffix) (length name)
        ≡ (p + n, p + length digits))
      (append_assoc prefix (hashes (suc n)) suffix) (append_assoc prefix (d ∷ digits) suffix)
      (scan_back-suffix a b suffix p (p + n) (length suffix + 1) (p + 1 + n + length suffix)
          (length name)
          (omega (arith, length-append prefix (hashes (suc n)), length-replicate {A = ℕ} n b'#'))
          (omega (arith, in_b)) (omega arith)
          (omega
            (arith, in_b, length-append prefix (d ∷ digits ++ suffix), length-append digits suffix))
          (omega arith)
        ∙ ap (λ l. (p + n, l)) last)

all_hashes-template :
    (prefix suffix : Text) (n : ℕ)
    → all_hashes
        (prefix ++ (hashes (suc n) ++ suffix))
        (length prefix)
        (length prefix + n - length prefix)
      ≡ true
all_hashes-template prefix suffix n =
    subst₂ (λ i r. all_hashes (prefix ++ (hashes (suc n) ++ suffix)) i r ≡ true) (omega arith)
      (omega arith) (all_hashes-hashes prefix suffix (suc n) 0 n (omega arith))

-- The same for a template that may have hashes in its prefix, as the code takes it.
pub restart_nextindex-digits :
    (prefix suffix digits : Text) (d n : ℕ) (errval : ℤ)
    → AreDigits (d ∷ digits)
    → HasNoHash suffix
    → BeginsNoDigit suffix
    → decimal_from 0 (d ∷ digits) < int_max
    → restart_nextindex
        (prefix ++ (hashes (suc n) ++ suffix))
        (prefix ++ (d ∷ digits ++ suffix))
        errval
      ≡ pos (decimal_from 0 (d ∷ digits) + 1)
restart_nextindex-digits prefix suffix digits d n errval hd hs hb hv =
    let p = length prefix in
    let tmpl : Text = prefix ++ (hashes (suc n) ++ suffix) in
    let name : Text = prefix ++ (d ∷ digits ++ suffix) in
    restart_nextindex-steps tmpl name errval (pos (decimal_from 0 (d ∷ digits) + 1)) p (p + n)
      (p + 1 + n + length suffix) (p + n) (p + length digits)
      (common_prefix-append prefix (hashes n ++ suffix) (digits ++ suffix) b'#' d
        (hash_is_no_digit d hd.0))
      (char_at-first prefix (hashes n ++ suffix) b'#') (rw char_at-first hd.0)
      (rw drop_past (last_hash-hashes p n suffix hs)) (scan_back-template prefix suffix digits d n)
      (index_between-ok tmpl name errval p (p + n) (p + n) (p + length digits)
        (decimal_from 0 (d ∷ digits)) (suc (length digits))
        (rw drop-append_length (
          read_digits-digits 0 0 (d ∷ digits) suffix hd hb
          ∙ ap (λ c. (decimal_from 0 (d ∷ digits), c)) (zero-add (suc (length digits)))))
        (char_at-hashes prefix suffix (suc n) n (omega arith)) (omega arith) (omega arith)
        (all_hashes-template prefix suffix n))

-- A name that has a decimal number below INT_MAX in place of the hashes of its template gives that
-- number plus one, where the template has one run of hashes and its suffix does not begin with a
-- digit, whatever the numbers of hashes and digits are.
pub restart_nextindex-decimal :
    (prefix suffix digits : Text) (d n : ℕ) (errval : ℤ)
    → AreDigits (d ∷ digits)
    → HasNoHash prefix
    → HasNoHash suffix
    → BeginsNoDigit suffix
    → decimal_from 0 (d ∷ digits) < int_max
    → restart_nextindex
        (prefix ++ (hashes (suc n) ++ suffix))
        (prefix ++ (d ∷ digits ++ suffix))
        errval
      ≡ pos (decimal_from 0 (d ∷ digits) + 1)
restart_nextindex-decimal prefix suffix digits d n errval hd one_run =
    restart_nextindex-digits prefix suffix digits d n errval hd
