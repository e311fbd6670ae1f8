-- ===== src/Restart/NextIndex.antt =====
-- `restart_nextindex` of esio/restart-rename.c: the index after that of a restart file's name.
pub mod RoundTrip
use esio.Prelude.{
  ℤ, pos, ℕ, zero, suc, ◌+◌, ◌-◌, ◌*◌, Bool, true, not, ◌&&◌, [], ◌∷◌, ltb, ◌==◌, if◌then◌else◌,
  length, get_or, drop,
}
use esio.Io.{Text}
use esio.Uri.{isdigit}

-- `s[i]`, where the terminating NUL stands behind the last character.
abbrev pub char_at : Text → ℕ → ℕ
char_at s i = get_or s i 0

-- `while (tmpl[i] && name[i] && tmpl[i] == name[i]) ++i;`, the number of rounds.
common_prefix : Text → Text → ℕ
common_prefix [] name = 0
common_prefix (t ∷ tmpl) [] = 0
common_prefix (t ∷ tmpl) (n ∷ name) = if t == n then suc (common_prefix tmpl name) else 0

-- `while (tmpl[k]) { if (tmpl[k] == '#') j = k; ++k; }`, on what is left of the template at `k`.
last_hash : ℕ → ℕ → Text → ℕ × ℕ
last_hash j k [] = (j, k)
last_hash j k (c ∷ rest) = last_hash (if c == b'#' then k else j) (k + 1) rest

-- `while (k > j && l > i && tmpl[k] == name[l]) { --k; --l; }`
scan_back : Text → Text → ℕ → ℕ → ℕ → ℕ → ℕ × ℕ
scan_back tmpl name i j zero l = (0, l)
scan_back tmpl name i j (suc k) l =
    if ltb j (suc k) && ltb i l && char_at tmpl (suc k) == char_at name l
    then scan_back tmpl name i j k (l - 1)
    else (suc k, l)

-- The value of the leading digits, and their number.
unfoldable pub read_digits : ℕ → ℕ → Text → ℕ × ℕ
read_digits value count [] = (value, count)
read_digits value count (c ∷ rest) =
    if isdigit c then read_digits (value * 10 + (c - b'0')) (count + 1) rest else (value, count)

-- strtoul in base 10 at a text that begins with a digit: ULONG_MAX if the value is larger.
abbrev ulong_max : ℕ
ulong_max = 18446744073709551615

strtoul : Text → ℕ × ℕ
unfolding read_digits
strtoul s =
    let (value, count) = read_digits 0 0 s in
    (if ltb ulong_max value then ulong_max else value, count)

-- `while (i != j) { if (tmpl[i] != '#') return errval; ++i; }`, with `j - i` rounds to go.
all_hashes : Text → ℕ → ℕ → Bool
all_hashes tmpl i zero = true
all_hashes tmpl i (suc rounds) = char_at tmpl i == b'#' && all_hashes tmpl (i + 1) rounds

abbrev pub int_max : ℕ
int_max = 2147483647

-- The second half: `i` is at the first hash, `j` at the last, and `l` at the last digit.
index_between : Text → Text → ℤ → ℕ → ℕ → ℕ → ℕ → ℤ
unfolding strtoul all_hashes
index_between tmpl name errval i j k l =
    let (curr, count) = strtoul (drop i name) in
    if not (char_at tmpl k == b'#')
    then pos 0
    else if not (i + count == l + 1)
    then pos 0
    else if ltb (int_max - 1) curr
    then errval
    else if not (all_hashes tmpl i (j - i))
    then errval
    else pos (curr + 1)

unfoldable pub restart_nextindex : Text → Text → ℤ → ℤ
unfolding common_prefix last_hash scan_back index_between
restart_nextindex tmpl name errval =
    let i = common_prefix tmpl name in
    if char_at tmpl i == 0
    then errval
    else if not (char_at tmpl i == b'#')
    then pos 0
    else if not (isdigit (char_at name i))
    then pos 0
    else (let (j, k₀) = last_hash i (i + 1) (drop (i + 1) tmpl) in
        let (k, l) = scan_back tmpl name i j k₀ (length name) in
        index_between tmpl name errval i j k l)
