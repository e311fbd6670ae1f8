-- ===== src/Uri/Scheme.antt =====
-- `scheme_prefix_len` against the grammar scheme = ALPHA *( ALPHA / DIGIT / "+" / "-" / "." ).
use esio.Prelude.{
  ◌≤◌, ◌⊎◌, sym, ◌∙◌, ap, ◌↔◌, drop_past, ℕ, ◌+◌, ◌≡◌, ◌≢◌, refl, [], ◌∷◌, ◌++◌, true, false, some,
  length, drop, All, arith, Bool-cases, inl, inr, ◌==◌,
}
use esio.Io.{Text}
use esio.Uri.{scan, scheme_prefix_len, isalpha, is_scheme_char}

abbrev AreSchemeChars : Text → Type 0
AreSchemeChars = All (λ c. is_scheme_char c ≡ true)

-- The ALPHA and the DIGIT of RFC 3986, and what may follow the first character of a scheme.
abbrev pub IsAlpha : ℕ → Type 0
IsAlpha c = ((65 ≤ c) × (c ≤ 90)) ⊎ ((97 ≤ c) × (c ≤ 122))

abbrev pub IsDigit : ℕ → Type 0
IsDigit c = (48 ≤ c) × (c ≤ 57)

abbrev pub FollowsInScheme : ℕ → Type 0
FollowsInScheme c = IsAlpha c ⊎ IsDigit c ⊎ (c ≡ 43) ⊎ (c ≡ 45) ⊎ (c ≡ 46)

-- What RFC 3986 calls a scheme.
abbrev pub IsScheme : Text → Type 0
IsScheme [] = ⊥
IsScheme (c ∷ t) = IsAlpha c × All FollowsInScheme t

isalpha_iff-IsAlpha : (c : ℕ) → (isalpha c ≡ true) ↔ IsAlpha c
isalpha_iff-IsAlpha c = (λ e. ground (arith, e), λ h. ground (arith, h))

is_scheme_char_iff-FollowsInScheme : (c : ℕ) → (is_scheme_char c ≡ true) ↔ FollowsInScheme c
is_scheme_char_iff-FollowsInScheme c = (λ e. ground (arith, e), λ h. ground (arith, h))

chars-follow : (t : Text) → AreSchemeChars t → All FollowsInScheme t
chars-follow [] h = tt
chars-follow (c ∷ t) (hc, h) = ((is_scheme_char_iff-FollowsInScheme c).0 hc, chars-follow t h)

follow-chars : (t : Text) → All FollowsInScheme t → AreSchemeChars t
follow-chars [] h = tt
follow-chars (c ∷ t) (hc, h) = ((is_scheme_char_iff-FollowsInScheme c).1 hc, follow-chars t h)

colon_ends : (c : ℕ) → is_scheme_char c ≡ true → (c == b':') ≡ false
colon_ends c h = ground arith

scan-scheme :
    (n : ℕ) (t rest : Text) → AreSchemeChars t → scan n (t ++ b':' ∷ rest) ≡ n + length t + 1
unfolding scan
scan-scheme n [] rest h = omega arith
scan-scheme n (c ∷ t) rest h =
    rw (colon_ends c h.0, h.0) (omega (arith, scan-scheme (n + 1) t rest h.1))

-- For a text that is a scheme, a colon and any rest, the prefix length is that of the scheme and
-- its colon.
scheme_prefix_len-scheme :
    (scheme rest : Text)
    → IsScheme scheme
    → scheme_prefix_len (some (scheme ++ b':' ∷ rest)) ≡ length scheme + 1
unfolding scheme_prefix_len
scheme_prefix_len-scheme [] rest h = absurd h
scheme_prefix_len-scheme (c ∷ t) rest h =
    let alpha = (isalpha_iff-IsAlpha c).1 h.0 in
    rw alpha (omega (arith, scan-scheme 1 t rest (follow-chars t h.1)))

scan-split :
    (n : ℕ) (t : Text)
    → scan n t ≢ 0
    → (u : Text) × (rest : Text) × (t ≡ u ++ b':' ∷ rest)
      × AreSchemeChars u
      × (scan n t ≡ n + length u + 1)
unfolding scan
scan-split n [] h = absurd (h refl)
scan-split n (c ∷ t) h = elim (Bool-cases (c == b':')) [
  | inl colon ↦ ([], t, ground arith, tt, ground arith)
  | inr other ↦ elim (Bool-cases (is_scheme_char c)) [
    | inl valid ↦
        let rec = scan-split (n + 1) t (ground arith) in
        (
          c ∷ rec.0,
          rec.1,
          ap (◌∷◌ c) rec.2,
          (valid, rec.3),
          rw (other, valid) (omega (arith, rec.4)),
        )
    | inr invalid ↦ absurd (h (ground arith))
  ]
]

-- Where the scheme prefix has a non-zero length, the text is a scheme of RFC 3986, a colon and a
-- rest, and dropping the prefix leaves that rest.
scheme_prefix_len-IsScheme :
    (s : Text)
    → scheme_prefix_len (some s) ≢ 0
    → (scheme : Text) × (rest : Text) × (s ≡ scheme ++ b':' ∷ rest)
      × IsScheme scheme
      × (drop (scheme_prefix_len (some s)) s ≡ rest)
unfolding scheme_prefix_len
scheme_prefix_len-IsScheme [] h = absurd (h refl)
scheme_prefix_len-IsScheme (c ∷ t) h = elim (Bool-cases (isalpha c)) [
  | inr not_alpha ↦ absurd (h (ground arith))
  | inl alpha ↦
      let rec = scan-split 1 t (λ e. h (rw alpha e)) in
      let whole : (c ∷ t) ≡ (c ∷ rec.0) ++ b':' ∷ rec.1 = ap (◌∷◌ c) rec.2 in
      (
        c ∷ rec.0,
        rec.1,
        whole,
        ((isalpha_iff-IsAlpha c).0 alpha, chars-follow rec.0 rec.3),
        rw alpha (rw whole (drop_past (c ∷ rec.0) rec.1 b':' (scan 1 t) (omega (arith, rec.4)))),
      )
]

-- For a length that is not zero, the scheme prefix of a text has that length exactly where the
-- text is a scheme of RFC 3986, a colon and a rest, and the scheme with its colon is that long.
pub scheme_prefix_len_iff-IsScheme :
    (s : Text) (n : ℕ)
    → n ≢ 0
    → (scheme_prefix_len (some s) ≡ n) ↔ (
        (scheme : Text) × (rest : Text) × (s ≡ scheme ++ b':' ∷ rest)
        × IsScheme scheme
        × (n ≡ length scheme + 1))
scheme_prefix_len_iff-IsScheme s n positive = (
  λ e.
      let (scheme, rest, splits, is, dropped) =
        scheme_prefix_len-IsScheme s (λ z. positive (sym e ∙ z)) in
      (
        scheme,
        rest,
        splits,
        is,
        sym e
            ∙ ap (λ t. scheme_prefix_len (some t)) splits
            ∙ scheme_prefix_len-scheme scheme rest is,
      ),
  λ (scheme, rest, splits, is, long).
      ap (λ t. scheme_prefix_len (some t)) splits
      ∙ scheme_prefix_len-scheme scheme rest is
      ∙ sym long,
)
