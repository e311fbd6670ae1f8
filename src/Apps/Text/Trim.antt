-- ===== src/Apps/Text/Trim.antt =====
-- `trim` of apps/esio_bench.c.
use mathlib.Core.List.{reverse, reverse-append, reverse-reverse}
use esio.Prelude.{
  ◌≡◌, refl, ap, ◌∙◌, true, false, Option, none, some, [], ◌∷◌, ◌++◌, if◌then◌else◌, All,
}
use esio.Io.{Text}
use esio.Apps.Text.{isspace, skip_space}

-- `while (isspace(*--a)) *a = '\0';`, on the text in reverse. `none` is a read in front of the
-- text.
strip_back : Text → Option Text
strip_back [] = none
strip_back (c ∷ back) = if isspace c then strip_back back else some (reverse (c ∷ back))

unfoldable pub trim : Text → Option Text
unfolding strip_back skip_space
trim a = strip_back (reverse (skip_space a))

abbrev pub AreSpaces : Text → Type 0
AreSpaces = All (λ c. isspace c ≡ true)

-- The text has a first character, which is no white space.
abbrev pub BeginsPlain : Text → Type 0
BeginsPlain [] = ⊥
BeginsPlain (c ∷ s) = isspace c ≡ false

skip_space-spaces : (front t : Text) → AreSpaces front → skip_space (front ++ t) ≡ skip_space t
unfolding skip_space
skip_space-spaces [] t h = refl
skip_space-spaces (c ∷ front) t (hc, h) = rw hc (skip_space-spaces front t h)

skip_space-plain : (core t : Text) → BeginsPlain core → skip_space (core ++ t) ≡ core ++ t
unfolding skip_space
skip_space-plain [] t h = absurd h
skip_space-plain (c ∷ core) t h = rw h refl

strip_back-spaces : (back t : Text) → AreSpaces back → strip_back (back ++ t) ≡ strip_back t
unfolding strip_back
strip_back-spaces [] t h = refl
strip_back-spaces (c ∷ back) t (hc, h) = rw hc (strip_back-spaces back t h)

strip_back-plain : (t : Text) → BeginsPlain t → strip_back t ≡ some (reverse t)
unfolding strip_back
strip_back-plain [] h = absurd h
strip_back-plain (c ∷ t) h = rw h refl

AreSpaces-append : (s t : Text) → AreSpaces s → AreSpaces t → AreSpaces (s ++ t)
AreSpaces-append [] t hs ht = ht
AreSpaces-append (c ∷ s) t (hc, hs) ht = (hc, AreSpaces-append s t hs ht)

AreSpaces-reverse : (s : Text) → AreSpaces s → AreSpaces (reverse s)
AreSpaces-reverse [] h = tt
AreSpaces-reverse (c ∷ s) (hc, h) =
    rw (reverse-append (c ∷ []) s)
      (AreSpaces-append (reverse s) (c ∷ []) (AreSpaces-reverse s h) (hc, tt))

strip_back-core :
    (core back : Text)
    → AreSpaces back
    → BeginsPlain (reverse core)
    → strip_back (reverse (core ++ back)) ≡ some core
strip_back-core core back h e =
    ap strip_back (reverse-append core back)
    ∙ strip_back-spaces (reverse back) (reverse core) (AreSpaces-reverse back h)
    ∙ strip_back-plain (reverse core) e
    ∙ ap some (reverse-reverse core)

skip_space-blank : (front : Text) → AreSpaces front → skip_space front ≡ []
unfolding skip_space
skip_space-blank [] h = refl
skip_space-blank (c ∷ front) (hc, h) = rw hc (skip_space-blank front h)

trim_blank : (front : Text) → AreSpaces front → trim front ≡ none
unfolding trim strip_back
trim_blank front h = ap (λ t. strip_back (reverse t)) (skip_space-blank front h)

-- White space around a text that begins and ends with other characters is taken off, and of white
-- space alone the end of the text is looked for in front of its first byte, which is undefined.
pub trim-core :
    (front core back : Text)
    → AreSpaces front
    → AreSpaces back
    → BeginsPlain core
    → BeginsPlain (reverse core)
    → (trim (front ++ (core ++ back)) ≡ some core) × (trim front ≡ none)
unfolding trim
trim-core front core back hf hb begins ends = (
  ap (λ t. strip_back (reverse t))
        (skip_space-spaces front (core ++ back) hf ∙ skip_space-plain core back begins)
      ∙ strip_back-core core back hb ends,
  trim_blank front hf,
)
