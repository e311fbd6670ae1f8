-- ===== src/Restart/Format/Buffer.antt =====
-- The buffer of snprintf_realloc is large enough, and two rounds are.
use esio.Prelude.{
  eq_ℤ, is_neg, List, ◌+◌, ◌*◌, ◌⊎◌, ltb, ltb→lt, Bool-cases, inl, inr, refl, true, false,
  if◌then◌else◌, ℤ, pos, negsuc, ℕ, ◌<◌, ◌≡◌, arith, length, ◌∷◌,
}
use esio.Io.{
  Env, Event, realloc, vsnprintf, Text, Machine, Outcome, next, exit, aborted, fault, exhausted,
}
use esio.Restart.Format.{snprintf_realloc}
use esio.Restart.Format.{realloc_loop}

-- The text fits the buffer with its NUL, or memory ran out and nothing is left allocated, or
-- vsnprintf failed on the buffer, which is left as it is.
abbrev pub Fits : Env → Text → Outcome (ℤ × ℕ) (ℤ × ℕ) → Type 0
Fits env text (next (r, size)) = (r ≡ pos (length text)) × (length text < size)
Fits env text (exit (r, size)) =
    ((r ≡ negsuc 0) × (size ≡ 0))
    ⊎ ((is_neg r ≡ true) × ((calls : List Event) × (env.status calls (vsnprintf text size) ≡ r)))
Fits env text aborted = ⊥
Fits env text fault = ⊥
Fits env text exhausted = ⊥

larger_fits :
    (doubled needed : ℕ) → ltb (if ltb doubled needed then needed else doubled) needed ≡ false
larger_fits doubled needed = elim (Bool-cases (ltb doubled needed)) [
  | inl e ↦ rw e (elim (Bool-cases (ltb needed needed)) [
    | inl l ↦ absurd (omega (arith, ltb→lt needed needed l))
    | inr l ↦ l
  ])
  | inr e ↦ rw e e
]

-- What a call leaves that has written the text.
abbrev pub Leaves : Machine → Text → Outcome (ℤ × ℕ) (ℤ × ℕ) × Machine → Type 0
Leaves s text r =
    (size : ℕ) × (left : List Event) × (r
      ≡ (next (pos (length text), size), record s { calls = left }))

-- Where memory is available and vsnprintf does not fail, the text is written.
pub snprintf_realloc-Leaves :
    (size : ℕ) (text : Text) (s : Machine)
    → ((calls : List Event) (n : ℕ) → eq_ℤ (s.env.status calls (realloc n)) (pos 0) ≡ false)
    → ((calls : List Event) (n : ℕ) → is_neg (s.env.status calls (vsnprintf text n)) ≡ false)
    → Leaves s text (snprintf_realloc size text s)
unfolding snprintf_realloc realloc_loop
snprintf_realloc-Leaves size text s grows prints =
    let needed = length text + 1 in
    let larger = if ltb (size * 2) needed then needed else size * 2 in
    let printed : Event = record {
      call = vsnprintf text size;
      result = s.env.status s.calls (vsnprintf text size);
    } in
    let asked : Event = record {
      call = realloc larger;
      result = s.env.status (printed ∷ s.calls) (realloc larger);
    } in
    let again : Event = record {
      call = vsnprintf text larger;
      result = s.env.status (asked ∷ printed ∷ s.calls) (vsnprintf text larger);
    } in
    elim (Bool-cases (ltb size needed)) [
      | inl e ↦ (
        larger,
        again ∷ asked ∷ printed ∷ s.calls,
        rw
            (
              prints s.calls size,
              e,
              grows (printed ∷ s.calls) larger,
              prints (asked ∷ printed ∷ s.calls) larger,
              larger_fits (size * 2) needed,
            )
            refl,
      )
      | inr e ↦ (size, printed ∷ s.calls, rw (prints s.calls size, e) refl)
    ]
