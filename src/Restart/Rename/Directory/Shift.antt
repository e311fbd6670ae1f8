-- ===== src/Restart/Rename/Directory/Shift.antt =====
-- The rotation of restart files on the directory: each file moves up by one index, and none is lost
-- on the way.
use esio.Prelude.{
  pos, negsuc, pos_part, ltb_ℤ, ℕ, suc, ◌+◌, ◌<◌, ◌≤◌, ◌≡◌, ◌≢◌, refl, sym, ap, ◌∙◌, ◌⊎◌, inl, inr,
  Bool, true, false, ◌&&◌, Option, List, [], ◌∷◌, ◌++◌, map, ltb, All, arith, if◌then◌else◌,
  Bool-cases, drop_past, length, drop, ltb→lt, lt→ltb,
}
use esio.Io.{Text, Machine, next}
use esio.Restart.Rename.{Pattern, destination, shift_entries}
use esio.Restart.Rename.Rotation.{renamings, moves, shift_entries-moves}
use esio.Restart.Rename.Directory.{eq_text, eq_text_refl, eq_text-eq, renamed, files_after}
use esio.Restart.Format.{join, indexed_name}
use esio.Restart.Format.Digits.{restart_nextindex-formatted}
use esio.Restart.NextIndex.{restart_nextindex, int_max}
use esio.Restart.NextIndex.RoundTrip.{HasNoHash, BeginsNoDigit, hashes}

-- The parts of a template with one run of hashes, as restart_rename splits it.
pub record IsPattern (p : Pattern) : Type 0 where
  pub more_hashes : ℕ
  pub template : p.tmpl_basename ≡ p.prefix ++ (hashes (suc more_hashes) ++ p.suffix)
  pub no_hash : HasNoHash p.suffix
  pub no_digit : BeginsNoDigit p.suffix

abbrev pub name_of : Pattern → ℕ → Text
name_of p k = indexed_name p.prefix p.ndigits k p.suffix

-- The indices fall, and have a successor that is an int.
abbrev pub Falls : List ℕ → Type 0
Falls [] = Unit
Falls (k ∷ ks) = (k < int_max) × All (λ j. j < k) ks × Falls ks

-- `k` is one of the indices.
abbrev pub In : ℕ → List ℕ → Type 0
In k [] = ⊥
In k (j ∷ ks) = (k ≡ j) ⊎ In k ks

below_suc : (k : ℕ) (ks : List ℕ) → All (λ j. j < k) ks → All (λ j. suc j < k + 1) ks
below_suc k [] h = tt
below_suc k (j ∷ ks) (hj, h) = (omega arith, below_suc k ks h)

In-below : (j k : ℕ) (ks : List ℕ) → All (λ i. i < k) ks → In j ks → j < k
In-below j k [] h m = elim m [ ]
In-below j k (i ∷ ks) (hi, h) (inl e) = omega arith
In-below j k (i ∷ ks) (hi, h) (inr more) = In-below j k ks h more

-- The test on the next index.
in_range : (k r : ℕ) → (ltb_ℤ (pos 0) (pos (k + 1)) && ltb_ℤ (pos (k + 1)) (pos r)) ≡ ltb (k + 1) r
in_range k r = ground arith

module _ (p : Pattern) (ok : IsPattern p) where
  next_of :
      (k : ℕ)
      → k < int_max
      → restart_nextindex p.tmpl_basename (name_of p k) (negsuc 0) ≡ pos (k + 1)
  next_of k h =
      ap (λ t. restart_nextindex t (name_of p k) (negsuc 0)) ok.template
      ∙ restart_nextindex-formatted p.prefix p.suffix ok.more_hashes p.ndigits k (negsuc 0)
          ok.no_hash ok.no_digit h

  drop_join : (s t : Text) → join p.tmpl_dirname s ≡ join p.tmpl_dirname t → s ≡ t
  unfolding join
  drop_join s t h =
      sym (drop_past p.tmpl_dirname s b'/' (length p.tmpl_dirname + 1) refl)
      ∙ ap (drop (length p.tmpl_dirname + 1)) h
      ∙ drop_past p.tmpl_dirname t b'/' (length p.tmpl_dirname + 1) refl

  same_next : (j k : ℕ) → pos (j + 1) ≡ pos (k + 1) → j ≡ k
  same_next j k h = ground arith

  -- Two indices have two paths.
  destination-injective :
      (j k : ℕ) → j < int_max → k < int_max → destination p j ≡ destination p k → j ≡ k
  unfolding destination
  destination-injective j k hj hk same =
      let names = drop_join (name_of p j) (name_of p k) same in
      let nexts =
        sym (next_of j hj)
        ∙ ap (λ t. restart_nextindex p.tmpl_basename t (negsuc 0)) names
        ∙ next_of k hk in
      same_next j k nexts

  apart :
      (j k : ℕ)
      → j < int_max
      → k < int_max
      → j ≢ k
      → eq_text (destination p j) (destination p k) ≡ false
  apart j k hj hk ne = elim (Bool-cases (eq_text (destination p j) (destination p k))) [
    | inl same ↦ absurd (ne (destination-injective j k hj hk (eq_text-eq _ _ same)))
    | inr other ↦ other
  ]

  module _ {C : Type 0} (retain_count : ℕ) (fits : retain_count ≤ int_max) where
    -- The renamings for the files with these indices, one after the other.
    shift : List ℕ → (Text → Option C) → Text → Option C
    shift [] files = files
    shift (k ∷ ks) files = shift ks (
        if ltb (k + 1) retain_count
        then renamed (destination p k) (destination p (k + 1)) files
        else files)

    -- A renaming leaves the other paths alone.
    step-other :
        (j k : ℕ) (files : Text → Option C)
        → j < int_max
        → k < int_max
        → j ≢ k
        → j ≢ k + 1
        → (if ltb (k + 1) retain_count
              then renamed (destination p k) (destination p (k + 1)) files
              else files)
            (destination p j)
          ≡ files (destination p j)
    step-other j k files hj hk ne ne' = elim (Bool-cases (ltb (k + 1) retain_count)) [
      | inl moved ↦
          rw
            (
              moved,
              apart j (k + 1) hj (omega (arith, ltb→lt (k + 1) retain_count moved)) ne',
              apart j k hj hk ne,
            )
            refl
      | inr stays ↦ rw stays refl
    ]

    shift-other :
        (j : ℕ) (ks : List ℕ) (files : Text → Option C)
        → j < int_max
        → Falls ks
        → All (λ k. suc k < j) ks
        → shift ks files (destination p j) ≡ files (destination p j)
    unfolding shift
    shift-other j [] files hj hf h = refl
    shift-other j (k ∷ ks) files hj (hk, _, hf) (hkj, h) =
        shift-other j ks _ hj hf h
        ∙ step-other j k files hj hk (λ e. ground arith) (λ e. ground arith)

    -- Each file that is to be retained has moved up.
    shift-In :
        (k : ℕ) (ks : List ℕ) (files : Text → Option C)
        → Falls ks
        → In k ks
        → k + 1 < retain_count
        → shift ks files (destination p (k + 1)) ≡ files (destination p k)
    unfolding shift
    shift-In k [] files h m lt = elim m [ ]
    shift-In k (j ∷ ks) files (hj, below, hf) (inl e) lt =
        ap (λ k. shift (j ∷ ks) files (destination p (k + 1))) e
        ∙ shift-other (j + 1) ks _ (omega arith) hf (below_suc j ks below)
        ∙ rw (lt→ltb (j + 1) retain_count (omega arith), eq_text_refl (destination p (j + 1))) refl
        ∙ ap (λ k. files (destination p k)) (sym e)
    shift-In k (j ∷ ks) files (hj, below, hf) (inr more) lt =
        let k_below_j = In-below k j ks below more in
        shift-In k ks _ hf more lt
        ∙ step-other k j files (omega arith) hj (λ e. ground arith) (λ e. ground arith)

    moves-shift :
        (ks : List ℕ) (before : List (Text × Text)) (files : Text → Option C)
        → Falls ks
        → files_after (moves p retain_count (map (name_of p) ks) before) files
          ≡ shift ks (files_after before files)
    unfolding shift destination
    moves-shift [] before files h = refl
    moves-shift (k ∷ ks) before files (hk, _, hf) =
        ap
          (λ z.
            files_after
              (moves p retain_count (map (name_of p) ks) (
                if ltb_ℤ (pos 0) z && ltb_ℤ z (pos retain_count)
                then (destination p k, destination p (pos_part z)) ∷ before
                else before))
              files)
          (next_of k hk)
        ∙ moves-shift ks _ files hf
        ∙ ap
            (λ b. shift ks (
              files_after (if b then (destination p k, destination p (k + 1)) ∷ before else before)
                files))
            (in_range k retain_count)
        ∙ ap (shift ks) (renamed_if (ltb (k + 1) retain_count))
      where
        renamed_if :
            (b : Bool)
            → files_after
                (if b then (destination p k, destination p (k + 1)) ∷ before else before)
                files
              ≡ (if b
                  then renamed (destination p k) (destination p (k + 1)) (files_after before files)
                  else files_after before files)
        renamed_if true = refl
        renamed_if false = refl

-- Where the entries of the directory are the names of falling indices, and the loop over them goes
-- on to its end, each file whose next index is below retain_count is found at that index, with its
-- contents, whatever else the directory holds.
pub shift_entries-files :
    {C : Type 0} (p : Pattern) (retain_count : ℕ) (ks : List ℕ) (k : ℕ) (sizes out : ℕ × ℕ)
    (s : Machine) (files : Text → Option C)
    → IsPattern p
    → retain_count ≤ int_max
    → Falls ks
    → In k ks
    → k + 1 < retain_count
    → (shift_entries p retain_count (map (name_of p) ks) sizes s).0 ≡ next out
    → files_after
        (renamings (shift_entries p retain_count (map (name_of p) ks) sizes s).1.calls)
        files
        (destination p (k + 1))
      ≡ files_after (renamings s.calls) files (destination p k)
shift_entries-files p retain_count ks k sizes out s files ok fits falls found lt e =
    ap (λ l. files_after l files (destination p (k + 1)))
      (shift_entries-moves p retain_count (map (name_of p) ks) sizes out s e)
    ∙ ap (λ f. f (destination p (k + 1)))
        (moves-shift p ok retain_count fits ks (renamings s.calls) files falls)
    ∙ shift-In p ok retain_count fits k ks (files_after (renamings s.calls) files) falls found lt
