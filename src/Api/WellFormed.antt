-- ===== src/Api/WellFormed.antt =====
-- What holds of a handle between the calls of the API, and how establish and set keep it.
use esio.Prelude.{
  ℤ, pos, negsuc, is_neg, eq_ℤ, ltb_ℤ, ◌≡◌, ◌⊎◌, true, false, not, List, [], ◌∷◌, arith, All,
}
use esio.Io.{Text, LineDecomp, PlaneDecomp, FieldDecomp, Handle, HandlePointer, owned}
use esio.Decomposition.{line_establish, plane_establish, field_establish}
use esio.Layout.Table.{field_layout_count, field_layout_set}
use esio.Field.{store_field_chunks}
use esio.Plane.{store_plane_chunks}
use esio.Line.{store_line_chunk}
use esio.CanonicalPath.Sharing.{IsRank}
use esio.Io.Runs.{Runs}
use esio.Error.Runs.{runs_rules}
use esio.Invariant.Writes.{IgnoresChunks}

abbrev pub AreNatural : List ℤ → Type 0
AreNatural = All (λ n. is_neg n ≡ false)

abbrev line_sizes : LineDecomp → List ℤ
line_sizes l = l.aglobal ∷ l.astart ∷ l.alocal ∷ []

abbrev plane_sizes : PlaneDecomp → List ℤ
plane_sizes p = p.bglobal ∷ p.bstart ∷ p.blocal ∷ p.aglobal ∷ p.astart ∷ p.alocal ∷ []

abbrev field_sizes : FieldDecomp → List ℤ
field_sizes f =
    f.cglobal ∷ f.cstart ∷ f.clocal ∷ f.bglobal ∷ f.bstart ∷ f.blocal ∷ f.aglobal ∷ f.astart
    ∷ f.alocal ∷ []

-- No file is open, or one is and the handle owns its path.
abbrev pub IsFileOwned : Handle → Type 0
IsFileOwned h =
    (eq_ℤ h.file_id (negsuc 0) ≡ true)
    ⊎ ((is_neg h.file_id ≡ false) × (path : Text) × (h.file_path ≡ owned path))

-- The handle between calls: its rank is one of the communicator, its layout is in the table, its
-- sizes are natural numbers, and an open file has its path.
pub record IsWellFormed (h : Handle) : Type 0 where
  pub rank : IsRank h
  pub layout : (is_neg h.layout_index ≡ false) × (ltb_ℤ h.layout_index field_layout_count ≡ true)
  pub line : AreNatural (line_sizes h.l)
  pub plane : AreNatural (plane_sizes h.p)
  pub field : AreNatural (field_sizes h.f)
  pub file : IsFileOwned h

pub IsWellFormed-IgnoresChunks : IgnoresChunks IsWellFormed
unfolding store_field_chunks store_plane_chunks store_line_chunk
IsWellFormed-IgnoresChunks = record {
  field = λ chunks h w. record {
    rank = w.rank;
    layout = w.layout;
    line = w.line;
    plane = w.plane;
    field = w.field;
    file = w.file;
  };
  plane = λ chunks h w. record {
    rank = w.rank;
    layout = w.layout;
    line = w.line;
    plane = w.plane;
    field = w.field;
    file = w.file;
  };
  line = λ chunks h w. record {
    rank = w.rank;
    layout = w.layout;
    line = w.line;
    plane = w.plane;
    field = w.field;
    file = w.file;
  };
}

-- A value that is at least one is a natural number.
positive : (n : ℤ) → ltb_ℤ n (pos 1) ≡ false → is_neg n ≡ false
positive n e = ground arith

module _ (h : Handle) (w : IsWellFormed h) where
  with_line :
      (g s l : ℤ)
      → ltb_ℤ g (pos 1) ≡ false
      → is_neg s ≡ false
      → is_neg l ≡ false
      → IsWellFormed (record h { l = record h.l { aglobal = g; astart = s; alocal = l } })
  with_line g s l e e' e'' = record {
    rank = w.rank;
    layout = w.layout;
    line = (positive g e, (e', (e'', tt)));
    plane = w.plane;
    field = w.field;
    file = w.file;
  }

  pub line_establish-Runs :
      (p : HandlePointer) (g s l : ℤ)
      → Runs h (line_establish p g s l) (λ _. IsWellFormed) (λ _. IsWellFormed)
  unfolding line_establish
  line_establish-Runs p g s l = search (runs_rules, with_line, w) depth 30

  with_plane :
      (bg bs bl ag as₀ al : ℤ)
      → ltb_ℤ bg (pos 1) ≡ false
      → is_neg bs ≡ false
      → is_neg bl ≡ false
      → ltb_ℤ ag (pos 1) ≡ false
      → is_neg as₀ ≡ false
      → is_neg al ≡ false
      → IsWellFormed (record h {
        p = record h.p {
          bglobal = bg;
          bstart = bs;
          blocal = bl;
          aglobal = ag;
          astart = as₀;
          alocal = al;
        };
      })
  with_plane bg bs bl ag as₀ al b b' b'' a a' a'' = record {
    rank = w.rank;
    layout = w.layout;
    line = w.line;
    plane = (positive bg b, (b', (b'', (positive ag a, (a', (a'', tt))))));
    field = w.field;
    file = w.file;
  }

  pub plane_establish-Runs :
      (p : HandlePointer) (bg bs bl ag as₀ al : ℤ)
      → Runs h (plane_establish p bg bs bl ag as₀ al) (λ _. IsWellFormed) (λ _. IsWellFormed)
  unfolding plane_establish
  plane_establish-Runs p bg bs bl ag as₀ al = search (runs_rules, with_plane, w) depth 30

  with_field :
      (cg cs cl bg bs bl ag as₀ al : ℤ)
      → ltb_ℤ cg (pos 1) ≡ false
      → is_neg cs ≡ false
      → is_neg cl ≡ false
      → ltb_ℤ bg (pos 1) ≡ false
      → is_neg bs ≡ false
      → is_neg bl ≡ false
      → ltb_ℤ ag (pos 1) ≡ false
      → is_neg as₀ ≡ false
      → is_neg al ≡ false
      → IsWellFormed (record h {
        f = record h.f {
          cglobal = cg;
          cstart = cs;
          clocal = cl;
          bglobal = bg;
          bstart = bs;
          blocal = bl;
          aglobal = ag;
          astart = as₀;
          alocal = al;
        };
      })
  with_field cg cs cl bg bs bl ag as₀ al c c' c'' b b' b'' a a' a'' = record {
    rank = w.rank;
    layout = w.layout;
    line = w.line;
    plane = w.plane;
    field = (
      positive cg c,
      (c', (c'', (positive bg b, (b', (b'', (positive ag a, (a', (a'', tt)))))))),
    );
    file = w.file;
  }

  pub field_establish-Runs :
      (p : HandlePointer) (cg cs cl bg bs bl ag as₀ al : ℤ)
      → Runs h
          (field_establish p cg cs cl bg bs bl ag as₀ al)
          (λ _. IsWellFormed)
          (λ _. IsWellFormed)
  unfolding field_establish
  field_establish-Runs p cg cs cl bg bs bl ag as₀ al = search (runs_rules, with_field, w) depth 30

  with_layout :
      (i : ℤ)
      → is_neg i ≡ false
      → not (ltb_ℤ i field_layout_count) ≡ false
      → IsWellFormed (record h {
        layout_index = i;
        f = record h.f { cchunk = pos 0; bchunk = pos 0; achunk = pos 0 };
        p = record h.p { bchunk = pos 0; achunk = pos 0 };
        l = record h.l { achunk = pos 0 };
      })
  with_layout i e e' = record {
    rank = w.rank;
    layout = (e, ground arith);
    line = w.line;
    plane = w.plane;
    field = w.field;
    file = w.file;
  }

  pub field_layout_set-Runs :
      (p : HandlePointer) (i : ℤ)
      → Runs h (field_layout_set p i) (λ _. IsWellFormed) (λ _. IsWellFormed)
  unfolding field_layout_set
  field_layout_set-Runs p i = search (runs_rules, with_layout, w) depth 30
