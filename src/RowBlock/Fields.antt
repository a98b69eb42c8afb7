-- ===== src/RowBlock/Fields.antt =====
-- One row: what its fields are, and what the two functions that write a row leave.
use mathlib.Core.List.{append_assoc, append-nil}
use mysql_seed.Prelude.{
  ℕ, ◌≡◌, ◌≢◌, refl, sym, ap, ◌∙◌, Bool, true, false, some, List, [], ◌∷◌, ◌++◌, ne→==,
  if◌then◌else◌,
}
use mysql_seed.RowBlock.{
  Rowspan, field_delim, newline, put_rowspan_cell, put_string, put_delim, put_fields,
  put_row_block_row, copy_fields, copy_row_block_row,
}

-- a text with no NUL
abbrev pub IsText : List ℕ → Type 0
IsText [] = Unit
IsText (c ∷ cs) = (c ≢ 0) × IsText cs

-- a text for each of the rowspans
abbrev pub IsRow : List (List ℕ) → List Rowspan → Type 0
IsRow [] [] = Unit
IsRow [] (_ ∷ _) = ⊥
IsRow (_ ∷ _) [] = ⊥
IsRow (t ∷ ts) (_ ∷ spans) = IsText t × IsRow ts spans

-- the texts of a row in front of what each rowspan has
abbrev pub prepend : List (List ℕ) → List Rowspan → List Rowspan
prepend [] spans = spans
prepend (_ ∷ _) [] = []
prepend (t ∷ ts) (s ∷ spans) = record s { cell = t ++ 0 ∷ s.cell } ∷ prepend ts spans

-- the fields behind the first one, each behind a delimiter unless its column is joined to the one before
abbrev pub fields_text : List (List ℕ) → List Rowspan → List ℕ
fields_text [] _ = []
fields_text (_ ∷ _) [] = []
fields_text (t ∷ ts) (s ∷ spans) = (if s.join then t else field_delim ∷ t) ++ fields_text ts spans

abbrev pub row_text : List (List ℕ) → List Rowspan → List ℕ
row_text [] _ = []
row_text (_ ∷ _) [] = []
row_text (t ∷ ts) (_ ∷ spans) = newline ∷ t ++ fields_text ts spans

put_rowspan_cell-text :
    (out t rest : List ℕ) → IsText t → put_rowspan_cell out (t ++ 0 ∷ rest) ≡ some (out ++ t, rest)
unfolding put_rowspan_cell
put_rowspan_cell-text out [] rest h = ap (λ o. some (o, rest)) (sym (append-nil out))
put_rowspan_cell-text out (c ∷ t) rest h = rw (ne→== c 0 h.0) (
    put_rowspan_cell-text (out ++ c ∷ []) t rest h.1
    ∙ ap (λ o. some (o, rest)) (append_assoc out (c ∷ []) t))

put_string-text :
    (out t rest : List ℕ) → IsText t → put_string out (t ++ 0 ∷ rest) ≡ some (out ++ t)
unfolding put_string
put_string-text out [] rest h = ap some (sym (append-nil out))
put_string-text out (c ∷ t) rest h =
    rw (ne→== c 0 h.0)
      (put_string-text (out ++ c ∷ []) t rest h.1 ∙ ap some (append_assoc out (c ∷ []) t))

put_delim-append :
    (join : Bool) (out t : List ℕ)
    → put_delim join out ++ t ≡ out ++ (if join then t else field_delim ∷ t)
unfolding put_delim
put_delim-append true out t = refl
put_delim-append false out t = append_assoc out (field_delim ∷ []) t

put_fields-prepend :
    (ts : List (List ℕ)) (out : List ℕ) (spans : List Rowspan)
    → IsRow ts spans
    → put_fields out (prepend ts spans) ≡ some (out ++ fields_text ts spans, spans)
unfolding put_fields
put_fields-prepend [] out [] h = ap (λ o. some (o, [])) (sym (append-nil out))
put_fields-prepend [] out (s ∷ spans) h = absurd h
put_fields-prepend (t ∷ ts) out [] h = absurd h
put_fields-prepend (t ∷ ts) out (s ∷ spans) h =
    rw
      (
        put_rowspan_cell-text (put_delim s.join out) t s.cell h.0,
        put_fields-prepend ts (put_delim s.join out ++ t) spans h.1,
      )
      (ap (λ o. some (o, s ∷ spans))
        (ap (λ o. o ++ fields_text ts spans) (put_delim-append s.join out t)
          ∙ append_assoc out (if s.join then t else field_delim ∷ t) (fields_text ts spans)))

pub put_row_block_row-prepend :
    (t : List ℕ) (ts : List (List ℕ)) (out : List ℕ) (spans : List Rowspan)
    → IsRow (t ∷ ts) spans
    → put_row_block_row out (prepend (t ∷ ts) spans) ≡ some (out ++ row_text (t ∷ ts) spans, spans)
unfolding put_row_block_row
put_row_block_row-prepend t ts out [] h = absurd h
put_row_block_row-prepend t ts out (s ∷ spans) h =
    rw
      (
        put_rowspan_cell-text (out ++ newline ∷ []) t s.cell h.0,
        put_fields-prepend ts ((out ++ newline ∷ []) ++ t) spans h.1,
      )
      (ap (λ o. some (o, s ∷ spans))
        (append_assoc (out ++ newline ∷ []) t (fields_text ts spans)
          ∙ append_assoc out (newline ∷ []) (t ++ fields_text ts spans)))

copy_fields-prepend :
    (t : List ℕ) (ts : List (List ℕ)) (out : List ℕ) (s : Rowspan) (spans : List Rowspan)
    → IsText t
    → IsRow ts spans
    → copy_fields out (record s { cell = t ++ 0 ∷ s.cell }) (prepend ts spans)
      ≡ some (out ++ t ++ fields_text ts spans)
unfolding copy_fields
copy_fields-prepend t [] out s [] h k =
    put_string-text out t s.cell h ∙ ap some (sym (append-nil (out ++ t)))
copy_fields-prepend t [] out s (r ∷ spans) h k = absurd k
copy_fields-prepend t (u ∷ ts) out s [] h k = absurd k
copy_fields-prepend t (u ∷ ts) out s (r ∷ spans) h k = rw (put_string-text out t s.cell h) (
    copy_fields-prepend u ts (put_delim r.join (out ++ t)) r spans k.0 k.1
    ∙ ap some (
        ap (λ o. o ++ fields_text ts spans) (put_delim-append r.join (out ++ t) u)
        ∙ append_assoc (out ++ t) (if r.join then u else field_delim ∷ u) (fields_text ts spans)))

pub copy_row_block_row-prepend :
    (t : List ℕ) (ts : List (List ℕ)) (out : List ℕ) (spans : List Rowspan)
    → IsRow (t ∷ ts) spans
    → copy_row_block_row out (prepend (t ∷ ts) spans) ≡ some (out ++ row_text (t ∷ ts) spans)
unfolding copy_row_block_row
copy_row_block_row-prepend t ts out [] h = absurd h
copy_row_block_row-prepend t ts out (s ∷ spans) h =
    copy_fields-prepend t ts (out ++ newline ∷ []) s spans h.0 h.1
    ∙ ap some (
        append_assoc (out ++ newline ∷ []) t (fields_text ts spans)
        ∙ append_assoc out (newline ∷ []) (t ++ fields_text ts spans))
