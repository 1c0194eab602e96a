-- ===== src/Store/Catalog/Lookup.antt =====
-- Rows that are written and then looked up by their key, for the statements of
-- pkg/store/mysql/endpoint_repository.go and autoscaler_config_repository.go.
use waverless.Base.{
  ◌≡◌, refl, Bool, true, none, some, List, [], ◌∷◌, ◌++◌, String, str_eq, Bool-cases, inl, inr,
  arith,
}
use waverless.Store.Workers.{find_row}
use waverless.Store.Catalog.{replace}
use text.Mathlib.TextPositions.{eq_refl}

module _ {A : Type 0} (key : A → String) (row : A) (name : String) (named : key row ≡ name) where
  -- A row that took the place of another is found.
  pub find_row-replace :
      (rows : List A) {old : A}
      → find_row (λ r. str_eq (key r) name) rows ≡ some old
      → find_row (λ r. str_eq (key r) name) (replace (λ r. str_eq (key r) name) row rows) ≡ some row
  find_row-replace [] e = cc
  find_row-replace (r ∷ rows) {old} e = elim (Bool-cases (str_eq (key r) name)) [
    | inl same ↦ rw same (rw (named, eq_refl name) refl)
    | inr distinct ↦
        rw distinct (rw distinct (find_row-replace rows {old = old} (simp distinct at e)))
  ]

  -- A row that was inserted under a new key is found.
  pub find_row-append :
      (rows : List A)
      → find_row (λ r. str_eq (key r) name) rows ≡ none
      → find_row (λ r. str_eq (key r) name) (rows ++ (row ∷ [])) ≡ some row
  find_row-append [] e = rw (named, eq_refl name) refl
  find_row-append (r ∷ rows) e = elim (Bool-cases (str_eq (key r) name)) [
    | inl same ↦ absurd (ground (arith, same, e))
    | inr distinct ↦ rw distinct (find_row-append rows (simp distinct at e))
  ]

-- The row that is found passes the test.
pub find_row-passes :
    {A : Type 0} (p : A → Bool) (rows : List A) {row : A}
    → find_row p rows ≡ some row
    → p row ≡ true
find_row-passes p [] e = cc
find_row-passes p (r ∷ rows) {row} e = elim (Bool-cases (p r)) [
  | inl passes ↦ ground (arith, passes, e)
  | inr fails ↦ find_row-passes p rows {row = row} (simp fails at e)
]
