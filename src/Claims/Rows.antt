-- ===== src/Claims/Rows.antt =====
-- The claim table under its two statements.
use task_control.Claims.Store.{Row, Table, read_row, update_where}
use task_control.Prelude.{
  ℕ, String, ◌≡◌, refl, Bool, Option, none, some, [], ◌∷◌, arith, if◌then◌else◌, str_eq, eq_iff,
}

-- what the update leaves of a row that it found
abbrev pub updated : (Row → Bool) → (Row → Row) → Option Row → Option Row
updated test change none = none
updated test change (some row) = some (if test row then change row else row)

abbrev pub updated_count : (Row → Bool) → Option Row → ℕ
updated_count test none = 0
updated_count test (some row) = if test row then 1 else 0

module _ (k : String) (test : Row → Bool) (change : Row → Row) where
  pub read_row-update_where :
      (j : String) (t : Table)
      → read_row j (update_where k test change t).0
        ≡ (if str_eq k j then updated test change (read_row j t) else read_row j t)
  unfolding read_row update_where
  read_row-update_where j [] = ground arith
  read_row-update_where j ((i, row) ∷ t) =
      ground (arith, eq_iff k j, eq_iff i k, eq_iff i j, read_row-update_where j t)

  pub update_where_count :
      (t : Table) → (update_where k test change t).1 ≡ updated_count test (read_row k t)
  unfolding read_row update_where
  update_where_count [] = refl
  update_where_count ((i, row) ∷ t) = ground (arith, update_where_count t)

  -- An update that matches no row changes nothing.
  pub update_where_unchanged :
      (t : Table) → (update_where k test change t).1 ≡ 0 → (update_where k test change t).0 ≡ t
  unfolding update_where
  update_where_unchanged [] h = refl
  update_where_unchanged ((i, row) ∷ t) h = ground (arith, update_where_unchanged t)
