-- ===== src/Adapter/Cap.antt =====
-- The row cap of `materialize` (adapters/base.py of src/dogdb): the loop that reads in chunks
-- against the read of everything.
use dogdb.Prelude.{
  ℕ, zero, suc, ◌+◌, ◌-◌, ◌≤◌, ◌<◌, min, ◌≡◌, refl, sym, ap, ◌∙◌, Bool, true, false, none, some,
  List, [], ◌∷◌, ◌++◌, leb, ltb, if◌then◌else◌, take, drop, length, arith, length-append,
  length-take, length-drop, take-append-drop, Bool-cases, Option-cases, ltb→lt, ◌&&◌, inl, inr,
}
use mathlib.Core.List.{append_assoc}
use dogdb.Models.{Row, row_cap_exceeded}
use dogdb.Exec.{Result, ok, err}
use dogdb.Adapter.{Cursor, after_batch, read_capped, read_rows, materialize, deliver, chunk_size}

-- What a read within a cap gives.
abbrev within_cap : ℕ → List Row → Result (List Row)
within_cap cap rows = if ltb cap (length rows) then err row_cap_exceeded else ok rows

-- A cursor without a description has no rows to read.
abbrev pub has_rows : Cursor → Bool
has_rows cursor = elim cursor.description [ none ↦ false | some columns ↦ true ]

within_cap-over :
    (cap : ℕ) (rows : List Row) → cap < length rows → within_cap cap rows ≡ err row_cap_exceeded
within_cap-over cap rows h = ground arith

-- A read within the cap asks for at least one row.
amount_suc : (a : ℕ) → 0 < a → (k : ℕ) × (a ≡ suc k)
amount_suc zero h = absurd (omega arith)
amount_suc (suc k) h = (k, refl)

take-nil : (n : ℕ) → take {A = Row} n [] ≡ []
take-nil zero = refl
take-nil (suc n) = refl

-- The batch and what is left of it.
length-batch :
    (rows : List Row) (x : Row) (k : ℕ) (rest : List Row)
    → length (rows ++ x ∷ take k rest) + length (drop k rest) ≡ length (rows ++ x ∷ rest)
length-batch rows x k rest = omega (
  arith,
  length-append {0} rows (x ∷ take k rest),
  length-append {0} rows (x ∷ rest),
  length-take {0} k rest,
  length-drop {0} k rest,
)

append-batch :
    (rows : List Row) (x : Row) (k : ℕ) (rest : List Row)
    → (rows ++ x ∷ take k rest) ++ drop k rest ≡ rows ++ x ∷ rest
append-batch rows x k rest =
    append_assoc rows (x ∷ take k rest) (drop k rest)
    ∙ ap (λ l. rows ++ x ∷ l) (take-append-drop {0} k rest)

leb-true : (a b : ℕ) → a ≤ b → leb a b ≡ true
leb-true a b h = ground arith

-- A round, for the number of rows that it asks for.
read_capped-round :
    (fuel chunk cap : ℕ) (rows rest : List Row) (a : ℕ)
    → min chunk (cap + 1 - length rows) ≡ a
    → length rows ≤ cap
    → read_capped (suc fuel) chunk cap rows rest
      ≡ after_batch cap
          (rows ++ take a rest)
          (take a rest)
          (read_capped fuel chunk cap (rows ++ take a rest) (drop a rest))
unfolding read_capped
read_capped-round fuel chunk cap rows rest a e within = rw (leb-true (length rows) cap within) (
    ap
      (λ n.
        after_batch cap (rows ++ take n rest) (take n rest)
          (read_capped fuel chunk cap (rows ++ take n rest) (drop n rest)))
      e)

-- The loop, with fuel for the rows that are left.
read_capped_lem :
    (fuel chunk cap : ℕ) (rows rest : List Row)
    → 0 < chunk
    → length rows ≤ cap
    → length rest < fuel
    → read_capped fuel chunk cap rows rest ≡ within_cap cap (rows ++ rest)
unfolding after_batch
read_capped_lem zero chunk cap rows rest positive within enough = absurd (omega arith)
read_capped_lem (suc fuel) chunk cap rows [] positive within enough =
    let (k, e) = amount_suc (min chunk (cap + 1 - length rows)) (omega arith) in
    read_capped-round fuel chunk cap rows [] (suc k) e within
read_capped_lem (suc fuel) chunk cap rows (x ∷ rest) positive within enough =
    let (k, e) = amount_suc (min chunk (cap + 1 - length rows)) (omega arith) in
    let batch = rows ++ x ∷ take k rest in
    read_capped-round fuel chunk cap rows (x ∷ rest) (suc k) e within
    ∙ (elim (Bool-cases (ltb cap (length batch))) [
      | inl over ↦ rw over (
          sym (
            within_cap-over cap (rows ++ x ∷ rest)
              (omega (arith, length-batch rows x k rest, ltb→lt _ _ over))))
      | inr fits ↦ rw fits (
          read_capped_lem fuel chunk cap batch (drop k rest) positive (ground (arith, fits))
            (omega (arith, enough, length-drop {0} k rest))
          ∙ ap (within_cap cap) (append-batch rows x k rest))
    ])

read_rows-some : (cap : ℕ) (rows : List Row) → read_rows (some cap) rows ≡ within_cap cap rows
unfolding read_rows
read_rows-some cap rows =
    read_capped_lem (length rows + 2) chunk_size cap [] rows (omega arith) (omega arith)
      (omega arith)

read_rows-none : (rows : List Row) → read_rows none rows ≡ ok rows
unfolding read_rows
read_rows-none rows = refl

-- Reading with a cap raises `RowCapExceeded` if the cursor has a description and more rows than the
-- cap, and otherwise gives what reading without a cap gives.
pub materialize-cap :
    (cursor : Cursor) (cap : ℕ)
    → materialize cursor (some cap) ≡ (
        if has_rows cursor && ltb cap (length cursor.rows)
        then err row_cap_exceeded
        else materialize cursor none)
unfolding materialize deliver
materialize-cap cursor cap = elim (Option-cases cursor.description) [
  | inl e ↦ rw e refl
  | inr (columns, e) ↦
      rw (e, read_rows-some, read_rows-none)
        (elim (Bool-cases (ltb cap (length cursor.rows))) [ inl h ↦ rw h refl | inr h ↦ rw h refl ])
]
