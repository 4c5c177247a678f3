-- ===== src/Persistence/Merging.antt =====
-- What the loop of `save` over the attempts stores
-- (src/taskcontrol/adapters/persistence/repositories.py).
use task_control.Execution.Attempt.{ExecutionAttempt}
use task_control.Persistence.Executions.{
  insert_by_number, sort_by_number, update_attempt, has_attempt, merge_attempts,
}
use task_control.Prelude.{
  if◌then◌else◌, ◌≡◌, ◌≢◌, ◌⊎◌, inl, inr, refl, sym, ◌∙◌, true, List, [], ◌∷◌, ◌++◌, leb, arith,
  All, Any, str_eq, eq_iff, Bool-cases,
}

-- A stored attempt that has what was saved of one: its finish time, result and output.
pub record Keeps (a s : ExecutionAttempt) : Type 0 where
  pub same_id : s.attempt_id ≡ a.attempt_id
  pub finished_at : s.finished_at ≡ a.finished_at
  pub result : s.result ≡ a.result
  pub stdout : s.stdout ≡ a.stdout
  pub stderr : s.stderr ≡ a.stderr

Any-insert_by_number :
    (P : ExecutionAttempt → Type 0) (a : ExecutionAttempt) (xs : List ExecutionAttempt)
    → P a ⊎ Any P xs
    → Any P (insert_by_number a xs)
unfolding insert_by_number
Any-insert_by_number P a [] h = h
Any-insert_by_number P a (b ∷ rest) h = elim (Bool-cases (leb a.attempt_number b.attempt_number)) [
  | inl here ↦ rw here h
  | inr later ↦ rw later (elim h [
    | inl own ↦ inr (Any-insert_by_number P a rest (inl own))
    | inr (inl first) ↦ inl first
    | inr (inr other) ↦ inr (Any-insert_by_number P a rest (inr other))
  ])
]

Any-sort_by_number :
    (P : ExecutionAttempt → Type 0) (xs : List ExecutionAttempt)
    → Any P xs
    → Any P (sort_by_number xs)
unfolding sort_by_number
Any-sort_by_number P [] h = elim h [ ]
Any-sort_by_number P (x ∷ xs) (inl own) = Any-insert_by_number P x (sort_by_number xs) (inl own)
Any-sort_by_number P (x ∷ xs) (inr other) =
    Any-insert_by_number P x (sort_by_number xs) (inr (Any-sort_by_number P xs other))

Any-append :
    (P : ExecutionAttempt → Type 0) (xs ys : List ExecutionAttempt)
    → Any P xs ⊎ Any P ys
    → Any P (xs ++ ys)
Any-append P [] ys (inl h) = elim h [ ]
Any-append P [] ys (inr h) = h
Any-append P (x ∷ xs) ys (inl (inl h)) = inl h
Any-append P (x ∷ xs) ys (inl (inr h)) = inr (Any-append P xs ys (inl h))
Any-append P (x ∷ xs) ys (inr h) = inr (Any-append P xs ys (inr h))

update_another :
    (a b : ExecutionAttempt) (rows : List ExecutionAttempt)
    → b.attempt_id ≢ a.attempt_id
    → Any (Keeps a) rows
    → Any (Keeps a) (update_attempt b rows)
unfolding update_attempt
update_another a b [] other h = elim h [ ]
update_another a b (s ∷ rest) other h = elim (Bool-cases (str_eq s.attempt_id b.attempt_id)) [
  | inl own ↦
      let same = (eq_iff s.attempt_id b.attempt_id).0 own in
      rw own
        (elim h [ inl here ↦ absurd (other (sym same ∙ here.same_id)) | inr later ↦ inr later ])
  | inr another ↦
      rw another
        (elim h [ inl here ↦ inl here | inr later ↦ inr (update_another a b rest other later) ])
]

update_stores :
    (a : ExecutionAttempt) (rows : List ExecutionAttempt)
    → has_attempt a rows ≡ true
    → Any (Keeps a) (update_attempt a rows)
unfolding update_attempt
update_stores a [] h = absurd (cc h)
update_stores a (s ∷ rest) h = elim (Bool-cases (str_eq s.attempt_id a.attempt_id)) [
  | inl own ↦ rw own (
      inl (record {
        same_id = (eq_iff s.attempt_id a.attempt_id).0 own;
        finished_at = refl;
        result = refl;
        stdout = refl;
        stderr = refl;
      }))
  | inr another ↦ rw another (inr (update_stores a rest (ground (arith, h, another))))
]

has_attempt-update :
    (a b : ExecutionAttempt) (rows : List ExecutionAttempt)
    → has_attempt a (update_attempt b rows) ≡ has_attempt a rows
unfolding update_attempt
has_attempt-update a b [] = refl
has_attempt-update a b (s ∷ rest) = elim (Bool-cases (str_eq s.attempt_id b.attempt_id)) [
  | inl own ↦ rw own refl
  | inr another ↦ rw (another, has_attempt-update a b rest) refl
]

has_attempt-append :
    (a b : ExecutionAttempt) (rows : List ExecutionAttempt)
    → has_attempt a rows ≡ true
    → has_attempt a (rows ++ b ∷ []) ≡ true
has_attempt-append a b [] h = absurd (cc h)
has_attempt-append a b (s ∷ rest) h = elim (Bool-cases (str_eq s.attempt_id a.attempt_id)) [
  | inl own ↦ rw own refl
  | inr another ↦ rw another (has_attempt-append a b rest (ground (arith, h, another)))
]

-- The rows have every attempt that the query found.
abbrev Covers : List ExecutionAttempt → List ExecutionAttempt → Type 0
Covers stored rows =
    (a : ExecutionAttempt) → has_attempt a stored ≡ true → has_attempt a rows ≡ true

-- No two attempts have one identifier.
abbrev pub HaveOwnIds : List ExecutionAttempt → Type 0
HaveOwnIds [] = Unit
HaveOwnIds (a ∷ rest) = All (λ b. b.attempt_id ≢ a.attempt_id) rest × HaveOwnIds rest

-- one step of the loop of `save`
abbrev merged :
    List ExecutionAttempt → ExecutionAttempt → List ExecutionAttempt → List ExecutionAttempt
merged stored a rows = if has_attempt a stored then update_attempt a rows else rows ++ a ∷ []

merged-Covers :
    (stored rows : List ExecutionAttempt) (b : ExecutionAttempt)
    → Covers stored rows
    → Covers stored (merged stored b rows)
merged-Covers stored rows b covers a h = elim (Bool-cases (has_attempt b stored)) [
  | inl found ↦ rw found (has_attempt-update a b rows ∙ covers a h)
  | inr missing ↦ rw missing (has_attempt-append a b rows (covers a h))
]

merged_another :
    (stored rows : List ExecutionAttempt) (a b : ExecutionAttempt)
    → b.attempt_id ≢ a.attempt_id
    → Any (Keeps a) rows
    → Any (Keeps a) (merged stored b rows)
merged_another stored rows a b other h = elim (Bool-cases (has_attempt b stored)) [
  | inl found ↦ rw found (update_another a b rows other h)
  | inr missing ↦ rw missing (Any-append (Keeps a) rows (b ∷ []) (inl h))
]

merged_stores :
    (stored rows : List ExecutionAttempt) (a : ExecutionAttempt)
    → Covers stored rows
    → Any (Keeps a) (merged stored a rows)
merged_stores stored rows a covers = elim (Bool-cases (has_attempt a stored)) [
  | inl found ↦ rw found (update_stores a rows (covers a found))
  | inr missing ↦ rw missing (
      Any-append (Keeps a) rows (a ∷ []) (
        inr (
          inl (record {
            same_id = refl;
            finished_at = refl;
            result = refl;
            stdout = refl;
            stderr = refl;
          }))))
]

merge_others :
    (stored xs rows : List ExecutionAttempt) (a : ExecutionAttempt)
    → All (λ b. b.attempt_id ≢ a.attempt_id) xs
    → Any (Keeps a) rows
    → Any (Keeps a) (merge_attempts stored xs rows)
unfolding merge_attempts
merge_others stored [] rows a others h = h
merge_others stored (b ∷ rest) rows a others h =
    merge_others stored rest (merged stored b rows) a others.1
      (merged_another stored rows a b others.0 h)

pub merge_stores :
    (stored xs rows : List ExecutionAttempt)
    → Covers stored rows
    → HaveOwnIds xs
    → All (λ a. Any (Keeps a) (merge_attempts stored xs rows)) xs
unfolding merge_attempts
merge_stores stored [] rows covers own = tt
merge_stores stored (a ∷ rest) rows covers own = (
  merge_others stored rest (merged stored a rows) a own.0 (merged_stores stored rows a covers),
  merge_stores stored rest (merged stored a rows) (merged-Covers stored rows a covers) own.1,
)

pub each_sorted :
    (xs rows : List ExecutionAttempt)
    → All (λ a. Any (Keeps a) rows) xs
    → All (λ a. Any (Keeps a) (sort_by_number rows)) xs
each_sorted [] rows h = tt
each_sorted (a ∷ rest) rows h = (Any-sort_by_number (Keeps a) rows h.0, each_sorted rest rows h.1)
