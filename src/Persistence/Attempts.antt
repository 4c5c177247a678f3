-- ===== src/Persistence/Attempts.antt =====
-- Stored attempts: which can be loaded again, and what `save` keeps of them
-- (src/taskcontrol/adapters/persistence/repositories.py, mappers.py).
use task_control.Errors.{ok}
use task_control.Execution.Attempt.{ExecutionAttempt}
use task_control.Execution.Loading.{IsLoadable}
use task_control.Persistence.Executions.{
  insert_by_number, sort_by_number, load_attempt, load_attempts, apply_attempt, update_attempt,
  has_attempt, merge_attempts, has_duplicates,
}
use mathlib.Core.Path.{subst}
use task_control.Prelude.{
  eq_refl, ◌≡◌, refl, sym, ap, ◌∙◌, true, ◌||◌, List, [], ◌∷◌, ◌++◌, ◌==◌, leb, any, str_eq, arith,
  All, All-append, All-map, if_elim, if◌then◌else◌,
}

pub load_attempt-ok : (a : ExecutionAttempt) → IsLoadable a → load_attempt a ≡ ok a
unfolding load_attempt
load_attempt-ok a h = ground arith

pub load_attempts-ok : (xs : List ExecutionAttempt) → All IsLoadable xs → load_attempts xs ≡ ok xs
unfolding load_attempts
load_attempts-ok [] h = refl
load_attempts-ok (a ∷ rest) h = ground (arith, load_attempt-ok a h.0, load_attempts-ok rest h.1)

All-insert :
    (P : ExecutionAttempt → Type 0) (a : ExecutionAttempt) (xs : List ExecutionAttempt)
    → P a
    → All P xs
    → All P (insert_by_number a xs)
unfolding insert_by_number
All-insert P a [] p h = (p, tt)
All-insert P a (b ∷ rest) p h =
    if_elim (All P) (leb a.attempt_number b.attempt_number) (p, h) (h.0, All-insert P a rest p h.1)

-- Sorting keeps what holds of every attempt.
pub All-sort :
    (P : ExecutionAttempt → Type 0) (xs : List ExecutionAttempt)
    → All P xs
    → All P (sort_by_number xs)
unfolding sort_by_number
All-sort P [] h = tt
All-sort P (a ∷ rest) h = All-insert P a (sort_by_number rest) h.0 (All-sort P rest h.1)

apply_attempt-IsLoadable :
    (s a : ExecutionAttempt) → IsLoadable s → IsLoadable a → IsLoadable (apply_attempt s a)
apply_attempt-IsLoadable s a h k = record {
  from_one = h.from_one;
  both_or_neither = k.both_or_neither;
  result_valid = k.result_valid;
}

All-update :
    (a : ExecutionAttempt) (rows : List ExecutionAttempt)
    → IsLoadable a
    → All IsLoadable rows
    → All IsLoadable (update_attempt a rows)
unfolding update_attempt
All-update a [] p h = tt
All-update a (s ∷ rest) p h =
    if_elim (All IsLoadable) (str_eq s.attempt_id a.attempt_id)
      (apply_attempt-IsLoadable s a h.0 p, h.1) (h.0, All-update a rest p h.1)

-- What `save` leaves of loadable attempts is loadable.
pub All-merge :
    (stored xs rows : List ExecutionAttempt)
    → All IsLoadable xs
    → All IsLoadable rows
    → All IsLoadable (merge_attempts stored xs rows)
unfolding merge_attempts
All-merge stored [] rows p h = h
All-merge stored (a ∷ rest) rows p h =
    All-merge stored rest (if has_attempt a stored then update_attempt a rows else rows ++ a ∷ [])
      p.1
      (if_elim (All IsLoadable) (has_attempt a stored) (All-update a rows p.0 h)
        (All-append IsLoadable rows (a ∷ []) h (p.0, tt)))

ap2 : {A B C : Type 0} (f : A → B → C) {a a' : A} {b b' : B} → a ≡ a' → b ≡ b' → f a b ≡ f a' b'
ap2 f {a' = a'} {b = b} p q = ap (λ x. f x b) p ∙ ap (f a') q

abbrev HasKeyOf : List ExecutionAttempt → ExecutionAttempt → Type 0
HasKeyOf stored a = has_attempt a stored ≡ true

has_attempt_refl : (xs : List ExecutionAttempt) → All (HasKeyOf xs) xs
has_attempt_refl [] = tt
has_attempt_refl (x ∷ xs) = (
  ground (arith, eq_refl x.attempt_id),
  All-map (HasKeyOf xs) (HasKeyOf (x ∷ xs)) xs (λ a h. ground arith) (has_attempt_refl xs),
)

-- the attempts differ in what an update may change only
abbrev SameKeys : List ExecutionAttempt → List ExecutionAttempt → Type 0
SameKeys [] [] = Unit
SameKeys [] (_ ∷ _) = ⊥
SameKeys (_ ∷ _) [] = ⊥
SameKeys (x ∷ xs) (y ∷ ys) =
    (x.attempt_id ≡ y.attempt_id) × (x.attempt_number ≡ y.attempt_number) × SameKeys xs ys

SameKeys-refl : (xs : List ExecutionAttempt) → SameKeys xs xs
SameKeys-refl [] = tt
SameKeys-refl (x ∷ xs) = (refl, refl, SameKeys-refl xs)

SameKeys-update :
    (a : ExecutionAttempt) (rows ys : List ExecutionAttempt)
    → SameKeys rows ys
    → SameKeys (update_attempt a rows) ys
unfolding update_attempt
SameKeys-update a [] ys h = h
SameKeys-update a (x ∷ xs) [] h = elim h [ ]
SameKeys-update a (x ∷ xs) (y ∷ ys) h =
    if_elim (λ r. SameKeys r (y ∷ ys)) (str_eq x.attempt_id a.attempt_id) (h.0, h.1, h.2)
      (h.0, h.1, SameKeys-update a xs ys h.2)

-- An update of stored attempts only adds none.
SameKeys-merge :
    (stored xs rows ys : List ExecutionAttempt)
    → All (HasKeyOf stored) xs
    → SameKeys rows ys
    → SameKeys (merge_attempts stored xs rows) ys
unfolding merge_attempts
SameKeys-merge stored [] rows ys p h = h
SameKeys-merge stored (a ∷ rest) rows ys p h =
    SameKeys-merge stored rest
      (if has_attempt a stored then update_attempt a rows else rows ++ a ∷ []) ys p.1
      (subst (λ b. SameKeys (if b then update_attempt a rows else rows ++ a ∷ []) ys) (sym p.0)
        (SameKeys-update a rows ys h))

any-SameKeys :
    (a b : ExecutionAttempt) (xs ys : List ExecutionAttempt)
    → a.attempt_id ≡ b.attempt_id
    → a.attempt_number ≡ b.attempt_number
    → SameKeys xs ys
    → any (λ c. str_eq a.attempt_id c.attempt_id || a.attempt_number == c.attempt_number) xs
      ≡ any (λ c. str_eq b.attempt_id c.attempt_id || b.attempt_number == c.attempt_number) ys
any-SameKeys a b [] [] p q h = refl
any-SameKeys a b [] (y ∷ ys) p q h = elim h [ ]
any-SameKeys a b (x ∷ xs) [] p q h = elim h [ ]
any-SameKeys a b (x ∷ xs) (y ∷ ys) p q h =
    ap2 (λ m n. m || n) (ap2 (λ m n. m || n) (ap2 str_eq p h.0) (ap2 (λ m n. m == n) q h.1))
      (any-SameKeys a b xs ys p q h.2)

has_duplicates-SameKeys :
    (xs ys : List ExecutionAttempt) → SameKeys xs ys → has_duplicates xs ≡ has_duplicates ys
unfolding has_duplicates
has_duplicates-SameKeys [] [] h = refl
has_duplicates-SameKeys [] (y ∷ ys) h = elim h [ ]
has_duplicates-SameKeys (x ∷ xs) [] h = elim h [ ]
has_duplicates-SameKeys (x ∷ xs) (y ∷ ys) h =
    ap2 (λ m n. m || n) (any-SameKeys x y xs ys h.0 h.1 h.2) (has_duplicates-SameKeys xs ys h.2)

-- Saving what was loaded violates no constraint.
pub has_duplicates-reload :
    (xs : List ExecutionAttempt)
    → has_duplicates (merge_attempts xs (sort_by_number xs) xs) ≡ has_duplicates xs
has_duplicates-reload xs = has_duplicates-SameKeys (merge_attempts xs (sort_by_number xs) xs) xs (
    SameKeys-merge xs (sort_by_number xs) xs xs (All-sort (HasKeyOf xs) xs (has_attempt_refl xs))
      (SameKeys-refl xs))
