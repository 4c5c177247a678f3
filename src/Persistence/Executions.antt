-- ===== src/Persistence/Executions.antt =====
-- `SqlAlchemyExecutionRepository` (src/taskcontrol/adapters/persistence/repositories.py) with the
-- mappers of executions and attempts (src/taskcontrol/adapters/persistence/mappers.py). A row is an
-- `Execution` whose attempts are the attempt records that name it, in the order of their insertion;
-- the texts of the columns and the naive times go to and fro without loss. What a query and the
-- flush answer are functions of the table; that the database can be unreachable is left to the unit
-- of work.
use task_control.Errors.{
  Result, ok, raise, error, not_found, conflict, transient_infrastructure_failure, ◌>>=◌,
}
use task_control.Execution.Attempt.{ExecutionAttempt, validate_attempt}
use task_control.Execution.Record.{Execution, validate_execution}
use task_control.Execution.Results.{ProcessResult, validate_result}
use task_control.Prelude.{
  String, Bool, false, ◌&&◌, ◌||◌, Option, none, some, List, [], ◌∷◌, ◌++◌, leb, ◌==◌, any,
  if◌then◌else◌, str_eq,
}

abbrev pub Table : Type 0
Table = List Execution

-- `session.get(ExecutionRecord, execution_id)`
unfoldable pub find : String → Table → Option Execution
find id [] = none
find id (row ∷ t) = if str_eq row.execution_id id then some row else find id t

-- the row with this identifier is changed
unfoldable pub put : Execution → Table → Table
put row [] = []
put row (r ∷ t) = if str_eq r.execution_id row.execution_id then row ∷ t else r ∷ put row t

unfoldable pub insert_by_number : ExecutionAttempt → List ExecutionAttempt → List ExecutionAttempt
insert_by_number a [] = a ∷ []
insert_by_number a (b ∷ rest) =
    if leb a.attempt_number b.attempt_number then a ∷ b ∷ rest else b ∷ insert_by_number a rest

-- `sorted(attempts, key=lambda item: item.attempt_number)`
unfoldable pub sort_by_number : List ExecutionAttempt → List ExecutionAttempt
unfolding insert_by_number
sort_by_number [] = []
sort_by_number (a ∷ rest) = insert_by_number a (sort_by_number rest)

abbrev pub load_result : Option ProcessResult → Result (Option ProcessResult)
load_result none = ok none
load_result (some r) = do r' ← validate_result r; ok (some r')

-- `record_to_attempt`: the constructors check what was stored
unfoldable pub load_attempt : ExecutionAttempt → Result ExecutionAttempt
unfolding validate_result validate_attempt
load_attempt a = do r ← load_result a.result; validate_attempt (record a { result = r })

unfoldable pub load_attempts : List ExecutionAttempt → Result (List ExecutionAttempt)
load_attempts [] = ok []
load_attempts (a ∷ rest) = do a' ← load_attempt a; rest' ← load_attempts rest; ok (a' ∷ rest')

-- `record_to_execution`
unfoldable pub load : Execution → Result Execution
load row = do
  attempts ← load_attempts (sort_by_number row.attempts)
  validate_execution (record row { attempts = attempts })

-- `get`
unfoldable pub get : String → Table → Result (Option Execution)
get id t = elim (find id t) [ none ↦ ok none | some row ↦ (do e ← load row; ok (some e)) ]

-- `apply_attempt_to_record`: the identity, number, start and executor stay as they were stored
abbrev pub apply_attempt : ExecutionAttempt → ExecutionAttempt → ExecutionAttempt
apply_attempt stored a = record stored {
  finished_at = a.finished_at;
  result = a.result;
  stdout = a.stdout;
  stderr = a.stderr;
}

-- the stored attempt with the identifier of `a` is changed
unfoldable pub update_attempt : ExecutionAttempt → List ExecutionAttempt → List ExecutionAttempt
update_attempt a [] = []
update_attempt a (s ∷ rest) =
    if str_eq s.attempt_id a.attempt_id then apply_attempt s a ∷ rest else s ∷ update_attempt a rest

abbrev pub has_attempt : ExecutionAttempt → List ExecutionAttempt → Bool
has_attempt a stored = any (λ s. str_eq s.attempt_id a.attempt_id) stored

-- the loop of `save` over the attempts: `stored` is what its query found
unfoldable pub merge_attempts :
    List ExecutionAttempt → List ExecutionAttempt → List ExecutionAttempt → List ExecutionAttempt
unfolding update_attempt
merge_attempts stored [] rows = rows
merge_attempts stored (a ∷ rest) rows =
    merge_attempts stored rest
      (if has_attempt a stored then update_attempt a rows else rows ++ a ∷ [])

-- the unique constraints of the attempts: on the identifier, and on the number within an execution
unfoldable pub has_duplicates : List ExecutionAttempt → Bool
has_duplicates [] = false
has_duplicates (a ∷ rest) =
    any (λ b. str_eq a.attempt_id b.attempt_id || a.attempt_number == b.attempt_number) rest
    || has_duplicates rest

-- `apply_execution_to_record`: identity, task, revision and request metadata are not copied
abbrev pub apply_execution : Execution → Execution → Execution
apply_execution row e = record row {
  state = e.state;
  outcome = e.outcome;
  reason_code = e.reason_code;
  explanation = e.explanation;
  started_at = e.started_at;
  finished_at = e.finished_at;
  configuration_digest = e.configuration_digest;
}

abbrev pub saved_row : Execution → Execution → Execution
saved_row row e = record (apply_execution row e) {
  attempts = merge_attempts row.attempts e.attempts row.attempts;
}

-- `save`; a violated constraint surfaces from the unit of work as a transient failure
unfoldable pub save : Execution → Table → Result Table
save e t = elim (find e.execution_id t) [
  | none ↦ raise (error not_found "Execution not found.")
  | some row ↦
      if has_duplicates (saved_row row e).attempts
      then raise (
          error transient_infrastructure_failure
            "Could not reach TaskControl's database, so this operation was not recorded. Check that the database is running and that the configured connection is correct.")
      else ok (put (saved_row row e) t)
]

abbrev pub same_key : Option String → Option String → Bool
same_key (some a) (some b) = str_eq a b
same_key (some a) none = false
same_key none b = false

-- the rows that a new one may not stand beside: the primary key, and the unique constraint on the
-- task and the idempotency key
unfoldable pub clashes : Execution → Execution → Bool
clashes e row =
    str_eq row.execution_id e.execution_id
    || (str_eq row.task_id e.task_id && same_key row.idempotency_key e.idempotency_key)

-- `add`, where the task and the revision that it names are stored
unfoldable pub add : Execution → Table → Result Table
unfolding clashes
add e t =
    if any (clashes e) t
    then raise
        (error conflict "An execution with this identifier or idempotency key already exists.")
    else ok (t ++ e ∷ [])

-- `find_by_idempotency_key`
unfoldable pub find_by_idempotency_key : String → String → Table → Result (Option Execution)
find_by_idempotency_key task_id key [] = ok none
find_by_idempotency_key task_id key (row ∷ t) =
    let rest = find_by_idempotency_key task_id key t in
    if str_eq row.task_id task_id && same_key row.idempotency_key (some key)
    then (do e ← load row; ok (some e))
    else rest
