-- ===== src/Tasks/Availability.antt =====
-- The life of a task under the methods of src/taskcontrol/domain/tasks/task.py.
use task_control.Errors.{ok}
use task_control.Prelude.{
  ◌≤◌, String, ◌≡◌, refl, ap, ◌∙◌, ◌⊎◌, true, false, arith, is_some, is_blank, len, length,
}
use task_control.Tasks.Lifecycle.{
  TaskLifecycleState, draft, archived, accepts_triggers, is_legal_task_transition,
}
use task_control.Tasks.Task.{
  Task, NewTask, Metadata, Change, max_name_length, max_description_length, max_labels, create,
  update_metadata, activate_revision, transition_to,
}

pub record IsValid (t : Task) : Type 0 where
  pub named : is_blank t.name ≡ false
  pub name_fits : len t.name ≤ max_name_length
  pub description_fits : len t.description ≤ max_description_length
  pub labels_fit : length t.labels ≤ max_labels
  pub runnable : accepts_triggers t.lifecycle_state ≡ true → is_some t.active_revision_id ≡ true

-- One successful call; `suspend`, `resume`, `retire` and `archive` are calls of `transition_to`.
pub data Step (t u : Task) : Type 0 where
  updates : (m : Metadata) (c : Change) → update_metadata t m c ≡ ok u → Step t u
  activates : (r : String) (c : Change) → activate_revision t r c ≡ ok u → Step t u
  moves : (s : TaskLifecycleState) (c : Change) → transition_to t s c ≡ ok u → Step t u

pub data Reach (t : Task) : Task → Type 0 where
  here : Reach t t
  next : {u v : Task} → Reach t u → Step u v → Reach t v

Step-IsValid : {t u : Task} → Step t u → IsValid t → IsValid u
unfolding update_metadata activate_revision transition_to
Step-IsValid (updates m c h) v = ground arith
Step-IsValid (activates r c h) v = ground arith
Step-IsValid (moves s c h) v = ground arith

-- What no call changes, and how the state moves: along a legal transition, or not at all.
pub record Continues (t u : Task) : Type 0 where
  pub task_id : u.task_id ≡ t.task_id
  pub slug : u.slug ≡ t.slug
  pub created_at : u.created_at ≡ t.created_at
  pub created_by : u.created_by ≡ t.created_by
  pub moved :
      (u.lifecycle_state ≡ t.lifecycle_state)
      ⊎ (is_legal_task_transition t.lifecycle_state u.lifecycle_state ≡ true)
  pub keeps_revision : is_some t.active_revision_id ≡ true → is_some u.active_revision_id ≡ true

-- Every successful call keeps the identity, the slug and the creation of the task, moves its state
-- along a legal transition or not at all, and never takes away its active revision.
pub Step-Continues : {t u : Task} → Step t u → Continues t u
unfolding update_metadata activate_revision transition_to
Step-Continues (updates m c h) = ground arith
Step-Continues (activates r c h) = ground arith
Step-Continues (moves s c h) = ground arith

Reach-IsValid : {t u : Task} → Reach t u → IsValid t → IsValid u
Reach-IsValid here v = v
Reach-IsValid (next r s) v = Step-IsValid s (Reach-IsValid r v)

create-IsValid :
    (n : NewTask) {t : Task} → create n ≡ ok t → IsValid t × (t.lifecycle_state ≡ draft)
unfolding create
create-IsValid n h = ground arith

-- A task that was created and then put through any sequence of calls has a name that is not blank,
-- fits its limits, and has a revision to run whenever it accepts triggers.
pub triggered_task_runnable : (n : NewTask) {t u : Task} → create n ≡ ok t → Reach t u → IsValid u
triggered_task_runnable n h r = Reach-IsValid r (create-IsValid n h).0

Step-archived : {t u : Task} → t.lifecycle_state ≡ archived → Step t u → ⊥
unfolding update_metadata activate_revision transition_to
Step-archived a (updates m c h) = ground arith
Step-archived a (activates r c h) = ground arith
Step-archived a (moves s c h) = ground arith

-- An archived task is read-only: no call on it succeeds, so it is never changed again.
pub archived_final : {t u : Task} → t.lifecycle_state ≡ archived → Reach t u → u ≡ t
archived_final a here = refl
archived_final a (next r s) =
    absurd (Step-archived (ap (λ (x : Task). x.lifecycle_state) (archived_final a r) ∙ a) s)
