-- ===== src/Tasks/Task.antt =====
-- `Task` (src/taskcontrol/domain/tasks/task.py). The object is frozen; each method and `replace` run
-- `__post_init__` again. A set of labels is a list without repetitions; identifiers are texts.
use task_control.Errors.{Result, ok, validation_failed, domain_rule_violation, raise_if, ◌>>◌}
use task_control.Prelude.{
  ℕ, String, Bool, true, false, not, ◌&&◌, Option, none, some, List, ltb, is_some, or_else, length,
  len, is_blank, if◌then◌else◌,
}
use task_control.Tasks.Lifecycle.{
  TaskLifecycleState, draft, active, suspended, retired, archived, is_archived, is_task_editable,
  assert_legal_task_transition,
}
use task_control.Values.{Timestamp}

abbrev pub max_name_length : ℕ
max_name_length = 200

abbrev pub max_description_length : ℕ
max_description_length = 4000

abbrev pub max_labels : ℕ
max_labels = 50

pub record Task : Type 0 where
  pub task_id : String
  pub name : String
  pub slug : String
  pub owner_id : String
  pub created_at : Timestamp
  pub created_by : String
  pub description : String
  pub lifecycle_state : TaskLifecycleState
  pub active_revision_id : Option String
  pub labels : List String
  pub updated_at : Option Timestamp
  pub updated_by : Option String

abbrev pub is_active : TaskLifecycleState → Bool
is_active active = true
is_active _ = false

-- `Task.__post_init__`, run on every constructed value
unfoldable pub validate_task : Task → Result Task
validate_task t = do
  raise_if (is_blank t.name) validation_failed "A task requires a name."
  raise_if (ltb max_name_length (len t.name)) validation_failed "Task name is too long."
  raise_if (ltb max_description_length (len t.description)) validation_failed
      "Task description is too long."
  raise_if (ltb max_labels (length t.labels)) validation_failed "Too many labels."
  raise_if (is_active t.lifecycle_state && not (is_some t.active_revision_id)) validation_failed
      "An active task must reference a published revision."
  ok t

-- who makes a change, and when
pub record Change : Type 0 where
  pub updated_by : String
  pub updated_at : Timestamp

abbrev stamped : Task → Change → Task
stamped t c = record t { updated_at = some c.updated_at; updated_by = some c.updated_by }

-- what `Task.create` is given; the identifier and the slug that it may generate are part of it
pub record NewTask : Type 0 where
  pub task_id : String
  pub name : String
  pub slug : String
  pub owner_id : String
  pub created_by : String
  pub created_at : Timestamp
  pub description : String
  pub labels : List String

-- `Task.create`
unfoldable pub create : NewTask → Result Task
unfolding validate_task
create n = validate_task (record {
  task_id = n.task_id;
  name = n.name;
  slug = n.slug;
  owner_id = n.owner_id;
  created_at = n.created_at;
  created_by = n.created_by;
  description = n.description;
  lifecycle_state = draft;
  active_revision_id = none;
  labels = n.labels;
  updated_at = none;
  updated_by = none;
})

-- what `update_metadata` is given; an absent value leaves the field alone
pub record Metadata : Type 0 where
  pub name : Option String
  pub description : Option String
  pub owner_id : Option String
  pub labels : Option (List String)

unfoldable pub update_metadata : Task → Metadata → Change → Result Task
unfolding validate_task
update_metadata t m c = do
  raise_if (not (is_task_editable t.lifecycle_state)) domain_rule_violation
      "An archived task is read-only."
  validate_task (record (stamped t c) {
    name = or_else m.name t.name;
    description = or_else m.description t.description;
    owner_id = or_else m.owner_id t.owner_id;
    labels = or_else m.labels t.labels;
  })

unfoldable pub activate_revision : Task → String → Change → Result Task
unfolding validate_task assert_legal_task_transition
activate_revision t revision_id c = do
  raise_if (is_archived t.lifecycle_state) domain_rule_violation
      "An archived task cannot activate a revision."
  if is_active t.lifecycle_state
      then ok tt
      else assert_legal_task_transition t.lifecycle_state active
  validate_task
      (record (stamped t c) { lifecycle_state = active; active_revision_id = some revision_id })

unfoldable pub transition_to : Task → TaskLifecycleState → Change → Result Task
unfolding validate_task assert_legal_task_transition
transition_to t proposed c = do
  assert_legal_task_transition t.lifecycle_state proposed
  raise_if (is_active proposed && not (is_some t.active_revision_id)) domain_rule_violation
      "A task cannot become active without a published revision to run. Activate a revision instead."
  validate_task (record (stamped t c) { lifecycle_state = proposed })

unfoldable pub suspend : Task → Change → Result Task
unfolding transition_to
suspend t c = transition_to t suspended c

unfoldable pub resume : Task → Change → Result Task
unfolding transition_to
resume t c = transition_to t active c

unfoldable pub retire : Task → Change → Result Task
unfolding transition_to
retire t c = transition_to t retired c

unfoldable pub archive : Task → Change → Result Task
unfolding transition_to
archive t c = transition_to t archived c
