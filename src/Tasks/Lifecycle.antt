-- ===== src/Tasks/Lifecycle.antt =====
-- Lifecycle states of tasks and revisions (src/taskcontrol/domain/tasks/lifecycle.py). The
-- dictionaries of legal transitions are functions by clauses.
use task_control.Errors.{Result, ok, domain_rule_violation_error}
use task_control.Prelude.{String, Bool, true, false, not, [], ◌∷◌, concat, if◌then◌else◌}

pub data TaskLifecycleState : Type 0 where
  draft active suspended retired archived : TaskLifecycleState

pub data PublicationState : Type 0 where
  draft published superseded withdrawn : PublicationState

abbrev pub task_state_value : TaskLifecycleState → String
task_state_value TaskLifecycleState.draft = "draft"
task_state_value active = "active"
task_state_value suspended = "suspended"
task_state_value retired = "retired"
task_state_value archived = "archived"

abbrev pub publication_value : PublicationState → String
publication_value PublicationState.draft = "draft"
publication_value published = "published"
publication_value superseded = "superseded"
publication_value withdrawn = "withdrawn"

abbrev pub accepts_triggers : TaskLifecycleState → Bool
accepts_triggers active = true
accepts_triggers _ = false

abbrev pub is_archived : TaskLifecycleState → Bool
is_archived archived = true
is_archived _ = false

-- `TaskLifecycleState.is_editable`
abbrev pub is_task_editable : TaskLifecycleState → Bool
is_task_editable s = not (is_archived s)

-- `PublicationState.is_editable`
abbrev pub is_draft : PublicationState → Bool
is_draft PublicationState.draft = true
is_draft _ = false

abbrev pub is_frozen : PublicationState → Bool
is_frozen s = not (is_draft s)

abbrev pub is_legal_task_transition : TaskLifecycleState → TaskLifecycleState → Bool
is_legal_task_transition TaskLifecycleState.draft active = true
is_legal_task_transition TaskLifecycleState.draft archived = true
is_legal_task_transition active suspended = true
is_legal_task_transition active retired = true
is_legal_task_transition suspended active = true
is_legal_task_transition suspended retired = true
is_legal_task_transition retired active = true
is_legal_task_transition retired archived = true
is_legal_task_transition _ _ = false

unfoldable pub assert_legal_task_transition :
    TaskLifecycleState → TaskLifecycleState → Result (Unit {0})
assert_legal_task_transition current proposed =
    if is_legal_task_transition current proposed
    then ok tt
    else domain_rule_violation_error (
        concat (
          "A task cannot move from "
          ∷ task_state_value current
          ∷ " to "
          ∷ task_state_value proposed
          ∷ "."
          ∷ []))

abbrev pub is_legal_publication_transition : PublicationState → PublicationState → Bool
is_legal_publication_transition PublicationState.draft published = true
is_legal_publication_transition PublicationState.draft withdrawn = true
is_legal_publication_transition published superseded = true
is_legal_publication_transition published withdrawn = true
is_legal_publication_transition superseded withdrawn = true
is_legal_publication_transition _ _ = false

unfoldable pub assert_legal_publication_transition :
    PublicationState → PublicationState → Result (Unit {0})
assert_legal_publication_transition current proposed =
    if is_legal_publication_transition current proposed
    then ok tt
    else domain_rule_violation_error (
        concat (
          "A revision cannot move from "
          ∷ publication_value current
          ∷ " to "
          ∷ publication_value proposed
          ∷ "."
          ∷ []))
