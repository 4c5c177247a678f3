-- ===== src/Tasks/Revision.antt =====
-- `TaskRevision` (src/taskcontrol/domain/tasks/revision.py). The object is frozen, and each method
-- and `replace` run `__post_init__` again. The digest of the content, SHA-256 over its canonical JSON,
-- is a parameter.
use task_control.Deployment.Strategies.{DeploymentStrategy, carries_its_own_schedule}
use task_control.Errors.{Result, ok, validation_failed, domain_rule_violation, raise_if, ◌>>◌}
use task_control.Prelude.{
  ℕ, String, Bool, true, false, not, ◌&&◌, ◌||◌, Option, some, List, ltb, leb, ◌==◌, is_some, len,
  any,
}
use task_control.Runtime.World.{EnvironmentBinding}
use task_control.Tasks.Lifecycle.{
  PublicationState, published, superseded, withdrawn, is_draft, is_frozen,
  assert_legal_publication_transition,
}
use task_control.Tasks.Secrets.{looks_like_an_inline_secret}
use task_control.Values.{Timestamp}

pub data ExecutorType : Type 0 where
  shell python executable tcl http plugin : ExecutorType

abbrev pub is_implemented : ExecutorType → Bool
is_implemented shell = true
is_implemented python = true
is_implemented executable = true
is_implemented _ = false

pub record SchemaVersion : Type 0 where
  pub major : ℕ
  pub minor : ℕ

unfoldable pub is_compatible_with : SchemaVersion → SchemaVersion → Bool
is_compatible_with v supported = v.major == supported.major && leb v.minor supported.minor

abbrev pub current_revision_schema_version : SchemaVersion
current_revision_schema_version = record { major = 1; minor = 2 }

abbrev pub max_change_summary_length : ℕ
max_change_summary_length = 2000

-- What `canonical_content` is made of. Of the action, the controls and the deployment, the parts
-- that no method here looks at are one text, `remainder`.
pub record RevisionContent : Type 0 where
  pub schema_version : SchemaVersion
  pub executor_type : ExecutorType
  pub environment : List EnvironmentBinding
  pub strategy : DeploymentStrategy
  pub activation_schedule : Option String
  pub remainder : String

pub record Revision : Type 0 where
  pub revision_id : String
  pub task_id : String
  pub revision_number : ℕ
  pub content : RevisionContent
  pub created_at : Timestamp
  pub created_by : String
  pub publication_state : PublicationState
  pub change_summary : String
  pub published_at : Option Timestamp
  pub published_by : Option String
  pub content_digest : Option String

-- `__post_init__`
unfoldable pub validate_revision : Revision → Result Revision
validate_revision r = do
  raise_if (ltb max_change_summary_length (len r.change_summary)) validation_failed
      "Change summary is too long."
  raise_if
      (is_some r.content.activation_schedule && not (carries_its_own_schedule r.content.strategy))
      validation_failed
      "A run-parts deployment takes its cadence from the directory, so this revision's schedule would be ignored. Remove the schedule, or choose a strategy that carries one."
  raise_if (is_frozen r.publication_state && not (is_some r.content_digest)) validation_failed
      "A frozen revision must carry a content digest. Without one its content cannot be verified or compared."
  raise_if
      (is_frozen r.publication_state
        && (not (is_some r.published_at) || not (is_some r.published_by)))
      validation_failed "A frozen revision must record when and by whom it was published."
  raise_if (not (is_frozen r.publication_state) && is_some r.content_digest) validation_failed
      "A draft revision must not carry a content digest: its content can still change, so any digest would immediately be a lie."
  ok r

-- `with_changes` of the content and the summary
unfoldable pub with_changes : Revision → RevisionContent → String → Result Revision
unfolding validate_revision
with_changes r content change_summary = do
  raise_if (not (is_draft r.publication_state)) domain_rule_violation
      "A published revision cannot be edited. Create a new revision instead — editing in place would change what past executions meant."
  validate_revision (record r { content = content; change_summary = change_summary })

unfoldable pub assert_publishable : Revision → Result (Unit {0})
unfolding is_compatible_with looks_like_an_inline_secret
assert_publishable r = do
  raise_if (not (is_implemented r.content.executor_type)) validation_failed
      "This executor type has no adapter in the current phase, so a published revision using it could never run."
  raise_if (not (is_compatible_with r.content.schema_version current_revision_schema_version))
      validation_failed "Revision schema version is not supported by this build."
  raise_if (any looks_like_an_inline_secret r.content.environment) validation_failed
      "This environment binding looks like an inline secret. Use a secret reference so the value is never stored, logged, or digested."

unfoldable pub supersede : Revision → Result Revision
unfolding validate_revision assert_legal_publication_transition
supersede r = do
  assert_legal_publication_transition r.publication_state superseded
  validate_revision (record r { publication_state = superseded })

unfoldable pub withdraw : Revision → Result Revision
unfolding validate_revision assert_legal_publication_transition
withdraw r = do
  assert_legal_publication_transition r.publication_state withdrawn
  validate_revision (record r { publication_state = withdrawn })

module _ (digest_of : RevisionContent → String) where
  unfoldable pub publish : Revision → String → Timestamp → Result Revision
  unfolding validate_revision assert_publishable assert_legal_publication_transition
  publish r published_by published_at = do
    assert_legal_publication_transition r.publication_state published
    assert_publishable r
    validate_revision (record r {
      publication_state = published;
      published_at = some published_at;
      published_by = some published_by;
      content_digest = some (digest_of r.content);
    })
