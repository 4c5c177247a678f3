-- ===== src/Tests/Revisions.antt =====
-- A revision from its draft to its withdrawal.
use task_control.Errors.{ok, raise, error, validation_failed}
use task_control.Prelude.{String, ◌≡◌, refl, true, some, none, [], len}
use task_control.Tasks.Lifecycle.{
  PublicationState, published, withdrawn, is_legal_publication_transition,
}
use task_control.Tasks.Publication.{
  publishes, withdraws, Reach, here, next, IsFixed, published_content-IsFixed,
  draft_withdrawal_refused,
}
use task_control.Deployment.Strategies.{crontab_block_per_task}
use task_control.Tasks.Revision.{
  RevisionContent, Revision, shell, publish, withdraw, validate_revision, is_compatible_with,
}

abbrev nightly_content : RevisionContent
nightly_content = record {
  schema_version = record { major = 1; minor = 2 };
  executor_type = shell;
  environment = [];
  strategy = crontab_block_per_task;
  activation_schedule = some "0 3 * * *";
  remainder = "/usr/local/bin/backup";
}

abbrev nightly_draft : Revision
nightly_draft = record {
  revision_id = "r1";
  task_id = "t1";
  revision_number = 1;
  content = nightly_content;
  created_at = 1;
  created_by = "ann";
  publication_state = PublicationState.draft;
  change_summary = "";
  published_at = none;
  published_by = none;
  content_digest = none;
}

abbrev nightly_published : Revision
nightly_published = record nightly_draft {
  publication_state = published;
  published_at = some 5;
  published_by = some "ann";
  content_digest = some "/usr/local/bin/backup";
}

abbrev nightly_withdrawn : Revision
nightly_withdrawn = record nightly_published { publication_state = withdrawn }

abbrev plain_digest : RevisionContent → String
plain_digest c = c.remainder

publication : Reach plain_digest nightly_draft nightly_published
unfolding publish len is_compatible_with
publication = next here (publishes "ann" 5 refl)

withdrawal : Reach plain_digest nightly_published nightly_withdrawn
unfolding withdraw len
withdrawal = next here (withdraws refl)

published_content-IsFixed_example :
    IsFixed plain_digest nightly_published
    × (nightly_content ≡ nightly_content)
    × (some "/usr/local/bin/backup" ≡ some (plain_digest nightly_content))
published_content-IsFixed_example =
    published_content-IsFixed plain_digest {r = nightly_draft} refl refl publication refl withdrawal

draft_ok : validate_revision nightly_draft ≡ ok nightly_draft
unfolding validate_revision len
draft_ok = refl

draft_withdrawal_refused_example :
    (is_legal_publication_transition PublicationState.draft withdrawn ≡ true)
    × (withdraw nightly_draft
        ≡ raise (
            error validation_failed
              "A frozen revision must carry a content digest. Without one its content cannot be verified or compared."))
draft_withdrawal_refused_example = draft_withdrawal_refused nightly_draft refl draft_ok
