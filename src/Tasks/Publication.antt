-- ===== src/Tasks/Publication.antt =====
-- Revisions before and after their publication (src/taskcontrol/domain/tasks/revision.py).
use task_control.Errors.{ok, raise, error, validation_failed}
use task_control.Prelude.{
  String, ◌≡◌, refl, ◌∙◌, ◌⊎◌, true, false, none, some, arith, any, inl, inr,
}
use task_control.Tasks.Lifecycle.{
  PublicationState, withdrawn, is_draft, is_frozen, is_legal_publication_transition,
}
use task_control.Tasks.Revision.{
  RevisionContent, Revision, validate_revision, with_changes, publish, supersede, withdraw,
  is_implemented, is_compatible_with, current_revision_schema_version, assert_publishable,
}
use task_control.Tasks.Secrets.{looks_like_an_inline_secret}
use task_control.Values.{Timestamp}

module _ (digest_of : RevisionContent → String) where
  -- One successful call.
  pub data Step (r s : Revision) : Type 0 where
    changes : (c : RevisionContent) (x : String) → with_changes r c x ≡ ok s → Step r s
    publishes : (by : String) (t : Timestamp) → publish digest_of r by t ≡ ok s → Step r s
    supersedes : supersede r ≡ ok s → Step r s
    withdraws : withdraw r ≡ ok s → Step r s

  pub data Reach (r : Revision) : Revision → Type 0 where
    here : Reach r r
    next : {s t : Revision} → Reach r s → Step s t → Reach r t

  -- what holds of a revision that is no draft any more
  pub record IsFixed (r : Revision) : Type 0 where
    pub frozen : is_frozen r.publication_state ≡ true
    pub digest_matches : r.content_digest ≡ some (digest_of r.content)
    pub runnable : is_implemented r.content.executor_type ≡ true
    pub readable :
        is_compatible_with r.content.schema_version current_revision_schema_version ≡ true
    pub no_secret : any looks_like_an_inline_secret r.content.environment ≡ false

  -- a draft, or a fixed revision with the content `c`
  abbrev pub IsDraftOrFixed : Revision → Type 0
  IsDraftOrFixed r = ((is_draft r.publication_state ≡ true) × (r.content_digest ≡ none)) ⊎ IsFixed r

  Step-IsFixed :
      {r s : Revision}
      → Step r s
      → IsFixed r
      → IsFixed s × (s.content ≡ r.content) × (s.content_digest ≡ r.content_digest)
  unfolding with_changes publish supersede withdraw
  Step-IsFixed (changes c x h) f = ground arith
  Step-IsFixed (publishes by t h) f = ground arith
  Step-IsFixed (supersedes h) f = ground arith
  Step-IsFixed (withdraws h) f = ground arith

  Step-IsDraftOrFixed : {r s : Revision} → Step r s → IsDraftOrFixed r → IsDraftOrFixed s
  unfolding with_changes publish supersede withdraw assert_publishable
  Step-IsDraftOrFixed s (inr f) = inr (Step-IsFixed s f).0
  Step-IsDraftOrFixed (changes c x h) (inl d) = ground arith
  Step-IsDraftOrFixed (publishes by t h) (inl d) = ground arith
  Step-IsDraftOrFixed (supersedes h) (inl d) = ground arith
  Step-IsDraftOrFixed (withdraws h) (inl d) = ground arith

  Reach-IsDraftOrFixed : {r s : Revision} → Reach r s → IsDraftOrFixed r → IsDraftOrFixed s
  Reach-IsDraftOrFixed here d = d
  Reach-IsDraftOrFixed (next r s) d = Step-IsDraftOrFixed s (Reach-IsDraftOrFixed r d)

  Reach-IsFixed :
      {r s : Revision}
      → Reach r s
      → IsFixed r
      → IsFixed s × (s.content ≡ r.content) × (s.content_digest ≡ r.content_digest)
  Reach-IsFixed here f = (f, refl, refl)
  Reach-IsFixed (next r s) f =
      let (g, content, digest) = Reach-IsFixed r f in
      let (h, content', digest') = Step-IsFixed s g in (h, content' ∙ content, digest' ∙ digest)

  -- Start from a draft and make any calls, where `with_changes` is given content and a summary. Once the revision is no draft any more, its content was
  -- publishable (an implemented executor, a schema version that this build reads, no environment
  -- binding that looks like an inline secret) and its digest is that of its content; and no later
  -- call changes the content or the digest.
  pub published_content-IsFixed :
      {r s t : Revision}
      → is_draft r.publication_state ≡ true
      → r.content_digest ≡ none
      → Reach r s
      → is_frozen s.publication_state ≡ true
      → Reach s t
      → IsFixed s × (t.content ≡ s.content) × (t.content_digest ≡ some (digest_of s.content))
  published_content-IsFixed {r} {s} {t} d n before frozen after =
      let fixed : IsFixed s = elim (Reach-IsDraftOrFixed before (inl (d, n))) [
        | inl (draft, _) ↦ ground arith
        | inr f ↦ f
      ] in
      let (_, content, digest) = Reach-IsFixed after fixed in
      (fixed, content, digest ∙ fixed.digest_matches)

-- The diagram lets a draft be withdrawn, and yet `withdraw` never works on one: a draft has no digest,
-- and the constructor refuses a withdrawn revision without one.
pub draft_withdrawal_refused :
    (r : Revision)
    → r.publication_state ≡ PublicationState.draft
    → validate_revision r ≡ ok r
    → (is_legal_publication_transition r.publication_state withdrawn ≡ true)
      × (withdraw r
          ≡ raise (
              error validation_failed
                "A frozen revision must carry a content digest. Without one its content cannot be verified or compared."))
unfolding withdraw
draft_withdrawal_refused r d v = (ground arith, ground arith)
