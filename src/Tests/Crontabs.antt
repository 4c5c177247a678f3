-- ===== src/Tests/Crontabs.antt =====
-- A crontab with one foreign line, and a nightly backup that is deployed in it.
use task_control.Cron.Block.Entries.{block_with, IsUpserted, AreOthers, IsBlockOf}
use task_control.Cron.Regions.Appending.{IsAppended}
use task_control.Cron.Artefact.{DesiredArtefact}
use task_control.Cron.Block.{
  find_block_members, upsert_block_member, remove_block_member, BlockMember, read_block_line,
  block_bounds, assert_members_unique, members_in, inside,
}
use task_control.Cron.Block.Swallowing.{foreign_line_is_lost}
use task_control.Cron.Block.Writing.{Writes, upsert_exact, remove_member_exact}
use task_control.Cron.Markers.{block_begin_marker, block_end_marker, match_member, starts_with_hash}
use task_control.Cron.Regions.{
  ManagedRegion, find_managed_regions, replace_region, remove_region, append_to, read_line,
  region_of,
}
use task_control.Cron.Regions.Deploying.{IsDeployed, deploy-IsDeployed}
use task_control.Cron.Regions.Exactly.{IsSequence, find_exact}
use task_control.Cron.Regions.Forging.{description_forges_marker}
use task_control.Cron.Regions.Pieces.{Piece, regions_of}
use task_control.Cron.Regions.Registry.{install, registry}
use task_control.Cron.Regions.Rendered.{IsDeployable}
use task_control.Cron.Regions.Rewriting.{Rewrites, replace_exact}
use task_control.Cron.Regions.Undeploying.{deploy_then_remove}
use task_control.Cron.Rendering.{
  render_artefact, render_crontab_region, crontab_entry, description_comment,
}
use task_control.Deployment.Strategies.{
  DeploymentSpecification, crontab_block_per_task, user_crontab,
}
use task_control.Errors.{ok}
use task_control.Prelude.{
  String, ◌≡◌, ◌≢◌, ◌↔◌, refl, none, some, true, List, [], ◌∷◌, inr, is_blank,
}
use task_control.Text.Lines.{has_no_break, has_no_space, ends_with_newline, join_lines, splitlines}

abbrev nightly_deployment : DeploymentSpecification
nightly_deployment = record {
  strategy = crontab_block_per_task;
  target = user_crontab;
  classification = none;
  execution_user = none;
}

abbrev nightly : DesiredArtefact
nightly = record {
  task_id = "task_1";
  slug = "nightly";
  deployment = nightly_deployment;
  command = "taskctl activate nightly";
  content_digest = "sha256:ab";
  schedule = some "0 2 * * *";
  description = "Backs up\nthe disk";
}

abbrev nightly_entry : String
nightly_entry = "0 2 * * * taskctl activate nightly"

abbrev nightly_text : String
nightly_text =
    "# >>> taskcontrol task=nightly id=task_1 digest=sha256:ab >>>\n# Backs up the disk\n0 2 * * * taskctl activate nightly\n# <<< taskcontrol task=nightly <<<\n"

abbrev nightly_region : ManagedRegion
nightly_region = record {
  slug = "nightly";
  task_id = "task_1";
  digest = "sha256:ab";
  start = 0;
  end = 3;
  lines =
      "# >>> taskcontrol task=nightly id=task_1 digest=sha256:ab >>>" ∷ "# Backs up the disk"
      ∷ nightly_entry ∷ "# <<< taskcontrol task=nightly <<<" ∷ [];
}

rendered_nightly : render_artefact nightly ≡ ok nightly_text
unfolding render_artefact render_crontab_region
rendered_nightly = refl

found_nightly : find_managed_regions nightly_text ≡ ok (nightly_region ∷ [])
unfolding find_managed_regions
found_nightly = refl

-- a region is appended behind a newline, and one that is there is replaced
appended_nightly : replace_region "MAILTO=ops" "nightly" "new\n" ≡ ok "MAILTO=ops\nnew\n"
unfolding replace_region find_managed_regions region_of append_to
appended_nightly = refl

nightly-IsDeployable : IsDeployable nightly nightly_entry
unfolding has_no_space crontab_entry has_no_break starts_with_hash read_line description_comment
nightly-IsDeployable = record {
  slug = refl;
  task_id = refl;
  digest = refl;
  scheduled = refl;
  one_line = refl;
  no_comment = refl;
  no_marker = (refl, tt);
}

abbrev foreign_text : String
foreign_text = "MAILTO=ops\n"

foreign_found : find_managed_regions foreign_text ≡ ok []
unfolding find_managed_regions
foreign_found = refl

foreign_ends : ends_with_newline foreign_text ≡ true
unfolding ends_with_newline
foreign_ends = refl

deploy-IsDeployed_example : IsDeployed nightly foreign_text []
unfolding install registry
deploy-IsDeployed_example =
    deploy-IsDeployed nightly nightly_entry foreign_text [] nightly-IsDeployable (inr foreign_ends)
      foreign_found (tt, tt)

deploy_then_remove_example :
    (text : String) × (updated : String) × (render_crontab_region nightly ≡ ok text)
    × (replace_region foreign_text "nightly" text ≡ ok updated)
    × (remove_region updated "nightly" ≡ ok foreign_text)
unfolding install region_of registry
deploy_then_remove_example =
    deploy_then_remove nightly nightly_entry foreign_text [] nightly-IsDeployable (inr foreign_ends)
      foreign_found refl (tt, tt)

find_exact_example :
    (find_managed_regions nightly_text ≡ ok (nightly_region ∷ []))
    ↔ ((ps : List Piece) × IsSequence nightly_text ps × (regions_of 0 ps ≡ nightly_region ∷ []))
find_exact_example = find_exact nightly_text (nightly_region ∷ [])

replace_exact_example :
    Rewrites nightly_text "nightly" "new\n"
      (IsAppended nightly_text "new\n")
      (replace_region nightly_text "nightly" "new\n")
replace_exact_example = replace_exact nightly_text "nightly" "new\n"

-- A description that opens a second region.
abbrev forging : DesiredArtefact
forging = record nightly { description = ">>> taskcontrol task=a id=b digest=c >>>" }

description_forges_marker_example :
    (text : String) × (render_crontab_region forging ≡ ok text)
    × ((slug updated : String) → remove_region text slug ≢ ok updated)
unfolding has_no_space crontab_entry has_no_break is_blank read_line description_comment
description_forges_marker_example =
    description_forges_marker forging nightly_entry
      (record { slug = "a"; task_id = "b"; digest = "c" }) refl refl refl refl refl refl refl

-- The block with one entry.
abbrev block_content : String
block_content =
    "MAILTO=ops\n# >>> taskcontrol block >>>\n# Managed by TaskControl. Edits between the markers are overwritten on the next apply.\n# taskcontrol task=nightly id=task_1 digest=sha256:ab\n# Backs up the disk\n0 2 * * * taskctl activate nightly\n# <<< taskcontrol block <<<\n"

abbrev nightly_member : BlockMember
nightly_member = record {
  slug = "nightly";
  task_id = "task_1";
  digest = "sha256:ab";
  lines =
      "# taskcontrol task=nightly id=task_1 digest=sha256:ab" ∷ "# Backs up the disk"
      ∷ nightly_entry ∷ [];
}

block_members : find_block_members block_content ≡ ok (nightly_member ∷ [])
unfolding find_block_members block_bounds splitlines read_block_line assert_members_unique
    members_in inside match_member
block_members = refl

upsert_exact_example :
    Writes block_content
      (λ text. IsAppended block_content (block_with ("new\n" ∷ [])) text)
      (λ members text.
        (entries : List String) × IsUpserted "other" "new\n" members entries
        × (text ≡ block_with entries))
      (upsert_block_member block_content "other" "new\n")
upsert_exact_example = upsert_exact block_content "other" "new\n"

remove_member_exact_example :
    Writes block_content
      (λ text. text ≡ block_content)
      (λ members text.
        (entries : List String) × AreOthers "nightly" members entries × IsBlockOf entries text)
      (remove_block_member block_content "nightly")
remove_member_exact_example = remove_member_exact block_content "nightly"

foreign_line_is_lost_example :
    remove_block_member
      (join_lines (block_begin_marker ∷ block_end_marker ∷ "MAILTO=ops" ∷ block_end_marker ∷ []))
      "nightly"
    ≡ ok ""
unfolding has_no_break read_block_line match_member
foreign_line_is_lost_example = foreign_line_is_lost "MAILTO=ops" "nightly" refl refl refl
