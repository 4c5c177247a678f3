-- ===== src/Cron/Rendering.antt =====
-- `render_artefact` and its parts
-- (src/taskcontrol/adapters/schedulers/cron/rendering.py). Text in, text out.
use task_control.Cron.Artefact.{DesiredArtefact}
use task_control.Cron.Markers.{begin_marker, end_marker, member_comment}
use task_control.Deployment.Strategies.{
  DeploymentStrategy, run_parts_directory, cron_d_file, crontab_single_block, strategy_value,
  expresses_execution_user,
}
use task_control.Errors.{Result, ok, validation_error, ◌>>=◌}
use task_control.Prelude.{
  String, Bool, true, false, Option, none, some, List, [], ◌∷◌, ◌++◌, if◌then◌else◌, str_eq,
  is_blank, concat, ◌<>◌,
}
use task_control.Text.Lines.{join_lines, split, join_words}

abbrev pub default_system_user : String
default_system_user = "root"

abbrev pub generated_notice : String
generated_notice =
    "# Managed by TaskControl. Edits between the markers are overwritten on the next apply."

-- `value or default`, where an empty text counts as missing
unfoldable pub text_or_default : Option String → String → String
text_or_default none default = default
text_or_default (some value) default = if str_eq value "" then default else value

abbrev require : String → Option String → Result String
require message none = validation_error message
require message (some schedule) =
    if str_eq schedule "" then validation_error message else ok schedule

-- `_require_schedule`
unfoldable pub require_schedule : DesiredArtefact → Result String
require_schedule a =
    require
      (concat (
        "A '"
        ∷ strategy_value a.deployment.strategy
        ∷ "' artefact states when the work runs, so it needs a schedule. Give the revision a cron expression, or deploy it through a run-parts directory whose cadence comes from the directory."
        ∷ []))
      a.schedule

-- `_description_comment`
unfoldable pub description_comment : String → List String
unfolding is_blank split join_words
description_comment description =
    if is_blank description then [] else ("# " <> join_words (split description)) ∷ []

-- `_crontab_entry`
unfoldable pub crontab_entry : DesiredArtefact → Result String
unfolding require_schedule text_or_default concat
crontab_entry a = do
  schedule ← require_schedule a
  ok (
      if expresses_execution_user a.deployment.target
      then concat (
          schedule
          ∷ " "
          ∷ text_or_default a.deployment.execution_user default_system_user
          ∷ " "
          ∷ a.command
          ∷ [])
      else concat (schedule ∷ " " ∷ a.command ∷ []))

-- `_render_crontab_region`
unfoldable pub render_crontab_region : DesiredArtefact → Result String
unfolding crontab_entry description_comment begin_marker end_marker join_lines
render_crontab_region a = do
  entry ← crontab_entry a
  ok (
      join_lines
        (begin_marker a ∷ description_comment a.description ++ entry ∷ end_marker a.slug ∷ []))

-- `_render_cron_d_file`
unfoldable pub render_cron_d_file : DesiredArtefact → Result String
unfolding crontab_entry description_comment begin_marker end_marker join_lines
render_cron_d_file a = do
  entry ← crontab_entry a
  ok (
      join_lines (
        begin_marker a ∷ generated_notice ∷ description_comment a.description
        ++ entry ∷ end_marker a.slug ∷ []))

has_schedule : Option String → Bool
has_schedule none = false
has_schedule (some schedule) = if str_eq schedule "" then false else true

-- `_render_run_parts_script`
unfoldable pub render_run_parts_script : DesiredArtefact → Result String
unfolding has_schedule description_comment begin_marker end_marker join_lines
render_run_parts_script a =
    if has_schedule a.schedule
    then validation_error
        "A run-parts artefact takes its cadence from the directory, so a schedule here would be silently ignored."
    else ok (
        join_lines (
          "#!/bin/sh" ∷ begin_marker a ∷ generated_notice ∷ description_comment a.description
          ++ "set -eu" ∷ ("exec " <> a.command) ∷ end_marker a.slug ∷ []))

unfoldable pub render_block_member : DesiredArtefact → Result String
unfolding crontab_entry description_comment member_comment join_lines
render_block_member a = do
  entry ← crontab_entry a
  ok (join_lines (member_comment a ∷ description_comment a.description ++ entry ∷ []))

abbrev render_by : DeploymentStrategy → DesiredArtefact → Result String
render_by run_parts_directory a = render_run_parts_script a
render_by cron_d_file a = render_cron_d_file a
render_by crontab_single_block a = render_block_member a
render_by _ a = render_crontab_region a

unfoldable pub render_artefact : DesiredArtefact → Result String
render_artefact a = render_by a.deployment.strategy a
