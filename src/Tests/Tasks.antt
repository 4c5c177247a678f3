-- ===== src/Tests/Tasks.antt =====
-- A task from its creation to the archive.
use task_control.Errors.{ok}
use task_control.Prelude.{◌≡◌, refl, some, none, [], len, is_blank}
use task_control.Tasks.Availability.{IsValid, Step, activates, here, next, triggered_task_runnable}
use task_control.Tasks.Lifecycle.{TaskLifecycleState, active, archived}
use task_control.Tasks.Task.{Task, NewTask, Change, create, activate_revision}

abbrev pub backup_data : NewTask
backup_data = record {
  task_id = "t1";
  name = "Backup";
  slug = "backup";
  owner_id = "ops";
  created_by = "ann";
  created_at = 1;
  description = "";
  labels = [];
}

abbrev by_ann : Change
by_ann = record { updated_by = "ann"; updated_at = 2 }

abbrev backup : Task
backup = record {
  task_id = "t1";
  name = "Backup";
  slug = "backup";
  owner_id = "ops";
  created_at = 1;
  created_by = "ann";
  description = "";
  lifecycle_state = TaskLifecycleState.draft;
  active_revision_id = none;
  labels = [];
  updated_at = none;
  updated_by = none;
}

abbrev pub live_backup : Task
live_backup = record backup {
  lifecycle_state = active;
  active_revision_id = some "r1";
  updated_at = some 2;
  updated_by = some "ann";
}

abbrev old_backup : Task
old_backup = record live_backup { lifecycle_state = archived }

created : create backup_data ≡ ok backup
unfolding create len is_blank
created = refl

activated : Step backup live_backup
unfolding activate_revision len is_blank
activated = activates "r1" by_ann refl

triggered_task_runnable_example : IsValid live_backup
triggered_task_runnable_example = triggered_task_runnable backup_data created (next here activated)
