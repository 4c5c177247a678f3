-- ===== src/Locks/ProcessLocal.antt =====
-- `ProcessLocalOverlapLock` (src/taskcontrol/adapters/locking/process_local.py). Each method holds
-- the mutex from its first read to its last write, so it is one step; logging is left out.
use task_control.Errors.{Result, ok}
use task_control.Prelude.{
  String, Bool, Option, none, some, List, [], ◌∷◌, if◌then◌else◌, str_eq, concat, is_some,
}
use task_control.Runtime.World.{LockHandle, OverlapLock}

-- `dict[str, str]` from the key to its owner
abbrev pub Held : Type 0
Held = List (String × String)

-- `dict.get`
unfoldable pub get : String → Held → Option String
get key [] = none
get key ((k, owner) ∷ held) = if str_eq k key then some owner else get key held

-- `del held[key]`, for a key that is there
unfoldable pub remove : String → Held → Held
remove key [] = []
remove key ((k, owner) ∷ held) =
    let rest = remove key held in if str_eq k key then rest else (k, owner) ∷ rest

-- `_key`
unfoldable pub lock_key : String → String
lock_key task_id = concat ("task:" ∷ task_id ∷ [])

-- `try_acquire`
unfoldable pub acquire : String → String → Held → Result (Option LockHandle) × Held
unfolding get lock_key
acquire task_id owner held = elim (get (lock_key task_id) held) [
  | some existing ↦ (ok none, held)
  | none ↦ (
    ok (some (record { key = lock_key task_id; owner = owner })),
    (lock_key task_id, owner) ∷ held,
  )
]

-- `release`
unfoldable pub release : LockHandle → Held → Result (Unit {0}) × Held
unfolding get remove
release handle held = elim (get handle.key held) [
  | none ↦ (ok tt, held)
  | some current ↦
      if str_eq current handle.owner then (ok tt, remove handle.key held) else (ok tt, held)
]

-- `is_held`
unfoldable pub is_held : String → Held → Bool
unfolding get lock_key
is_held task_id held = is_some (get (lock_key task_id) held)

-- `holder_of`
unfoldable pub holder_of : String → Held → Option String
unfolding get lock_key
holder_of task_id held = get (lock_key task_id) held

abbrev pub process_local_lock : OverlapLock Held
process_local_lock = record {
  scope_description = "this TaskControl process only";
  try_acquire = acquire;
  release = release;
}
