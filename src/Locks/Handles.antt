-- ===== src/Locks/Handles.antt =====
-- What the methods of `ProcessLocalOverlapLock` do on every branch
-- (src/taskcontrol/adapters/locking/process_local.py).
use task_control.Errors.{ok}
use task_control.Locks.ProcessLocal.{
  Held, get, remove, lock_key, acquire, release, is_held, holder_of,
}
use task_control.Prelude.{
  String, ◌≡◌, ◌≢◌, true, false, none, some, [], ◌∷◌, arith, if◌then◌else◌, str_eq, eq_iff, eq_refl,
  Option-cases, inl, inr,
}
use task_control.Runtime.World.{LockHandle}

get-remove :
    (key j : String) (held : Held)
    → get j (remove key held) ≡ (if str_eq key j then none else get j held)
unfolding get remove
get-remove key j [] = ground arith
get-remove key j ((k, owner) ∷ held) =
    ground (arith, get-remove key j held, eq_iff k key, eq_iff k j, eq_iff key j)

release_other :
    (handle : LockHandle) (held : Held)
    → get handle.key held ≢ some handle.owner
    → release handle held ≡ (ok tt, held)
unfolding release
release_other handle held h = elim (Option-cases (get handle.key held)) [
  | inl n ↦ ground arith
  | inr (current, s) ↦
      let other : str_eq current handle.owner ≡ false =
        ground (arith, eq_iff current handle.owner) in
      ground arith
]

-- Neither method raises. A key that nobody holds is granted, and then its holder is the one that
-- asked; a key that somebody holds is refused and nothing changes. A release by the holder frees the
-- key; one by anybody else changes nothing. No other key is ever touched.
pub process_local_exact :
    (task_id owner : String) (handle : LockHandle) (held : Held) (j : String)
    → ((is_held task_id held ≡ false
          → ((acquire task_id owner held).0
              ≡ ok (some (record { key = lock_key task_id; owner = owner })))
            × (holder_of task_id (acquire task_id owner held).1 ≡ some owner))
        × (is_held task_id held ≡ true → acquire task_id owner held ≡ (ok none, held))
        × (j ≢ lock_key task_id → get j (acquire task_id owner held).1 ≡ get j held))
      × (((release handle held).0 ≡ ok tt)
          × (get handle.key held ≡ some handle.owner
              → get handle.key (release handle held).1 ≡ none)
          × (get handle.key held ≢ some handle.owner → release handle held ≡ (ok tt, held))
          × (j ≢ handle.key → get j (release handle held).1 ≡ get j held))
unfolding acquire release is_held holder_of get
process_local_exact task_id owner handle held j = (
  (
    λ h. ground (arith, eq_refl (lock_key task_id)),
    λ h. ground arith,
    λ n. ground (arith, eq_iff (lock_key task_id) j),
  ),
  (
    ground arith,
    λ h.
        ground
          (arith, eq_refl handle.owner, eq_refl handle.key, get-remove handle.key handle.key held),
    λ h. release_other handle held h,
    λ n. ground (arith, eq_iff handle.key j, get-remove handle.key j held),
  ),
)
