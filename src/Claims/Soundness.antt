-- ===== src/Claims/Soundness.antt =====
-- What the claim table says of the claims that processes believe in, and that claiming keeps it so
-- (src/taskcontrol/adapters/persistence/claim_store.py).
use mathlib.Core.Path.{subst}
use task_control.Claims.Claim.{Claim}
use task_control.Claims.Effects.{Follows, Grants, row_of, AcquireEffect}
use task_control.Claims.Schedule.{System, update, after_acquire}
use task_control.Claims.Store.{Row, Table, read_row}
use task_control.Errors.{Result}
use task_control.Prelude.{
  ℕ, ◌≤◌, ◌<◌, String, ◌≡◌, ◌≢◌, sym, ◌∙◌, ◌⊎◌, Option, none, some, arith, str_eq, eq_iff, inl, inr,
  Bool-cases,
}
use task_control.Values.{Timestamp}

-- What the table says of a claim that somebody believes in: its token was given out, and if it is
-- the last one given out then the stored lease lasts at least as long, else the lease has ended.
abbrev pub Backs : Option Row → Claim → Timestamp → Type 0
Backs none c time = ⊥
Backs (some row) c time =
    (c.fencing_token ≤ row.fencing_token)
    × (c.fencing_token ≡ row.fencing_token → c.expires_at ≤ row.expires_at)
    × (c.fencing_token < row.fencing_token → c.expires_at ≤ time)

pub record IsSound (s : System) : Type 0 where
  pub backed : (i : ℕ) (c : Claim) → s.held i ≡ some c → Backs (read_row c.subject s.table) c s.time
  pub apart :
      (i j : ℕ) (c d : Claim)
      → s.held i ≡ some c
      → s.held j ≡ some d
      → c.subject ≡ d.subject
      → c.fencing_token ≡ d.fencing_token
      → i ≡ j

Backs-later :
    (o : Option Row) (c : Claim) (time later : Timestamp)
    → time ≤ later
    → Backs o c time
    → Backs o c later
Backs-later none c time later h b = b
Backs-later (some row) c time later h b = omega arith

pub waits-IsSound :
    (s : System) (time : Timestamp) → s.time ≤ time → IsSound s → IsSound (record s { time = time })
waits-IsSound s time h v = record {
  backed = λ i c e. Backs-later (read_row c.subject s.table) c s.time time h (v.backed i c e);
  apart = v.apart;
}

pub crashes-IsSound :
    (s : System) (i : ℕ) → IsSound s → IsSound (record s { held = update s.held i none })
crashes-IsSound s i v = record {
  backed = λ j c e. ground (arith, v.backed j c);
  apart = λ j k c d e f. ground (arith, v.apart j k c d);
}

pub update_cases :
    (held : ℕ → Option Claim) (i : ℕ) (x : Option Claim) (j : ℕ) (d : Claim)
    → update held i x j ≡ some d
    → ((i ≡ j) × (x ≡ some d)) ⊎ ((i ≢ j) × (held j ≡ some d))
update_cases held i x j d e = ground arith

-- A token that follows the table's is behind every token that the table backs.
Follows-Backs :
    (o : Option Row) (c d : Claim) (now time : Timestamp)
    → now ≤ time
    → Follows o c now
    → Backs o d time
    → (d.fencing_token < c.fencing_token) × (d.expires_at ≤ time)
Follows-Backs none c d now time h f b = absurd b
Follows-Backs (some row) c d now time h f b = ground arith

module _ (s : System) (i : ℕ) (subject : String) (now : Timestamp) (early : now ≤ s.time)
    (v : IsSound s) (t' : Table) (c : Claim) (g : Grants subject now s.table t' c) where
  older :
      (j : ℕ) (d : Claim)
      → s.held j ≡ some d
      → d.subject ≡ subject
      → (d.fencing_token < c.fencing_token) × (d.expires_at ≤ s.time)
  older j d e same =
      Follows-Backs (read_row subject s.table) c d now s.time early g.follows
        (subst (λ k. Backs (read_row k s.table) d s.time) same (v.backed j d e))

  reads_new : (d : Claim) → d.subject ≡ subject → read_row d.subject t' ≡ some (row_of c)
  reads_new d same = ground (arith, g.reads d.subject, eq_iff subject d.subject)

  granted_backed :
      (j : ℕ) (d : Claim)
      → update s.held i (some c) j ≡ some d
      → Backs (read_row d.subject t') d s.time
  granted_backed j d e = elim (update_cases s.held i (some c) j d e) [
    | inl (_, new) ↦ subst (λ o. Backs o d s.time) (sym (reads_new d (ground arith))) (ground arith)
    | inr (_, old) ↦ elim (Bool-cases (str_eq subject d.subject)) [
      | inl same ↦
          let at = (eq_iff subject d.subject).0 same in
          subst (λ o. Backs o d s.time) (sym (reads_new d (sym at)))
            (ground (arith, older j d old (sym at)))
      | inr other ↦
          subst (λ o. Backs o d s.time) (sym (g.reads d.subject ∙ rw other)) (v.backed j d old)
    ]
  ]

  granted_apart :
      (j k : ℕ) (d e : Claim)
      → update s.held i (some c) j ≡ some d
      → update s.held i (some c) k ≡ some e
      → d.subject ≡ e.subject
      → d.fencing_token ≡ e.fencing_token
      → j ≡ k
  granted_apart j k d e hd he same token =
      ground (arith, older j d, older k e, v.apart j k d e, g.of_subject)

  granted-IsSound : IsSound (record s { table = t'; held = update s.held i (some c) })
  granted-IsSound = record { backed = granted_backed; apart = granted_apart }

pub acquires-IsSound :
    (s : System) (i : ℕ) (subject : String) (now : Timestamp) (x : Result (Option Claim) × Table)
    → now ≤ s.time
    → AcquireEffect subject now s.table x
    → IsSound s
    → IsSound (record s { table = x.1; held = after_acquire s.held i x.0 })
acquires-IsSound s i subject now (r, t') early (inl (same_held, same_table)) v =
    rw (same_held s.held i, same_table) v
acquires-IsSound s i subject now (r, t') early (inr (c, granted, g)) v =
    rw granted (granted-IsSound s i subject now early v t' c g)

-- The table reads as before, and a process has forgotten its claim.
pub forgets-IsSound :
    (s : System) (i : ℕ) (t' : Table)
    → ((j : String) → read_row j t' ≡ read_row j s.table)
    → IsSound s
    → IsSound (record s { table = t'; held = update s.held i none })
forgets-IsSound s i t' reads v = record {
  backed =
      λ j d e. subst (λ o. Backs o d s.time) (sym (reads d.subject)) (ground (arith, v.backed j d));
  apart = λ j k d e hd he. ground (arith, v.apart j k d e);
}
