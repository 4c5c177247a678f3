-- ===== src/Claims/Exclusion.antt =====
-- Claims of several processes on one subject
-- (src/taskcontrol/adapters/persistence/claim_store.py).
use mathlib.Core.Path.{subst}
use task_control.Claims.Claim.{Claim}
use task_control.Claims.Changes.{renew_effect, release_effect, RenewEffect}
use task_control.Claims.Effects.{acquire_effect}
use task_control.Claims.Schedule.{
  System, init, update, after_renew, Step, waits, acquires, renews, releases, crashes, Reach, here,
  next, Lengthens, NeverShortens,
}
use task_control.Claims.Store.{Row, Table, read_row, holds, insert_or_take_over, renew, release}
use task_control.Errors.{Result}
use task_control.Prelude.{
  ℕ, ◌≤◌, ◌<◌, String, ◌≡◌, ◌≢◌, refl, sym, ◌∙◌, ◌⊎◌, Bool, true, Option, none, some, arith,
  if◌then◌else◌, str_eq, eq_iff, Option-cases, inl, inr, Bool-cases,
}
use task_control.Values.{Timestamp, add_duration}
use task_control.Claims.Soundness.{
  Backs, IsSound, waits-IsSound, crashes-IsSound, update_cases, acquires-IsSound, forgets-IsSound,
}

-- One row has been given another expiry by the process that holds its last token.
module _ (s : System) (i : ℕ) (c : Claim) (end : Timestamp) (row : Row) (t' : Table)
    (x : Option Claim) (v : IsSound s) (mine : s.held i ≡ some c)
    (stored : read_row c.subject s.table ≡ some row)
    (reads : (j : String)
      → read_row j t' ≡ (
          if str_eq c.subject j
          then some (record row { expires_at = end })
          else read_row j s.table))
    (told : (x ≡ none)
      ⊎ ((d : Claim) × (x ≡ some d)
          × (d.subject ≡ c.subject)
          × (d.fencing_token ≡ c.fencing_token)
          × (d.expires_at ≤ end)))
    (last : holds c row ≡ true) where
  reads_changed :
      (d : Claim)
      → d.subject ≡ c.subject
      → read_row d.subject t' ≡ some (record row { expires_at = end })
  reads_changed d same = ground (arith, reads d.subject, eq_iff c.subject d.subject)

  superseded :
      (j : ℕ) (d : Claim)
      → i ≢ j
      → s.held j ≡ some d
      → d.subject ≡ c.subject
      → (d.fencing_token < row.fencing_token) × (d.expires_at ≤ s.time)
  superseded j d other e same =
      let backed : Backs (some row) d s.time =
        subst (λ o. Backs o d s.time) stored
          (subst (λ k. Backs (read_row k s.table) d s.time) same (v.backed j d e)) in
      ground (arith, v.apart i j c d mine e (sym same))

  changed_backed :
      (j : ℕ) (d : Claim) → update s.held i x j ≡ some d → Backs (read_row d.subject t') d s.time
  changed_backed j d e = elim (update_cases s.held i x j d e) [
    | inl (_, new) ↦
        subst (λ o. Backs o d s.time) (sym (reads_changed d (ground arith))) (ground arith)
    | inr (other, old) ↦ elim (Bool-cases (str_eq c.subject d.subject)) [
      | inl eq ↦
          let same = sym ((eq_iff c.subject d.subject).0 eq) in
          subst (λ o. Backs o d s.time) (sym (reads_changed d same))
            (ground (arith, superseded j d other old same))
      | inr ne ↦ subst (λ o. Backs o d s.time) (sym (reads d.subject ∙ rw ne)) (v.backed j d old)
    ]
  ]

  changed_apart :
      (j k : ℕ) (d e : Claim)
      → update s.held i x j ≡ some d
      → update s.held i x k ≡ some e
      → d.subject ≡ e.subject
      → d.fencing_token ≡ e.fencing_token
      → j ≡ k
  changed_apart j k d e hd he same token =
      ground (arith, v.apart j k d e, v.apart i k c e mine, v.apart j i d c)

  changed-IsSound : IsSound (record s { table = t'; held = update s.held i x })
  changed-IsSound = record { backed = changed_backed; apart = changed_apart }

keeps-IsSound :
    (s : System) (i : ℕ) (c : Claim)
    → s.held i ≡ some c
    → IsSound s
    → IsSound (record s { held = update s.held i (some c) })
keeps-IsSound s i c mine v = record {
  backed = λ j d e. v.backed j d (unmoved j d e);
  apart = λ j k d e hd he same token. v.apart j k d e (unmoved j d hd) (unmoved k e he) same token;
}
  where
    unmoved : (j : ℕ) (d : Claim) → update s.held i (some c) j ≡ some d → s.held j ≡ some d
    unmoved j d e = elim (update_cases s.held i (some c) j d e) [
      | inl (at, new) ↦ subst (λ n. s.held n ≡ some d) at (mine ∙ new)
      | inr (_, old) ↦ old
    ]

-- what a process believes after a renewal that does not shorten its claim
believed :
    (c : Claim) (r : Result Claim) (end : Timestamp)
    → (after_renew c r ≡ c) ⊎ (after_renew c r ≡ record c { expires_at = end })
    → c.expires_at ≤ end
    → ((after_renew c r).subject ≡ c.subject)
      × ((after_renew c r).fencing_token ≡ c.fencing_token)
      × ((after_renew c r).expires_at ≤ end)
believed c r end told longer = ground (arith, told, longer)

renews-IsSound :
    (s : System) (i : ℕ) (c : Claim) (end : Timestamp) (x : Result Claim × Table)
    → RenewEffect c end s.table x
    → s.held i ≡ some c
    → c.expires_at ≤ end
    → IsSound s
    → IsSound (record s { table = x.1; held = update s.held i (some (after_renew c x.0)) })
renews-IsSound s i c end (r, t') (inl (lost, same)) mine longer v =
    rw (lost, same) (keeps-IsSound s i c mine v)
renews-IsSound s i c end (r, t') (inr (row, stored, last, reads, told)) mine longer v =
    let (subject, token, lasts) = believed c r end told longer in
    changed-IsSound s i c end row t' (some (after_renew c r)) v mine stored reads
      (inr (after_renew c r, refl, subject, token, lasts)) last

releases-IsSound :
    (s : System) (i : ℕ) (c : Claim) (reachable : Bool) (now : Timestamp)
    → s.held i ≡ some c
    → IsSound s
    → IsSound
        (record s { table = (release reachable now c s.table).1; held = update s.held i none })
releases-IsSound s i c reachable now mine v = elim (release_effect reachable now c s.table) [
  | inl same ↦ rw same (crashes-IsSound s i v)
  | inr reads ↦ elim (Option-cases (read_row c.subject s.table)) [
    | inl gone ↦ absurd (subst (λ o. Backs o c s.time) gone (v.backed i c mine))
    | inr (row, stored) ↦ elim (Bool-cases (holds c row)) [
      | inl last ↦
          changed-IsSound s i c now row (release reachable now c s.table).1 none v mine stored
            (λ j. ground (arith, reads j, eq_iff c.subject j)) (inl refl) last
      | inr lost ↦
          forgets-IsSound s i (release reachable now c s.table).1
            (λ j. ground (arith, reads j, eq_iff c.subject j)) v
    ]
  ]
]

Step-IsSound : {s t : System} (step : Step s t) → Lengthens step → IsSound s → IsSound t
Step-IsSound {s} (waits time h) l v = waits-IsSound s time h v
Step-IsSound {s} (acquires i read subject owner now end early) l v =
    acquires-IsSound s i subject now (insert_or_take_over read subject owner now end s.table) early
      (acquire_effect read subject owner now end s.table) v
Step-IsSound {s} (renews i c reachable now lease early mine) longer v =
    renews-IsSound s i c (add_duration now lease) (renew reachable now c lease s.table)
      (renew_effect now c lease s.table reachable) mine longer v
Step-IsSound {s} (releases i c reachable now early mine) l v =
    releases-IsSound s i c reachable now mine v
Step-IsSound {s} (crashes i) l v = crashes-IsSound s i v

Reach-IsSound : {s : System} (r : Reach init s) → NeverShortens r → IsSound s
unfolding read_row
Reach-IsSound here n = record { backed = λ i c e. cc; apart = λ i j c d e f same token. cc }
Reach-IsSound (next r st) n = Step-IsSound st n.1 (Reach-IsSound r n.0)

-- Mutual exclusion. Start from an empty table and let any number of processes claim, renew, release
-- and die in any order, each with a clock reading that may be old and each acting on a row that it
-- may have read long before, where no renewal asks for an expiry before the one that its process
-- believes in. A process whose claim or renewal raises goes on to believe what it did; one that
-- releases its claim or dies believes in none. If two processes believe in claims on one subject and
-- neither lease has ended, they are the same process.
pub mutual_exclusion :
    {s : System} (r : Reach init s)
    → NeverShortens r
    → (i j : ℕ) (c d : Claim) → s.held i ≡ some c
    → s.held j ≡ some d
    → c.subject ≡ d.subject
    → s.time < c.expires_at
    → s.time < d.expires_at
    → i ≡ j
mutual_exclusion {s} r n i j c d hc hd same live_c live_d =
    elim (Option-cases (read_row c.subject s.table)) [
      | inl gone ↦ absurd (subst (λ o. Backs o c s.time) gone (v.backed i c hc))
      | inr (row, stored) ↦
          let backed_c : Backs (some row) c s.time =
            subst (λ o. Backs o c s.time) stored (v.backed i c hc) in
          let backed_d : Backs (some row) d s.time =
            subst (λ o. Backs o d s.time) stored
              (subst (λ k. Backs (read_row k s.table) d s.time) (sym same) (v.backed j d hd)) in
          v.apart i j c d hc hd same (ground arith)
    ]
  where
    v : IsSound s
    v = Reach-IsSound r n
