-- ===== src/Cron/Regions/Appending.antt =====
-- What is appended to a crontab, and where it starts
-- (src/taskcontrol/adapters/schedulers/cron/rendering.py).
use task_control.Cron.Regions.{append_to, separator}
use task_control.Prelude.{String, ◌≡◌, ◌≢◌, true, false, ◌<>◌, str_eq, eq_iff, Bool-cases, inl, inr}
use task_control.Text.Lines.{ends_with_newline}

-- An empty text becomes the new one. Otherwise the new one starts on a line of its own, so that a text
-- without a newline at its end gets one.
pub data IsAppended (content rendered : String) : String → Type 0 where
  to_nothing : content ≡ "" → IsAppended content rendered rendered
  behind_newline :
      content ≢ ""
      → ends_with_newline content ≡ true
      → IsAppended content rendered (content <> rendered)
  on_new_line :
      content ≢ ""
      → ends_with_newline content ≡ false
      → IsAppended content rendered (content <> "\n" <> rendered)

pub append_to-IsAppended :
    (content rendered : String) → IsAppended content rendered (append_to content rendered)
unfolding append_to separator
append_to-IsAppended content rendered = elim (Bool-cases (str_eq content "")) [
  | inl empty ↦ rw empty (to_nothing ((eq_iff content "").0 empty))
  | inr full ↦
      let not_empty : content ≢ "" = λ h. absurd (cc (full, (eq_iff content "").1 h)) in
      elim (Bool-cases (ends_with_newline content)) [
        | inl ends ↦ rw (full, ends) (behind_newline not_empty ends)
        | inr unended ↦ rw (full, unended) (on_new_line not_empty unended)
      ]
]
