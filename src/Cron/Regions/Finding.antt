-- ===== src/Cron/Regions/Finding.antt =====
-- Whatever text `find_managed_regions` accepts is a sequence of foreign lines and regions, and what it
-- returns are those regions.
use task_control.Cron.Markers.{Identity}
use task_control.Cron.Regions.{
  ManagedRegion, Reading, begins, ends, plain, read_line, Opening, close, scan, with_region,
}
use task_control.Cron.Regions.Pieces.{
  Piece, foreign, region, lines_of, regions_of, IsRead, IsPlain, closed, scan-foreign, scan-begin,
  scan-between, scan-end,
}
use task_control.Errors.{Result, ok, raise}
use task_control.Prelude.{
  ℕ, suc, ◌+◌, String, ◌≡◌, refl, ap, sym, ◌∙◌, ◌⊎◌, inl, inr, ◌≢◌, Option, none, some, List, [],
  ◌∷◌, ◌++◌, map, length, All, arith, eq_iff,
}
use mathlib.Core.List.{append_assoc, append-nil}
use mathlib.Core.Path.{subst}
use task_control.Text.Lines.{chop}

-- What is read, where no region is open and where one is.
abbrev pub Reads : ℕ → Option Opening → List String → List ManagedRegion → Type 0
Reads index none lines regions =
    (ps : List Piece) × (lines_of ps ≡ lines) × All IsRead ps × (regions_of index ps ≡ regions)
Reads index (some o) lines regions =
    (body : List String) × (last : String) × (ps : List Piece) × (body ++ last ∷ lines_of ps
      ≡ lines)
    × All IsPlain body
    × (read_line (chop last) ≡ ends o.identity.slug)
    × All IsRead ps
    × (closed o index body last ∷ regions_of (index + suc (length body)) ps ≡ regions)

-- What a line is, where the loop goes on.
Reading-cases :
    (r : Reading) → (r ≡ plain) ⊎ ((i : Identity) × (r ≡ begins i)) ⊎ ((s : String) × (r ≡ ends s))
Reading-cases plain = inl refl
Reading-cases (begins i) = inr (inl (i, refl))
Reading-cases (ends s) = inr (inr (s, refl))

module _ (line : String) (index : ℕ) (lines : List String) {regions : List ManagedRegion} where
  stray_end :
      (slug : String) → read_line line ≡ ends slug → scan index none (line ∷ lines) ≢ ok regions
  unfolding scan
  stray_end slug e h = ground (arith, e)

  pub nested_begin :
      (o : Opening) (identity : Identity)
      → read_line line ≡ begins identity
      → scan index (some o) (line ∷ lines) ≢ ok regions
  unfolding scan
  nested_begin o identity e h = ground (arith, e)

  same_end :
      (o : Opening) (slug : String)
      → read_line line ≡ ends slug
      → scan index (some o) (line ∷ lines) ≡ ok regions
      → slug ≡ o.identity.slug
  unfolding scan
  same_end o slug e h = ground (arith, e, eq_iff slug o.identity.slug)

pub with_region-ok :
    (r : ManagedRegion) (found : Result (List ManagedRegion)) {regions : List ManagedRegion}
    → with_region r found ≡ ok regions
    → (rest : List ManagedRegion) × (found ≡ ok rest) × (r ∷ rest ≡ regions)
with_region-ok r (ok rest) h = (rest, refl, ground (arith, h))
with_region-ok r (raise e) h = cc

-- a foreign line in front of what was read
Reads-foreign :
    (line : String) (index : ℕ) {lines : List String} {regions : List ManagedRegion}
    → IsPlain line
    → Reads (suc index) none lines regions
    → Reads index none (line ∷ lines) regions
Reads-foreign line index e (ps, whole, read, found) =
    (foreign line ∷ ps, ap (λ ls. line ∷ ls) whole, (e, read), found)

-- a begin marker in front of the rest of its region
Reads-begin :
    (line : String) (index : ℕ) (identity : Identity) {lines : List String}
    {regions : List ManagedRegion}
    → read_line (chop line) ≡ begins identity
    → Reads
        (suc index)
        (some (record { identity = identity; open_at = index; lines = chop line ∷ [] }))
        lines
        regions
    → Reads index none (line ∷ lines) regions
Reads-begin line index identity e (body, last, ps, whole, between, ending, read, found) =
    let ends_at : index + suc (length body) ≡ suc index + length body = omega arith in
    let next : index + suc (suc (length body)) ≡ suc index + suc (length body) = omega arith in
    (
      region identity line body last ∷ ps,
      ap (λ ls. line ∷ ls) (append_assoc body (last ∷ []) (lines_of ps) ∙ whole),
      ((e, between, ending), read),
      rw (ends_at, next) found,
    )

Reads-between :
    (line : String) (index : ℕ) (o : Opening) {lines : List String} {regions : List ManagedRegion}
    → IsPlain line
    → Reads (suc index) (some (record o { lines = o.lines ++ chop line ∷ [] })) lines regions
    → Reads index (some o) (line ∷ lines) regions
Reads-between line index o e (body, last, ps, whole, between, ending, read, found) =
    let ends_at : index + length (line ∷ body) ≡ suc index + length body = omega arith in
    let next : index + suc (length (line ∷ body)) ≡ suc index + suc (length body) = omega arith in
    (
      line ∷ body,
      last,
      ps,
      ap (λ ls. line ∷ ls) whole,
      (e, between),
      ending,
      read,
      rw (ends_at, next, ← append_assoc o.lines (chop line ∷ []) (map chop body)) found,
    )

Reads-end :
    (line : String) (index : ℕ) (o : Opening) {lines : List String} {rest : List ManagedRegion}
    → read_line (chop line) ≡ ends o.identity.slug
    → Reads (suc index) none lines rest
    → Reads index (some o) (line ∷ lines) (close o index (chop line) ∷ rest)
unfolding close
Reads-end line index o e (ps, whole, read, found) =
    let no_more : index + length {A = String} [] ≡ index = omega arith in
    let next : index + suc (length {A = String} []) ≡ suc index = omega arith in
    (
      [],
      line,
      ps,
      ap (λ ls. line ∷ ls) whole,
      tt,
      e,
      read,
      rw (no_more, next, append-nil, found) refl,
    )

pub scan-Reads :
    (index : ℕ) (opening : Option Opening) (lines : List String) {regions : List ManagedRegion}
    → scan index opening (map chop lines) ≡ ok regions
    → Reads index opening lines regions
unfolding scan
scan-Reads index none [] h = ([], refl, tt, ground (arith, h))
scan-Reads index (some o) [] h = cc
scan-Reads index none (line ∷ lines) h = elim (Reading-cases (read_line (chop line))) [
  | inl e ↦ Reads-foreign line index e (
      scan-Reads (suc index) none lines
        (sym (scan-foreign (chop line) index (map chop lines) e) ∙ h))
  | inr (inl (identity, e)) ↦ Reads-begin line index identity e (
      scan-Reads (suc index)
        (some (record { identity = identity; open_at = index; lines = chop line ∷ [] })) lines
        (sym (scan-begin (chop line) index (map chop lines) identity e) ∙ h))
  | inr (inr (slug, e)) ↦ absurd (stray_end (chop line) index (map chop lines) slug e h)
]
scan-Reads index (some o) (line ∷ lines) {regions} h =
    elim (Reading-cases (read_line (chop line))) [
      | inl e ↦ Reads-between line index o e (
          scan-Reads (suc index) (some (record o { lines = o.lines ++ chop line ∷ [] })) lines
            (sym (scan-between (chop line) index (map chop lines) o e) ∙ h))
      | inr (inl (identity, e)) ↦
          absurd (nested_begin (chop line) index (map chop lines) o identity e h)
      | inr (inr (slug, e)) ↦
          let e' : read_line (chop line) ≡ ends o.identity.slug =
            e ∙ ap ends (same_end (chop line) index (map chop lines) o slug e h) in
          let (rest, found, whole) =
            with_region-ok (close o index (chop line)) (scan (suc index) none (map chop lines))
              (sym (scan-end (chop line) index (map chop lines) o e') ∙ h) in
          subst (λ regions. Reads index (some o) (line ∷ lines) regions) whole
            (Reads-end line index o e' (scan-Reads (suc index) none lines found))
    ]
