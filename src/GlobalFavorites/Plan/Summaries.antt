-- ===== src/GlobalFavorites/Plan/Summaries.antt =====
-- What the summary of a plan says.
use ottplay_control_server.Prelude.{
  ℕ, ◌+◌, ◌≡◌, refl, subst, ap, sym, ◌∙◌, true, List, ◌++◌, length, All, arith, ok,
}
use ottplay_control_server.GlobalFavorites.Entry.{Entry}
use ottplay_control_server.GlobalFavorites.Document.{Document}
use ottplay_control_server.GlobalFavorites.Document.Valid.{IsValid, identities}
use ottplay_control_server.Text.Members.{Unique}
use ottplay_control_server.GlobalFavorites.Plan.{Mode, merge, Plan, plan_valid, start, summarize}
use ottplay_control_server.GlobalFavorites.Plan.Steps.{all_rows, Steps-Verbatim}
use ottplay_control_server.GlobalFavorites.Plan.Outcome.{plan_valid-Planned}
use ottplay_control_server.GlobalFavorites.Plan.Merge.{merge_prefix, none_left}
use ottplay_control_server.GlobalFavorites.Plan.Counts.{
  IsBalanced, IsKept, summarize-IsBalanced, summarize-IsKept,
}

-- The counts of every plan are consistent: `before` and `after` are the sizes of the two documents,
-- what is retained and what is removed make up the first, and what is retained and what is added
-- the second.
pub plan-IsBalanced :
    (m : Mode) (original : Document) (documents : List Document) (plan : Plan)
    → IsValid original
    → All IsValid documents
    → plan_valid m original documents ≡ ok plan
    → IsBalanced original.entries plan.document.entries plan.summary
plan-IsBalanced m original documents plan v vs h =
    let p = plan_valid-Planned m original documents plan v vs h in
    rw p.summary (
      summarize-IsBalanced original.entries plan.document.entries p.final.duplicates
        (length p.final.conflicts) v.unique p.valid.unique)

-- A merge reports no row as removed, moved or retitled.
pub merge-IsKept :
    (original : Document) (documents : List Document) (plan : Plan)
    → IsValid original
    → All IsValid documents
    → plan_valid merge original documents ≡ ok plan
    → IsKept plan.summary
merge-IsKept original documents plan v vs h =
    let p = plan_valid-Planned merge original documents plan v vs h in
    let (extra, longer) = merge_prefix original documents plan v vs h in
    let unique : Unique (identities (original.entries ++ extra)) = rw (← longer) p.valid.unique in
    let same : summarize original.entries (original.entries ++ extra) p.final.duplicates
          (length p.final.conflicts)
        ≡ plan.summary =
      ap (λ es. summarize original.entries es p.final.duplicates (length p.final.conflicts))
        (sym longer)
      ∙ sym p.summary in
    subst IsKept same
      (summarize-IsKept original.entries extra p.final.duplicates (length p.final.conflicts) unique)

skipped_lem : (es fs : List Entry) (n c : ℕ) → (summarize es fs n c).skipped_duplicates ≡ n
unfolding summarize
skipped_lem es fs n c = refl

start_counts : (rows : List Entry) → ((start rows).duplicates ≡ 0) × ((start rows).selected ≡ rows)
unfolding start
start_counts rows = (refl, refl)

-- In a merge that can be committed every incoming row is either added or counted as a duplicate.
pub merge_accounts :
    (original : Document) (documents : List Document) (plan : Plan)
    → IsValid original
    → All IsValid documents
    → plan_valid merge original documents ≡ ok plan
    → plan.can_commit ≡ true
    → plan.summary.added + plan.summary.skipped_duplicates ≡ length (all_rows documents)
merge_accounts original documents plan v vs h commit =
    let p = plan_valid-Planned merge original documents plan v vs h in
    let b = plan-IsBalanced merge original documents plan v vs h in
    let k = merge-IsKept original documents plan v vs h in
    let steps = Steps-Verbatim p.steps (none_left p.final.conflicts (sym p.can_commit ∙ commit)) in
    let skipped =
      ap (λ s. s.skipped_duplicates) p.summary
      ∙ skipped_lem original.entries plan.document.entries p.final.duplicates
          (length p.final.conflicts) in
    let (none_before, rows_before) = start_counts original.entries in
    omega (
      arith,
      steps.1,
      skipped,
      b.before,
      b.after,
      b.lost,
      b.gained,
      k.removed,
      ap length p.entries,
      none_before,
      ap length rows_before,
    )
