-- ===== src/GlobalFavorites/Plan/Merge.antt =====
-- What a successful plan says of the destination and of the incoming rows.
use ottplay_control_server.Prelude.{
  ◌≡◌, ◌↔◌, ◌⊎◌, refl, ap, sym, ◌∙◌, true, some, List, [], ◌∷◌, ◌++◌, length, All, arith, ok, ◌==◌,
}
use ottplay_control_server.Text.{Text}
use ottplay_control_server.Dict.{Dict}
use ottplay_control_server.GlobalFavorites.Entry.{Entry}
use ottplay_control_server.GlobalFavorites.Document.{Document}
use ottplay_control_server.GlobalFavorites.Document.Valid.{IsValid}
use ottplay_control_server.GlobalFavorites.Plan.{
  Mode, merge, Conflict, Plan, start, first_rows, plan_valid,
}
use ottplay_control_server.GlobalFavorites.Plan.Find.{find}
use ottplay_control_server.GlobalFavorites.Plan.Steps.{
  all_rows, Present, Verbatim, Occurs, Steps-Extends, Steps-Present, Steps-Verbatim,
  Steps-conflicts, Steps-sources,
}
use ottplay_control_server.GlobalFavorites.Plan.Outcome.{plan_valid-Planned}

pub none_left : (d : Dict Conflict) → (length d == 0) ≡ true → d ≡ []
none_left [] h = refl
none_left (c ∷ d) h = absurd (ground arith)

start_conflicts : (rows : List Entry) → (start rows).conflicts ≡ []
unfolding start
start_conflicts rows = refl

start_selected : (rows : List Entry) → (start rows).selected ≡ rows
unfolding start
start_selected rows = refl

-- A plan of valid documents can be committed exactly when every incoming row stands in the planned
-- document with its own title.
pub plan-can_commit_iff :
    (m : Mode) (original : Document) (documents : List Document) (plan : Plan)
    → IsValid original
    → All IsValid documents
    → plan_valid m original documents ≡ ok plan
    → (plan.can_commit ≡ true) ↔ All (Verbatim plan.document.entries) (all_rows documents)
plan-can_commit_iff m original documents plan v vs h =
    let p = plan_valid-Planned m original documents plan v vs h in
    (
      λ yes_commit. rw p.entries (
          (Steps-Verbatim p.steps (none_left p.final.conflicts (sym p.can_commit ∙ yes_commit))).0),
      λ all.
          p.can_commit
          ∙ ap (λ (d : Dict Conflict). length d == 0)
              (Steps-conflicts p.steps (rw p.entries at all)
                ∙ start_conflicts (first_rows m original)),
    )

-- Whatever the mode, the identity of every incoming row is in the planned document.
pub plan-Present :
    (m : Mode) (original : Document) (documents : List Document) (plan : Plan)
    → IsValid original
    → All IsValid documents
    → plan_valid m original documents ≡ ok plan
    → All (Present plan.document.entries) (all_rows documents)
plan-Present m original documents plan v vs h =
    let p = plan_valid-Planned m original documents plan v vs h in
    rw p.entries (Steps-Present p.steps)

-- A merge keeps the destination's rows in front, in their order and with their titles.
pub merge_prefix :
    (original : Document) (documents : List Document) (plan : Plan)
    → IsValid original
    → All IsValid documents
    → plan_valid merge original documents ≡ ok plan
    → (extra : List Entry) × (plan.document.entries ≡ original.entries ++ extra)
merge_prefix original documents plan v vs h =
    let p = plan_valid-Planned merge original documents plan v vs h in
    let x = Steps-Extends p.steps in
    (x.extra, p.entries ∙ x.longer ∙ ap (λ es. es ++ x.extra) (start_selected original.entries))

-- The planned document invents nothing: each of its rows is a row that the plan started from (the
-- destination's in a merge, none in a replacement) or an incoming row, title included.
pub plan-sources :
    (m : Mode) (original : Document) (documents : List Document) (plan : Plan)
    → IsValid original
    → All IsValid documents
    → plan_valid m original documents ≡ ok plan
    → (k : Text) (e : Entry) → find k plan.document.entries ≡ some e
    → (find k (first_rows m original) ≡ some e) ⊎ Occurs e (all_rows documents)
plan-sources m original documents plan v vs h k e here =
    let p = plan_valid-Planned m original documents plan v vs h in
    rw start_selected at (Steps-sources p.steps k e (rw p.entries at here))
