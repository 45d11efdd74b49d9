-- ===== src/LocalFavorites/Merge.antt =====
-- What a plan keeps, and what it covers.
use ottplay_control_server.Prelude.{
  ◌≡◌, sym, ap, ◌∙◌, ◌&&◌, Option, some, List, [], ◌∷◌, length, leb, ok, guard, >>=-eq-ok,
  ok-injective, arith, All, inl, inr,
}
use ottplay_control_server.Json.Value.{Value, dict}
use ottplay_control_server.GlobalFavorites.Plan.{Mode, merge, replace}
use ottplay_control_server.LocalFavorites.Bounds.{invalid_document, Libraries}
use ottplay_control_server.LocalFavorites.Scopes.{Key, Scope, validate_document}
use ottplay_control_server.LocalFavorites.Plan.{
  find, bundle, Selection, Plan, select_documents, validate_all, current_value, first_scopes,
  plan_documents,
}
use ottplay_control_server.LocalFavorites.Sorted.{find-sort}
use ottplay_control_server.LocalFavorites.Valid.{
  IsOwn, validate_document-IsSortOf, validate_document-bundle, All-sort,
}
use ottplay_control_server.LocalFavorites.Selected.{
  started, Covers, DocumentSteps, select_documents-Steps, validate_all-IsOwn,
}

-- What a plan is made of: the saved document, the valid incoming ones, and the selection, which the
-- plan's document finds again.
record IsPlan (lib : Libraries) (mode : Mode) (current : Option Value) (incoming : List Value)
    (p : Plan) : Type 0 where
  original : List Scope
  documents : List (List Scope)
  chosen : Selection
  read : validate_document lib (current_value lib current) ≡ ok original
  reads : validate_all lib incoming ≡ ok documents
  steps : DocumentSteps lib documents (started lib mode original) chosen
  found : (k : Key) → find k p.document ≡ find k chosen.selected
  unresolved : p.summary.unresolved ≡ length chosen.conflicts

plan_documents-IsPlan :
    (lib : Libraries) (mode : Mode) (current : Option Value) (incoming : List Value) (p : Plan)
    → plan_documents lib mode current incoming ≡ ok p
    → IsPlan lib mode current incoming p
unfolding plan_documents
plan_documents-IsPlan lib mode current incoming p h =
    let (_, _, h₁) =
      >>=-eq-ok (guard (leb 1 (length incoming) && leb (length incoming) 64) invalid_document) _
        h in
    let (original, read, h₂) = >>=-eq-ok (validate_document lib (current_value lib current)) _ h₁ in
    let (documents, reads, h₃) = >>=-eq-ok (validate_all lib incoming) _ h₂ in
    let start = started lib mode original in
    let chosen = select_documents lib documents start in
    let (result, got, h₄) = >>=-eq-ok (validate_document lib (bundle chosen.selected)) _ h₃ in
    let steps =
      select_documents-Steps lib documents start
        (validate_all-IsOwn lib incoming documents reads) in
    let (ss, s) = validate_document-IsSortOf lib (current_value lib current) original read in
    let own = steps.grows.own (first mode original (rw s.made (All-sort lib ss s.own))) in
    let (distinct, made) = validate_document-bundle lib chosen.selected result own got in
    let same = ok-injective h₄ in
    record {
      original = original;
      documents = documents;
      chosen = chosen;
      read = read;
      reads = reads;
      steps = steps;
      found = λ k.
          ap (λ p. find k p.document) (sym same)
          ∙ ap (find k) made
          ∙ find-sort lib k chosen.selected distinct;
      unresolved = ap (λ p. p.summary.unresolved) (sym same);
    }
  where
    first :
        (mode : Mode) (original : List Scope)
        → All (IsOwn lib) original
        → All (IsOwn lib) (first_scopes lib mode original)
    first merge original h = h
    first replace original h = tt

-- A merge that gives a plan keeps every saved scope: the plan's document has the scope of the saved
-- document under the same key.
pub merge-keeps :
    (lib : Libraries) (current : Option Value) (incoming : List Value) (p : Plan)
    → plan_documents lib merge current incoming ≡ ok p
    → (original : List Scope) → validate_document lib (current_value lib current) ≡ ok original
    → (k : Key) (s : Scope) → find k original ≡ some s
    → find k p.document ≡ some s
merge-keeps lib current incoming p h original read k s f =
    let q = plan_documents-IsPlan lib merge current incoming p h in
    let same = ok-injective (sym read ∙ q.read) in q.found k ∙ q.steps.grows.kept k s (rw same at f)

-- The scope of the plan's document under the key of this one has the same JSON text.
abbrev pub Covered : Libraries → Plan → Scope → Type 0
Covered lib p s =
    (u : Scope) × (find s.key p.document ≡ some u)
    × (lib.json (dict u.fields) ≡ lib.json (dict s.fields))

Covered-all :
    (lib : Libraries) (mode : Mode) (current : Option Value) (incoming : List Value) (p : Plan)
    (q : IsPlan lib mode current incoming p)
    → p.summary.unresolved ≡ 0
    → (ss : List Scope) → All (λ s. Covers lib s q.chosen) ss
    → All (Covered lib p) ss
Covered-all lib mode current incoming p q none_left [] h = tt
Covered-all lib mode current incoming p q none_left (s ∷ ss) h =
    (one h.0, Covered-all lib mode current incoming p q none_left ss h.1)
  where
    one : Covers lib s q.chosen → Covered lib p s
    one (u, f, inl e) = (u, q.found s.key ∙ f, e)
    one (u, f, inr n) = absurd (omega (arith, q.unresolved, none_left))

Covered-documents :
    (lib : Libraries) (mode : Mode) (current : Option Value) (incoming : List Value) (p : Plan)
    (q : IsPlan lib mode current incoming p)
    → p.summary.unresolved ≡ 0
    → (ds : List (List Scope)) → All (All (λ s. Covers lib s q.chosen)) ds
    → All (All (Covered lib p)) ds
Covered-documents lib mode current incoming p q none_left [] h = tt
Covered-documents lib mode current incoming p q none_left (d ∷ ds) h = (
  Covered-all lib mode current incoming p q none_left d h.0,
  Covered-documents lib mode current incoming p q none_left ds h.1,
)

-- A plan, merge or replacement, without an unresolved conflict has every incoming scope, with its
-- JSON text, under its key.
pub plan-Covered :
    (lib : Libraries) (mode : Mode) (current : Option Value) (incoming : List Value) (p : Plan)
    → plan_documents lib mode current incoming ≡ ok p
    → p.summary.unresolved ≡ 0
    → (documents : List (List Scope)) → validate_all lib incoming ≡ ok documents
    → All (All (Covered lib p)) documents
plan-Covered lib mode current incoming p h none_left documents reads =
    let q = plan_documents-IsPlan lib mode current incoming p h in
    let same = ok-injective (sym q.reads ∙ reads) in
    rw same at
      (Covered-documents lib mode current incoming p q none_left q.documents q.steps.covers)
