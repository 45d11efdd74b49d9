-- ===== src/GlobalItems/Listing/Pages.antt =====
-- The pages of a listing: all of one revision, and nothing is lost between them.
use ottplay_control_server.Prelude.{
  ℕ, suc, zero, ◌≡◌, ◌≤◌, refl, sym, ap, ◌∙◌, not, Option, none, some, List, [], ◌∷◌, ◌++◌, ◌==◌,
  length, All, Result, ok, ◌>>◌, guard, guard-eq-ok, >>=-eq-ok, ok-injective, arith, append-nil,
  append_assoc,
}
use ottplay_control_server.Text.{Text, text_eq_iff, elem}
use ottplay_control_server.Text.Members.{Unique}
use ottplay_control_server.GlobalFavorites.Entry.{Entry}
use ottplay_control_server.GlobalFavorites.Document.{max_entries}
use ottplay_control_server.GlobalFavorites.Document.Size.{canonical_size-eq}
use ottplay_control_server.GlobalFavorites.Document.Valid.{IsValid}
use ottplay_control_server.GlobalItems.Page.{
  Failure, invalid_response, Row, Page, check_page, check_page-total,
}
use ottplay_control_server.GlobalItems.Listing.{
  Collect, read_row, read_rows, agree, Listing, listing_of, rpc, collect, collect_start, list,
}
use ottplay_control_server.GlobalItems.Listing.Complete.{
  Reads, row_ids, IsCollected, row_round, read_rows-IsCollected, length-Reads,
}

-- The page has the revisions and the total of the listing.
abbrev pub OfListing : Listing → Page → Type 0
OfListing l p =
    (p.revision ≡ l.revision) × (p.context_revision ≡ l.context_revision) × (p.total ≡ l.total)

abbrev pub page_rows : List Page → List Row
page_rows [] = []
page_rows (p ∷ pages) = p.entries ++ page_rows pages

read_row-rows : (row : Row) (s t : Collect) → read_row row s ≡ ok t → t.rows ≡ s.rows ++ row ∷ []
read_row-rows row s t h =
    let (_, _, _, _, _, _, _, made) = row_round row s t h in ap (λ x. x.rows) made

read_rows-rows :
    (rows : List Row) (s t : Collect) → read_rows rows s ≡ ok t → t.rows ≡ s.rows ++ rows
unfolding read_rows
read_rows-rows [] s t h = ap (λ x. x.rows) (sym (ok-injective h)) ∙ sym (append-nil s.rows)
read_rows-rows (row ∷ rows) s t h =
    let (u, first, rest) = >>=-eq-ok (read_row row s) _ h in
    read_rows-rows rows u t rest
    ∙ ap (λ x. x ++ rows) (read_row-rows row s u first)
    ∙ append_assoc s.rows (row ∷ []) rows

agree_lem :
    (first : Option Page) (p f : Page)
    → agree first p ≡ ok f
    → (p.revision ≡ f.revision) × (p.context_revision ≡ f.context_revision) × (p.total ≡ f.total)
unfolding agree
agree_lem none p f h = ground arith
agree_lem (some g) p f h =
    ground
      (arith, text_eq_iff p.revision g.revision, text_eq_iff p.context_revision g.context_revision)

agree_first : (g p f : Page) → agree (some g) p ≡ ok f → g ≡ f
unfolding agree
agree_first g p f h = ground arith

-- The page that the others must agree with, if there is one yet.
abbrev FirstOf : Listing → Option Page → Type 0
FirstOf l none = Unit
FirstOf l (some g) = OfListing l g

-- The page is the reply to some request, and passed its tests.
abbrev pub IsReply : (ℕ → Option Text → Result Failure Page) → ℕ → Page → Type 0
IsReply reply most p = (i : ℕ) × (cursor : Option Text) × (rpc reply i cursor most ≡ ok p)

module _ (reply : ℕ → Option Text → Result Failure Page) where
  -- What the rest of the loop has made of a state.
  record Collected (most : ℕ) (first : Option Page) (s : Collect) (l : Listing) : Type 0 where
    end : Collect
    entries : List Entry
    collected : IsCollected end entries
    rows : end.rows ≡ l.rows
    counted : length l.rows ≡ l.total
    few : l.total ≤ max_entries
    pages : List Page
    own : All (OfListing l) pages
    sent : All (IsReply reply most) pages
    together : l.rows ≡ s.rows ++ page_rows pages
    fixed : FirstOf l first

  rpc-total :
      (i : ℕ) (cursor : Option Text) (most : ℕ) (p : Page)
      → rpc reply i cursor most ≡ ok p
      → p.total ≤ max_entries
  unfolding rpc
  rpc-total i cursor most p h =
      let (page, _, h₁) = >>=-eq-ok (reply i cursor) _ h in
      let (u, checked, h₂) = >>=-eq-ok (check_page cursor most page) _ h₁ in
      rw (sym (ok-injective h₂)) (check_page-total cursor most page checked)

  -- One round: its page, the first page, and the state behind its rows.
  fixed_first :
      (first : Option Page) (p f : Page) (l : Listing)
      → agree first p ≡ ok f
      → OfListing l f
      → FirstOf l first × OfListing l p
  fixed_first none p f l h o =
      let (a, b, c) = agree_lem none p f h in (tt, (a ∙ o.0, b ∙ o.1, c ∙ o.2))
  fixed_first (some g) p f l h o =
      let (a, b, c) = agree_lem (some g) p f h in
      (rw (agree_first g p f h) o, (a ∙ o.0, b ∙ o.1, c ∙ o.2))

  collect-Collected :
      (most left i : ℕ) (cursor : Option Text) (first : Option Page) (seen : List Text)
      (s : Collect) (es : List Entry) (l : Listing)
      → collect reply most left i cursor first seen s ≡ ok l
      → IsCollected s es
      → Collected most first s l
  unfolding collect
  collect-Collected most zero i cursor first seen s es l h c = absurd (cc)
  collect-Collected most (suc left) i cursor first seen s es l h c =
      let (p, answered, h₁) = >>=-eq-ok (rpc reply i cursor most) _ h in
      let (f, agreed, h₂) = >>=-eq-ok (agree first p) _ h₁ in
      let (_, _, h₃) = >>=-eq-ok (guard (p.page_offset == length s.rows) invalid_response) _ h₂ in
      let (t, got, h₄) = >>=-eq-ok (read_rows p.entries s) _ h₃ in
      let (fs, d) = read_rows-IsCollected p.entries s t es got c in
      next p f t fs (i, cursor, answered) (rpc-total i cursor most p answered) agreed got d
        (λ c k. collect-Collected most left (suc i) (some c) (some f) (c ∷ seen) t fs l k d)
        p.next_cursor h₄
    where
      next :
          (p f : Page) (t : Collect) (fs : List Entry)
          → IsReply reply most p
          → p.total ≤ max_entries
          → agree first p ≡ ok f
          → read_rows p.entries s ≡ ok t
          → IsCollected t fs
          → ((c : Text)
              → collect reply most left (suc i) (some c) (some f) (c ∷ seen) t ≡ ok l
              → Collected most (some f) t l)
          → (n : Option Text)
          → elim n [
            | none ↦ do guard (length t.rows == f.total) invalid_response; ok (listing_of f t.rows)
            | some c ↦ do
              guard (not (elem c seen)) invalid_response
              collect reply most left (suc i) (some c) (some f) (c ∷ seen) t
          ]
            ≡ ok l
          → Collected most first s l
      next p f t fs answer few agreed got d go none h =
          let (_, counted, h₁) =
            >>=-eq-ok (guard (length t.rows == f.total) invalid_response) _ h in
          let made = ok-injective h₁ in
          let (fixed, own) =
            fixed_first first p f (listing_of f t.rows) agreed (refl, refl, refl) in
          rw (sym made) (record {
            end = t;
            entries = fs;
            collected = d;
            rows = refl;
            counted = ground (arith, guard-eq-ok _ _ counted);
            few = rw own.2 at few;
            pages = p ∷ [];
            own = (own, tt);
            sent = (answer, tt);
            together =
                read_rows-rows p.entries s t got
                ∙ ap (λ x. s.rows ++ x) (sym (append-nil p.entries));
            fixed = fixed;
          })
      next p f t fs answer few agreed got d go (some c) h =
          let (_, _, h₁) = >>=-eq-ok (guard (not (elem c seen)) invalid_response) _ h in
          let rest = go c h₁ in
          let (fixed, own) = fixed_first first p f l agreed rest.fixed in
          record {
            end = rest.end;
            entries = rest.entries;
            collected = rest.collected;
            rows = rest.rows;
            counted = rest.counted;
            few = rest.few;
            pages = p ∷ rest.pages;
            own = (own, rest.own);
            sent = (answer, rest.sent);
            together =
                rest.together
                ∙ ap (λ x. x ++ page_rows rest.pages) (read_rows-rows p.entries s t got)
                ∙ append_assoc s.rows p.entries (page_rows rest.pages);
            fixed = fixed;
          }

-- What a listing promises: its rows are those of its pages, all of one revision and as many as the
-- total says, with distinct ids; their normal forms are a valid document.
pub record IsComplete (reply : ℕ → Option Text → Result Failure Page) (most : ℕ) (l : Listing)
    : Type 0 where
  pub pages : List Page
  pub own : All (OfListing l) pages
  pub sent : All (IsReply reply most) pages
  pub together : l.rows ≡ page_rows pages
  pub counted : length l.rows ≡ l.total
  pub apart : Unique (row_ids l.rows)
  pub entries : List Entry
  pub reads : Reads l.rows entries
  pub valid : IsValid (record { entries = entries })

-- Whatever the transport delivers, a listing that is returned is complete: its rows are those of
-- accepted replies of one revision, in order and as many as the total says, with distinct ids and
-- with entries that are a valid document.
pub list-IsComplete :
    (reply : ℕ → Option Text → Result Failure Page) (most : ℕ) (l : Listing)
    → list reply most ≡ ok l
    → IsComplete reply most l
unfolding list collect_start
list-IsComplete reply most l h =
    let all_of =
      collect-Collected reply most max_entries 0 none none [] (collect_start reply) [] l h (record {
        reads = tt;
        accepted = record { normal = tt; unique = tt; small = omega arith };
        keys = refl;
        ids = refl;
        apart = tt;
        sized = omega arith;
      }) in
    let c = all_of.collected in
    record {
      pages = all_of.pages;
      own = all_of.own;
      sent = all_of.sent;
      together = all_of.together;
      counted = all_of.counted;
      apart = rw (c.ids, all_of.rows) at c.apart;
      entries = all_of.entries;
      reads = rw all_of.rows at c.reads;
      valid = record {
        normal = c.accepted.normal;
        unique = c.accepted.unique;
        few =
            omega (arith, all_of.few, all_of.counted, length-Reads _ _ (rw all_of.rows at c.reads));
        small =
            omega
              (arith, canonical_size-eq (record { entries = all_of.entries }), c.accepted.small);
      };
    }
