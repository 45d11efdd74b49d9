-- ===== src/Json/Dumps/Append.antt =====
-- The printer writes a value, and then exactly the text that follows it.
use ottplay_control_server.Prelude.{◌≡◌, refl, ap, ◌∙◌, ℕ, ◌+◌, [], ◌∷◌, ◌++◌, arith}
use ottplay_control_server.Text.{Text, utf8_length, utf8_length-append}
use ottplay_control_server.Json.Dumps.{
  Json, Members, null, str, object, end, member, char_onto, escape_onto, quote_onto, dumps_onto,
  members_onto, dumps,
}

char-append : (c : ℕ) (r q : Text) → char_onto c (r ++ q) ≡ char_onto c r ++ q
unfolding char_onto
char-append c r q = ground arith

escape-append : (s r q : Text) → escape_onto s (r ++ q) ≡ escape_onto s r ++ q
unfolding escape_onto
escape-append [] r q = refl
escape-append (c ∷ s) r q =
    ap (char_onto c) (escape-append s r q) ∙ char-append c (escape_onto s r) q

quote-append : (s r q : Text) → quote_onto s (r ++ q) ≡ quote_onto s r ++ q
unfolding quote_onto
quote-append s r q = ap (◌∷◌ 34) (escape-append s (34 ∷ r) q)

entry-append :
    (k r q t : Text) → t ≡ r ++ q → quote_onto k (b':' ∷ t) ≡ quote_onto k (b':' ∷ r) ++ q
entry-append k r q t e = rw e (quote-append k (b':' ∷ r) q)

mutual
  unfolding dumps_onto

  dumps_onto-append : (v : Json) (r q : Text) → dumps_onto v (r ++ q) ≡ dumps_onto v r ++ q
  dumps_onto-append null r q = refl
  dumps_onto-append (str s) r q = quote-append s r q
  dumps_onto-append (object end) r q = refl
  dumps_onto-append (object (member k v ms)) r q = ap (◌∷◌ b'{') (
      entry-append k _ q _ (
        ap (dumps_onto v) (members_onto-append ms r q) ∙ dumps_onto-append v (members_onto ms r) q))

  members_onto-append :
      (ms : Members) (r q : Text) → members_onto ms (r ++ q) ≡ members_onto ms r ++ q
  members_onto-append end r q = refl
  members_onto-append (member k v ms) r q = ap (◌∷◌ b',') (
      entry-append k _ q _ (
        ap (dumps_onto v) (members_onto-append ms r q) ∙ dumps_onto-append v (members_onto ms r) q))

pub utf8_length-dumps_onto :
    (v : Json) (r : Text) → utf8_length (dumps_onto v r) ≡ utf8_length (dumps v) + utf8_length r
unfolding dumps
utf8_length-dumps_onto v r =
    ap utf8_length (dumps_onto-append v [] r) ∙ utf8_length-append (dumps_onto v []) r
