-- ===== src/GlobalRecovery/Restored.antt =====
-- `_checked_inspection` of the data that it has returned.
use ottplay_control_server.Prelude.{
  ℕ, ◌≡◌, sym, ap, subst, ◌∙◌, some, ok, ok-injective, guard, >>=-eq-ok, need-eq-ok, need, Result,
  ◌&&◌, ltb, leb, length, ◌>>=◌,
}
use mathlib.Core.Option.{some-injective}
use ottplay_control_server.Text.{Bytes, Text, codes, text_eq, elem}
use ottplay_control_server.Json.Fields.{is_number, is_text}
use ottplay_control_server.FavoritesTransfer.Strict.{is_strict}
use ottplay_control_server.GlobalFavorites.Scan.{scan_start}
use ottplay_control_server.Dict.{is_some}
use ottplay_control_server.Json.Value.{Value, Fields, str, dict, field, end, get}
use ottplay_control_server.GlobalRecovery.Objects.{
  Failure, invalid_protocol, envelope_too_large, nodes, tame, shallow, Source, encoded, object,
  as_object, source_bytes, made,
}
use ottplay_control_server.GlobalRecovery.Requests.{Libraries, Request, validate_request}
use ottplay_control_server.GlobalRecovery.Inspections.{Inspection}
use ottplay_control_server.GlobalRecovery.Results.{
  max_metadata_bytes, zeros, or_null, statuses, runtime_of, op_of, is_request_id, Reply, answer_if,
  receive, validate_with, validate_plain, inspection_of, checked_inspection,
}

-- What `json` promises: a value that `loads` has returned is what `loads` returns of its encoding.
abbrev pub Restores : Libraries → Type 0
Restores lib =
    (read printed : Bytes) (value : Value)
    → lib.codec.loads read ≡ some value
    → encoded lib.codec lib.printer value ≡ some printed
    → lib.codec.loads printed ≡ some value

module _ (lib : Libraries) where
  as_object-eq-ok : (v : Value) (fs : Fields) → as_object v ≡ ok fs → v ≡ dict fs
  unfolding as_object
  as_object-eq-ok (dict gs) fs h = ap dict (ok-injective h)
  as_object-eq-ok _ fs h = absurd (cc)

  object-loads :
      (source : Source) (limit : ℕ) (x : Fields × Bytes)
      → object lib.codec lib.printer source limit ≡ ok x
      → (source_bytes lib.codec lib.printer source limit ≡ ok x.1)
        × (lib.codec.loads x.1 ≡ some (dict x.0))
  unfolding object
  object-loads source limit x h =
      let (bytes, from, h₁) = >>=-eq-ok (source_bytes lib.codec lib.printer source limit) _ h in
      let (_, _, h₂) =
        >>=-eq-ok (guard (ltb 0 (length bytes) && leb (length bytes) limit) envelope_too_large) _
          h₁ in
      let (_, _, h₃) = >>=-eq-ok (guard (shallow bytes scan_start) invalid_protocol) _ h₂ in
      let (value, read, h₄) = >>=-eq-ok (need invalid_protocol (lib.codec.loads bytes)) _ h₃ in
      let (_, _, h₅) = >>=-eq-ok (guard (is_strict value) invalid_protocol) _ h₄ in
      let (fs, same, h₆) = >>=-eq-ok (as_object value) _ h₅ in
      let loaded : lib.codec.loads bytes ≡ some (dict fs) =
        need-eq-ok _ _ read ∙ ap some (as_object-eq-ok value fs same) in
      subst
        (λ x.
          (source_bytes lib.codec lib.printer source limit ≡ ok x.1)
          × (lib.codec.loads x.1 ≡ some (dict x.0)))
        (ok-injective h₆) (from, loaded)

  -- The parts of `receive`: the request, and the data of the reply.
  pub receive-parts :
      (params : Fields) (id : Text) (reply : Reply) (y : Request × Fields)
      → receive lib params id reply ≡ ok y
      → (validate_request lib params ≡ ok y.0)
        × (bytes : Bytes) × (object lib.codec lib.printer reply.payload max_metadata_bytes
            ≡ ok (y.1, bytes))
  unfolding receive
  receive-parts params id reply y h =
      let (request, sent, g₁) = >>=-eq-ok (validate_request lib params) _ h in
      let (_, _, g₂) = >>=-eq-ok (guard (is_request_id id) invalid_protocol) _ g₁ in
      let (_, _, g₃) =
        >>=-eq-ok (guard (text_eq reply.id id && elem reply.status statuses) invalid_protocol) _
          g₂ in
      let ((fs, bytes), got, g₄) =
        >>=-eq-ok (object lib.codec lib.printer reply.payload max_metadata_bytes) _ g₃ in
      let (_, _, g₅) =
        >>=-eq-ok (guard (is_number 1 (get (codes "version") fs)) invalid_protocol) _ g₄ in
      let (_, _, g₆) =
        >>=-eq-ok
          (guard
            (is_text (runtime_of request) (get (codes "runtime") fs)
              && is_text (op_of request) (get (codes "op") fs)
              && is_text (codes "global") (get (codes "subject") fs))
            invalid_protocol)
          _ g₅ in
      let same = ok-injective g₆ in
      (sent ∙ ap (λ z. ok z.0) same, bytes, got ∙ ap (λ z. ok (z.1, bytes)) same)

  module _ (restores : Restores lib) where
    -- A dictionary that was loaded is loaded again as it is.
    object-restores :
        (fs : Fields) (read : Bytes) (limit : ℕ) (x : Fields × Bytes)
        → lib.codec.loads read ≡ some (dict fs)
        → object lib.codec lib.printer (made fs) limit ≡ ok x
        → x.0 ≡ fs
    unfolding source_bytes
    object-restores fs read limit x loaded h =
        let (from, again) = object-loads (made fs) limit x h in
        let (_, _, h₁) =
          >>=-eq-ok (guard (leb (nodes (dict fs)) limit && tame limit 0 (dict fs)) invalid_protocol)
            _ from in
        let printed = need-eq-ok invalid_protocol (encoded lib.codec lib.printer (dict fs)) h₁ in
        dict-injective (some-injective _ _ (sym again ∙ restores read x.1 (dict fs) loaded printed))
      where
        dict-injective : {fs gs : Fields} → dict fs ≡ dict gs → fs ≡ gs
        dict-injective h = cc

    -- `_checked_inspection` behind its `_object`
    abbrev loaded_inspection : Fields → Result Failure (Inspection × Fields)
    loaded_inspection fs = do
      let params = field (codes "op") (str (codes "inspect")) (
          field (codes "runtime") (or_null (get (codes "runtime") fs)) (
            field (codes "subject") (str (codes "global"))
              (field (codes "operation_id") (or_null (get (codes "operation_id") fs)) end)))
      (answer, found) ←
          validate_plain lib params zeros
            (record { id = zeros; status = codes "ok"; payload = Source.made fs })
      i ← inspection_of answer
      ok (i, found)

    found-loads :
        (fs : Fields) (read : Bytes) (i : Inspection) (found : Fields)
        → lib.codec.loads read ≡ some (dict fs)
        → loaded_inspection fs ≡ ok (i, found)
        → found ≡ fs
    unfolding validate_plain validate_with
    found-loads fs read i found loaded h =
        let ((answer, gs), both, h₁) = >>=-eq-ok (validate_plain lib _ _ _) _ h in
        let (_, _, h₂) = >>=-eq-ok (inspection_of answer) _ h₁ in
        let ((request, ks), got, h₃) = >>=-eq-ok (receive lib _ zeros _) _ both in
        let (_, _, h₄) =
          >>=-eq-ok (answer_if lib (λ _ _. ok tt) (is_some (get (codes "error") ks)) request _ ks) _
            h₃ in
        let (_, bytes, again) = receive-parts _ zeros _ (request, ks) got in
        let a : found ≡ gs = sym (ap (λ y. y.1) (ok-injective h₂)) in
        let b : gs ≡ ks = sym (ap (λ y. y.1) (ok-injective h₄)) in
        a ∙ b ∙ object-restores fs read max_metadata_bytes (ks, bytes) loaded again

    -- The inspection of the returned data is the one that was returned with them.
    pub checked_inspection-again :
        (value context found : Fields) (i j : Inspection)
        → checked_inspection lib value ≡ ok (i, context)
        → checked_inspection lib context ≡ ok (j, found)
        → i ≡ j
    unfolding checked_inspection
    checked_inspection-again value context found i j h k =
        let (x, h₀, h₁) = >>=-eq-ok (object lib.codec lib.printer (made value) _) _ h in
        let (y, k₀, k₁) = >>=-eq-ok (object lib.codec lib.printer (made context) _) _ k in
        let (_, loaded) = object-loads (made value) _ x h₀ in
        let same : context ≡ x.0 = found-loads x.0 x.1 i context loaded h₁ in
        let (_, more) = object-loads (made context) _ y k₀ in
        let again : y.0 ≡ x.0 =
          object-restores context x.1 _ y
            (subst (λ fs. lib.codec.loads x.1 ≡ some (dict fs)) (sym same) loaded) k₀
          ∙ same in
        let there : loaded_inspection x.0 ≡ ok (j, found) =
          subst (λ fs. loaded_inspection fs ≡ ok (j, found)) again k₁ in
        ap (λ z. z.0) (ok-injective (sym h₁ ∙ there))
