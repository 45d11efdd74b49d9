-- ===== src/PlaybackStatus/Playback.antt =====
-- `validate_playback` and `public_playback`
use ottplay_control_server.Prelude.{
  ℕ, ◌*◌, ◌^◌, ◌≡◌, refl, sym, ap, ◌∙◌, Bool, true, false, not, ◌&&◌, ◌||◌, Option, none, some,
  List, [], ◌∷◌, String, all, leb, ◌==◌, if◌then◌else◌, Bool-cases, inl, inr, &&-parts,
}
use mathlib.Core.Option.{some-injective}
use ottplay_control_server.Text.{Text, codes, text_eq, elem}
use ottplay_control_server.Dict
use ottplay_control_server.Dict.{Dict, lookup-put}
use ottplay_control_server.Json.Value.{Value, null, bool, int, float, str, dyadic}
use ottplay_control_server.PlaybackStatus.Labels.{
  Unicode, private_label, text_ok, is_label, native_live_media_id,
}

abbrev states : List Text
states =
    codes "unknown"
    ∷ codes "idle"
    ∷ codes "loading"
    ∷ codes "playing"
    ∷ codes "paused"
    ∷ codes "buffering"
    ∷ codes "ended"
    ∷ codes "error"
    ∷ codes "standby"
    ∷ []

abbrev kinds : List Text
kinds = codes "none" ∷ codes "live" ∷ codes "archive" ∷ codes "vod" ∷ codes "unknown" ∷ []

abbrev fields : List Text
fields =
    codes "state"
    ∷ codes "kind"
    ∷ codes "title"
    ∷ codes "provider"
    ∷ codes "media_id"
    ∷ codes "channel_number"
    ∷ codes "position"
    ∷ codes "duration"
    ∷ codes "volume"
    ∷ []

abbrev max_safe : ℕ
max_safe = 9007199254740991

-- `exact`
unfoldable pub exact : Dict Value → List Text → Bool
exact d ks = all (λ k. elem k (Dict.keys d)) ks && all (λ k. elem k ks) (Dict.keys d)

abbrev pub is_null : Option Value → Bool
is_null (some null) = true
is_null _ = false

abbrev pub text_in : (Text → Bool) → Option Value → Bool
text_in p (some (str s)) = p s
text_in p _ = false

-- `if value is not None: …`
abbrev null_or : Bool → Option Value → Bool
null_or b v = is_null v || b

-- `integer`
unfoldable pub integer : ℕ → ℕ → Option Value → Bool
integer low high (some (int negative n)) = not negative && leb low n && leb n high
integer low high _ = false

-- `0 <= number <= most`, and finite
unfoldable pub number : ℕ → Option Value → Bool
number most (some (int negative n)) = (not negative || n == 0) && leb n most
number most (some (float (dyadic negative m up down))) =
    (not negative || m == 0) && leb (m * 2 ^ up) (most * 2 ^ down)
number most _ = false

abbrev pub same_bool : Bool → Option Value → Bool
same_bool true (some (bool true)) = true
same_bool false (some (bool false)) = true
same_bool _ _ = false

abbrev pub is_quiet : Option Value → Bool
is_quiet v = text_in (λ s. elem s (codes "idle" ∷ codes "ended" ∷ codes "standby" ∷ [])) v

-- No content is reported.
abbrev pub no_content : Dict Value → Bool
no_content d =
    is_null (Dict.lookup (codes "title") d)
    && is_null (Dict.lookup (codes "media_id") d)
    && is_null (Dict.lookup (codes "channel_number") d)

module _ (u : Unicode) where
  -- The tests of `validate_playback`
  unfoldable pub playback_ok : Dict Value → Option Value → Bool → Bool
  playback_ok d standby native_live =
      let at = λ (k : String). Dict.lookup (codes k) d in
      exact d fields
      && text_in (λ s. elem s states) (at "state")
      && text_in (λ s. elem s kinds) (at "kind")
      && same_bool (text_in (text_eq (codes "standby")) (at "state")) standby
      && null_or (text_in (text_ok u 256) (at "title")) (at "title")
      && null_or (text_in (text_ok u 64) (at "provider")) (at "provider")
      && null_or
          (text_in (λ s. is_label s || (native_live && native_live_media_id s)) (at "media_id"))
          (at "media_id")
      && null_or (integer 1 2147483647 (at "channel_number")) (at "channel_number")
      && null_or (number max_safe (at "position")) (at "position")
      && null_or (number max_safe (at "duration")) (at "duration")
      && null_or (number 100 (at "volume")) (at "volume")
      && (not (is_quiet (at "state")) || no_content d)

  abbrev pub is_private : Option Value → Bool
  is_private v = text_in (private_label u) v

  unfoldable pub hide : Text → Dict Value → Dict Value
  hide k d = if is_private (Dict.lookup k d) then Dict.put k null d else d

  unfoldable pub public_playback : Dict Value → Dict Value
  public_playback d = hide (codes "provider") (hide (codes "title") d)

  unfoldable pub validate_playback : Dict Value → Option Value → Bool → Option (Dict Value)
  validate_playback d standby native_live =
      if playback_ok d standby native_live then some (public_playback d) else none

  -- What is shown has no private title and no private provider; a player that plays nothing has no
  -- content; and the other fields are those of the report.
  pub record IsPublic (report shown : Dict Value) : Type 0 where
    pub title : is_private (Dict.lookup (codes "title") shown) ≡ false
    pub provider : is_private (Dict.lookup (codes "provider") shown) ≡ false
    pub quiet : is_quiet (Dict.lookup (codes "state") shown) ≡ true → no_content shown ≡ true
    pub others :
        (k : Text)
        → text_eq (codes "title") k ≡ false
        → text_eq (codes "provider") k ≡ false
        → Dict.lookup k shown ≡ Dict.lookup k report

  hide-other :
      (k j : Text) (d : Dict Value)
      → text_eq k j ≡ false
      → Dict.lookup j (hide k d) ≡ Dict.lookup j d
  unfolding hide
  hide-other k j d h = elim (Bool-cases (is_private (Dict.lookup k d))) [
    | inl found ↦ rw (found, lookup-put k j null d, h) refl
    | inr clear ↦ rw clear refl
  ]

  -- After hiding a field it is null or as before, and not private.
  hide-same :
      (k : Text) (d : Dict Value)
      → text_eq k k ≡ true
      → (is_private (Dict.lookup k (hide k d)) ≡ false)
        × (is_null (Dict.lookup k d) ≡ true → is_null (Dict.lookup k (hide k d)) ≡ true)
  unfolding hide
  hide-same k d h = elim (Bool-cases (is_private (Dict.lookup k d))) [
    | inl found ↦ rw (found, lookup-put k k null d, h) (refl, λ _. refl)
    | inr clear ↦ rw (clear, clear) (refl, λ n. n)
  ]

  public_playback-IsPublic :
      (d : Dict Value)
      → (is_quiet (Dict.lookup (codes "state") d) ≡ true → no_content d ≡ true)
      → IsPublic d (public_playback d)
  unfolding public_playback text_eq
  public_playback-IsPublic d silent =
      let titled = hide (codes "title") d in
      let (title_clear, title_null) = hide-same (codes "title") d refl in
      let (provider_clear, _) = hide-same (codes "provider") titled refl in
      let kept : (k : Text)
          → text_eq (codes "provider") k ≡ false
          → Dict.lookup k (hide (codes "provider") titled) ≡ Dict.lookup k titled =
        λ k h. hide-other (codes "provider") k titled h in
      let rest : (k : Text)
          → text_eq (codes "title") k ≡ false
          → text_eq (codes "provider") k ≡ false
          → Dict.lookup k (hide (codes "provider") titled) ≡ Dict.lookup k d =
        λ k h j. kept k j ∙ hide-other (codes "title") k d h in
      record {
        title = rw (kept (codes "title") refl) title_clear;
        provider = provider_clear;
        quiet = λ q.
            let silent_here = silent (ap is_quiet (sym (rest (codes "state") refl refl)) ∙ q) in
            let (tm, c) =
              &&-parts
                (is_null (Dict.lookup (codes "title") d)
                  && is_null (Dict.lookup (codes "media_id") d))
                (is_null (Dict.lookup (codes "channel_number") d)) silent_here in
            let (t, m) =
              &&-parts (is_null (Dict.lookup (codes "title") d))
                (is_null (Dict.lookup (codes "media_id") d)) tm in
            rw
              (
                ap is_null (kept (codes "title") refl) ∙ title_null t,
                ap is_null (rest (codes "media_id") refl refl) ∙ m,
                ap is_null (rest (codes "channel_number") refl refl) ∙ c,
              )
              refl;
        others = rest;
      }

  -- A quiet playback that passes the tests has no content.
  playback_ok-silent :
      (d : Dict Value) (standby : Option Value) (native_live : Bool)
      → playback_ok d standby native_live ≡ true
      → is_quiet (Dict.lookup (codes "state") d) ≡ true
      → no_content d ≡ true
  unfolding playback_ok
  playback_ok-silent d standby native_live h q =
      rw q at ((&&-parts _ (not (is_quiet (Dict.lookup (codes "state") d)) || no_content d) h).1)

-- What `validate_playback` returns has no private title and no private provider; it has no content
-- where nothing plays, and the other fields are those of the report.
pub validate_playback-IsPublic :
    (u : Unicode) (d shown : Dict Value) (standby : Option Value) (native_live : Bool)
    → validate_playback u d standby native_live ≡ some shown
    → IsPublic u d shown
unfolding validate_playback
validate_playback-IsPublic u d shown standby native_live h =
    elim (Bool-cases (playback_ok u d standby native_live)) [
      | inl passed ↦
          let e : some (public_playback u d) ≡ some shown = (rw passed at h) in
          rw (sym (some-injective (public_playback u d) shown e))
            (public_playback-IsPublic u d (playback_ok-silent u d standby native_live passed))
      | inr failed ↦ absurd (cc (rw failed at h))
    ]
