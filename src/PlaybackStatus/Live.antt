-- ===== src/PlaybackStatus/Live.antt =====
-- `live_status`
use ottplay_control_server.Prelude.{
  ◌≡◌, refl, sym, ◌∙◌, subst, true, false, ◌⊎◌, Option, none, some, if◌then◌else◌, Bool-cases, inl,
  inr,
}
use mathlib.Core.Option.{some-injective}
use ottplay_control_server.Text.{Text, codes, text_eq}
use ottplay_control_server.Dict
use ottplay_control_server.Dict.{Dict, lookup-put, lookup-remove}
use ottplay_control_server.Json.Value
use ottplay_control_server.Json.Value.{Value, str, dict, get}
use ottplay_control_server.PlayerGroups.Names.{pairs}
use ottplay_control_server.PlayerGroups.Management.{fields_of}
use ottplay_control_server.PlaybackStatus.Labels.{Unicode, is_runtime}
use ottplay_control_server.PlaybackStatus.Playback.{
  text_in, validate_playback, IsPublic, validate_playback-IsPublic,
}

abbrev playback : Text
playback = codes "playback"

abbrev playback_error : Text
playback_error = codes "playback_error"

abbrev message : Value
message = str (codes "Playback details were not valid; current content is not reported.")

module _ (u : Unicode) where
  -- The report of a player with this runtime, platform and standby.
  unfoldable pub checked : Option Value → Value → Option (Dict Value)
  checked (some (dict player)) (dict fs) =
      if text_in is_runtime (get (codes "runtime") player)
      then validate_playback u (pairs fs) (get (codes "standby") player)
          (text_in (text_eq (codes "webos-native")) (get (codes "platform") player))
      else none
  checked _ _ = none

  unfoldable pub outcome : Dict Value → Option (Dict Value) → Dict Value
  outcome result (some shown) = Dict.put playback (dict (fields_of shown)) result
  outcome result none = Dict.put playback_error message (Dict.remove playback result)

  unfoldable pub reported : Dict Value → Option Value → Dict Value
  reported result none = result
  reported result (some value) =
      outcome result (checked (Dict.lookup (codes "player") result) value)

  unfoldable pub live_status : Dict Value → Dict Value
  live_status status =
      let result = Dict.remove playback_error status in
      reported result (Dict.lookup playback result)

  -- The report of a player whose fields are these, and the public playback that is shown of it.
  pub record Shows (owner : Option Value) (report : Value) (shown : Dict Value) : Type 0 where
    pub player : Value.Fields
    pub fields : Value.Fields
    pub owned : owner ≡ some (dict player)
    pub reported : report ≡ dict fields
    pub known : text_in is_runtime (get (codes "runtime") player) ≡ true
    pub validated :
        validate_playback u
          (pairs fields)
          (get (codes "standby") player)
          (text_in (text_eq (codes "webos-native")) (get (codes "platform") player))
        ≡ some shown
    pub public : IsPublic u (pairs fields) shown

  -- A status shows this playback and no error.
  pub record IsShown (shown result : Dict Value) : Type 0 where
    pub playing : Dict.lookup playback result ≡ some (dict (fields_of shown))
    pub clear : Dict.lookup playback_error result ≡ none

  -- A status shows the error in place of a playback.
  pub record IsRefused (result : Dict Value) : Type 0 where
    pub hidden : Dict.lookup playback result ≡ none
    pub refused : Dict.lookup playback_error result ≡ some message

  abbrev pub IsDecided : Option Value → Value → Dict Value → Type 0
  IsDecided owner report result =
      ((shown : Dict Value) × Shows owner report shown × IsShown shown result)
      ⊎ (((shown : Dict Value) → ¬ Shows owner report shown) × IsRefused result)

  -- Without a report there is neither a playback nor an error; a report is shown where it is a public
  -- one of the player of the status, and refused otherwise; the other fields are those that came.
  pub record IsLive (status result : Dict Value) : Type 0 where
    pub quiet :
        Dict.lookup playback status ≡ none
        → (Dict.lookup playback result ≡ none) × (Dict.lookup playback_error result ≡ none)
    pub decided :
        (report : Value)
        → Dict.lookup playback status ≡ some report
        → IsDecided (Dict.lookup (codes "player") status) report result
    pub others :
        (k : Text)
        → text_eq playback k ≡ false
        → text_eq playback_error k ≡ false
        → Dict.lookup k result ≡ Dict.lookup k status

  checked-Shows :
      (owner : Option Value) (report : Value) (shown : Dict Value)
      → checked owner report ≡ some shown
      → Shows owner report shown
  unfolding checked
  checked-Shows (some (dict player)) (dict fs) shown h =
      elim (Bool-cases (text_in is_runtime (get (codes "runtime") player))) [
        | inl good ↦
            let made = rw good at h in
            record {
              player = player;
              fields = fs;
              owned = refl;
              reported = refl;
              known = good;
              validated = made;
              public = validate_playback-IsPublic u (pairs fs) shown _ _ made;
            }
        | inr bad ↦ absurd (cc (rw bad at h))
      ]
  checked-Shows _ _ shown h = absurd (cc h)

  Shows-checked :
      (owner : Option Value) (report : Value) (shown : Dict Value)
      → Shows owner report shown
      → checked owner report ≡ some shown
  unfolding checked
  Shows-checked owner report shown s = rw (s.owned, s.reported, s.known) s.validated

  outcome-IsDecided :
      (owner : Option Value) (report : Value) (result : Dict Value) (o : Option (Dict Value))
      → checked owner report ≡ o
      → Dict.lookup playback_error result ≡ none
      → IsDecided owner report (outcome result o)
  unfolding outcome text_eq
  outcome-IsDecided owner report result (some shown) h clear =
      let value = dict (fields_of shown) in
      inl (
        shown,
        checked-Shows owner report shown h,
        record {
          playing = lookup-put playback playback value result;
          clear = lookup-put playback playback_error value result ∙ clear;
        },
      )
  outcome-IsDecided owner report result none h clear =
      let rest = Dict.remove playback result in
      inr (
        λ shown s. absurd (cc (h, Shows-checked owner report shown s)),
        record {
          hidden =
              lookup-put playback_error playback message rest
              ∙ lookup-remove playback playback result;
          refused = lookup-put playback_error playback_error message rest;
        },
      )

  outcome-others :
      (result : Dict Value) (o : Option (Dict Value)) (k : Text)
      → text_eq playback k ≡ false
      → text_eq playback_error k ≡ false
      → Dict.lookup k (outcome result o) ≡ Dict.lookup k result
  unfolding outcome
  outcome-others result (some shown) k h j =
      lookup-put playback k (dict (fields_of shown)) result ∙ rw h refl
  outcome-others result none k h j =
      rw
        (
          lookup-put playback_error k message (Dict.remove playback result),
          j,
          lookup-remove playback k result,
          h,
        )
        refl

  reported-IsLive :
      (result : Dict Value) (o : Option Value)
      → Dict.lookup playback result ≡ o
      → Dict.lookup playback_error result ≡ none
      → IsLive result (reported result o)
  unfolding reported
  reported-IsLive result none absent clear = record {
    quiet = λ _. (absent, clear);
    decided = λ v h. absurd (cc (h, absent));
    others = λ k h j. refl;
  }
  reported-IsLive result (some value) there clear =
      let owner = Dict.lookup (codes "player") result in
      record {
        quiet = λ h. absurd (cc (h, there));
        decided = λ v h.
            let same : value ≡ v = some-injective value v (sym there ∙ h) in
            subst (λ v. IsDecided owner v (outcome result (checked owner value))) same
              (outcome-IsDecided owner value result _ refl clear);
        others = outcome-others result (checked owner value);
      }

-- Whatever the status of a player is: without a reported playback the result has neither a playback
-- nor an error; a reported playback that passes the check for the player of the status, whose runtime
-- is known, is shown as the check gives it, public and without an error; any other report is replaced
-- by the error; and all other fields are as they came.
pub live_status-IsLive :
    (u : Unicode) (status : Dict Value) → IsLive u status (live_status u status)
unfolding live_status text_eq
live_status-IsLive u status =
    let result = Dict.remove playback_error status in
    let same : (k : Text)
        → text_eq playback_error k ≡ false
        → Dict.lookup k result ≡ Dict.lookup k status =
      λ k j. lookup-remove playback_error k status ∙ rw j refl in
    let q =
      reported-IsLive u result (Dict.lookup playback result) refl
        (lookup-remove playback_error playback_error status) in
    record {
      quiet = λ h. q.quiet (same playback refl ∙ h);
      decided = λ v h.
          subst (λ o. IsDecided u o v (live_status u status)) (same (codes "player") refl)
            (q.decided v (same playback refl ∙ h));
      others = λ k h j. q.others k h j ∙ same k j;
    }
