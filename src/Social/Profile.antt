-- ===== src/Social/Profile.antt =====
-- packages/domain/src/social.ts: profiles, what of them is valid and what of them is public.
use mathlib.Core.Path.{subst}
use pods.Base.{
  ℕ, ◌≤◌, ◌≡◌, refl, Bool, true, false, not, ◌&&◌, ◌||◌, Option, List, [], ◌∷◌, ◌++◌, Result, ok,
  checked, checked-eq-ok, Text, codes, same_text, is_space, Value, Fields, str, obj, bool, field,
  end, get, as_text, trimmed_text, is_text, trim, trim_idem, trim_solid, all, some_of, length, ltb,
  ◌==◌, is_hex, error_if, if◌then◌else◌, arith,
}
use pods.Social.Patterns.{is_handle, is_handle_char}

pub data ProfileError : Type 0 where
  bad_handle bad_display_name bad_bio bad_avatar bad_visibility bad_dm_policy bad_activity_status :
      ProfileError

-- The avatar and the three settings are kept as the values that were sent.
pub record ProfileInput : Type 0 where
  pub handle : Text
  pub display_name : Text
  pub bio : Text
  pub avatar : Value
  pub visibility : Value
  pub dm_policy : Value
  pub activity_status_visible : Value

-- `profileAvatarPresets`.
abbrev pub profile_avatar_presets : List Text
profile_avatar_presets =
    codes "ember"
    ∷ codes "moss"
    ∷ codes "indigo"
    ∷ codes "coral"
    ∷ codes "sun"
    ∷ codes "stone"
    ∷ codes "wave"
    ∷ codes "pine"
    ∷ codes "rose"
    ∷ codes "sky"
    ∷ codes "sand"
    ∷ codes "ink"
    ∷ []

abbrev pub is_media_char : ℕ → Bool
is_media_char c = is_hex c || c == b'-'

-- `typeof value === "string" && /^[0-9a-f-]{36}$/i.test(value)`.
abbrev pub is_media_id : Value → Bool
is_media_id (str t) = all is_media_char t && length t == 36
is_media_id _ = false

-- An array is an object without a kind.
unfoldable pub valid_avatar : Value → Bool
valid_avatar (obj avatar) =
    if is_text (get (codes "kind") avatar) (codes "preset")
    then some_of (λ t. is_text (get (codes "preset") avatar) t) profile_avatar_presets
    else is_text (get (codes "kind") avatar) (codes "upload")
      && is_media_id (get (codes "mediaId") avatar)
valid_avatar _ = false

abbrev pub is_visibility : Value → Bool
is_visibility v = is_text v (codes "public") || is_text v (codes "private")

abbrev pub is_dm_policy : Value → Bool
is_dm_policy v =
    is_text v (codes "friends") || is_text v (codes "requests") || is_text v (codes "none")

abbrev pub is_bool : Value → Bool
is_bool (bool b) = true
is_bool _ = false

-- `to_lower_case` is `String.prototype.toLowerCase`.
module _ (to_lower_case : Text → Text) where
  unfoldable pub normalize_profile_handle : Text → Text
  normalize_profile_handle value = to_lower_case (trim value)

  -- The errors, of which the code keeps one for each field.
  abbrev pub profile_errors : ProfileInput → List ProfileError
  profile_errors profile =
      error_if (not (is_handle profile.handle)) bad_handle
      ++ (error_if (ltb (length profile.display_name) 2 || ltb 40 (length profile.display_name))
            bad_display_name
          ++ (error_if (ltb 160 (length profile.bio)) bad_bio
              ++ (error_if (not (valid_avatar profile.avatar)) bad_avatar
                  ++ (error_if (not (is_visibility profile.visibility)) bad_visibility
                      ++ (error_if (not (is_dm_policy profile.dm_policy)) bad_dm_policy
                          ++ error_if (not (is_bool profile.activity_status_visible))
                              bad_activity_status)))))

  unfoldable pub validate_profile_input : Fields → Result (List ProfileError) ProfileInput
  unfolding normalize_profile_handle valid_avatar
  validate_profile_input input =
      let profile : ProfileInput = record {
        handle = normalize_profile_handle (as_text (get (codes "handle") input));
        display_name = trimmed_text (get (codes "displayName") input);
        bio = trimmed_text (get (codes "bio") input);
        avatar = get (codes "avatar") input;
        visibility = get (codes "visibility") input;
        dm_policy = get (codes "dmPolicy") input;
        activity_status_visible = get (codes "activityStatusVisible") input;
      } in
      checked (profile_errors profile) profile

  -- A profile, as the object that a client sends.
  abbrev pub to_fields : ProfileInput → Fields
  to_fields profile = field (codes "handle") (str profile.handle) (
      field (codes "displayName") (str profile.display_name) (
        field (codes "bio") (str profile.bio) (
          field (codes "avatar") profile.avatar (
            field (codes "visibility") profile.visibility (
              field (codes "dmPolicy") profile.dm_policy
                (field (codes "activityStatusVisible") profile.activity_status_visible end))))))

  handle_solid : (t : Text) → all is_handle_char t ≡ true → some_of is_space t ≡ false
  unfolding is_space
  handle_solid [] h = refl
  handle_solid (c ∷ t) h = ground (arith, handle_solid t)

  validated :
      (profile : ProfileInput)
      → profile_errors profile ≡ []
      → (is_handle profile.handle ≡ true)
        × (2 ≤ length profile.display_name)
        × (length profile.display_name ≤ 40)
        × (length profile.bio ≤ 160)
        × (valid_avatar profile.avatar ≡ true)
  validated profile h = (ground arith, ground arith, ground arith, ground arith, ground arith)

  accepted_as_stored :
      ((t : Text) → all is_handle_char t ≡ true → to_lower_case t ≡ t)
      → (profile : ProfileInput) → profile_errors profile ≡ []
      → trim profile.display_name ≡ profile.display_name
      → trim profile.bio ≡ profile.bio
      → validate_profile_input (to_fields profile) ≡ ok profile
  unfolding validate_profile_input normalize_profile_handle same_text
  accepted_as_stored lower_fixes profile passed name bio =
      let word : all is_handle_char profile.handle ≡ true = ground arith in
      let solid : trim profile.handle ≡ profile.handle =
        trim_solid profile.handle (handle_solid profile.handle word) in
      rw (name, bio, solid, lower_fixes profile.handle word, passed)

  -- A profile that was accepted and is sent again as it was stored is accepted unchanged, where
  -- lower case leaves a text of lower-case letters, digits and underscores as it is.
  pub validate_profile_input_again :
      ((t : Text) → all is_handle_char t ≡ true → to_lower_case t ≡ t)
      → (input : Fields) (profile : ProfileInput) → validate_profile_input input ≡ ok profile
      → validate_profile_input (to_fields profile) ≡ ok profile
  unfolding validate_profile_input normalize_profile_handle same_text
  validate_profile_input_again lower_fixes input profile h =
      let (passed, same) = checked-eq-ok _ _ h in
      subst (λ (r : ProfileInput). validate_profile_input (to_fields r) ≡ ok r) same
        (accepted_as_stored lower_fixes _ passed (trim_idem _) (trim_idem _))

  -- An accepted profile has a handle of 3 to 20 lower-case letters, digits and `_`, a display name of
  -- 2 to 40 characters, at most 160 of a bio, and an avatar that is a preset or an upload.
  pub validate_profile_input_sound :
      (input : Fields) (profile : ProfileInput)
      → validate_profile_input input ≡ ok profile
      → (is_handle profile.handle ≡ true)
        × (2 ≤ length profile.display_name)
        × (length profile.display_name ≤ 40)
        × (length profile.bio ≤ 160)
        × (valid_avatar profile.avatar ≡ true)
  unfolding validate_profile_input
  validate_profile_input_sound input profile h =
      let (passed, same) = checked-eq-ok _ _ h in
      validated profile (subst (λ (r : ProfileInput). profile_errors r ≡ []) same passed)

-- What others see of a profile.
pub record StoredProfile : Type 0 where
  pub user_id : Text
  pub wallet_address : Option Text
  pub handle : Text
  pub display_name : Text
  pub bio : Text
  pub avatar : Value
  pub visibility : Text
  pub dm_policy : Text
  pub activity_status_visible : Bool
  pub created_at : ℕ  -- milliseconds since the epoch
  pub updated_at : ℕ

pub record PublicProfile : Type 0 where
  pub handle : Text
  pub display_name : Text
  pub bio : Text
  pub avatar : Value
  pub activity_status_visible : Bool

abbrev pub public_profile_projection : StoredProfile → PublicProfile
public_profile_projection profile = record {
  handle = profile.handle;
  display_name = profile.display_name;
  bio = profile.bio;
  avatar = profile.avatar;
  activity_status_visible = profile.activity_status_visible;
}
