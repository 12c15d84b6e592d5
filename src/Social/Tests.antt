-- ===== src/Social/Tests.antt =====
-- A pair of users, requests, messages and a profile.
use pods.Base.{
  ◌≤◌, ◌≡◌, ◌↔◌, ◌⊎◌, refl, true, false, none, List, [], ◌∷◌, ◌++◌, ok, Text, codes, same_text,
  Fields, str, obj, bool, field, end, get, trimmed_text, trim, some_of, length, begins_with,
}
use pods.Social.Patterns.{is_uuid, opens_link, has_link}
use pods.Social.Uuid.{IsUuid}
use pods.Social.Message.{
  MessageInput, RepliesTo, validate_message_input, validate_message_input_sound,
  validate_direct_introduction, validate_direct_introduction_sound,
}
use pods.Social.Requests.{
  UserPair, make_pair, canonical_user_pair, text_le, canonical_user_pair_comm,
  canonical_user_pair-key, DirectEvent, DirectConversationState, recipient, sender, run_direct,
  next_direct_conversation_state, is_block, is_acceptance, run_direct-active,
}
use pods.Social.Reports.{
  PublicContentReport, IsPublicReport, validate_public_content_report_input,
  validate_public_content_report_input_iff,
}
use pods.Social.Profile.{
  ProfileInput, validate_profile_input, normalize_profile_handle, valid_avatar, to_fields,
  validate_profile_input_again,
}

canonical_user_pair_comm_example :
    canonical_user_pair (codes "u2") (codes "u1") ≡ canonical_user_pair (codes "u1") (codes "u2")
canonical_user_pair_comm_example = canonical_user_pair_comm (codes "u2") (codes "u1")

abbrev u12 : UserPair
u12 = make_pair (codes "u1") (codes "u2")

pair_forth : canonical_user_pair (codes "u1") (codes "u2") ≡ ok u12
unfolding canonical_user_pair same_text text_le
pair_forth = refl

pair_back : canonical_user_pair (codes "u2") (codes "u1") ≡ ok u12
unfolding canonical_user_pair same_text text_le
pair_back = refl

canonical_user_pair-key_example : u12 ≡ u12
canonical_user_pair-key_example =
    canonical_user_pair-key (codes "u1") (codes "u2") (codes "u2") (codes "u1") {p = u12} {q = u12}
      refl refl refl refl pair_forth pair_back refl

abbrev request_calls : List (DirectEvent × pods.Social.Requests.Actor)
request_calls = (DirectEvent.accept, sender) ∷ (DirectEvent.accept, recipient) ∷ []

request_accepted :
    run_direct DirectConversationState.pending request_calls ≡ DirectConversationState.active
unfolding next_direct_conversation_state
request_accepted = refl

run_direct-active_example :
    (some_of is_block request_calls ≡ false)
    × ((DirectConversationState.pending ≡ DirectConversationState.active)
        ⊎ ((DirectConversationState.pending ≡ DirectConversationState.pending)
            × (some_of is_acceptance request_calls ≡ true)))
run_direct-active_example =
    run_direct-active DirectConversationState.pending request_calls request_accepted

abbrev uuid : Text
uuid = codes "0190a5c2-7b1e-7c3d-9a4f-0123456789ab"

abbrev message_fields : Fields
message_fields =
    field (codes "body") (str (codes " hello ")) (field (codes "clientMessageId") (str uuid) end)

abbrev message : MessageInput
message = record { client_message_id = uuid; body = codes "hello"; reply_to_message_id = none }

message_accepted : validate_message_input message_fields ≡ ok message
unfolding validate_message_input same_text trim is_uuid
message_accepted = refl

validate_message_input_sound_example :
    (codes "hello" ≡ trimmed_text (get (codes "body") message_fields))
    × (1 ≤ length (codes "hello"))
    × (length (codes "hello") ≤ 2000)
    × (get (codes "clientMessageId") message_fields ≡ str uuid)
    × IsUuid uuid
    × RepliesTo (get (codes "replyToMessageId") message_fields) none
validate_message_input_sound_example =
    validate_message_input_sound message_fields {m = message} message_accepted

introduction_accepted :
    validate_direct_introduction (str (codes "Hi from Pods"))
    ≡ ok (codes "Hi " ++ codes "from Pods")
unfolding validate_direct_introduction trim has_link opens_link begins_with
introduction_accepted = refl

validate_direct_introduction_sound_example :
    (codes "Hi " ++ codes "from Pods" ≡ trimmed_text (str (codes "Hi from Pods")))
    × (1 ≤ length (codes "Hi " ++ codes "from Pods"))
    × (length (codes "Hi " ++ codes "from Pods") ≤ 500)
    × (opens_link (codes "from Pods") ≡ false)
validate_direct_introduction_sound_example =
    validate_direct_introduction_sound (str (codes "Hi from Pods")) (codes "Hi ")
      (codes "from Pods") introduction_accepted

abbrev report_fields : Fields
report_fields = field (codes "reason") (str (codes "spam")) (
    field (codes "details") (str (codes "Same post again")) (
      field (codes "targetKind") (str (codes "message")) (field (codes "targetId") (str uuid) end)))

abbrev report : PublicContentReport
report = record {
  target_kind = codes "message";
  target_id = uuid;
  reason = codes "spam";
  details = codes "Same post again";
}

validate_public_content_report_input_iff_example :
    (validate_public_content_report_input report_fields ≡ ok report)
    ↔ IsPublicReport report_fields report
validate_public_content_report_input_iff_example =
    validate_public_content_report_input_iff report_fields report

abbrev profile : ProfileInput
profile = record {
  handle = codes "ann_7";
  display_name = codes "Ann";
  bio = [];
  avatar = obj (
      field (codes "kind") (str (codes "preset"))
        (field (codes "preset") (str (codes "moss")) end));
  visibility = str (codes "public");
  dm_policy = str (codes "friends");
  activity_status_visible = bool true;
}

profile_accepted : validate_profile_input (λ t. t) (to_fields (λ t. t) profile) ≡ ok profile
unfolding validate_profile_input same_text trim normalize_profile_handle valid_avatar
profile_accepted = refl

validate_profile_input_again_example :
    validate_profile_input (λ t. t) (to_fields (λ t. t) profile) ≡ ok profile
validate_profile_input_again_example =
    validate_profile_input_again (λ t. t) (λ t h. refl) (to_fields (λ t. t) profile) profile
      profile_accepted
