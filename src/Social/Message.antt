-- ===== src/Social/Message.antt =====
-- packages/domain/src/social.ts: messages, introductions and reactions.
use mathlib.Core.Path.{subst}
use pods.Base.{
  ◌≤◌, ◌≡◌, ◌↔◌, ◌⊎◌, inl, inr, refl, sym, ap, Bool, true, false, not, ◌||◌, Option, none, some,
  List, [], ◌++◌, Result, ok, checked, checked-eq-ok, Text, codes, same_text, Value, Fields,
  undefined, null, str, get, as_text, trimmed_text, length, ltb, error_if, if◌then◌else◌, arith,
  same_text_iff,
}
use pods.Social.Uuid.{IsUuid, is_uuid_iff, uuid_text}
use pods.Social.Patterns.{match_classes, is_uuid, has_link, opens_link, has_link-append}

pub data ReactionCode : Type 0 where
  heart support celebrate insightful : ReactionCode

pub record MessageInput : Type 0 where
  pub client_message_id : Text
  pub body : Text
  pub reply_to_message_id : Option Text

pub data MessageError : Type 0 where
  message_length bad_retry_identity bad_reply_target introduction_length early_link : MessageError

-- `null` and what is missing reply to nothing; what is no text has no good target.
abbrev pub reply_target : Value → Option Text
reply_target undefined = none
reply_target null = none
reply_target (str s) = some s
reply_target _ = some []

abbrev pub is_bad_reply : Option Text → Bool
is_bad_reply none = false
is_bad_reply (some t) = not (is_uuid t)

unfoldable pub validate_message_input : Fields → Result (List MessageError) MessageInput
validate_message_input input =
    let body = trimmed_text (get (codes "body") input) in
    let client_message_id = as_text (get (codes "clientMessageId") input) in
    let reply_to = reply_target (get (codes "replyToMessageId") input) in
    checked
      (error_if (ltb (length body) 1 || ltb 2000 (length body)) message_length
        ++ (error_if (not (is_uuid client_message_id)) bad_retry_identity
            ++ error_if (is_bad_reply reply_to) bad_reply_target))
      (record {
        client_message_id = client_message_id;
        body = body;
        reply_to_message_id = reply_to;
      })

unfoldable pub validate_direct_introduction : Value → Result (List MessageError) Text
unfolding has_link
validate_direct_introduction value =
    let introduction = trimmed_text value in
    checked
      (error_if (ltb (length introduction) 1 || ltb 500 (length introduction)) introduction_length
        ++ error_if (has_link introduction) early_link)
      introduction

unfoldable pub parse_reaction_code : Value → Option ReactionCode
parse_reaction_code (str t) =
    if same_text t (codes "heart")
    then some heart
    else if same_text t (codes "support")
    then some support
    else if same_text t (codes "celebrate")
    then some celebrate
    else if same_text t (codes "insightful")
    then some insightful
    else none
parse_reaction_code _ = none

-- The text that a client sends for a reaction.
abbrev pub reaction_text : ReactionCode → Text
reaction_text heart = codes "heart"
reaction_text support = codes "support"
reaction_text celebrate = codes "celebrate"
reaction_text insightful = codes "insightful"

-- What a message replies to: a missing or null target, or the text that stands there.
abbrev pub RepliesTo : Value → Option Text → Type 0
RepliesTo v none = (v ≡ undefined) ⊎ (v ≡ null)
RepliesTo v (some t) = (v ≡ str t) × IsUuid t

reply_target-RepliesTo :
    (v : Value) → is_bad_reply (reply_target v) ≡ false → RepliesTo v (reply_target v)
unfolding is_uuid match_classes
reply_target-RepliesTo undefined h = inl refl
reply_target-RepliesTo null h = inr refl
reply_target-RepliesTo (str t) h = (refl, (is_uuid_iff t).0 (ground arith))
reply_target-RepliesTo _ h = cc

-- An accepted message is the trimmed text of the request, of 1 to 2000 characters, with the UUID
-- that the request has as a text; it replies to nothing where the target is missing or null, and
-- otherwise to the UUID that the target is as a text.
pub validate_message_input_sound :
    (input : Fields) {m : MessageInput}
    → validate_message_input input ≡ ok m
    → (m.body ≡ trimmed_text (get (codes "body") input))
      × (1 ≤ length m.body)
      × (length m.body ≤ 2000)
      × (get (codes "clientMessageId") input ≡ str m.client_message_id)
      × IsUuid m.client_message_id
      × RepliesTo (get (codes "replyToMessageId") input) m.reply_to_message_id
unfolding validate_message_input
validate_message_input_sound input h =
    let (passed, same) = checked-eq-ok _ _ h in
    let uuid : is_uuid (as_text (get (codes "clientMessageId") input)) ≡ true = ground arith in
    subst
      (λ (m : MessageInput).
        (m.body ≡ trimmed_text (get (codes "body") input))
        × (1 ≤ length m.body)
        × (length m.body ≤ 2000)
        × (get (codes "clientMessageId") input ≡ str m.client_message_id)
        × IsUuid m.client_message_id
        × RepliesTo (get (codes "replyToMessageId") input) m.reply_to_message_id)
      same
      (
        refl,
        ground arith,
        ground arith,
        uuid_text _ uuid,
        (is_uuid_iff _).0 uuid,
        reply_target-RepliesTo _ (ground arith),
      )

-- An accepted introduction is the trimmed text, of 1 to 500 characters, and no link begins after
-- any of its beginnings.
pub validate_direct_introduction_sound :
    (value : Value) (before rest : Text)
    → validate_direct_introduction value ≡ ok (before ++ rest)
    → (before ++ rest ≡ trimmed_text value)
      × (1 ≤ length (before ++ rest))
      × (length (before ++ rest) ≤ 500)
      × (opens_link rest ≡ false)
unfolding validate_direct_introduction
validate_direct_introduction_sound value before rest h =
    let (passed, same) = checked-eq-ok _ _ h in
    let no_link : has_link (before ++ rest) ≡ false =
      subst (λ (t : Text). has_link t ≡ false) same (ground arith) in
    (
      sym same,
      subst (λ (t : Text). 1 ≤ length t) same (ground arith),
      subst (λ (t : Text). length t ≤ 500) same (ground arith),
      has_link-append before rest no_link,
    )

reaction_back : (r : ReactionCode) → parse_reaction_code (str (reaction_text r)) ≡ some r
unfolding parse_reaction_code same_text
reaction_back heart = refl
reaction_back support = refl
reaction_back celebrate = refl
reaction_back insightful = refl

reaction_forth :
    (t : Text) (r : ReactionCode) → parse_reaction_code (str t) ≡ some r → t ≡ reaction_text r
unfolding parse_reaction_code
reaction_forth t r h = ground (
  arith,
  same_text_iff t (codes "heart"),
  same_text_iff t (codes "support"),
  same_text_iff t (codes "celebrate"),
  same_text_iff t (codes "insightful"),
)

-- A value is the code of a reaction exactly when it is that reaction's text.
pub parse_reaction_code_iff :
    (v : Value) (r : ReactionCode) → (parse_reaction_code v ≡ some r) ↔ (v ≡ str (reaction_text r))
unfolding parse_reaction_code
parse_reaction_code_iff (str t) r = (
  λ h. ap str (reaction_forth t r h),
  λ e. subst (λ (v : Value). parse_reaction_code v ≡ some r) (sym e) (reaction_back r),
)
parse_reaction_code_iff _ r = (λ h. cc, λ h. cc)
