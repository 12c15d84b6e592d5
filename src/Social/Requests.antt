-- ===== src/Social/Requests.antt =====
-- packages/domain/src/social.ts: pairs of users, message requests and friend requests.
use pods.Base.{
  ◌≡◌, ◌↔◌, ◌⊎◌, inl, inr, refl, sym, ap, ◌∙◌, ok-injective, Bool, Bool-cases, true, false, not,
  ◌&&◌, ◌||◌, Option, none, some, List, [], ◌∷◌, ◌++◌, Result, ok, err, Text, same_text, ltb, ◌==◌,
  some_of, if◌then◌else◌, arith,
}

-- The order of `sort()`: by UTF-16 code units.
unfoldable pub text_le : Text → Text → Bool
text_le [] t = true
text_le (a ∷ s) [] = false
text_le (a ∷ s) (b ∷ t) = ltb a b || (a == b && text_le s t)

pub data PairError : Type 0 where
  same_user : PairError

pub record UserPair : Type 0 where
  pub first_user_id : Text
  pub second_user_id : Text
  pub key : Text

abbrev pub make_pair : Text → Text → UserPair
make_pair first second = record {
  first_user_id = first;
  second_user_id = second;
  key = first ++ (b':' ∷ second);
}

unfoldable pub canonical_user_pair : Text → Text → Result PairError UserPair
unfolding text_le
canonical_user_pair first second =
    if same_text first second
    then err same_user
    else if text_le first second
    then ok (make_pair first second)
    else ok (make_pair second first)

pub data Actor : Type 0 where
  sender recipient : Actor

pub data DirectConversationState : Type 0 where
  pending active discarded blocked : DirectConversationState

pub data DirectEvent : Type 0 where
  accept discard block : DirectEvent

unfoldable pub next_direct_conversation_state :
    DirectConversationState → DirectEvent → Actor → Option DirectConversationState
next_direct_conversation_state s block a = some blocked
next_direct_conversation_state pending accept recipient = some active
next_direct_conversation_state pending discard recipient = some discarded
next_direct_conversation_state _ _ _ = none

pub data FriendRequestState : Type 0 where
  pending accepted declined cancelled : FriendRequestState

pub data FriendEvent : Type 0 where
  accept decline cancel : FriendEvent

unfoldable pub next_friend_request_state :
    FriendRequestState → FriendEvent → Actor → Option FriendRequestState
next_friend_request_state pending accept recipient = some accepted
next_friend_request_state pending decline recipient = some declined
next_friend_request_state pending cancel sender = some cancelled
next_friend_request_state _ _ _ = none

text_le_total : (s t : Text) → text_le s t ≡ false → text_le t s ≡ true
unfolding text_le
text_le_total [] t h = cc
text_le_total (a ∷ s) [] h = refl
text_le_total (a ∷ s) (b ∷ t) h = ground (arith, text_le_total s t)

text_le_antisym : (s t : Text) → text_le s t ≡ true → text_le t s ≡ true → s ≡ t
unfolding text_le
text_le_antisym [] [] h k = refl
text_le_antisym [] (b ∷ t) h k = cc
text_le_antisym (a ∷ s) [] h k = cc
text_le_antisym (a ∷ s) (b ∷ t) h k = ground (arith, text_le_antisym s t)

same_text_sym : (s t : Text) → same_text s t ≡ same_text t s
unfolding same_text
same_text_sym [] [] = refl
same_text_sym [] (b ∷ t) = refl
same_text_sym (a ∷ s) [] = refl
same_text_sym (a ∷ s) (b ∷ t) = ground (arith, same_text_sym s t)

-- The pair of two users, or the refusal of it, does not depend on which of them is named first.
pub canonical_user_pair_comm : (s t : Text) → canonical_user_pair s t ≡ canonical_user_pair t s
unfolding canonical_user_pair
canonical_user_pair_comm s t = elim (Bool-cases (text_le s t)) [
  | inl le ↦ elim (Bool-cases (text_le t s)) [
    | inl ge ↦ rw (text_le_antisym s t le ge)
    | inr gt ↦ rw (same_text_sym s t, le, gt)
  ]
  | inr gt ↦ rw (same_text_sym s t, gt, text_le_total s t gt)
]

key_injective :
    (s t s' t' : Text)
    → some_of (λ c. c == b':') s ≡ false
    → some_of (λ c. c == b':') s' ≡ false
    → s ++ (b':' ∷ t) ≡ s' ++ (b':' ∷ t')
    → (s ≡ s') × (t ≡ t')
key_injective [] t [] t' h h' e = (refl, cc)
key_injective [] t (a ∷ s') t' h h' e = ground arith
key_injective (a ∷ s) t [] t' h h' e = ground arith
key_injective (a ∷ s) t (a' ∷ s') t' h h' e =
    let (same, rest) = key_injective s t s' t' (ground arith) (ground arith) (cc) in (cc, rest)

-- The identity has no `:`, as no UUID has.
abbrev pub is_plain : Text → Bool
is_plain t = not (some_of (λ c. c == b':') t)

-- Pairs of identities without a colon that have the same key are the same pair.
pub canonical_user_pair-key :
    (a b c d : Text) {p q : UserPair}
    → is_plain a ≡ true
    → is_plain b ≡ true
    → is_plain c ≡ true
    → is_plain d ≡ true
    → canonical_user_pair a b ≡ ok p
    → canonical_user_pair c d ≡ ok q
    → p.key ≡ q.key
    → p ≡ q
unfolding canonical_user_pair
canonical_user_pair-key a b c d {p} {q} ha hb hc hd h k e =
    let (a', b', ha', hb', ep) = made a b p ha hb h in
    let (c', d', hc', hd', eq) = made c d q hc hd k in
    let (first, second) =
      key_injective a' b' c' d' ha' hc'
        (ap (λ (u : UserPair). u.key) (sym ep) ∙ (e ∙ ap (λ (u : UserPair). u.key) eq)) in
    ep
    ∙ (ap (λ (x : Text). make_pair x b') first
        ∙ (ap (λ (x : Text). make_pair c' x) second ∙ sym eq))
  where
    made :
        (s t : Text) (u : UserPair)
        → is_plain s ≡ true
        → is_plain t ≡ true
        → canonical_user_pair s t ≡ ok u
        → (x : Text) × (y : Text) × (some_of (λ c. c == b':') x ≡ false)
          × (some_of (λ c. c == b':') y ≡ false)
          × (u ≡ make_pair x y)
    made s t u hs ht h = elim (Bool-cases (same_text s t)) [
      | inl same ↦ cc (rw same at h)
      | inr other ↦ elim (Bool-cases (text_le s t)) [
        | inl le ↦ (s, t, ground arith, ground arith, sym (ok-injective (rw (other, le) at h)))
        | inr gt ↦ (t, s, ground arith, ground arith, sym (ok-injective (rw (other, gt) at h)))
      ]
    ]

-- A friend request moves only while it is pending, and what it moves to never moves again: the
-- recipient accepts or declines, the sender cancels.
pub next_friend_request_state_iff :
    (s t : FriendRequestState) (e : FriendEvent) (a : Actor)
    → (next_friend_request_state s e a ≡ some t) ↔ (
        (s ≡ pending)
        × (((e ≡ accept) × (a ≡ recipient) × (t ≡ accepted))
            ⊎ (((e ≡ decline) × (a ≡ recipient) × (t ≡ declined))
                ⊎ ((e ≡ cancel) × (a ≡ sender) × (t ≡ cancelled)))))
unfolding next_friend_request_state
next_friend_request_state_iff s t e a = ground arith

-- The state after the calls, a refused one of which changes nothing.
abbrev pub run_direct :
    DirectConversationState → List (DirectEvent × Actor) → DirectConversationState
run_direct s [] = s
run_direct s ((e, a) ∷ calls) = elim (next_direct_conversation_state s e a) [
  | none ↦ run_direct s calls
  | some t ↦ run_direct t calls
]

abbrev pub is_block : DirectEvent × Actor → Bool
is_block (block, a) = true
is_block _ = false

abbrev pub is_acceptance : DirectEvent × Actor → Bool
is_acceptance (accept, recipient) = true
is_acceptance _ = false

-- A conversation that is active at the end was never blocked on the way, and was active before or
-- was pending and the recipient accepted it: a discarded or a blocked one is never revived.
pub run_direct-active :
    (s : DirectConversationState) (calls : List (DirectEvent × Actor))
    → run_direct s calls ≡ active
    → (some_of is_block calls ≡ false)
      × ((s ≡ active) ⊎ ((s ≡ pending) × (some_of is_acceptance calls ≡ true)))
unfolding next_direct_conversation_state
run_direct-active s [] h = (refl, inl h)
run_direct-active s ((e, a) ∷ calls) h = ground (
  arith,
  run_direct-active s calls,
  run_direct-active active calls,
  run_direct-active discarded calls,
  run_direct-active blocked calls,
)
