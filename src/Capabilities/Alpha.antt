-- ===== src/Capabilities/Alpha.antt =====
-- packages/domain/src/alpha-capabilities.ts: `parseAlphaCapabilities` and its public projection.
use mathlib.Core.Path.{subst}
use pods.Base.{
  ok-injective, >>=-eq-ok, throw_if-eq-ok, ◌≡◌, ◌⊎◌, ◌↔◌, Bool, true, false, not, ◌&&◌, ◌||◌,
  Option, none, some, [], ◌∷◌, Result, ok, err, ◌>>=◌, ◌>>◌, throw_if, Text, codes, same_text, Dict,
  lookup, if◌then◌else◌, arith,
}

pub data AlphaAccess : Type 0 where
  closed allowlist public : AlphaAccess

pub data AlphaDepositMode : Type 0 where
  off allowlist_refund_only public : AlphaDepositMode

pub data RealtimeTransport : Type 0 where
  poll sse : RealtimeTransport

-- `environment[name]`, which is undefined where the name is not set.
abbrev pub Environment : Type 0
Environment = Dict Text

pub data CapabilityError : Type 0 where
  network_not_testnet alpha_network_not_testnet : CapabilityError
  not_one_of not_boolean : Text → CapabilityError
  needs_settlement needs_public_deposits needs_refund_path needs_safety : CapabilityError

pub record AlphaCapabilities : Type 0 where
  pub access : AlphaAccess
  pub profiles : Bool
  pub pod_chat : Bool
  pub social_graph : Bool
  pub direct_messages : Bool
  pub direct_message_requests : Bool
  pub uploads : Bool
  pub gifs : Bool
  pub moderation : Bool
  pub rate_limits : Bool
  pub review_exceptions : Bool
  pub settlement : Bool
  pub proportional_publishing : Bool
  pub payout_broadcast : Bool
  pub financial_incident_paused : Bool
  pub alpha_refund : Bool
  pub deposit_mode : AlphaDepositMode
  pub realtime_transport : RealtimeTransport

abbrev pub or_default : Option Text → Text → Text
or_default none fallback = fallback
or_default (some t) fallback = t

-- The value whose name the variable holds, among the allowed ones.
unfoldable pub one_of : {A : Type 0} → Environment → Text → Dict A → Text → Result CapabilityError A
one_of environment name allowed fallback =
    elim (lookup (or_default (lookup name environment) fallback) allowed) [
      | none ↦ err (not_one_of name)
      | some a ↦ ok a
    ]

unfoldable pub enabled : Environment → Text → Result CapabilityError Bool
enabled environment name =
    let value = or_default (lookup name environment) (codes "false") in
    if same_text value (codes "true")
    then ok true
    else if same_text value (codes "false")
    then ok false
    else err (not_boolean name)

abbrev pub holds : Option Text → Text → Bool
holds none t = false
holds (some s) t = same_text s t

abbrev pub accesses : Dict AlphaAccess
accesses =
    (codes "closed", AlphaAccess.closed)
    ∷ (codes "allowlist", AlphaAccess.allowlist)
    ∷ (codes "public", AlphaAccess.public)
    ∷ []

abbrev pub deposit_modes : Dict AlphaDepositMode
deposit_modes =
    (codes "off", AlphaDepositMode.off)
    ∷ (codes "allowlist_refund_only", AlphaDepositMode.allowlist_refund_only)
    ∷ (codes "public", AlphaDepositMode.public)
    ∷ []

abbrev pub transports : Dict RealtimeTransport
transports = (codes "poll", RealtimeTransport.poll) ∷ (codes "sse", RealtimeTransport.sse) ∷ []

abbrev pub is_public_mode : AlphaDepositMode → Bool
is_public_mode AlphaDepositMode.public = true
is_public_mode _ = false

abbrev pub is_refund_only : AlphaDepositMode → Bool
is_refund_only AlphaDepositMode.allowlist_refund_only = true
is_refund_only _ = false

-- The combinations of switches that a deployment may not have.
unfoldable pub check_switches :
    Bool
    → Bool
    → Bool
    → Bool
    → Bool
    → Bool
    → Bool
    → AlphaDepositMode
    → Result CapabilityError (Unit {0})
check_switches direct_messages direct_message_requests moderation rate_limits settlement
      alpha_refund proportional_publishing deposit_mode =
    do
      throw_if (proportional_publishing && not settlement) needs_settlement
      throw_if (proportional_publishing && not (is_public_mode deposit_mode)) needs_public_deposits
      throw_if (is_refund_only deposit_mode && not alpha_refund) needs_refund_path
      throw_if
          (direct_message_requests && (not direct_messages || not moderation || not rate_limits))
          needs_safety

unfoldable pub parse_alpha_capabilities : Environment → Result CapabilityError AlphaCapabilities
unfolding one_of enabled check_switches
parse_alpha_capabilities environment = do
  let network = lookup (codes "NIMIQ_NETWORK") environment
  throw_if
      (holds (lookup (codes "APP_ENV") environment) (codes "alpha")
        && not (holds network (codes "testnet")))
      alpha_network_not_testnet
  throw_if (not (holds network (codes "testnet"))) network_not_testnet
  direct_messages ← enabled environment (codes "PODS_DMS_ENABLED")
  direct_message_requests ← enabled environment (codes "PODS_DM_REQUESTS_ENABLED")
  moderation ← enabled environment (codes "PODS_MODERATION_ENABLED")
  rate_limits ← enabled environment (codes "PODS_RATE_LIMITS_ENABLED")
  settlement ← enabled environment (codes "PODS_SETTLEMENT_ENABLED")
  alpha_refund ← enabled environment (codes "PODS_ALPHA_REFUND_ENABLED")
  deposit_mode ← one_of environment (codes "PODS_DEPOSIT_MODE") deposit_modes (codes "off")
  proportional_publishing ← enabled environment (codes "PODS_PROPORTIONAL_PUBLISHING_ENABLED")
  payout_broadcast ← enabled environment (codes "PODS_PAYOUT_BROADCAST_ENABLED")
  financial_incident_paused ← enabled environment (codes "PODS_FINANCIAL_INCIDENT_PAUSED")
  check_switches direct_messages direct_message_requests moderation rate_limits settlement
      alpha_refund proportional_publishing deposit_mode
  access ← one_of environment (codes "PODS_ALPHA_ACCESS") accesses (codes "closed")
  profiles ← enabled environment (codes "PODS_PROFILES_ENABLED")
  pod_chat ← enabled environment (codes "PODS_POD_CHAT_ENABLED")
  social_graph ← enabled environment (codes "PODS_SOCIAL_GRAPH_ENABLED")
  uploads ← enabled environment (codes "PODS_UPLOADS_ENABLED")
  gifs ← enabled environment (codes "PODS_GIF_ENABLED")
  review_exceptions ← enabled environment (codes "PODS_REVIEW_EXCEPTIONS_ENABLED")
  realtime_transport ← one_of environment (codes "REALTIME_TRANSPORT") transports (codes "poll")
  ok (record {
    access = access;
    profiles = profiles;
    pod_chat = pod_chat;
    social_graph = social_graph;
    direct_messages = direct_messages;
    direct_message_requests = direct_message_requests;
    uploads = uploads;
    gifs = gifs;
    moderation = moderation;
    rate_limits = rate_limits;
    review_exceptions = review_exceptions;
    settlement = settlement;
    proportional_publishing = proportional_publishing;
    payout_broadcast = payout_broadcast;
    financial_incident_paused = financial_incident_paused;
    alpha_refund = alpha_refund;
    deposit_mode = deposit_mode;
    realtime_transport = realtime_transport;
  })

-- What a deployment that starts may rely on.
pub record IsCoherent (c : AlphaCapabilities) : Type 0 where
  pub publishing_settles :
      (c.proportional_publishing ≡ false)
      ⊎ ((c.settlement ≡ true) × (c.deposit_mode ≡ AlphaDepositMode.public))
  pub refund_only_refunds : (is_refund_only c.deposit_mode ≡ false) ⊎ (c.alpha_refund ≡ true)
  pub requests_are_safe :
      (c.direct_message_requests ≡ false)
      ⊎ ((c.direct_messages ≡ true) × (c.moderation ≡ true) × (c.rate_limits ≡ true))

-- The switches that pass satisfy the conditions, and those that satisfy them pass.
check_switches_iff :
    (dm dr mo ra se re pr : Bool) (d : AlphaDepositMode)
    → (check_switches dm dr mo ra se re pr d ≡ ok tt) ↔ (
        ((pr ≡ false) ⊎ ((se ≡ true) × (d ≡ AlphaDepositMode.public)))
        × ((is_refund_only d ≡ false) ⊎ (re ≡ true))
        × ((dr ≡ false) ⊎ ((dm ≡ true) × (mo ≡ true) × (ra ≡ true))))
unfolding check_switches
check_switches_iff dm dr mo ra se re pr d = ground arith

-- A switch of the environment: on exactly when its variable is "true".
abbrev pub is_on : Environment → Text → Bool
is_on environment name = holds (lookup name environment) (codes "true")

enabled-eq-ok :
    (environment : Environment) (name : Text) {b : Bool}
    → enabled environment name ≡ ok b
    → b ≡ is_on environment name
unfolding enabled same_text
enabled-eq-ok environment name h = ground arith

-- Testnet, a coherent set of switches, and the switches of money as their variables say.
pub record IsDeployment (environment : Environment) (c : AlphaCapabilities) : Type 0 where
  pub testnet : holds (lookup (codes "NIMIQ_NETWORK") environment) (codes "testnet") ≡ true
  pub coherent : IsCoherent c
  pub settles : c.settlement ≡ is_on environment (codes "PODS_SETTLEMENT_ENABLED")
  pub refunds : c.alpha_refund ≡ is_on environment (codes "PODS_ALPHA_REFUND_ENABLED")
  pub publishes :
      c.proportional_publishing ≡ is_on environment (codes "PODS_PROPORTIONAL_PUBLISHING_ENABLED")
  pub broadcasts : c.payout_broadcast ≡ is_on environment (codes "PODS_PAYOUT_BROADCAST_ENABLED")
  pub pauses :
      c.financial_incident_paused ≡ is_on environment (codes "PODS_FINANCIAL_INCIDENT_PAUSED")

-- A deployment that starts is on testnet, has a coherent set of switches, and has the switches of
-- money on exactly where their variables are "true".
pub parse_alpha_capabilities-IsDeployment :
    (environment : Environment) (c : AlphaCapabilities)
    → parse_alpha_capabilities environment ≡ ok c
    → IsDeployment environment c
unfolding parse_alpha_capabilities
parse_alpha_capabilities-IsDeployment env c h =
    let network = lookup (codes "NIMIQ_NETWORK") env in
    let (_, _, h₁) =
      >>=-eq-ok
        (throw_if
          (holds (lookup (codes "APP_ENV") env) (codes "alpha")
            && not (holds network (codes "testnet")))
          _)
        _ h in
    let (_, n, h₂) = >>=-eq-ok (throw_if (not (holds network (codes "testnet"))) _) _ h₁ in
    let (dm, _, h₃) = >>=-eq-ok (enabled env (codes "PODS_DMS_ENABLED")) _ h₂ in
    let (dr, _, h₄) = >>=-eq-ok (enabled env (codes "PODS_DM_REQUESTS_ENABLED")) _ h₃ in
    let (mo, _, h₅) = >>=-eq-ok (enabled env (codes "PODS_MODERATION_ENABLED")) _ h₄ in
    let (ra, _, h₆) = >>=-eq-ok (enabled env (codes "PODS_RATE_LIMITS_ENABLED")) _ h₅ in
    let (se, e₁, h₇) = >>=-eq-ok (enabled env (codes "PODS_SETTLEMENT_ENABLED")) _ h₆ in
    let (re, e₂, h₈) = >>=-eq-ok (enabled env (codes "PODS_ALPHA_REFUND_ENABLED")) _ h₇ in
    let (d, _, h₉) = >>=-eq-ok (one_of env (codes "PODS_DEPOSIT_MODE") deposit_modes _) _ h₈ in
    let (pr, e₃, k₁) =
      >>=-eq-ok (enabled env (codes "PODS_PROPORTIONAL_PUBLISHING_ENABLED")) _ h₉ in
    let (pb, e₄, k₂) = >>=-eq-ok (enabled env (codes "PODS_PAYOUT_BROADCAST_ENABLED")) _ k₁ in
    let (fi, e₅, k₃) = >>=-eq-ok (enabled env (codes "PODS_FINANCIAL_INCIDENT_PAUSED")) _ k₂ in
    let (_, sw, k₄) = >>=-eq-ok (check_switches dm dr mo ra se re pr d) _ k₃ in
    let (_, _, l₁) = >>=-eq-ok (one_of env (codes "PODS_ALPHA_ACCESS") accesses _) _ k₄ in
    let (_, _, l₂) = >>=-eq-ok (enabled env (codes "PODS_PROFILES_ENABLED")) _ l₁ in
    let (_, _, l₃) = >>=-eq-ok (enabled env (codes "PODS_POD_CHAT_ENABLED")) _ l₂ in
    let (_, _, l₄) = >>=-eq-ok (enabled env (codes "PODS_SOCIAL_GRAPH_ENABLED")) _ l₃ in
    let (_, _, l₅) = >>=-eq-ok (enabled env (codes "PODS_UPLOADS_ENABLED")) _ l₄ in
    let (_, _, l₆) = >>=-eq-ok (enabled env (codes "PODS_GIF_ENABLED")) _ l₅ in
    let (_, _, l₇) = >>=-eq-ok (enabled env (codes "PODS_REVIEW_EXCEPTIONS_ENABLED")) _ l₆ in
    let (_, _, l₈) = >>=-eq-ok (one_of env (codes "REALTIME_TRANSPORT") transports _) _ l₇ in
    let (publishing, refund_only, requests) = (check_switches_iff dm dr mo ra se re pr d).0 sw in
    subst (IsDeployment env) (ok-injective l₈) (record {
      testnet = ground (arith, throw_if-eq-ok _ _ n);
      coherent = record {
        publishing_settles = publishing;
        refund_only_refunds = refund_only;
        requests_are_safe = requests;
      };
      settles = enabled-eq-ok env (codes "PODS_SETTLEMENT_ENABLED") e₁;
      refunds = enabled-eq-ok env (codes "PODS_ALPHA_REFUND_ENABLED") e₂;
      publishes = enabled-eq-ok env (codes "PODS_PROPORTIONAL_PUBLISHING_ENABLED") e₃;
      broadcasts = enabled-eq-ok env (codes "PODS_PAYOUT_BROADCAST_ENABLED") e₄;
      pauses = enabled-eq-ok env (codes "PODS_FINANCIAL_INCIDENT_PAUSED") e₅;
    })
