-- ===== src/Capabilities/Tests.antt =====
-- A deployment on testnet with a settlement, and its identity.
use pods.Base.{
  ◌≡◌, ◌⊎◌, refl, true, false, [], ◌∷◌, ok, codes, same_text, lookup, take, replicate, some, length,
  All, IsHex, Text,
}
use pods.Capabilities.Alpha.{
  Environment, AlphaCapabilities, AlphaAccess, AlphaDepositMode, RealtimeTransport, IsDeployment,
  parse_alpha_capabilities, parse_alpha_capabilities-IsDeployment,
}
use pods.Capabilities.Identity.{
  PublicRuntimeIdentity, testnet, local, IsSchemaVersion, parse_public_runtime_identity,
  parse_public_runtime_identity_sound,
}

abbrev settings : Environment
settings =
    (codes "NIMIQ_NETWORK", codes "testnet")
    ∷ (codes "PODS_SETTLEMENT_ENABLED", codes "true")
    ∷ (codes "PODS_DEPOSIT_MODE", codes "public")
    ∷ (codes "PODS_PROPORTIONAL_PUBLISHING_ENABLED", codes "true")
    ∷ []

abbrev deployed : AlphaCapabilities
deployed = record {
  access = AlphaAccess.closed;
  profiles = false;
  pod_chat = false;
  social_graph = false;
  direct_messages = false;
  direct_message_requests = false;
  uploads = false;
  gifs = false;
  moderation = false;
  rate_limits = false;
  review_exceptions = false;
  settlement = true;
  proportional_publishing = true;
  payout_broadcast = false;
  financial_incident_paused = false;
  alpha_refund = false;
  deposit_mode = AlphaDepositMode.public;
  realtime_transport = RealtimeTransport.poll;
}

settings-deployed : parse_alpha_capabilities settings ≡ ok deployed
unfolding parse_alpha_capabilities same_text
settings-deployed = refl

parse_alpha_capabilities-IsDeployment_example : IsDeployment settings deployed
parse_alpha_capabilities-IsDeployment_example =
    parse_alpha_capabilities-IsDeployment settings deployed settings-deployed

abbrev release : Environment
release =
    (codes "NIMIQ_NETWORK", codes "testnet")
    ∷ (codes "APP_ENV", codes "alpha")
    ∷ (codes "PODS_RELEASE_SHA", replicate 40 b'a')
    ∷ []

abbrev identity : PublicRuntimeIdentity
identity = record {
  deployment_flavor = testnet;
  commit_sha = replicate 12 b'a';
  schema_version = codes "0012_rooms";
}

release_identified :
    parse_public_runtime_identity (λ t. t) release (codes "0012_rooms") ≡ ok identity
unfolding parse_public_runtime_identity same_text
release_identified = refl

parse_public_runtime_identity_sound_example :
    (lookup (codes "NIMIQ_NETWORK") release ≡ some (codes "testnet"))
    × (codes "0012_rooms" ≡ codes "0012_rooms")
    × IsSchemaVersion (codes "0012_rooms")
    × (((lookup (codes "APP_ENV") release ≡ some (codes "local"))
          × (testnet ≡ local)
          × (replicate 12 b'a' ≡ codes "local"))
        ⊎ ((sha : Text) × (lookup (codes "APP_ENV") release ≡ some (codes "alpha"))
            × (testnet ≡ testnet)
            × (lookup (codes "PODS_RELEASE_SHA") release ≡ some sha)
            × (length sha ≡ 40)
            × All IsHex sha
            × (replicate 12 b'a' ≡ take 12 sha)))
parse_public_runtime_identity_sound_example =
    parse_public_runtime_identity_sound (λ t. t) release (codes "0012_rooms") identity
      release_identified
