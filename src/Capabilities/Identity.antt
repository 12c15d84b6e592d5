-- ===== src/Capabilities/Identity.antt =====
-- packages/domain/src/runtime-identity.ts: `parsePublicRuntimeIdentity`.
use pods.Base.{
  ℕ, ◌≡◌, ◌⊎◌, Bool, true, false, not, ◌&&◌, ◌||◌, [], ◌∷◌, Result, ok, ◌>>◌, throw_if, Text, codes,
  lookup, length, take, all, is_digit, is_hex, is_lower, ◌==◌, if◌then◌else◌, arith, inl, inr,
  Bool-cases, Option, none, some, ◌++◌, ◌≤◌, ◌↔◌, refl, ap, All, all_iff, or_iff, IsWithin, IsHex,
  is_hex_iff, is_lower_iff, is_digit_iff, ==_iff, same_text_iff,
}
use pods.Capabilities.Alpha.{Environment, holds, or_default}

pub data DeploymentFlavor : Type 0 where
  local testnet : DeploymentFlavor

pub record PublicRuntimeIdentity : Type 0 where
  pub deployment_flavor : DeploymentFlavor
  pub commit_sha : Text
  pub schema_version : Text

pub data IdentityError : Type 0 where
  network_not_testnet invalid_schema_version invalid_app_env invalid_release_sha : IdentityError

-- /^[0-9a-f]{40}$/i
abbrev pub is_release_sha : Text → Bool
is_release_sha t = all is_hex t && length t == 40

abbrev pub is_schema_char : ℕ → Bool
is_schema_char c = is_lower c || is_digit c || c == b'_'

-- /^\d{4}_[a-z0-9_]+$/
abbrev pub is_schema_version : Text → Bool
is_schema_version (a ∷ b ∷ c ∷ d ∷ e ∷ f ∷ rest) =
    is_digit a
    && is_digit b
    && is_digit c
    && is_digit d
    && e == b'_'
    && all is_schema_char (f ∷ rest)
is_schema_version _ = false

-- Four digits, an underscore, and lower-case letters, digits and underscores.
pub record IsSchemaVersion (t : Text) : Type 0 where
  pub number : Text
  pub name : Text
  pub spelled : t ≡ number ++ 95 ∷ name
  pub numbered : (length number ≡ 4) × All (IsWithin 48 57) number
  pub named : (1 ≤ length name) × All (λ c. (IsWithin 97 122 c ⊎ IsWithin 48 57 c) ⊎ (c ≡ 95)) name

schema_chars :
    (t : Text)
    → (all is_schema_char t ≡ true) ↔ All (λ c. (IsWithin 97 122 c ⊎ IsWithin 48 57 c) ⊎ (c ≡ 95)) t
schema_chars =
    all_iff is_schema_char _
      λ c. or_iff _ _ (or_iff _ _ (is_lower_iff c) (is_digit_iff c)) (==_iff c 95)

is_schema_version_sound : (t : Text) → is_schema_version t ≡ true → IsSchemaVersion t
is_schema_version_sound (a ∷ b ∷ c ∷ d ∷ e ∷ f ∷ rest) h =
    let line : e ≡ 95 = ground (arith, ==_iff e 95) in
    record {
      number = a ∷ b ∷ c ∷ d ∷ [];
      name = f ∷ rest;
      spelled = ap (λ x. a ∷ b ∷ c ∷ d ∷ x ∷ f ∷ rest) line;
      numbered = (
        refl,
        (all_iff is_digit (IsWithin 48 57) is_digit_iff (a ∷ b ∷ c ∷ d ∷ [])).0 (ground arith),
      );
      named = (omega arith, (schema_chars (f ∷ rest)).0 (ground arith));
    }
is_schema_version_sound _ h = cc

holds_sound : (o : Option Text) (t : Text) → holds o t ≡ true → o ≡ some t
holds_sound none t h = cc
holds_sound (some s) t h = ap some ((same_text_iff s t).0 h)

-- A release is there, and has 40 hexadecimal digits.
release_sound :
    (o : Option Text)
    → is_release_sha (or_default o []) ≡ true
    → (o ≡ some (or_default o [])) × (length (or_default o []) ≡ 40) × All IsHex (or_default o [])
release_sound none h = cc
release_sound (some t) h =
    (refl, ground arith, (all_iff is_hex IsHex is_hex_iff t).0 (ground arith))

-- `to_lower_case` is `String.prototype.toLowerCase`.
module _ (to_lower_case : Text → Text) where
  unfoldable pub parse_public_runtime_identity :
      Environment → Text → Result IdentityError PublicRuntimeIdentity
  parse_public_runtime_identity environment schema_version = do
    throw_if (not (holds (lookup (codes "NIMIQ_NETWORK") environment) (codes "testnet")))
        network_not_testnet
    throw_if (not (is_schema_version schema_version)) invalid_schema_version
    let app_env = lookup (codes "APP_ENV") environment
    let release_sha = or_default (lookup (codes "PODS_RELEASE_SHA") environment) []
    if holds app_env (codes "local")
        then ok (record {
          deployment_flavor = local;
          commit_sha = codes "local";
          schema_version = schema_version;
        })
        else do
          throw_if (not (holds app_env (codes "alpha"))) invalid_app_env
          throw_if (not (is_release_sha release_sha)) invalid_release_sha
          ok (record {
            deployment_flavor = testnet;
            commit_sha = take 12 (to_lower_case release_sha);
            schema_version = schema_version;
          })

  -- An identity is given out where NIMIQ_NETWORK is testnet only, for a schema version of four
  -- digits, an underscore and a name. Either APP_ENV is local and the flavor and the commit are
  -- local; or APP_ENV is alpha, the flavor is testnet, PODS_RELEASE_SHA has 40 hexadecimal
  -- digits, and the commit is the first 12 characters of it in lower case.
  pub parse_public_runtime_identity_sound :
      (environment : Environment) (version : Text) (i : PublicRuntimeIdentity)
      → parse_public_runtime_identity environment version ≡ ok i
      → (lookup (codes "NIMIQ_NETWORK") environment ≡ some (codes "testnet"))
        × (i.schema_version ≡ version)
        × IsSchemaVersion version
        × (((lookup (codes "APP_ENV") environment ≡ some (codes "local"))
              × (i.deployment_flavor ≡ local)
              × (i.commit_sha ≡ codes "local"))
            ⊎ ((sha : Text) × (lookup (codes "APP_ENV") environment ≡ some (codes "alpha"))
                × (i.deployment_flavor ≡ testnet)
                × (lookup (codes "PODS_RELEASE_SHA") environment ≡ some sha)
                × (length sha ≡ 40)
                × All IsHex sha
                × (i.commit_sha ≡ take 12 (to_lower_case sha))))
  unfolding parse_public_runtime_identity
  parse_public_runtime_identity_sound environment version i h =
      let network : holds (lookup (codes "NIMIQ_NETWORK") environment) (codes "testnet") ≡ true =
        ground arith in
      let schema : is_schema_version version ≡ true = ground arith in
      (
        holds_sound _ _ network,
        ground arith,
        is_schema_version_sound version schema,
        elim (Bool-cases (holds (lookup (codes "APP_ENV") environment) (codes "local"))) [
          | inl home ↦ inl (holds_sound _ _ home, ground arith, ground arith)
          | inr away ↦
              let app : holds (lookup (codes "APP_ENV") environment) (codes "alpha") ≡ true =
                ground arith in
              let release : is_release_sha
                    (or_default (lookup (codes "PODS_RELEASE_SHA") environment) [])
                  ≡ true =
                ground arith in
              let (found, long, hex) = release_sound _ release in
              inr (_, holds_sound _ _ app, ground arith, found, long, hex, ground arith)
        ],
      )
