-- ===== src/Activity/Build/Accepted.antt =====
-- packages/domain/src/activity.ts: `validateBuildEvidence`, and the links that it accepts.
use mathlib.Core.Path.{subst}
use pods.Base.{
  checked-eq-ok, ◌≡◌, ◌≤◌, ◌⊎◌, inl, inr, refl, true, some, [], ◌∷◌, ok, Text, codes, same_text_iff,
  Value, trimmed_text, is_empty, length, Platform, Url, arith, Option-cases, Bool-cases,
}
use pods.Activity.Build.{
  BuildDeliverableType, live_artifact, BuildEvidence, is_live, matches_deliverable_url,
  validate_build_evidence, GitHubPath, path_word, is_path_id, match_path_sound,
}

is_empty-nil : (t : Text) → is_empty t ≡ true → t ≡ []
is_empty-nil [] h = refl
is_empty-nil (c ∷ t) h = cc

live_type : (type : BuildDeliverableType) → is_live type ≡ true → type ≡ live_artifact
live_type live_artifact h = refl
live_type _ h = cc

module _ (p : Platform) where
  -- The URL has HTTPS and no credentials, and leads anywhere for a live artifact, and otherwise to
  -- the place on GitHub that the deliverable has.
  pub record IsDeliverableLink (type : BuildDeliverableType) (value : Text) : Type 0 where
    pub url : Url
    pub parsed : p.parse_url value ≡ some url
    pub secure : url.protocol ≡ codes "https:"
    pub anonymous : (url.username ≡ []) × (url.password ≡ [])
    pub placed :
        (type ≡ live_artifact)
        ⊎ ((p.to_lower_case url.hostname ≡ codes "github.com")
            × GitHubPath (path_word type) (is_path_id type) url.pathname)

  matches_deliverable_url_sound :
      (type : BuildDeliverableType) (value : Text)
      → matches_deliverable_url p type value ≡ true
      → IsDeliverableLink type value
  unfolding matches_deliverable_url
  matches_deliverable_url_sound type value h = elim (Option-cases (p.parse_url value)) [
    | inl n ↦ cc (rw (n, matches_deliverable_url) at h)
    | inr (url, e) ↦
        let m = rw (e, matches_deliverable_url) at h in
        record {
          url = url;
          parsed = e;
          secure = ground (arith, same_text_iff url.protocol (codes "https:"));
          anonymous =
              (is_empty-nil url.username (ground arith), is_empty-nil url.password (ground arith));
          placed = elim (Bool-cases (is_live type)) [
            | inl live ↦ inl (live_type type live)
            | inr fixed ↦ inr (
              ground (arith, same_text_iff (p.to_lower_case url.hostname) (codes "github.com")),
              match_path_sound type url.pathname (ground arith),
            )
          ];
        }
  ]

  -- Accepted evidence of a build is the trimmed summary, of 20 to 1200 characters, and the
  -- trimmed link, whose URL has HTTPS and no credentials and, except for a live artifact, leads
  -- to GitHub, with a path that is spelled as the deliverable requires.
  pub validate_build_evidence_sound :
      (type : BuildDeliverableType) (summary url : Value) (e : BuildEvidence)
      → validate_build_evidence p type summary url ≡ ok e
      → (e.result_summary ≡ trimmed_text summary)
        × (20 ≤ length e.result_summary)
        × (length e.result_summary ≤ 1200)
        × (e.artifact_url ≡ trimmed_text url)
        × IsDeliverableLink type e.artifact_url
  unfolding validate_build_evidence
  validate_build_evidence_sound type summary url e h =
      let (passed, same) = checked-eq-ok _ _ h in
      subst
        (λ (e : BuildEvidence).
          (e.result_summary ≡ trimmed_text summary)
          × (20 ≤ length e.result_summary)
          × (length e.result_summary ≤ 1200)
          × (e.artifact_url ≡ trimmed_text url)
          × IsDeliverableLink type e.artifact_url)
        same
        (
          refl,
          ground arith,
          ground arith,
          refl,
          matches_deliverable_url_sound type (trimmed_text url) (ground arith),
        )
