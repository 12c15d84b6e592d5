-- ===== src/Activity/Build.antt =====
-- packages/domain/src/activity.ts: the task and the evidence of a build, and the links to GitHub.
pub mod Accepted
use mathlib.Core.Path.{subst}
use mathlib.Core.List.{append-nil}
use pods.Base.{
  checked-eq-ok, ℕ, ◌≡◌, ◌⊎◌, inl, inr, refl, ap, ◌∙◌, Bool, true, false, not, ◌&&◌, ◌||◌, none,
  some, List, [], ◌∷◌, ◌++◌, keep, Result, ok, checked, Text, codes, same_text, same_text_iff,
  Value, str, arr, items, as_text, trimmed_text, trim_idem, is_text, is_string, all, some_of,
  is_empty, length, ltb, ◌==◌, if◌then◌else◌, error_if, is_digit, is_lower, is_upper, Platform,
  arith, ==_iff, Bool-cases,
}

pub data BuildDeliverableType : Type 0 where
  pull_request commit issue live_artifact : BuildDeliverableType

abbrev pub deliverable_name : BuildDeliverableType → Text
deliverable_name pull_request = codes "pull_request"
deliverable_name commit = codes "commit"
deliverable_name issue = codes "issue"
deliverable_name live_artifact = codes "live_artifact"

pub data BuildError : Type 0 where
  task_length deliverable_not_allowed summary_length : BuildError
  url_mismatch : BuildDeliverableType → BuildError  -- `deliverableUrlError`

-- `["pull_request", …].includes(text)`.
unfoldable pub is_deliverable_name : Text → Bool
is_deliverable_name t =
    same_text t (codes "pull_request")
    || same_text t (codes "commit")
    || same_text t (codes "issue")
    || same_text t (codes "live_artifact")

-- `text.split("/")`.
unfoldable pub split_path : Text → List Text
split_path [] = [] ∷ []
split_path (c ∷ s) = elim (split_path s) [
  | [] ↦ []
  | part ∷ parts ↦ if c == b'/' then [] ∷ part ∷ parts else (c ∷ part) ∷ parts
]

-- The parts of `/owner/repo/kind/id`, perhaps with a `/` at the end.
unfoldable pub match_parts : Text → (ℕ → Bool) → List Text → Bool
match_parts kind is_id ([] ∷ owner ∷ repo ∷ word ∷ id ∷ rest) =
    not (is_empty owner)
    && not (is_empty repo)
    && same_text word kind
    && not (is_empty id)
    && all is_id id
    && (is_empty rest || (elim rest [ [] ↦ false | x ∷ xs ↦ is_empty x && is_empty xs ]))
match_parts kind is_id _ = false

abbrev pub is_alphanumeric : ℕ → Bool
is_alphanumeric c = is_upper c || is_lower c || is_digit c

-- The three regular expressions on `url.pathname`.
unfoldable pub match_path : BuildDeliverableType → Text → Bool
unfolding split_path match_parts
match_path pull_request path = match_parts (codes "pull") is_digit (split_path path)
match_path commit path = match_parts (codes "commit") is_alphanumeric (split_path path)
match_path issue path = match_parts (codes "issues") is_digit (split_path path)
match_path live_artifact path = false

abbrev pub is_live : BuildDeliverableType → Bool
is_live live_artifact = true
is_live _ = false

pub record BuildTask : Type 0 where
  pub task : Text
  pub deliverable_type : Value

pub record BuildEvidence : Type 0 where
  pub result_summary : Text
  pub artifact_url : Text

-- `array.filter(value => typeof value === "string")`, or none of what is no array.
abbrev pub allowed_texts : Value → List Value
allowed_texts (arr vs) = keep is_string (items vs)
allowed_texts _ = []

-- `allowed.includes(value)`, over strings.
abbrev pub includes : List Value → Value → Bool
includes vs (str t) = some_of (λ v. is_text v t) vs
includes vs _ = false

module _ (p : Platform) where
  unfoldable pub matches_deliverable_url : BuildDeliverableType → Text → Bool
  unfolding match_path
  matches_deliverable_url type value = elim (p.parse_url value) [
    | none ↦ false
    | some url ↦
        if not (same_text url.protocol (codes "https:"))
          || not (is_empty url.username)
          || not (is_empty url.password)
        then false
        else if is_live type
        then true
        else if not (same_text (p.to_lower_case url.hostname) (codes "github.com"))
        then false
        else match_path type url.pathname
  ]

  unfoldable pub validate_build_task : Value → Value → Value → Result (List BuildError) BuildTask
  unfolding is_deliverable_name
  validate_build_task task deliverable_type allowed_deliverables =
      let text = trimmed_text task in
      let allowed = allowed_texts allowed_deliverables in
      checked
        (error_if (ltb (length text) 12 || ltb 240 (length text)) task_length
          ++ error_if
              (not (is_deliverable_name (p.string_of deliverable_type))
                || not (includes allowed deliverable_type))
              deliverable_not_allowed)
        (record { task = text; deliverable_type = deliverable_type })

  unfoldable pub validate_build_evidence :
      BuildDeliverableType → Value → Value → Result (List BuildError) BuildEvidence
  unfolding matches_deliverable_url
  validate_build_evidence type result_summary artifact_url =
      let summary = trimmed_text result_summary in
      let url = trimmed_text artifact_url in
      checked
        (error_if (ltb (length summary) 20 || ltb 1200 (length summary)) summary_length
          ++ error_if (not (matches_deliverable_url type url)) (url_mismatch type))
        (record { result_summary = summary; artifact_url = url })

-- The parts joined by `/` again.
abbrev pub join_path : List Text → Text
join_path [] = []
join_path (part ∷ []) = part
join_path (part ∷ next ∷ parts) = part ++ b'/' ∷ join_path (next ∷ parts)

split_path-ne : (s : Text) → (part : Text) × (parts : List Text) × (split_path s ≡ part ∷ parts)
unfolding split_path
split_path-ne [] = ([], [], refl)
split_path-ne (c ∷ s) =
    let (part, parts, e) = split_path-ne s in
    elim (Bool-cases (c == b'/')) [
      | inl slash ↦ ([], part ∷ parts, rw (e, slash))
      | inr other ↦ (c ∷ part, parts, rw (e, other))
    ]

pub join-split_path : (s : Text) → join_path (split_path s) ≡ s
unfolding split_path
join-split_path [] = refl
join-split_path (c ∷ s) =
    let (part, parts, e) = split_path-ne s in
    let ih : join_path (part ∷ parts) ≡ s = rw e at (join-split_path s) in
    elim (Bool-cases (c == b'/')) [
      | inl slash ↦ rw (e, slash) (ground (arith, ih, ==_iff c b'/'))
      | inr other ↦ rw (e, other) (join_cons c part parts ∙ ap (λ (t : Text). c ∷ t) ih)
    ]
  where
    join_cons :
        (c : ℕ) (part : Text) (parts : List Text)
        → join_path ((c ∷ part) ∷ parts) ≡ c ∷ join_path (part ∷ parts)
    join_cons c part [] = refl
    join_cons c part (next ∷ parts) = refl

-- `/owner/repo/kind/id`, perhaps with a `/` at the end.
pub record GitHubPath (kind : Text) (is_id : ℕ → Bool) (path : Text) : Type 0 where
  pub owner : Text
  pub repo : Text
  pub id : Text
  pub rest : Text
  pub spelled : path ≡ b'/' ∷ (owner ++ b'/' ∷ (repo ++ b'/' ∷ (kind ++ b'/' ∷ (id ++ rest))))
  pub named : (is_empty owner ≡ false) × (is_empty repo ≡ false) × (is_empty id ≡ false)
  pub identified : all is_id id ≡ true
  pub ended : (rest ≡ []) ⊎ (rest ≡ b'/' ∷ [])

match_parts_sound :
    (kind : Text) (is_id : ℕ → Bool) (parts : List Text)
    → match_parts kind is_id parts ≡ true
    → GitHubPath kind is_id (join_path parts)
unfolding match_parts
match_parts_sound kind is_id ([] ∷ owner ∷ repo ∷ word ∷ id ∷ []) h =
    let same : word ≡ kind = ground (arith, same_text_iff word kind) in
    record {
      owner = owner;
      repo = repo;
      id = id;
      rest = [];
      spelled = rw (same, append-nil);
      named = ground arith;
      identified = ground arith;
      ended = inl refl;
    }
match_parts_sound kind is_id ([] ∷ owner ∷ repo ∷ word ∷ id ∷ [] ∷ []) h =
    let same : word ≡ kind = ground (arith, same_text_iff word kind) in
    record {
      owner = owner;
      repo = repo;
      id = id;
      rest = b'/' ∷ [];
      spelled = rw same;
      named = ground arith;
      identified = ground arith;
      ended = inr refl;
    }
match_parts_sound kind is_id _ h = ground arith

-- The word in the path, and what its last part is made of.
abbrev pub path_word : BuildDeliverableType → Text
path_word pull_request = codes "pull"
path_word commit = codes "commit"
path_word issue = codes "issues"
path_word live_artifact = []

abbrev pub is_path_id : BuildDeliverableType → ℕ → Bool
is_path_id commit = is_alphanumeric
is_path_id _ = is_digit

pub match_path_sound :
    (type : BuildDeliverableType) (path : Text)
    → match_path type path ≡ true
    → GitHubPath (path_word type) (is_path_id type) path
unfolding match_path
match_path_sound pull_request path h =
    rw (join-split_path path) at (match_parts_sound (codes "pull") is_digit (split_path path) h)
match_path_sound commit path h =
    rw (join-split_path path) at
      (match_parts_sound (codes "commit") is_alphanumeric (split_path path) h)
match_path_sound issue path h =
    rw (join-split_path path) at (match_parts_sound (codes "issues") is_digit (split_path path) h)
match_path_sound live_artifact path h = cc
