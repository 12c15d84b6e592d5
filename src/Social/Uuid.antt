-- ===== src/Social/Uuid.antt =====
-- packages/domain/src/social.ts: what the pattern of identities accepts.
use mathlib.Core.Path.{subst}
use mathlib.Core.List.{append-nil}
use pods.Base.{
  ℕ, zero, suc, ◌≡◌, ◌↔◌, ◌⊎◌, refl, ap, ◌∙◌, Bool, true, List, [], ◌∷◌, ◌++◌, Text, all, All,
  all_iff, length, replicate, is_hex, IsHex, is_hex_iff, IsWithin, ==_iff, arith, Value, str,
  as_text,
}
use pods.Social.Patterns.{match_classes, is_variant, is_version, is_dash, is_uuid}

-- `n` hexadecimal digits.
abbrev pub IsHexOf : ℕ → Text → Type 0
IsHexOf n t = (length t ≡ n) × All IsHex t

-- 8, 4, 4, 4 and 12 hexadecimal digits between dashes, where the third part begins with a digit
-- from 1 to 8 and the fourth with 8, 9, a or b, in either case.
pub record IsUuid (t : Text) : Type 0 where
  pub time_low : Text
  pub time_mid : Text
  pub version : ℕ
  pub time_high : Text
  pub variant : ℕ
  pub clock : Text
  pub node : Text
  pub spelled :
      t
      ≡ time_low
        ++ 45 ∷ (time_mid ++ 45 ∷ version ∷ (time_high ++ 45 ∷ variant ∷ (clock ++ 45 ∷ node)))
  pub hex :
      IsHexOf 8 time_low
      × IsHexOf 4 time_mid
      × IsHexOf 3 time_high
      × IsHexOf 3 clock
      × IsHexOf 12 node
  pub versioned : IsWithin 49 56 version
  pub varied : (IsWithin 56 57 variant ⊎ IsWithin 97 98 variant) ⊎ IsWithin 65 66 variant

match_end : (t : Text) → match_classes [] t ≡ true → t ≡ []
unfolding match_classes
match_end [] h = refl
match_end (c ∷ s) h = cc

only-match : (a : Text) → all is_hex a ≡ true → match_classes (replicate (length a) is_hex) a ≡ true
unfolding match_classes
only-match [] h = refl
only-match (c ∷ a) h = ground (arith, only-match a)

module _ (f : ℕ → Bool) (fs : List (ℕ → Bool)) where
  match_one :
      (t : Text)
      → match_classes (f ∷ fs) t ≡ true
      → (c : ℕ) × (s : Text) × (t ≡ c ∷ s) × (f c ≡ true) × (match_classes fs s ≡ true)
  unfolding match_classes
  match_one [] h = cc
  match_one (c ∷ s) h = (c, s, refl, ground arith, ground arith)

  match_many :
      (n : ℕ) (t : Text)
      → match_classes (replicate n f ++ fs) t ≡ true
      → (a b : Text) × (t ≡ a ++ b)
        × (length a ≡ n)
        × (all f a ≡ true)
        × (match_classes fs b ≡ true)
  unfolding match_classes
  match_many zero t h = ([], t, refl, refl, refl, h)
  match_many (suc n) [] h = cc
  match_many (suc n) (c ∷ s) h =
      let (a, b, e, l, p, m) = match_many n s (ground arith) in
      (c ∷ a, b, ap (λ (x : Text). c ∷ x) e, ap suc l, ground arith, m)

  many-match :
      (a b : Text)
      → all f a ≡ true
      → match_classes fs b ≡ true
      → match_classes (replicate (length a) f ++ fs) (a ++ b) ≡ true
  unfolding match_classes
  many-match [] b h m = m
  many-match (c ∷ a) b h m = ground (arith, many-match a b)

is_version_iff : (c : ℕ) → (is_version c ≡ true) ↔ IsWithin 49 56 c
is_version_iff c = (λ h. ground arith, λ h. ground arith)

is_variant_iff :
    (c : ℕ) → (is_variant c ≡ true) ↔ ((IsWithin 56 57 c ⊎ IsWithin 97 98 c) ⊎ IsWithin 65 66 c)
is_variant_iff c = (λ h. ground arith, λ h. ground arith)

digits_iff : (t : Text) → (all is_hex t ≡ true) ↔ All IsHex t
digits_iff = all_iff is_hex IsHex is_hex_iff

-- A group of digits and the dash after it.
match_group :
    (n : ℕ) (fs : List (ℕ → Bool)) (t : Text)
    → match_classes (replicate n is_hex ++ is_dash ∷ fs) t ≡ true
    → (a b : Text) × (t ≡ a ++ 45 ∷ b) × IsHexOf n a × (match_classes fs b ≡ true)
match_group n fs t h =
    let (a, r, e, l, p, m) = match_many is_hex (is_dash ∷ fs) n t h in
    let (c, b, e', d, m') = match_one is_dash fs r m in
    let dash : c ≡ 45 = ground (arith, ==_iff c 45) in
    (a, b, cc (e, e', dash), (l, (digits_iff a).0 p), m')

group-match :
    (n : ℕ) (fs : List (ℕ → Bool)) (a b : Text)
    → IsHexOf n a
    → match_classes fs b ≡ true
    → match_classes (replicate n is_hex ++ is_dash ∷ fs) (a ++ 45 ∷ b) ≡ true
unfolding match_classes
group-match n fs a b (l, x) m =
    subst (λ k. match_classes (replicate k is_hex ++ is_dash ∷ fs) (a ++ 45 ∷ b) ≡ true) l
      (many-match is_hex (is_dash ∷ fs) a (45 ∷ b) ((digits_iff a).1 x) m)

-- The pattern from each of its parts on.
abbrev node_pattern : List (ℕ → Bool)
node_pattern = replicate 12 is_hex

abbrev clock_pattern : List (ℕ → Bool)
clock_pattern = replicate 3 is_hex ++ is_dash ∷ node_pattern

abbrev high_pattern : List (ℕ → Bool)
high_pattern = replicate 3 is_hex ++ is_dash ∷ is_variant ∷ clock_pattern

abbrev mid_pattern : List (ℕ → Bool)
mid_pattern = replicate 4 is_hex ++ is_dash ∷ is_version ∷ high_pattern

pattern_sound : (t : Text) → is_uuid t ≡ true → IsUuid t
unfolding is_uuid
pattern_sound t h =
    let (low, t1, e1, x1, m1) = match_group 8 mid_pattern t h in
    let (mid, t2, e2, x2, m2) = match_group 4 (is_version ∷ high_pattern) t1 m1 in
    let (version, t3, e3, v, m3) = match_one is_version high_pattern t2 m2 in
    let (high, t4, e4, x4, m4) = match_group 3 (is_variant ∷ clock_pattern) t3 m3 in
    let (variant, t5, e5, w, m5) = match_one is_variant clock_pattern t4 m4 in
    let (clock, t6, e6, x6, m6) = match_group 3 node_pattern t5 m5 in
    let (node, t7, e7, l7, h7, m7) = match_many is_hex [] 12 t6 m6 in
    let end : t6 ≡ node = e7 ∙ ap (λ r. node ++ r) (match_end t7 m7) ∙ append-nil node in
    record {
      time_low = low;
      time_mid = mid;
      version = version;
      time_high = high;
      variant = variant;
      clock = clock;
      node = node;
      spelled = cc (e1, e2, e3, e4, e5, e6, end);
      hex = (x1, x2, x4, x6, (l7, (digits_iff node).0 h7));
      versioned = (is_version_iff version).0 v;
      varied = (is_variant_iff variant).0 w;
    }

pattern_complete : (t : Text) → IsUuid t → is_uuid t ≡ true
unfolding is_uuid match_classes
pattern_complete t u =
    let (x1, x2, x4, x6, (l7, x7)) = u.hex in
    let nodes : match_classes node_pattern u.node ≡ true =
      subst (λ k. match_classes (replicate k is_hex) u.node ≡ true) l7
        (only-match u.node ((digits_iff u.node).1 x7)) in
    let clocks = group-match 3 node_pattern u.clock u.node x6 nodes in
    let rest = u.clock ++ 45 ∷ u.node in
    let variants : match_classes (is_variant ∷ clock_pattern) (u.variant ∷ rest) ≡ true =
      rw ((is_variant_iff u.variant).1 u.varied) clocks in
    let later = u.time_high ++ 45 ∷ u.variant ∷ rest in
    let highs = group-match 3 (is_variant ∷ clock_pattern) u.time_high _ x4 variants in
    let versions : match_classes (is_version ∷ high_pattern) (u.version ∷ later) ≡ true =
      rw ((is_version_iff u.version).1 u.versioned) highs in
    let mids = group-match 4 (is_version ∷ high_pattern) u.time_mid _ x2 versions in
    rw u.spelled (group-match 8 mid_pattern u.time_low _ x1 mids)

pub is_uuid_iff : (t : Text) → (is_uuid t ≡ true) ↔ IsUuid t
is_uuid_iff t = (pattern_sound t, pattern_complete t)

-- What is no text is no identity.
pub uuid_text : (v : Value) → is_uuid (as_text v) ≡ true → v ≡ str (as_text v)
unfolding is_uuid match_classes
uuid_text (str t) h = refl
uuid_text _ h = cc
