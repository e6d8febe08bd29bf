-- ===== src/Release/Policy/Reviews.antt =====
-- What the reviewed identities of container_vulnerability_policy.py stand for.
use pullbox_direct_providers.Prelude.{
  ℕ, ◌≤◌, ◌≡◌, refl, ap, sym, ◌∙◌, subst, ◌⊎◌, inl, inr, Option, none, some, eq_iff, nat_beq,
  length, ◌==◌, true, false, ◌||◌, List, [], ◌∷◌, arith, ℕ_eq, String_eq, Exists, Bool-cases,
  String, contains, contains_iff, contains-append, List_eq,
}
use pullbox_direct_providers.Prelude.Json.{Json, str, obj, Fields, end, get}
use pullbox_direct_providers.Prelude.Result.{Result, ok, raised, traverse, >>=-eq-ok, ok-injective}
use pullbox_direct_providers.Release.Policy.Reports.{evaluate, accepted, arch_fits, platform_arch}
use pullbox_direct_providers.Release.Policy.{
  PolicyError, Toolkit, blocking_severities, supported_platforms, no_fix_states, object_value, text,
  list_value, text_gt, Finding, Identity, identity, EntryReview, entry_review, entry_contents,
  checked_entry, identity_at, iso_date, review_dates, platform_identity, entry_identities,
  all_entry_identities, reviewed_identities, review_entries,
}

-- The expiry date parsed, and not past.
abbrev pub Unexpired : ℕ → Result PolicyError ℕ → Type 0
Unexpired today (ok day) = today ≤ day
Unexpired today (raised e) = ⊥

-- The expiry text, and not after the baseline's in the order of texts.
abbrev pub NotAfter : String → Result PolicyError String → Type 0
NotAfter baseline_expires (ok expires) = text_gt expires baseline_expires ≡ false
NotAfter baseline_expires (raised e) = ⊥

-- The fields of a JSON object.
abbrev pub fields : Json → Fields
fields (obj fs) = fs
fields _ = end

-- A list of reviewed platforms and the other contents of a review: the severity blocks, and the fix
-- state is one without a fix.
pub record Describes (entry : Fields) (r : EntryReview) : Type 0 where
  pub id : text (get "id" entry) ≡ ok r.id
  pub package_name : text (get "package" entry) ≡ ok r.package_name
  pub severity : text (get "severity" entry) ≡ ok r.severity
  pub version : text (get "version" entry) ≡ ok r.version
  pub package_type : text (get "type" entry) ≡ ok r.package_type
  pub namespace : text (get "namespace" entry) ≡ ok r.namespace
  pub fix_state : text (get "fix_state" entry) ≡ ok r.fix_state
  pub platforms : list_value (get "platforms" entry) ≡ ok r.platforms
  pub blocks : contains r.severity blocking_severities ≡ true
  pub no_fix : contains r.fix_state no_fix_states ≡ true

entry_contents-Describes :
    (entry : Fields) (r : EntryReview) → entry_contents entry ≡ ok r → Describes entry r
unfolding entry_contents
entry_contents-Describes entry r h = ground arith

-- A finding that no fix is known for, in a Debian package of the finding's platform or of every one.
pub record IsUnfixed (f : Finding) : Type 0 where
  pub arch : String
  pub no_versions : f.fix_versions ≡ []
  pub no_fix_state : contains f.fix_state no_fix_states ≡ true
  pub is_deb : f.package_type ≡ "deb"
  pub built_for : f.package_arch ≡ some arch
  pub fits : (arch ≡ "all") ⊎ (arch ≡ platform_arch f.platform)

arch_fits-fits :
    (package_arch : Option String) (platform : String)
    → arch_fits package_arch platform ≡ true
    → (arch : String) × (package_arch ≡ some arch)
      × ((arch ≡ "all") ⊎ (arch ≡ platform_arch platform))
unfolding arch_fits
arch_fits-fits none platform h = cc
arch_fits-fits (some arch) platform h = (
  arch,
  refl,
  elim (Bool-cases (arch == "all")) [
    | inl every ↦ inl ((eq_iff arch "all").0 every)
    | inr other ↦ inr ((eq_iff arch (platform_arch platform)).0 (ground arith))
  ],
)

no_versions-eq : (versions : List String) → nat_beq (length versions) 0 ≡ true → versions ≡ []
no_versions-eq [] h = refl
no_versions-eq (v ∷ versions) h = absurd (ground arith)

accepted-IsUnfixed :
    (f : Finding) (reviewed : List Identity) → accepted f reviewed ≡ true → IsUnfixed f
unfolding accepted
accepted-IsUnfixed f reviewed a =
    let (arch, built_for, fits) = arch_fits-fits f.package_arch f.platform (ground arith) in
    record {
      arch = arch;
      no_versions = no_versions-eq f.fix_versions (ground arith);
      no_fix_state = ground arith;
      is_deb = (eq_iff f.package_type "deb").0 (ground arith);
      built_for = built_for;
      fits = fits;
    }

module _ (tools : Toolkit) (today : ℕ) where
  -- The review has neither expired nor, as a text, a later expiry than the baseline.
  pub record IsCurrent (baseline_expires : String) (entry : Fields) : Type 0 where
    pub unexpired : Unexpired today (iso_date tools today (get "expires_on" entry))
    pub kept : NotAfter baseline_expires (text (get "expires_on" entry))

  checked_entry-IsCurrent :
      (b : String) (v : Json) (entry : Fields)
      → checked_entry tools today b v ≡ ok entry
      → (v ≡ obj entry) × IsCurrent b entry
  unfolding checked_entry object_value review_dates
  checked_entry-IsCurrent b (obj fs) entry h = (ground arith, ground arith)
  checked_entry-IsCurrent b _ entry h = cc

  -- Some platform of the review gives the identity.
  abbrev pub Yields : EntryReview → Identity → Json → Type 0
  Yields r i v =
      (p : String) × (v ≡ str p) × (contains p supported_platforms ≡ true) × (identity_at r p ≡ i)

  platform-Yields :
      (r : EntryReview) (v : Json) (i : Identity)
      → platform_identity (identity_at r) v ≡ ok i
      → Yields r i v
  unfolding platform_identity
  platform-Yields r (str p) i h = (p, refl, ground arith, ground arith)
  platform-Yields r _ i h = cc

  traverse-Yields :
      (r : EntryReview) (vs : List Json) (ids : List Identity) (i : Identity)
      → traverse (platform_identity (identity_at r)) vs ≡ ok ids
      → contains i ids ≡ true
      → Exists (Yields r i) vs
  unfolding traverse
  traverse-Yields r [] ids i h m = absurd (ground arith)
  traverse-Yields r (v ∷ vs) ids i h m =
      let (here, first, h') = >>=-eq-ok (platform_identity (identity_at r) v) _ h in
      let (rest, later, same) = >>=-eq-ok (traverse (platform_identity (identity_at r)) vs) _ h' in
      elim ((contains_iff i here rest).0
        (subst (λ l. contains i l ≡ true) (ok-injective (sym same)) m)) [
          | inl e ↦ inl (platform-Yields r v i (first ∙ ap ok (sym e)))
          | inr more ↦ inr (traverse-Yields r vs rest i later more)
        ]

  -- `value` is a current review that names the identity.
  pub record Covers (baseline_expires : String) (i : Identity) (value : Json) : Type 0 where
    pub entry : Fields
    pub contents : EntryReview
    pub is_entry : value ≡ obj entry
    pub current : IsCurrent baseline_expires entry
    pub describes : Describes entry contents
    pub names : Exists (Yields contents i) contents.platforms

  entry-Covers :
      (b : String) (v : Json) (ids : List Identity) (i : Identity)
      → entry_identities tools today b v ≡ ok ids
      → contains i ids ≡ true
      → Covers b i v
  unfolding entry_identities entry_review
  entry-Covers b v ids i h m =
      let (r, reviewed, listed) = >>=-eq-ok (entry_review tools today b v) _ h in
      let (entry, checked, read) = >>=-eq-ok (checked_entry tools today b v) _ reviewed in
      let (is_entry, current) = checked_entry-IsCurrent b v entry checked in
      record {
        entry = entry;
        contents = r;
        is_entry = is_entry;
        current = current;
        describes = entry_contents-Describes entry r read;
        names = traverse-Yields r r.platforms ids i listed m;
      }

  all-Covers :
      (b : String) (vs : List Json) (ids : List Identity) (i : Identity)
      → all_entry_identities tools today b vs ≡ ok ids
      → contains i ids ≡ true
      → Exists (Covers b i) vs
  unfolding all_entry_identities
  all-Covers b [] ids i h m = absurd (ground arith)
  all-Covers b (v ∷ vs) ids i h m =
      let (here, first, h') = >>=-eq-ok (entry_identities tools today b v) _ h in
      let (rest, later, same) = >>=-eq-ok (all_entry_identities tools today b vs) _ h' in
      let found : (contains i here || contains i rest) ≡ true =
        sym (contains-append i here rest)
        ∙ subst (λ l. contains i l ≡ true) (ok-injective (sym same)) m in
      elim (Bool-cases (contains i here)) [
        | inl e ↦ inl (entry-Covers b v here i first e)
        | inr e ↦ inr (all-Covers b vs rest i later (ground arith))
      ]

  -- A finding is accepted only if no version fixes it, its fix state is one without a fix and its
  -- package is a Debian one for its platform, and if an entry of the image's profile in the baseline
  -- is a current review that names its id, package, severity, version, type, namespace, platform and
  -- fix state; that severity is High or Critical and that state is one without a fix.
  pub accepted-Covers :
      (report baseline : Fields) (image : String) (findings : List Finding)
      (reviewed : List Identity) (f : Finding)
      → evaluate tools today report baseline image ≡ ok (findings, reviewed)
      → accepted f reviewed ≡ true
      → IsUnfixed f
        × (found : List Json × String) × (review_entries tools today baseline image ≡ ok found)
        × Exists (Covers found.1 (identity f)) found.0
  unfolding evaluate reviewed_identities accepted
  accepted-Covers report baseline image findings reviewed f h a =
      let (ids, listed, h') = >>=-eq-ok (reviewed_identities tools today baseline image) _ h in
      let (found, checked, all_read) =
        >>=-eq-ok (review_entries tools today baseline image) _ listed in
      (
        accepted-IsUnfixed f reviewed a,
        found,
        checked,
        all-Covers found.1 found.0 ids (identity f) all_read (ground arith),
      )
