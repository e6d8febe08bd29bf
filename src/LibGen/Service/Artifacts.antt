-- ===== src/LibGen/Service/Artifacts.antt =====
-- The artifacts that a resolution of service.py returns.
use pullbox_direct_providers.Prelude.{
  ◌≡◌, arith, refl, ap, sym, ◌∙◌, ◌⊎◌, inl, inr, Bool, true, Option, none, some, List, [], ◌∷◌, All,
  contains, String_eq, String, Bool-cases,
}
use pullbox_direct_providers.Prelude.Result.{Result, ok, raised, ok-injective}
use pullbox_direct_providers.Contract.Net.{Net, AddressResolver}
use pullbox_direct_providers.LibGen.Service.Origins.{ServiceError, operation_origins}
use pullbox_direct_providers.LibGen.Service.Origins.Public.{
  IsOriginOf, AreOrigins, configured, operation_origins-AreOrigins,
}
use pullbox_direct_providers.LibGen.Service.Origins.{known_source_urls}
use pullbox_direct_providers.LibGen.Service.Search.{resolve_moves_on, failover, after_attempt}
use pullbox_direct_providers.LibGen.Service.Resolve.{
  Metadata, Artifact, candidate_md5, resolve_origin, one_artifact, resolve_attempt, resolve_over,
  resolve_md5, resolve,
}

module _ {A S : Type 0} (moves_on : ServiceError → Bool)
    (attempt : S → String → Result ServiceError (List A) × S) (P : String → Type 0) where
  -- Some origin of the kind gave what was found.
  abbrev pub FoundAt : List A → Type 0
  FoundAt found = (origin : String) × (s : S) × P origin × ((attempt s origin).0 ≡ ok found)

  after_moving :
      (e : ServiceError) (s : S) (then_ : S → ServiceError → Result ServiceError (List A) × S)
      → moves_on e ≡ true
      → after_attempt moves_on attempt (raised e, s) then_ ≡ then_ s e
  unfolding after_attempt
  after_moving e s then_ on = rw on refl

  after_attempt-FoundAt :
      (s : S) (origin : String) (found : List A) (done : Result ServiceError (List A) × S)
      (then_ : S → ServiceError → Result ServiceError (List A) × S)
      → P origin
      → attempt s origin ≡ done
      → ((s' : S) (e : ServiceError) → (then_ s' e).0 ≡ ok found → FoundAt found)
      → (after_attempt moves_on attempt done then_).0 ≡ ok found
      → FoundAt found
  unfolding after_attempt
  after_attempt-FoundAt s origin found (ok cs, s') then_ p h next k =
      (origin, s, p, ap (λ d. d.0) h ∙ k)
  after_attempt-FoundAt s origin found (raised e, s') then_ p h next k =
      elim (Bool-cases (moves_on e)) [
        | inl on ↦ next s' e (sym (ap (λ d. d.0) (after_moving e s' then_ on)) ∙ k)
        | inr stop ↦ absurd (ground arith)
      ]

  -- What a failover returns is what an attempt returned, unless there was no origin at all.
  failover-FoundAt :
      (s : S) (last_error : Option ServiceError) (origins : List String) (found : List A)
      → All P origins
      → (failover moves_on attempt s last_error origins).0 ≡ ok found
      → FoundAt found ⊎ ((last_error ≡ none) × (origins ≡ []))
  unfolding failover
  failover-FoundAt s none [] found h k = inr (refl, refl)
  failover-FoundAt s (some e) [] found h k = cc
  failover-FoundAt s last_error (origin ∷ origins) found (p, h) k = inl (
      after_attempt-FoundAt s origin found (attempt s origin) _ p refl
        (λ s' e again. elim (failover-FoundAt s' (some e) origins found h again) [
          | inl at ↦ at
          | inr (nothing, empty) ↦ cc
        ])
        k)

module _ (metadata : Metadata) (net : Net) (target_resolver : AddressResolver) where
  -- The origin of the configured URL, or of a known source URL.
  abbrev pub UsedOrigin : Option String → String → Type 0
  UsedOrigin source_url origin =
      (raw_url : String) × ((raw_url ≡ configured net source_url)
        ⊎ (contains raw_url known_source_urls ≡ true))
      × IsOriginOf net target_resolver raw_url origin

  -- One artifact for the MD5 of the candidate, as one public origin gave it.
  pub record IsResolved (provider_candidate_id : String) (source_url : Option String)
      (artifacts : List Artifact) : Type 0 where
    pub md5 : String
    pub origin : String
    pub artifact : Artifact
    pub of_candidate : candidate_md5 provider_candidate_id ≡ ok md5
    pub is_public : UsedOrigin source_url origin
    pub given : resolve_origin metadata md5 origin ≡ ok artifact
    pub only : artifacts ≡ artifact ∷ []

  one_artifact-eq-ok :
      (r : Result ServiceError Artifact) (artifacts : List Artifact)
      → one_artifact metadata r ≡ ok artifacts
      → (artifact : Artifact) × (r ≡ ok artifact) × (artifacts ≡ artifact ∷ [])
  one_artifact-eq-ok (ok artifact) artifacts h = (artifact, refl, ok-injective (sym h))
  one_artifact-eq-ok (raised e) artifacts h = cc

  all-Used :
      (source_url : Option String) (origins : List String)
      → AreOrigins net target_resolver source_url origins
      → All (UsedOrigin source_url) origins
  all-Used source_url [] h = tt
  all-Used source_url (a ∷ []) (first, h) = ((configured net source_url, inl refl, first), tt)
  all-Used source_url (a ∷ b ∷ []) (first, (raw_url, known, other, second)) =
      ((configured net source_url, inl refl, first), ((raw_url, inr known, second), tt))
  all-Used source_url (a ∷ b ∷ c ∷ rest) (first, h) = absurd h

  some-Origin :
      (source_url : Option String) (origins : List String)
      → AreOrigins net target_resolver source_url origins
      → origins ≡ []
      → ⊥
  some-Origin source_url [] h same = h
  some-Origin source_url (a ∷ rest) h same = cc

  found-IsResolved :
      (provider_candidate_id md5 : String) (source_url : Option String) (artifacts : List Artifact)
      → candidate_md5 provider_candidate_id ≡ ok md5
      → FoundAt resolve_moves_on (resolve_attempt metadata md5) (UsedOrigin source_url) artifacts
      → IsResolved provider_candidate_id source_url artifacts
  unfolding resolve_attempt
  found-IsResolved provider_candidate_id md5 source_url artifacts h (origin, events, public, k) =
      let (artifact, given, only) =
        one_artifact-eq-ok (resolve_origin metadata md5 origin) artifacts k in
      record {
        md5 = md5;
        origin = origin;
        artifact = artifact;
        of_candidate = h;
        is_public = public;
        given = given;
        only = only;
      }

  resolve_over-IsResolved :
      (provider_candidate_id md5 : String) (source_url : Option String) (artifacts : List Artifact)
      (origins : Result ServiceError (List String))
      → candidate_md5 provider_candidate_id ≡ ok md5
      → operation_origins net target_resolver source_url ≡ origins
      → (resolve_over metadata md5 origins).0 ≡ ok artifacts
      → IsResolved provider_candidate_id source_url artifacts
  resolve_over-IsResolved provider_candidate_id md5 source_url artifacts (raised e) h k done = cc
  resolve_over-IsResolved provider_candidate_id md5 source_url artifacts (ok origins) h k done =
      let are = operation_origins-AreOrigins net target_resolver source_url origins k in
      elim (failover-FoundAt resolve_moves_on (resolve_attempt metadata md5) (UsedOrigin source_url)
        [] none origins artifacts (all-Used source_url origins are) done) [
          | inl found ↦ found-IsResolved provider_candidate_id md5 source_url artifacts h found
          | inr (nothing, empty) ↦ absurd (some-Origin source_url origins are empty)
        ]

  resolve_md5-IsResolved :
      (provider_candidate_id : String) (source_url : Option String) (artifacts : List Artifact)
      (md5 : Result ServiceError String)
      → candidate_md5 provider_candidate_id ≡ md5
      → (resolve_md5 metadata md5 (operation_origins net target_resolver source_url)).0
        ≡ ok artifacts
      → IsResolved provider_candidate_id source_url artifacts
  resolve_md5-IsResolved provider_candidate_id source_url artifacts (raised e) h k = cc
  resolve_md5-IsResolved provider_candidate_id source_url artifacts (ok md5) h k =
      resolve_over-IsResolved provider_candidate_id md5 source_url artifacts _ h refl k

  -- A resolution that succeeds returns exactly one artifact: for the MD5 that the candidate's id
  -- names, as one of at most two public origins gave it.
  pub resolve-IsResolved :
      (provider_candidate_id : String) (source_url : Option String) (artifacts : List Artifact)
      → (resolve metadata net target_resolver provider_candidate_id source_url).0 ≡ ok artifacts
      → IsResolved provider_candidate_id source_url artifacts
  unfolding resolve
  resolve-IsResolved provider_candidate_id source_url artifacts h =
      resolve_md5-IsResolved provider_candidate_id source_url artifacts _ refl h
