-- ===== src/AnnasArchive/Search/Outcomes.antt =====
-- Which errors `search` of Anna's Archive ends with.
use pullbox_direct_providers.Prelude.{
  ℕ, ◌≡◌, ◌≢◌, inl, inr, Option, none, some, List, [], ◌∷◌, arith, String,
}
use pullbox_direct_providers.Prelude.Result.{Result, ok, raised, >>=-eq-raised, of_option}
use pullbox_direct_providers.Prelude.Text.{rstrip, strip, is_char}
use pullbox_direct_providers.Contract.Net.{Net, Url}
use pullbox_direct_providers.Contract.Models.{Candidate, SearchIntent}
use pullbox_direct_providers.Contract.SearchTerms.{Unicode}
use pullbox_direct_providers.Contract.Failures.{
  Failure, protocol_error, runtime_error, value_error, cancelled, other_error,
}
use pullbox_direct_providers.AnnasArchive.Search.{
  Source, after_catalog, after_primary, primary_search, search, validate_official_domain,
  checked_domain, domain_error, or_text, default_official_url,
}

-- The catalog failed in a way that the search tolerates.
unfoldable pub IsTolerated : Result Failure (List Candidate) → Type 0
IsTolerated (raised (runtime_error m)) = Unit
IsTolerated (raised value_error) = Unit
IsTolerated _ = ⊥

module _ (net : Net) (unicode : Unicode) (source : Source) (domain : String) (limit : ℕ) where
  after_catalog-runtime :
      (primary : Option Failure) (found : Result Failure (List Candidate)) (e : String)
      → after_catalog net unicode source domain limit primary found ≡ raised (runtime_error e)
      → (primary ≡ some (runtime_error e)) × IsTolerated found
  unfolding after_catalog IsTolerated
  after_catalog-runtime none (raised (runtime_error m)) e h = cc
  after_catalog-runtime (some f) (raised (runtime_error m)) e h = (cc, tt)
  after_catalog-runtime none (raised value_error) e h = cc
  after_catalog-runtime (some f) (raised value_error) e h = (cc, tt)
  after_catalog-runtime p (ok cs) e h = cc
  after_catalog-runtime p (raised (protocol_error x)) e h = cc
  after_catalog-runtime p (raised cancelled) e h = cc
  after_catalog-runtime p (raised other_error) e h = cc

  after_primary-runtime :
      (intent : SearchIntent) (first : Result Failure (List Candidate)) (e : String)
      → after_primary net unicode source domain limit intent first ≡ raised (runtime_error e)
      → (first ≡ raised (runtime_error e)) × IsTolerated (source.catalog_search intent limit)
  unfolding after_primary
  after_primary-runtime intent (ok []) e h =
      let both = after_catalog-runtime none (source.catalog_search intent limit) e h in
      let never = both.0 in cc
  after_primary-runtime intent (ok (c ∷ cs)) e h = cc
  after_primary-runtime intent (raised (runtime_error m)) e h =
      let both =
        after_catalog-runtime (some (runtime_error m)) (source.catalog_search intent limit) e h in
      let same = both.0 in (cc, both.1)
  after_primary-runtime intent (raised (protocol_error x)) e h = cc
  after_primary-runtime intent (raised value_error) e h = cc
  after_primary-runtime intent (raised cancelled) e h = cc
  after_primary-runtime intent (raised other_error) e h = cc

of_option-runtime :
    (o : Option Url) (e : String) → of_option domain_error o ≢ raised (runtime_error e)
of_option-runtime none e h = cc
of_option-runtime (some parsed) e h = cc

checked_domain-runtime :
    (value : String) (parsed : Url) (e : String)
    → checked_domain value parsed ≢ raised (runtime_error e)
unfolding checked_domain
checked_domain-runtime value parsed e h = ground arith

-- The validation of the domain raises no RuntimeError.
validate_official_domain-runtime :
    (net : Net) (raw_domain e : String)
    → validate_official_domain net raw_domain ≢ raised (runtime_error e)
unfolding validate_official_domain
validate_official_domain-runtime net raw_domain e h =
    let value = rstrip (is_char b'/') (strip raw_domain) in
    elim (>>=-eq-raised (of_option domain_error (net.urlsplit value)) (checked_domain value) h) [
      | inl bad ↦ absurd (of_option-runtime (net.urlsplit value) e bad)
      | inr (parsed, _, rest) ↦ checked_domain-runtime value parsed e rest
    ]

-- A search of Anna's Archive raises a RuntimeError only where the page of the validated domain
-- raised this one, and the catalog failed as well, with a RuntimeError or a ValueError.
pub search-runtime_error :
    (net : Net) (unicode : Unicode) (source : Source) (configured : Option String) (limit : ℕ)
    (intent : SearchIntent) (e : String)
    → search net unicode source configured limit intent ≡ raised (runtime_error e)
    → (domain : String) × (validate_official_domain net (or_text default_official_url configured)
        ≡ ok domain)
      × (primary_search net unicode source domain limit intent ≡ raised (runtime_error e))
      × IsTolerated (source.catalog_search intent limit)
unfolding search
search-runtime_error net unicode source configured limit intent e h =
    let raw = or_text default_official_url configured in
    elim (>>=-eq-raised (validate_official_domain net raw)
      (λ domain.
        after_primary net unicode source domain limit intent
          (primary_search net unicode source domain limit intent))
      h) [
        | inl bad ↦ absurd (validate_official_domain-runtime net raw e bad)
        | inr (domain, valid, rest) ↦
            let both =
              after_primary-runtime net unicode source domain limit intent
                (primary_search net unicode source domain limit intent) e rest in
            (domain, valid, both.0, both.1)
      ]
