-- ===== src/Contract/SourceHttp/Origin.antt =====
-- What the redirects that source_http.py follows or returns have in common.
use pullbox_direct_providers.Prelude.{
  ℕ, ◌≡◌, subst, true, false, Option, none, some, arith, ℕ_eq, String_eq, String, eq_iff,
}
use pullbox_direct_providers.Prelude.Result.{
  ok, of_option, >>=-eq-ok, require-eq-ok, ok-injective, of_option-eq-ok,
}
use pullbox_direct_providers.Prelude.Text.{strip, is_empty}
use pullbox_direct_providers.Contract.Net.{Url, Net}
use pullbox_direct_providers.Contract.Resolver.Target.{is_set, folded_host}
use pullbox_direct_providers.Contract.SourceHttp.{
  redirect_invalid, redirect_rejected, port_or_https, bounded_location, same_host, is_same_origin,
  same_origin_source_redirect,
}

module _ (net : Net) where
  -- Both host names are there, and equal but for case and trailing dots.
  abbrev pub SameHost : Option String → Option String → Type 0
  SameHost (some a) (some b) = folded_host net a ≡ folded_host net b
  SameHost _ _ = ⊥

  same_host-SameHost : (a b : Option String) → same_host net a b ≡ true → SameHost a b
  unfolding same_host
  same_host-SameHost (some a) (some b) h =
      (eq_iff (folded_host net a) (folded_host net b)).0 (ground arith)
  same_host-SameHost (some a) none h = absurd (ground arith)
  same_host-SameHost none b h = absurd (ground arith)

  -- Where a redirect of a source page leads: an https URL of the same host and port, without
  -- credentials and without a fragment.
  pub record IsSameOrigin (source_url destination_url : String) : Type 0 where
    pub source : Url
    pub destination : Url
    pub source_port : Option ℕ
    pub destination_port : Option ℕ
    pub source_parsed : net.urlsplit source_url ≡ some source
    pub destination_parsed : net.urlsplit destination_url ≡ some destination
    pub source_port_read : source.port ≡ some source_port
    pub destination_port_read : destination.port ≡ some destination_port
    pub scheme : destination.scheme ≡ "https"
    pub same_host : SameHost source.hostname destination.hostname
    pub same_port : port_or_https source_port ≡ port_or_https destination_port
    pub no_username : is_set destination.username ≡ false
    pub no_password : is_set destination.password ≡ false
    pub no_fragment : is_empty destination.fragment ≡ true

  is_same_origin-IsSameOrigin :
      (source_url destination_url : String) (s d : Url) (p q : Option ℕ)
      → net.urlsplit source_url ≡ some s
      → net.urlsplit destination_url ≡ some d
      → s.port ≡ some p
      → d.port ≡ some q
      → is_same_origin net s p d q ≡ true
      → IsSameOrigin source_url destination_url
  unfolding is_same_origin
  is_same_origin-IsSameOrigin source_url destination_url s d p q hs hd hp hq h = record {
    source = s;
    destination = d;
    source_port = p;
    destination_port = q;
    source_parsed = hs;
    destination_parsed = hd;
    source_port_read = hp;
    destination_port_read = hq;
    scheme = (eq_iff d.scheme "https").0 (ground arith);
    same_host = same_host-SameHost s.hostname d.hostname (ground arith);
    same_port = ground arith;
    no_username = ground arith;
    no_password = ground arith;
    no_fragment = ground arith;
  }

  pub same_origin_source_redirect-IsSameOrigin :
      (source_url : String) (raw_location : Option String) (url : String)
      → same_origin_source_redirect net source_url raw_location ≡ ok url
      → IsSameOrigin source_url url
  unfolding same_origin_source_redirect
  same_origin_source_redirect-IsSameOrigin source_url raw_location url h =
      let (location, bounded, h₁) = >>=-eq-ok (bounded_location raw_location) _ h in
      let (s, hs, h₂) = >>=-eq-ok (of_option redirect_invalid (net.urlsplit source_url)) _ h₁ in
      let (u, joined, h₃) =
        >>=-eq-ok (of_option redirect_invalid (net.urljoin source_url (strip location))) _ h₂ in
      let (d, hd, h₄) = >>=-eq-ok (of_option redirect_invalid (net.urlsplit u)) _ h₃ in
      let (p, hp, h₅) = >>=-eq-ok (of_option redirect_invalid s.port) _ h₄ in
      let (q, hq, h₆) = >>=-eq-ok (of_option redirect_invalid d.port) _ h₅ in
      let (origin, h₇) = require-eq-ok (is_same_origin net s p d q) redirect_rejected (ok u) h₆ in
      subst (IsSameOrigin source_url) (ok-injective h₇) (
        is_same_origin-IsSameOrigin source_url u s d p q (of_option-eq-ok redirect_invalid _ hs)
          (of_option-eq-ok redirect_invalid _ hd) (of_option-eq-ok redirect_invalid _ hp)
          (of_option-eq-ok redirect_invalid _ hq) origin)
