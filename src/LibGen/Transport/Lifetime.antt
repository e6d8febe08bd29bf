-- ===== src/LibGen/Transport/Lifetime.antt =====
-- The whole life of a session of transport.py.

use pullbox_direct_providers.Prelude.{ℕ, ◌≡◌, refl, subst, true, Option, ℕ_eq, String_eq, String}
use pullbox_direct_providers.Prelude.Result.{ok, of_option, >>=-eq-ok, require-eq-ok, ok-injective}
use pullbox_direct_providers.Prelude.Text.{any_char}
use pullbox_direct_providers.Contract.Net.{Net}
use pullbox_direct_providers.Contract.Models.{ResolverProfile}
use pullbox_direct_providers.LibGen.Service.Origins.{source_error, value_error}
use pullbox_direct_providers.LibGen.Transport.{
  Session, default_user_agent, new_session, closed_session,
}
use pullbox_direct_providers.LibGen.Transport.Headers.{IsClean, IsSafe}
use pullbox_direct_providers.LibGen.Transport.Fetch.{Outside, fetch_text, resolve_redirect}
use pullbox_direct_providers.LibGen.Transport.Operations.{fetch_text-Kept, resolve_redirect-Kept}

module _ (net : Net) where
  -- The sessions that a constructor call and any operations after it lead to, in any surroundings.
  pub data Reachable (origin : String) (profile : Option ResolverProfile) : Session → Type 0 where
    constructed :
        (session : Session)
        → new_session net origin profile ≡ ok session
        → Reachable origin profile session
    after_text :
        (session : Session) (outside : Outside) (raw_url : String) (max_bytes : ℕ)
        → Reachable origin profile session
        → Reachable origin profile (fetch_text net outside session raw_url max_bytes).1
    after_redirect :
        (session : Session) (outside : Outside) (raw_url : String)
        → Reachable origin profile session
        → Reachable origin profile (resolve_redirect net outside session raw_url).1
    after_close :
        (session : Session)
        → Reachable origin profile session
        → Reachable origin profile (closed_session net session)

  default-IsClean : IsClean default_user_agent
  unfolding any_char
  default-IsClean = refl

  new_session-IsSafe :
      (origin : String) (profile : Option ResolverProfile) (session : Session)
      → new_session net origin profile ≡ ok session
      → IsSafe net session
  unfolding new_session
  new_session-IsSafe origin profile session h =
      let (parsed, a, h₁) = >>=-eq-ok (of_option value_error (net.urlsplit origin)) _ h in
      let (port, b, h₂) =
        >>=-eq-ok (of_option (source_error "source_origin_invalid" true) parsed.port) _ h₁ in
      let (hostname, c, h₃) =
        >>=-eq-ok (of_option (source_error "source_origin_invalid" true) parsed.hostname) _ h₂ in
      let (plain, h₄) = require-eq-ok _ (source_error "source_origin_invalid" true) _ h₃ in
      subst (IsSafe net) (ok-injective h₄) (record { agent = default-IsClean; kept = tt })

  -- Every session that its constructor and any sequence of operations lead to is safe: its user
  -- agent holds no line break, and each of its cookies was kept for its host.
  pub Reachable-IsSafe :
      (origin : String) (profile : Option ResolverProfile) (session : Session)
      → Reachable origin profile session
      → IsSafe net session
  unfolding closed_session
  Reachable-IsSafe origin profile session (constructed s made) =
      new_session-IsSafe origin profile s made
  Reachable-IsSafe origin profile session (after_text s outside raw_url max_bytes r) =
      (fetch_text-Kept net outside s.source_host s raw_url max_bytes
        (Reachable-IsSafe origin profile s r, refl)).0.0
  Reachable-IsSafe origin profile session (after_redirect s outside raw_url r) =
      (resolve_redirect-Kept net outside s.source_host s raw_url
        (Reachable-IsSafe origin profile s r, refl)).0.0
  Reachable-IsSafe origin profile session (after_close s r) = record {
    agent = default-IsClean;
    kept = tt;
  }
