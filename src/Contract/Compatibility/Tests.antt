-- ===== src/Contract/Compatibility/Tests.antt =====
-- A negotiation, and the theorem at it.
use pullbox_direct_providers.Prelude.{◌≡◌, refl, String, List, [], ◌∷◌}
use pullbox_direct_providers.Prelude.Result.{ok, raised}
use pullbox_direct_providers.Contract.Compatibility.{malformed, negotiate_protocol_version}
use pullbox_direct_providers.Contract.Compatibility.Highest.{
  IsNegotiated, negotiate_protocol_version-IsNegotiated,
}

abbrev ours : List String
ours = "direct-download-provider/v2" ∷ "direct-download-provider/v10" ∷ "x" ∷ []

abbrev theirs : List String
theirs = "direct-download-provider/v10" ∷ "direct-download-provider/v2" ∷ []

negotiates : negotiate_protocol_version ours theirs ≡ ok "direct-download-provider/v10"
unfolding negotiate_protocol_version
negotiates = refl

rejects_malformed :
    negotiate_protocol_version ours ("direct-download-provider/v01" ∷ []) ≡ raised malformed
unfolding negotiate_protocol_version
rejects_malformed = refl

negotiate_protocol_version-IsNegotiated_example :
    IsNegotiated ours theirs "direct-download-provider/v10"
negotiate_protocol_version-IsNegotiated_example =
    negotiate_protocol_version-IsNegotiated ours theirs "direct-download-provider/v10" negotiates
