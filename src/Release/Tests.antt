-- ===== src/Release/Tests.antt =====
-- Runs of the vulnerability gate and the SARIF filter, and their theorems at concrete inputs.
use pullbox_direct_providers.Prelude.{
  ◌+◌, ◌≡◌, refl, inl, inr, true, some, List, [], ◌∷◌, if◌then◌else◌, ◌==◌, ℕ_eq, String_eq, Exists,
  String, List_eq,
}
use pullbox_direct_providers.Prelude.Json.{
  Json, int, str, arr, obj, nil, cons, Fields, end, field, get,
}
use pullbox_direct_providers.Prelude.Result.{ok, traverse}
use pullbox_direct_providers.Release.Policy.{
  Toolkit, object_value, text, list_value, base_digest, Finding, rule_id, Identity, identity,
  iso_date, review_dates, platform_identity, entry_identities, all_entry_identities,
  reviewed_identities,
}
use pullbox_direct_providers.Prelude.Int.{pos}
use pullbox_direct_providers.Release.Policy.{
  entry_review, entry_contents, checked_entry, review_entries, digest_of,
}
use pullbox_direct_providers.Release.Policy.Reports.{
  match_finding, report_matches, report_findings, evaluate, accepted, platform_of, is_platform,
  fix_version, string_value, only_arch,
}
use pullbox_direct_providers.Release.Policy.Reviews.{IsUnfixed, Covers, accepted-Covers}
use pullbox_direct_providers.Release.Sarif.{
  is_blocking, unreviewed_ids, nonblocking_ids, reviewed_severities, omission_evidence,
  sarif_rule_severities,
}
use pullbox_direct_providers.Release.Sarif.Filter.{
  is_omitted, omits, filter_results, filter_run, filter_runs, filter_sarif, rule_id_of, run_results,
  object_fields, list_items, get_or, contradicts,
}
use pullbox_direct_providers.Release.Sarif.Evidence.{
  IsUnreviewed, count_results, filter_sarif-count, filter_results-keeps,
}

abbrev pin : String
pin = "debian@sha256:0123456789abcdef0123456789abcdef0123456789abcdef0123456789abcdef"

abbrev tools : Toolkit
tools = record {
  from_iso_format = λ s. if s == "2026-01-01" then some 1 else some 90;
  is_https_url = λ s. some true;
  arches = λ s. some ("amd64" ∷ []);
  decode_config = λ s. some (
      obj (
        field "os" (str "linux") (
          field "architecture" (str "amd64") (
            field "config"
              (obj (
                field "Labels" (obj (field "org.opencontainers.image.base.name" (str pin) end))
                  end))
              end))));
}

abbrev entry : Json
entry = obj (
    field "reviewed_on" (str "2026-01-01") (
      field "expires_on" (str "2026-03-31") (
        field "rationale" (str "r") (
          field "owner" (str "o") (
            field "evidence" (str "https://e") (
              field "id" (str "CVE-1") (
                field "package" (str "zlib") (
                  field "severity" (str "High") (
                    field "version" (str "1.2") (
                      field "type" (str "deb") (
                        field "namespace" (str "debian") (
                          field "fix_state" (str "wont-fix")
                            (field "platforms" (arr (cons (str "linux/amd64") nil)) end)))))))))))))

abbrev baseline : Fields
baseline = field "schema_version" (int (pos 2)) (
    field "base_image" (str pin) (
      field "reviewed_on" (str "2026-01-01") (
        field "expires_on" (str "2026-03-31") (
          field "images" (obj (field "libgen" (str "slim") end))
            (field "profiles" (obj (field "slim" (arr (cons entry nil)) end)) end)))))

abbrev match : String → Json
match severity = obj (
    field "vulnerability"
      (obj (
        field "severity" (str severity) (
          field "id" (str "CVE-1") (
            field "namespace" (str "debian") (
              field "fix" (obj (field "versions" (arr nil) (field "state" (str "wont-fix") end)))
                end)))))
      (field "artifact"
        (obj (
          field "purl" (str "pkg:deb/zlib") (
            field "name" (str "zlib")
              (field "version" (str "1.2") (field "type" (str "deb") end)))))
        end))

abbrev report : String → Fields
report severity =
    field "source"
      (obj (
        field "type" (str "image") (
          field "target"
            (obj (
              field "os" (str "linux")
                (field "architecture" (str "amd64") (field "config" (str "e30=") end))))
            end)))
      (field "matches" (arr (cons (match severity) nil)) end)

abbrev finding : String → Finding
finding severity = record {
  identifier = "CVE-1";
  package_name = "zlib";
  severity = severity;
  version = "1.2";
  package_type = "deb";
  namespace = "debian";
  platform = "linux/amd64";
  package_arch = some "amd64";
  fix_state = "wont-fix";
  fix_versions = [];
}

abbrev listed : List Identity
listed =
    ("CVE-1" ∷ "zlib" ∷ "High" ∷ "1.2" ∷ "deb" ∷ "debian" ∷ "linux/amd64" ∷ "wont-fix" ∷ []) ∷ []

gate : Unit {0}
unfolding evaluate reviewed_identities review_entries all_entry_identities entry_identities
    entry_review checked_entry entry_contents platform_identity review_dates iso_date object_value
    text list_value base_digest digest_of report_findings report_matches match_finding platform_of
    is_platform fix_version string_value only_arch accepted identity rule_id get traverse
gate = tt

evaluates : evaluate tools 30 (report "High") baseline "libgen" ≡ ok (finding "High" ∷ [], listed)
unfolding gate
evaluates = refl

accepts : accepted (finding "High") listed ≡ true
unfolding gate List_eq
accepts = refl

abbrev Reviewed : Type 0
Reviewed =
    IsUnfixed (finding "High")
    × (found : List Json × String) × (review_entries tools 30 baseline "libgen" ≡ ok found)
    × Exists (Covers tools 30 found.1 (identity (finding "High"))) found.0

accepted-Covers_example : Reviewed
accepted-Covers_example =
    accepted-Covers tools 30 (report "High") baseline "libgen" (finding "High" ∷ []) listed
      (finding "High") evaluates accepts

-- A Critical finding under the rule id of the reviewed High one.
abbrev actual : List Finding
actual = finding "High" ∷ finding "Critical" ∷ []

abbrev result : Fields
result = field "ruleId" (str "CVE-1-zlib") end

abbrev run : Fields
run = field "results" (arr (cons (obj result) nil)) end

abbrev ev : List String × List (String × List String)
ev = omission_evidence actual listed

sarif : Unit {0}
unfolding gate List_eq omission_evidence is_blocking unreviewed_ids nonblocking_ids
    reviewed_severities is_omitted omits filter_results filter_run filter_runs filter_sarif
    rule_id_of run_results object_fields list_items get_or contradicts sarif_rule_severities
sarif = tt

kept :
    filter_results ev.0 ev.1 run (("CVE-1-zlib", some "High") ∷ []) (obj result ∷ [])
    ≡ ok (obj result ∷ [], 0)
unfolding sarif
kept = refl

named : rule_id_of (get "ruleId" result) ≡ ok "CVE-1-zlib"
unfolding sarif
named = refl

unreviewed : Exists (IsUnreviewed listed "CVE-1-zlib") actual
unfolding sarif
unreviewed = inr (inl (refl, refl, refl))

filter_results-keeps_example : Exists (λ v. v ≡ obj result) (obj result ∷ [])
filter_results-keeps_example =
    filter_results-keeps listed actual run (("CVE-1-zlib", some "High") ∷ []) (obj result ∷ [])
      (obj result ∷ []) 0 result "CVE-1-zlib" kept named unreviewed (inl refl)

abbrev document : Fields
document = field "runs" (arr (cons (obj run) nil)) end

filtered : filter_sarif ev.0 ev.1 (λ s. s) document ≡ ok (document, 0, 1)
unfolding sarif
filtered = refl

document_runs : get "runs" document ≡ arr (cons (obj run) nil)
unfolding sarif
document_runs = refl

filter_sarif-count_example : 0 + 1 ≡ count_results (obj run ∷ [])
filter_sarif-count_example =
    filter_sarif-count ev.0 ev.1 (λ s. s) document document (cons (obj run) nil) 0 1 document_runs
      filtered
