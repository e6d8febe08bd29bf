-- ===== src/Contract/Resolver/Runtime/Tests.antt =====
-- Runs of the resolver runtime, and its theorems at concrete inputs.
use pullbox_direct_providers.Prelude.{
  ◌≡◌, refl, ◌↔◌, none, some, [], ◌∷◌, arith, leb, if◌then◌else◌, ℕ_eq, String_eq, List_eq,
}
use pullbox_direct_providers.Contract.Resolver.Runtime.{
  closed, open_, Runtime, new, admitted, resolver_circuit_open, resolver_busy, enter, leave,
  record_success, record_failure,
}
use pullbox_direct_providers.Prelude.Dict.{lookup, put}
use pullbox_direct_providers.Contract.Models.{flaresolverr_v1, ResolverProfile}
use pullbox_direct_providers.Contract.Resolver.Runtime.Admission.{Admits, enter-Admits_iff}
use pullbox_direct_providers.Contract.Resolver.Runtime.Breaker.{fail_all, fail_all-record_success}
use pullbox_direct_providers.Contract.Resolver.Runtime.Interleaving.{
  System, admit, fail, count, Reach, here, next, IsSafe, start, runtime-IsSafe,
}
use pullbox_direct_providers.Contract.Resolver.Runtime.Registry.{profile_key, runtime_for_profile}
use pullbox_direct_providers.Contract.Resolver.Runtime.Recovery.{Recovers, runtime-Recovers}

abbrev fresh : Runtime
fresh = record {
  max_concurrency = 2;
  failure_threshold = 3;
  cooldown_seconds = 60;
  active = 0;
  failures = 0;
  state = closed;
  opened_at = none;
}

fresh_made : new 2 3 60 ≡ some fresh
unfolding new
fresh_made = refl

abbrev tripped : Runtime
tripped = fail_all (record_success fresh) (10 ∷ 11 ∷ 12 ∷ [])

probe_alone :
    ((enter tripped 71).1 ≡ resolver_circuit_open)
    × ((enter tripped 72).1 ≡ admitted)
    × ((enter (enter tripped 72).0 73).1 ≡ resolver_busy)
unfolding enter fail_all record_failure record_success
probe_alone = (refl, refl, refl)

fail_all-record_success_example : tripped.state ≡ (if leb 3 3 then open_ else closed)
fail_all-record_success_example = fail_all-record_success fresh (10 ∷ 11 ∷ 12 ∷ []) (omega arith)

enter-Admits_iff_example : ((enter tripped 72).1 ≡ admitted) ↔ Admits tripped 72
unfolding fail_all record_failure record_success
enter-Admits_iff_example = enter-Admits_iff tripped 72 (omega arith)

abbrev entered : System
entered = record { runtime = (enter fresh 0).0; working = 1; leaving = 0; failing = 0 }

abbrev failed : System
failed = record { runtime = leave (enter fresh 0).0; working = 0; leaving = 0; failing = 1 }

path : Reach (start fresh) failed
unfolding enter
path = next (next here (admit (start fresh) 0 refl)) (fail entered (omega arith))

runtime-IsSafe_example : IsSafe 2 failed
runtime-IsSafe_example = runtime-IsSafe 2 3 60 fresh failed fresh_made path

abbrev profile : ResolverProfile
profile = record {
  endpoint = "http://solver:8191";
  mode = flaresolverr_v1;
  timeout_ms = 60000;
  max_concurrency = 2;
  declared_domains = "libgen.gl" ∷ [];
  authentication_headers = [];
}

abbrev built : Runtime
built = record fresh { cooldown_seconds = 60000 }

registered : runtime_for_profile [] profile ≡ some ((profile_key profile, built) ∷ [], built)
unfolding runtime_for_profile lookup put new
registered = refl

-- A runtime whose circuit one failure opens, at 5, and a second caller inside.
abbrev touchy : Runtime
touchy = record fresh { failure_threshold = 1 }

abbrev opened : System
opened = record {
  runtime = record touchy { active = 1; failures = 1; state = open_; opened_at = some 5 };
  working = 1;
  leaving = 0;
  failing = 0;
}

abbrev both_inside : System
both_inside = record {
  runtime = record touchy { active = 2 };
  working = 2;
  leaving = 0;
  failing = 0;
}

abbrev one_inside : System
one_inside = record {
  runtime = record touchy { active = 1 };
  working = 1;
  leaving = 0;
  failing = 1;
}

touchy_made : new 2 1 60 ≡ some touchy
unfolding new
touchy_made = refl

opening : Reach (start touchy) opened
unfolding enter leave record_failure
opening =
    next
      (next
        (next (next here (admit (start touchy) 0 refl)) (
          admit (record both_inside { runtime = record touchy { active = 1 }; working = 1 }) 1
            refl))
        (fail both_inside (omega arith)))
      (count one_inside 5 (omega arith))

runtime-Recovers_example : Recovers opened 65
runtime-Recovers_example =
    runtime-Recovers 2 1 60 touchy opened 65 touchy_made opening (omega arith)
