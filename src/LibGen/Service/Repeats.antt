-- ===== src/LibGen/Service/Repeats.antt =====
-- What a LibGen search caches.
use pullbox_direct_providers.Prelude.{ℕ, ℕ_eq, String_eq}
use pullbox_direct_providers.Prelude.Result.{Result}
use pullbox_direct_providers.Contract.Net.{Net}
use pullbox_direct_providers.Contract.SearchTerms.{Unicode}
use pullbox_direct_providers.LibGen.Service.Search.{Source}

module _ {D C : Type 0} (net : Net) (unicode : Unicode) (source : Source D C) where
  -- The source with another reading of the clock.
  abbrev pub read_later : ℕ → Source D C
  read_later later = record source { read_at = λ origin. later }
