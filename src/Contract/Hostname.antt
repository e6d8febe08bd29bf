-- ===== src/Contract/Hostname.antt =====
-- `_is_public_source_hostname_syntax` and `_looks_like_legacy_ipv4_literal` of configuration.py,
-- which libgen's service.py repeats word for word.
pub mod Public
use Prim.Native.Char.{Char, code}
use pullbox_direct_providers.Prelude.{
  Bool, not, ◌&&◌, ◌||◌, none, some, List, [], ◌∷◌, leb, length, ℕ_eq, String_eq, String, any, all,
}
use pullbox_direct_providers.Prelude.Text.{is_empty, is_digit, all_chars, strip_prefix}
use pullbox_direct_providers.Prelude.Split.{split}
use pullbox_direct_providers.Contract.Net.{Net}
use pullbox_direct_providers.Contract.Resolver.Target.{within_domain, is_literal}

abbrev pub special_use_source_suffixes : List String
special_use_source_suffixes = "localhost" ∷ "local" ∷ "onion" ∷ "internal" ∷ "home.arpa" ∷ []

-- character in "0123456789abcdef"
unfoldable pub is_hex_digit : Char → Bool
is_hex_digit c = is_digit c || (leb b'a' (code c) && leb (code c) b'f')

-- label.isascii() and label.isdigit(), of a label that is not empty
unfoldable pub is_ascii_number : String → Bool
unfolding all_chars
is_ascii_number label = all_chars is_digit label

unfoldable pub hex_digits : String → Bool
unfolding all_chars is_hex_digit
hex_digits digits = not (is_empty digits) && all_chars is_hex_digit digits

-- The round of the loop for one label.
unfoldable pub is_legacy_label : String → Bool
unfolding strip_prefix is_ascii_number hex_digits
is_legacy_label label = not (is_empty label) && elim (strip_prefix "0x" label) [
  | some digits ↦ hex_digits digits
  | none ↦ is_ascii_number label
]

-- `_looks_like_legacy_ipv4_literal`; `split` gives at least one label
unfoldable pub looks_like_legacy_ipv4_literal : String → Bool
unfolding split is_legacy_label
looks_like_legacy_ipv4_literal hostname =
    let labels = split b'.' hostname in leb (length labels) 4 && all is_legacy_label labels

module _ (net : Net) where
  -- `_is_public_source_hostname_syntax`
  unfoldable pub is_public_source_hostname_syntax : String → Bool
  unfolding within_domain looks_like_legacy_ipv4_literal
  is_public_source_hostname_syntax hostname =
      not (any (within_domain hostname) special_use_source_suffixes)
      && not (is_literal (net.ip_address hostname))
      && not (looks_like_legacy_ipv4_literal hostname)
