-- ===== src/Contract/ComicParser.antt =====
-- comic_parser.py of packages/provider_contract/src/pullbox_provider_contract: `normalize_issue`,
-- and the evidence that `parse_comic_title` returns, as far as the providers read it.
use Prim.Native.String
use Prim.Native.Char.{Char, code}
use pullbox_direct_providers.Prelude.{
  ℕ, ◌+◌, Bool, ◌&&◌, ◌||◌, Option, none, some, List, leb, if◌then◌else◌, String,
}
use pullbox_direct_providers.Prelude.Int.{ℤ, pos, negsuc}
use pullbox_direct_providers.Prelude.Optional.{◌>>=◌}
use pullbox_direct_providers.Prelude.Text.{rstrip, is_char, any_char, text_drop, text_len}
use pullbox_direct_providers.Contract.Net.{Net}

pub record ComicTitleEvidence : Type 0 where
  pub series_title : String
  pub issue_numbers : List String
  pub volume : Option String
  pub year : Option ℕ

-- [A-Za-z]
unfoldable pub is_letter : Char → Bool
is_letter c = (leb b'A' (code c) && leb (code c) b'Z') || (leb b'a' (code c) && leb (code c) b'z')

module _ (net : Net) where
  -- `str` of an integer
  unfoldable pub show_int : ℤ → String
  show_int (pos n) = net.show n
  show_int (negsuc n) = String.◌++◌ "-" (net.show (n + 1))

  abbrev number_text : Option ℤ → Option String
  unfolding show_int
  number_text none = none
  number_text (some n) = some (show_int n)

  -- `int` of a text is an argument; where it raises ValueError, so does `normalize_issue`.
  unfoldable pub normalize_issue : (String → Option ℤ) → String → Option String
  unfolding is_letter rstrip any_char text_drop text_len show_int
  normalize_issue int_of_text value =
      let numeric = rstrip is_letter value in
      let suffix = net.casefold (text_drop (text_len numeric) value) in
      (if any_char (is_char b'.') numeric
        then some (rstrip (is_char b'.') (rstrip (is_char b'0') numeric))
        else number_text (int_of_text numeric))
      >>= λ number. some (String.◌++◌ number suffix)
