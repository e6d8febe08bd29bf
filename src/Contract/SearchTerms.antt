-- ===== src/Contract/SearchTerms.antt =====
-- search_terms.py of packages/provider_contract/src/pullbox_provider_contract. A cursor into the
-- title is the text behind it.
use Prim.Native.String
use Prim.Native.Char.{Char, code}
use pullbox_direct_providers.Prelude.{
  ℕ, ◌+◌, Bool, true, false, not, ◌&&◌, ◌||◌, Option, none, some, List, [], ◌∷◌, leb, nat_beq,
  if◌then◌else◌, ℕ_eq, String_eq, String, any, contains,
}
use pullbox_direct_providers.Prelude.Text.{
  strip, is_space, is_empty, is_char, is_digit, starts, collapse, text_len, text_drop, lstrip,
}
use pullbox_direct_providers.Contract.Net.{Net}

-- Tables of Python's `str`: `isdecimal` of one character, and `title`.
pub record Unicode : Type 0 where
  pub is_decimal : Char → Bool
  pub title : String → String

abbrev pub collection_issue_types : List String
collection_issue_types =
    "compendium" ∷ "deluxe" ∷ "gn" ∷ "hc" ∷ "ogn" ∷ "omnibus" ∷ "tpb" ∷ "volume" ∷ []

abbrev pub collection_prefix_labels : List String
collection_prefix_labels = "volume" ∷ "vol" ∷ "book" ∷ "part" ∷ []

abbrev pub collection_prefix_separators : List ℕ
collection_prefix_separators = b':' ∷ b'-' ∷ 0x2013 ∷ 0x2014 ∷ []

abbrev pub generic_collection_titles : List String
generic_collection_titles =
    "gn" ∷ "graphic novel" ∷ "hardcover" ∷ "hc" ∷ "hc tpb" ∷ "issue" ∷ "ogn"
    ∷ "original graphic novel" ∷ "sc" ∷ "softcover" ∷ "tpb" ∷ "trade paperback" ∷ "vol" ∷ "volume"
    ∷ []

-- value or ""
abbrev pub text_or_empty : Option String → String
text_or_empty none = ""
text_or_empty (some s) = s

-- The longest front of characters that pass, and the rest.
unfoldable pub span : (Char → Bool) → String → String × String
span p String.[] = (String.[], String.[])
span p (String.◌∷◌ c s) =
    let (front, rest) = span p s in
    if p c then (String.◌∷◌ c front, rest) else (String.[], String.◌∷◌ c s)

-- The rest behind one character that passes, if there is one.
unfoldable pub skip_one : (Char → Bool) → String → String
skip_one p String.[] = String.[]
skip_one p (String.◌∷◌ c s) = if p c then s else String.◌∷◌ c s

-- The literal character `p` of a pattern with re.IGNORECASE: either case, and the three letters
-- that have further ones.
unfoldable pub same_letter : Char → Char → Bool
same_letter p c =
    nat_beq (code c) (code p)
    || (leb b'a' (code p) && leb (code p) b'z' && nat_beq (code c + 32) (code p))
    || (is_char b's' p && is_char 0x17f c)
    || (is_char b'k' p && is_char 0x212a c)
    || (is_char b'i' p && (is_char 0x130 c || is_char 0x131 c))

-- The rest behind a literal of such a pattern.
unfoldable pub behind : String → String → Option String
unfolding same_letter
behind String.[] s = some s
behind (String.◌∷◌ p ps) String.[] = none
behind (String.◌∷◌ p ps) (String.◌∷◌ c s) =
    let rest = behind ps s in if same_letter p c then rest else none

module _ (unicode : Unicode) where
  abbrev fraction_end : String × String → Bool
  fraction_end (digits, rest) = not (is_empty digits) && is_empty rest

  -- \d+(?:\.\d+)? up to the end
  unfoldable pub is_number_rest : String × String → Bool
  unfolding span
  is_number_rest (digits, String.[]) = not (is_empty digits)
  is_number_rest (digits, String.◌∷◌ c s) =
      not (is_empty digits) && is_char b'.' c && fraction_end (span unicode.is_decimal s)

  -- \s*#?\d+(?:\.\d+)? up to the end
  unfoldable pub is_number_tail : String → Bool
  unfolding is_number_rest lstrip skip_one span
  is_number_tail s =
      is_number_rest (span unicode.is_decimal (skip_one (is_char b'#') (lstrip is_space s)))

  abbrev number_behind : Option String → Bool
  number_behind none = false
  number_behind (some rest) = is_number_tail rest

  -- `_NUMBER_ONLY_TITLE_RE.fullmatch`: one of the ways to match the optional word leaves a number.
  unfoldable pub is_number_only_title : String → Bool
  unfolding behind is_number_tail
  is_number_only_title title =
      any (λ word. number_behind (behind word title))
        ("" ∷ "issue" ∷ "no" ∷ "no." ∷ "number" ∷ "#" ∷ "vol" ∷ "vol." ∷ "volume" ∷ "volume."
          ∷ "book" ∷ "part" ∷ [])

  abbrev starts_decimal : String → Bool
  starts_decimal String.[] = false
  starts_decimal (String.◌∷◌ c s) = unicode.is_decimal c

  abbrev prepend_text : String → String × String → String × String
  prepend_text front (digits, rest) = (String.◌++◌ front digits, rest)

  -- A fraction behind the digits, if a dot and a digit follow.
  unfoldable pub with_fraction : String × String → String × String
  unfolding span
  with_fraction (digits, String.[]) = (digits, String.[])
  with_fraction (digits, String.◌∷◌ c s) =
      if is_char b'.' c && starts_decimal s
      then prepend_text (String.◌++◌ digits ".") (span unicode.is_decimal s)
      else (digits, String.◌∷◌ c s)

  abbrev is_separator : Char → Bool
  is_separator c = contains (code c) collection_prefix_separators

  abbrev subtitle_of : String → String
  subtitle_of s = lstrip is_space (skip_one is_separator (lstrip is_space s))

  abbrev numbered : String → String × String → Option (String × String × String)
  numbered label (digits, rest) =
      let (number, tail) = with_fraction (digits, rest) in
      if is_empty digits then none else some (label, number, subtitle_of tail)

  -- The parts behind a label, from the text that follows it.
  unfoldable pub labelled_parts : String → String → Option (String × String × String)
  unfolding with_fraction skip_one lstrip span
  labelled_parts label rest = numbered label (
      span unicode.is_decimal
        (skip_one (is_char b'#') (lstrip is_space (skip_one (is_char b'.') rest))))

  -- next((candidate for candidate in labels if folded.startswith(candidate)), None)
  unfoldable pub label_of : List String → String → Option String
  unfolding starts
  label_of [] folded = none
  label_of (label ∷ labels) folded =
      if starts label folded then some label else label_of labels folded

  abbrev parts_behind : Option String → String → Option (String × String × String)
  parts_behind none title = none
  parts_behind (some label) title = labelled_parts label (text_drop (text_len label) title)

-- [^a-z0-9]
abbrev is_other : Char → Bool
is_other c = not (leb b'a' (code c) && leb (code c) b'z' || is_digit c)

-- re.sub(r"[^a-z0-9]+", " ", s), where `gap` says that the match goes on
unfoldable pub simplified : Bool → String → String
simplified gap String.[] = String.[]
simplified gap (String.◌∷◌ c s) =
    let open_gap = simplified true s in
    let closed_gap = simplified false s in
    if is_other c
    then (if gap then open_gap else String.◌++◌ " " open_gap)
    else String.◌∷◌ c closed_gap

module _ (net : Net) (unicode : Unicode) where
  -- `is_collection_intent`
  unfoldable pub is_collection_intent : Option String → Bool
  is_collection_intent issue_type =
      contains (net.casefold (text_or_empty issue_type)) collection_issue_types

  -- `_collection_prefix_parts`
  unfoldable pub collection_prefix_parts : String → Option (String × String × String)
  unfolding labelled_parts label_of text_drop text_len
  collection_prefix_parts title =
      parts_behind unicode (label_of unicode collection_prefix_labels (net.casefold title)) title

  -- "Vol", or the label in title case
  abbrev canonical_label : String → String
  canonical_label label = if starts "vol" label then "Vol" else unicode.title label

  abbrev joined : String → String → String → String
  joined label number subtitle =
      String.◌++◌ label (String.◌++◌ " " (String.◌++◌ number (String.◌++◌ " " subtitle)))

  abbrev titled : String → Option (String × String × String) → Option String
  titled title none = some title
  titled title (some (label, number, subtitle)) =
      if is_empty (strip subtitle)
      then none
      else some (joined (canonical_label label) number (strip subtitle))

  unfoldable pub is_generic_title : String → Bool
  unfolding simplified strip is_number_only_title
  is_generic_title title =
      contains (strip (simplified false (net.casefold title))) generic_collection_titles
      || is_number_only_title unicode title

  abbrev fragment_of : String → Option String
  fragment_of title =
      if is_empty title || is_generic_title title
      then none
      else titled title (collection_prefix_parts title)

  -- `collection_title_fragment`
  unfoldable pub collection_title_fragment : Option String → Option String
  unfolding collapse is_generic_title collection_prefix_parts strip starts
  collection_title_fragment value = fragment_of (collapse (text_or_empty value))

  abbrev number_of_parts : Option (String × String × String) → Option String
  number_of_parts none = none
  number_of_parts (some (label, number, subtitle)) = some number

  -- `collection_title_number`
  unfoldable pub collection_title_number : Option String → Option String
  unfolding collapse collection_prefix_parts
  collection_title_number value =
      let title = collapse (text_or_empty value) in
      if is_empty title then none else number_of_parts (collection_prefix_parts title)
