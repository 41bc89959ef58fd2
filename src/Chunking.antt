-- ===== src/Chunking.antt =====
-- backend/src/literature_agent/domain/chunk_builder.py: the elements of a parsed document are put
-- together to chunks. Here the elements (domain/document_element.py), the profile
-- (domain/chunk_profile.py) and the token counters (domain/tokenization.py). Texts are lists of code
-- points, and identifiers are numbers.
pub mod Units
pub mod Builder
pub mod Counting
pub mod Follows
pub mod Content
pub mod Shape
pub mod Boundaries
pub mod Complete
use literature_research_agen.Base.{
  ℕ, ◌+◌, ◌&&◌, ◌||◌, Bool, true, false, not, Option, none, some, List, [], ◌∷◌, ◌++◌, map, ◌==◌,
  ltb, leb, if◌then◌else◌, ℤ, pos, negsuc,
}
use literature_research_agen.Run.Errors.{Result, ok, err, value_error}
use literature_research_agen.Runtime.Texts.{Text, is_empty, same_text}

pub data ElementType : Type 0 where
  title section_heading paragraph list_item table : ElementType
  formula figure caption page_header page_footer : ElementType

-- `cells` is the grid of the payload, each cell as the text that `str` makes of it.
pub record DocumentElement : Type 0 where
  pub element_id : ℕ
  pub element_type : ElementType
  pub sequence : ℕ
  pub parent_element_id : Option ℕ
  pub section_path : Option Text
  pub text : Option Text
  pub cells : Option (List (List Text))

pub record ElementSourceLocation : Type 0 where
  pub element_id : ℕ
  pub page : ℕ

-- `_EXCLUDED_TYPES`, `_CAPTION_PARENT_TYPES` and the two single types that are looked for
abbrev pub is_excluded : ElementType → Bool
is_excluded page_header = true
is_excluded page_footer = true
is_excluded _ = false

abbrev pub is_caption_parent : ElementType → Bool
is_caption_parent table = true
is_caption_parent figure = true
is_caption_parent _ = false

abbrev pub is_heading : ElementType → Bool
is_heading section_heading = true
is_heading _ = false

abbrev pub is_caption : ElementType → Bool
is_caption caption = true
is_caption _ = false

abbrev pub is_table : ElementType → Bool
is_table table = true
is_table _ = false

pub record ChunkProfile : Type 0 where
  pub max_tokens : ℕ
  pub overlap_tokens : ℕ
  pub tokenizer : Text
  pub include_section_prefix : Bool

-- `ChunkProfile.__post_init__`, for two integers.
unfoldable pub create_profile : ℤ → ℤ → Text → Bool → Result ChunkProfile
create_profile (negsuc m) overlap tokenizer prefix = err value_error
create_profile (pos m) (negsuc overlap) tokenizer prefix = err value_error
create_profile (pos m) (pos overlap) tokenizer prefix =
    if m == 0
    then err value_error
    else if leb m overlap
    then err value_error
    else if is_empty tokenizer
    then err value_error
    else ok (record {
      max_tokens = m;
      overlap_tokens = overlap;
      tokenizer = tokenizer;
      include_section_prefix = prefix;
    })

-- `OFFLINE_TOKENIZER`, "unicode-word.v1"
abbrev pub offline_tokenizer : Text
offline_tokenizer =
    117 ∷ 110 ∷ 105 ∷ 99 ∷ 111 ∷ 100 ∷ 101 ∷ 45 ∷ 119 ∷ 111 ∷ 114 ∷ 100 ∷ 46 ∷ 118 ∷ 49 ∷ []

infixl 5 ◌>>=◌
abbrev pub ◌>>=◌ : {A B : Type 0} → Result A → (A → Result B) → Result B
ok a >>= f = f a
err e >>= f = err e

-- `words` counts the matches of the regular expression, and `encodings` are those of tiktoken: there
-- is none for an unknown name, which raises a ValueError, and `encoding.encode` may itself raise for
-- a text.
unfoldable pub get_token_counter :
    (Text → ℕ) → (Text → Option (Text → Result ℕ)) → Text → Result (Text → Result ℕ)
get_token_counter words encodings tokenizer =
    if same_text tokenizer offline_tokenizer
    then ok (λ text. ok (words text))
    else known (encodings tokenizer)
  where
    known : Option (Text → Result ℕ) → Result (Text → Result ℕ)
    known none = err value_error
    known (some counter) = ok counter
