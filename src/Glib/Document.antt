-- ===== src/Glib/Document.antt =====
-- glib/gfile/manager.go: `cleanPdfContent` and `cleanArticleContent`. The functions of Go's packages
-- strings and regexp that they call are the interface `Strings`.
pub mod Laws
pub mod Article
use Prim.Native.String.{len}
use shopble_stellar.Stellar.Text.{contains, has_prefix}
use shopble_stellar.Common.{
  ℕ, String, ◌<>◌, Bool, true, false, not, ◌&&◌, ◌||◌, List, [], ◌∷◌, ◌++◌, ltb, ◌==◌, string_eq,
  if◌then◌else◌,
}

pub record Strings : Type 0 where
  pub trim_space : String → String
  pub replace_all : String → String → String → String
  pub split_lines : String → List String
  pub join_lines : List String → String
  -- `multipleSpaces.ReplaceAllString(s, " ")`, and the chain of the four other expressions
  pub single_spaces : String → String
  pub strip_codes : String → String
  pub is_photo_caption : String → Bool
  pub is_source : String → Bool

-- `result` and the text in `currentLine`.
abbrev pub Cleaning : Type 0
Cleaning = List String × String

-- `currentLine.Len() > 0`
abbrev pub has_text : String → Bool
has_text current_line = ltb 0 (len current_line)

saved : Cleaning → List String
saved (result, current_line) =
    if has_text current_line then result ++ (current_line ∷ []) else result

-- The body of the loop of `cleanPdfContent` for a trimmed line.
unfoldable pub clean_line : String → Cleaning → Cleaning
unfolding saved
clean_line line (result, current_line) =
    if line == ""
    then (if has_text current_line
        then (saved (result, current_line), "")
        else (result, current_line))
    else if ltb (len line) 30 && has_text current_line
    then (result, (current_line <> " ") <> line)
    else if has_text current_line
    then (saved (result, current_line), line)
    else (result, current_line <> line)

module _ (strings : Strings) where
  unfoldable pub clean_lines : List String → Cleaning → Cleaning
  clean_lines [] s = s
  clean_lines (line ∷ lines) s = clean_lines lines (clean_line (strings.trim_space line) s)

  -- The lines that `cleanPdfContent` joins.
  unfoldable pub pdf_lines : List String → List String
  unfolding saved
  pdf_lines lines = saved (clean_lines lines ([], ""))

  -- `cleanPdfContent`
  unfoldable pub clean_pdf_content : String → String
  clean_pdf_content content =
      let unix = strings.replace_all "\r" "\n" (strings.replace_all "\r\n" "\n" content) in
      strings.trim_space
        (strings.single_spaces (strings.join_lines (pdf_lines (strings.split_lines unix))))

  -- Whether the loop of `cleanArticleContent` keeps a paragraph.
  unfoldable pub keeps_paragraph : String → Bool
  keeps_paragraph para =
      if (para == "") || ltb (len para) 50
      then false
      else if strings.is_photo_caption para
      then false
      else if ltb (len para) 40 && (contains para ":" || has_prefix para "-")
      then false
      else if strings.is_source para
      then false
      else true

  unfoldable pub clean_paragraphs : List String → List String
  clean_paragraphs [] = []
  clean_paragraphs (para ∷ paragraphs) =
      let clean = strings.strip_codes (strings.trim_space para) in
      let rest = clean_paragraphs paragraphs in if keeps_paragraph clean then clean ∷ rest else rest

  -- `cleanArticleContent`
  unfoldable pub clean_article_content : String → String
  clean_article_content content =
      strings.join_lines (clean_paragraphs (strings.split_lines content))
