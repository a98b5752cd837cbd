-- ===== src/Rag/Chunking.antt =====
-- app/rag/chunking.py: `chunk_document`, the chunks of the sections and tables of a document. Sections has the
-- loop that finds the sections, Contents what is told by a text. The decimal digits of Unicode, the text of a
-- number and the SHA-256 digest of a text are parameters.
pub mod Ordinals
mod Examples
use Prim.Native.Char.{Char, code}
use Prim.Native.String.{◌++◌ as cat}
use yjdlagent.Prelude.{
  ℕ, zero, suc, ◌+◌, ◌-◌, Bool, true, false, not, Option, none, some, List, [], ◌∷◌, ◌++◌, map,
  String, ltb, leb, ◌==◌, ◌&&◌, ◌||◌, length, take, str_eq, if◌then◌else◌,
}
use yjdlagent.Errors.{Result, ok, err, value_error}
use yjdlagent.Table.{any, first}
use yjdlagent.Rag.Contents.{any_in, uncertainty_markers, content_type, table_section_path}
use yjdlagent.Rag.Sections.{Page, Document, Section, Sectioning, kept, sectioning}
use yjdlagent.Rag.Splitting.{newline, is_empty, part_of, split_content}
use yjdlagent.Text.{is_space, lstrip, strip, len, is_in, join, last_chars, lines_of_text, slice_to}

pub record Chunk : Type 0 where
  pub chunk_id : String
  pub document_id : String
  pub ordinal : ℕ
  pub content : String
  pub section_path : List String
  pub page_start : ℕ
  pub page_end : ℕ
  pub content_type : String
  pub source : String
  pub title : String
  pub warnings : List String

-- The variables of the two loops that make chunks.
pub record Chunking : Type 0 where
  pub chunks : List Chunk
  pub ordinal : ℕ

module _ (is_digit : ℕ → Bool) (decimal : ℕ → String) (sha256 : String → String) where
  -- `_chunk_id`
  unfoldable pub chunk_id_of : String → ℕ → String → String
  unfolding slice_to
  chunk_id_of document_id ordinal content = cat "chk-" (
      slice_to 20
        (sha256 (cat document_id (cat newline (cat (decimal ordinal) (cat newline content))))))

  unfoldable pub content_of : List String → String → String
  unfolding join
  content_of path part =
      if str_eq (join " > " path) ""
      then part
      else cat "章节：" (cat (join " > " path) (cat newline part))

  abbrev doubts : String → List String
  doubts content = if any_in uncertainty_markers content then "source_uncertainty" ∷ [] else []

  -- the chunk of a part of a section
  unfoldable pub section_chunk : Document → ℕ → Section → String → Chunk
  unfolding chunk_id_of content_of content_type is_in any
  section_chunk d ordinal section part =
      let content = content_of section.path part in
      record {
        chunk_id = chunk_id_of d.document_id ordinal content;
        document_id = d.document_id;
        ordinal = ordinal;
        content = content;
        section_path = section.path;
        page_start = section.page_start;
        page_end = section.page_end;
        content_type = content_type content;
        source = d.source;
        title = d.title;
        warnings = doubts content;
      }

  -- chunks.append(...); ordinal += 1
  unfoldable pub add_part : Document → Section → String → Chunking → Chunking
  unfolding section_chunk
  add_part d section part s = record {
    chunks = s.chunks ++ section_chunk d s.ordinal section part ∷ [];
    ordinal = s.ordinal + 1;
  }

  unfoldable pub add_parts : Document → Section → List String → Chunking → Chunking
  unfolding add_part
  add_parts d section [] s = s
  add_parts d section (part ∷ parts) s = add_parts d section parts (add_part d section part s)

  -- `for section in sections`
  unfoldable pub add_sections : Document → ℕ → ℕ → List Section → Chunking → Chunking
  unfolding add_parts split_content part_of
  add_sections d max_chars overlap_chars [] s = s
  add_sections d max_chars overlap_chars (section ∷ sections) s =
      add_sections d max_chars overlap_chars sections
        (add_parts d section (split_content (part_of section.lines) max_chars overlap_chars) s)

  -- page_paths.get(page_number, [title])
  abbrev path_of : String → ℕ → List (ℕ × List String) → List String
  path_of title page_number paths =
      elim (first (λ (p : ℕ × List String). p.0 == page_number) paths) [
        | none ↦ title ∷ []
        | some (n, path) ↦ path
      ]

  abbrev table_content : ℕ → ℕ → List String → String → String
  table_content page_number index path markdown = cat "章节：" (
      cat (join " > " path) (
        cat "\n表格（第"
          (cat (decimal page_number) (cat "页，第" (cat (decimal index) (cat "个）：\n" markdown))))))

  -- the chunk of a table, of which the page has `index` - 1 before
  unfoldable pub table_chunk : Document → ℕ → ℕ → ℕ → List String → String → Chunk
  unfolding chunk_id_of is_in any join
  table_chunk d ordinal page_number index path markdown =
      let content = table_content page_number index path markdown in
      record {
        chunk_id = chunk_id_of d.document_id ordinal content;
        document_id = d.document_id;
        ordinal = ordinal;
        content = content;
        section_path = path;
        page_start = page_number;
        page_end = page_number;
        content_type = "table";
        source = d.source;
        title = d.title;
        warnings = doubts content;
      }

  unfoldable pub add_table : Document → ℕ → List String → ℕ → String → Chunking → Chunking
  unfolding table_chunk table_section_path
  add_table d page_number fallback index markdown s =
      let path = table_section_path page_number markdown fallback in
      record {
        chunks = s.chunks ++ table_chunk d s.ordinal page_number index path markdown ∷ [];
        ordinal = s.ordinal + 1;
      }

  -- `for table_index, table in enumerate(page.tables, start=1)`
  unfoldable pub add_tables : Document → ℕ → List String → ℕ → List String → Chunking → Chunking
  unfolding add_table
  add_tables d page_number fallback index [] s = s
  add_tables d page_number fallback index (t ∷ ts) s =
      add_tables d page_number fallback (suc index) ts (add_table d page_number fallback index t s)

  -- the second `for page in document.pages`
  unfoldable pub add_pages : Document → List (ℕ × List String) → List Page → Chunking → Chunking
  unfolding add_tables first
  add_pages d paths [] s = s
  add_pages d paths (p ∷ ps) s =
      add_pages d paths ps
        (add_tables d p.page_number (path_of d.title p.page_number paths) 1 p.tables s)

  unfoldable pub chunks_of : Document → ℕ → ℕ → Sectioning → Chunking
  unfolding add_sections add_pages
  chunks_of d max_chars overlap_chars s = add_pages d s.page_paths d.pages (
      add_sections d max_chars overlap_chars (kept s.sections s.current)
        (record { chunks = []; ordinal = 0 }))

  unfoldable pub chunk_document : Document → ℕ → ℕ → Result (List Chunk)
  unfolding sectioning chunks_of
  chunk_document d max_chars overlap_chars =
      if ltb max_chars 200
      then err (value_error "max_chars must be at least 200")
      else if leb max_chars overlap_chars
      then err (value_error "overlap_chars must be non-negative and smaller than max_chars")
      else ok ((chunks_of d max_chars overlap_chars (sectioning is_digit d)).chunks)
