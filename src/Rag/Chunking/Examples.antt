-- ===== src/Rag/Chunking/Examples.antt =====
-- A document of one page with a heading and a table.
use Prim.Native.Nat.{ℕ}
use yjdlagent.Prelude.{
  ◌≡◌, ◌&&◌, some, leb, ◌==◌, refl, String, Bool, List, [], ◌∷◌, map, if◌then◌else◌,
}
use yjdlagent.Errors.{Result, ok, err}
use yjdlagent.Rag.Sections.{Document, is_heading}
use yjdlagent.Rag.Chunking.{Chunk, chunk_document}
use yjdlagent.Rag.Chunking.Ordinals.{IsChunking, chunk_document-IsChunking}

abbrev is_ascii_digit : ℕ → Bool
is_ascii_digit c = leb 48 c && leb c 57

abbrev one_digit : ℕ → String
one_digit n = if n == 0 then "0" else if n == 1 then "1" else if n == 2 then "2" else "9"

abbrev no_digest : String → String
no_digest s = "0123456789abcdef0123456789abcdef"

abbrev report : Document
report = record {
  document_id = "d1";
  title = "报告";
  source = "report.pdf";
  pages =
      record {
        page_number = 1;
        text = "前言\n1 研究口径\n口径说明\n1.2 数据\n公式: a = b";
        tables = "基础设施类别 | 权重" ∷ [];
      }
      ∷ [];
}

heading_1_2 : is_heading is_ascii_digit " 1.2  数据 " ≡ some (2, "1.2 数据")
unfolding is_heading
heading_1_2 = refl

abbrev summary : Chunk → ℕ × List String × String
summary c = (c.ordinal, c.section_path, c.content_type)

abbrev summaries : Result (List Chunk) → List (ℕ × List String × String)
summaries (ok cs) = map summary cs
summaries (err e) = []

chunks_of_report :
    summaries (chunk_document is_ascii_digit one_digit no_digest report 200 20)
    ≡ (0, "报告" ∷ [], "narrative")
      ∷ (1, "1 研究口径" ∷ [], "narrative")
      ∷ (2, "1 研究口径" ∷ "1.2 数据" ∷ [], "formula")
      ∷ (3, "1 研究口径与数据基础" ∷ "1.3 基础设施权重" ∷ [], "table")
      ∷ []
unfolding chunk_document
chunks_of_report = refl

chunk_document-IsChunking_example :
    IsChunking is_ascii_digit one_digit no_digest report 200 20
      (chunk_document is_ascii_digit one_digit no_digest report 200 20)
chunk_document-IsChunking_example =
    chunk_document-IsChunking is_ascii_digit one_digit no_digest report 200 20
