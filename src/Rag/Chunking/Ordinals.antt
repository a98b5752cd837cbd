-- ===== src/Rag/Chunking/Ordinals.antt =====
-- app/rag/chunking.py, `chunk_document`: which chunks a document has, their numbers and identifiers.
use mathlib.Core.List.{append_assoc, append-nil}
use Prim.Native.String.{◌++◌ as cat}
use yjdlagent.Prelude.{
  length-append, ℕ, suc, ◌+◌, ◌≤◌, ◌<◌, ◌≡◌, refl, List, [], ◌∷◌, ◌++◌, map, String, arith, ltb,
  leb, ◌⊎◌, Bool, length, Bool-cases, inl, inr, str_eq,
}
use yjdlagent.Errors.{Result, ok, err}
use yjdlagent.Text.{join}
use yjdlagent.Rag.Splitting.{part_of, split_content}
use yjdlagent.Rag.Sections.{Page, Document, Section, Sectioning, kept, sectioning}
use yjdlagent.Rag.Chunking.{
  Chunk, Chunking, chunk_id_of, content_of, section_chunk, add_part, add_parts, add_sections,
  table_chunk, add_table, add_tables, add_pages, path_of, chunks_of, chunk_document,
}

-- What a chunk is made of: a part of a section, or a table of a page.
pub data Piece : Type 0 where
  of_section : Section → String → Piece
  of_table : ℕ → String → Piece

-- The parts of the sections, as they are split, in order.
abbrev pub section_pieces : ℕ → ℕ → List Section → List Piece
section_pieces max_chars overlap_chars [] = []
section_pieces max_chars overlap_chars (s ∷ ss) =
    map (of_section s) (split_content (part_of s.lines) max_chars overlap_chars)
    ++ section_pieces max_chars overlap_chars ss

-- The tables of the pages, in order.
abbrev pub table_pieces : List Page → List Piece
table_pieces [] = []
table_pieces (p ∷ ps) = map (of_table p.page_number) p.tables ++ table_pieces ps

-- The text `s` ends with `t`.
pub data EndsWith (t : String) : String → Type 0 where
  whole : EndsWith t t
  behind : (u : String) {s : String} → EndsWith t s → EndsWith t (cat u s)

-- The chunk shows the piece.
abbrev pub Shows : Piece → Chunk → Type 0
Shows (of_section s part) c =
    (c.section_path ≡ s.path)
    × (c.page_start ≡ s.page_start)
    × (c.page_end ≡ s.page_end)
    × EndsWith part c.content
Shows (of_table page_number markdown) c =
    (c.page_start ≡ page_number)
    × (c.page_end ≡ page_number)
    × (c.content_type ≡ "table")
    × EndsWith markdown c.content

module _ (is_digit : ℕ → Bool) (decimal : ℕ → String) (sha256 : String → String) where
  -- What a reader of the chunk with number `n` relies on.
  pub record IsChunk (d : Document) (n : ℕ) (p : Piece) (c : Chunk) : Type 0 where
    pub number : c.ordinal ≡ n
    pub document : c.document_id ≡ d.document_id
    pub source : c.source ≡ d.source
    pub title : c.title ≡ d.title
    pub identified : c.chunk_id ≡ chunk_id_of is_digit decimal sha256 d.document_id n c.content
    pub shows : Shows p c

  -- One chunk for each piece, in order, numbered from `n` on.
  abbrev pub AreChunks : Document → ℕ → List Piece → List Chunk → Type 0
  AreChunks d n [] [] = Unit
  AreChunks d n (p ∷ ps) (c ∷ cs) = IsChunk d n p c × AreChunks d (suc n) ps cs
  AreChunks d n _ _ = ⊥

  -- The chunks of a successful result.
  abbrev pub IsChunking : Document → ℕ → ℕ → Result (List Chunk) → Type 0
  IsChunking d max_chars overlap_chars (ok cs) =
      let s = sectioning is_digit d in
      (200 ≤ max_chars)
      × (overlap_chars < max_chars)
      × AreChunks d 0
          (section_pieces max_chars overlap_chars (kept s.sections s.current)
            ++ table_pieces d.pages)
          cs
  IsChunking d max_chars overlap_chars (err e) = (max_chars < 200) ⊎ (max_chars ≤ overlap_chars)

  AreChunks-snoc :
      (d : Document) (n : ℕ) (ps : List Piece) (cs : List Chunk) (p : Piece) (c : Chunk)
      → AreChunks d n ps cs
      → IsChunk d (n + length cs) p c
      → AreChunks d n (ps ++ p ∷ []) (cs ++ c ∷ [])
  AreChunks-snoc d n [] [] p c h k = let same : n + 0 ≡ n = omega arith in (rw same at k, tt)
  AreChunks-snoc d n [] (x ∷ cs) p c h k = absurd h
  AreChunks-snoc d n (q ∷ ps) [] p c h k = absurd h
  AreChunks-snoc d n (q ∷ ps) (x ∷ cs) p c h k =
      let same : n + length (x ∷ cs) ≡ suc n + length cs = omega arith in
      (h.0, AreChunks-snoc d (suc n) ps cs p c h.1 (rw same at k))

  -- The loops have made chunks of these pieces.
  abbrev Holds : Document → List Piece → Chunking → Type 0
  Holds d ps s = AreChunks d 0 ps s.chunks × (s.ordinal ≡ length s.chunks)

  Holds-snoc :
      (d : Document) (ps : List Piece) (s : Chunking) (p : Piece) (c : Chunk)
      → Holds d ps s
      → IsChunk d s.ordinal p c
      → Holds d (ps ++ p ∷ []) (record { chunks = s.chunks ++ c ∷ []; ordinal = s.ordinal + 1 })
  Holds-snoc d ps s p c (h, e) k =
      let next : s.ordinal ≡ 0 + length s.chunks = omega (arith, e) in
      (
        AreChunks-snoc d 0 ps s.chunks p c h (rw next at k),
        omega (arith, e, length-append s.chunks (c ∷ [])),
      )

  content_of-EndsWith :
      (path : List String) (part : String)
      → EndsWith part (content_of is_digit decimal sha256 path part)
  unfolding content_of
  content_of-EndsWith path part = elim (Bool-cases (str_eq (join " > " path) "")) [
    | inl e ↦ rw e whole
    | inr e ↦ rw e (behind _ (behind _ (behind _ whole)))
  ]

  add_part-Holds :
      (d : Document) (section : Section) (part : String) (ps : List Piece) (s : Chunking)
      → Holds d ps s
      → Holds d
          (ps ++ of_section section part ∷ [])
          (add_part is_digit decimal sha256 d section part s)
  unfolding add_part section_chunk
  add_part-Holds d section part ps s h = Holds-snoc d ps s (of_section section part) _ h (record {
    number = refl;
    document = refl;
    source = refl;
    title = refl;
    identified = refl;
    shows = (refl, refl, refl, content_of-EndsWith section.path part);
  })

  add_parts-Holds :
      (d : Document) (section : Section) (parts : List String) (ps : List Piece) (s : Chunking)
      → Holds d ps s
      → Holds d
          (ps ++ map (of_section section) parts)
          (add_parts is_digit decimal sha256 d section parts s)
  unfolding add_parts
  add_parts-Holds d section [] ps s h = rw append-nil h
  add_parts-Holds d section (part ∷ parts) ps s h = rw append_assoc at (
      add_parts-Holds d section parts (ps ++ of_section section part ∷ [])
        (add_part is_digit decimal sha256 d section part s) (add_part-Holds d section part ps s h))

  add_sections-Holds :
      (d : Document) (max_chars overlap_chars : ℕ) (sections : List Section) (ps : List Piece)
      (s : Chunking)
      → Holds d ps s
      → Holds d
          (ps ++ section_pieces max_chars overlap_chars sections)
          (add_sections is_digit decimal sha256 d max_chars overlap_chars sections s)
  unfolding add_sections
  add_sections-Holds d max_chars overlap_chars [] ps s h = rw append-nil h
  add_sections-Holds d max_chars overlap_chars (x ∷ xs) ps s h =
      let parts = split_content (part_of x.lines) max_chars overlap_chars in
      rw append_assoc at (
        add_sections-Holds d max_chars overlap_chars xs (ps ++ map (of_section x) parts)
          (add_parts is_digit decimal sha256 d x parts s) (add_parts-Holds d x parts ps s h))

  add_table-Holds :
      (d : Document) (page_number : ℕ) (fallback : List String) (index : ℕ) (markdown : String)
      (ps : List Piece) (s : Chunking)
      → Holds d ps s
      → Holds d
          (ps ++ of_table page_number markdown ∷ [])
          (add_table is_digit decimal sha256 d page_number fallback index markdown s)
  unfolding add_table table_chunk
  add_table-Holds d page_number fallback index markdown ps s h =
      Holds-snoc d ps s (of_table page_number markdown) _ h (record {
        number = refl;
        document = refl;
        source = refl;
        title = refl;
        identified = refl;
        shows = (
          refl,
          refl,
          refl,
          behind _ (behind _ (behind _ (behind _ (behind _ (behind _ (behind _ whole)))))),
        );
      })

  add_tables-Holds :
      (d : Document) (page_number : ℕ) (fallback : List String) (index : ℕ) (tables : List String)
      (ps : List Piece) (s : Chunking)
      → Holds d ps s
      → Holds d
          (ps ++ map (of_table page_number) tables)
          (add_tables is_digit decimal sha256 d page_number fallback index tables s)
  unfolding add_tables
  add_tables-Holds d page_number fallback index [] ps s h = rw append-nil h
  add_tables-Holds d page_number fallback index (t ∷ ts) ps s h = rw append_assoc at (
      add_tables-Holds d page_number fallback (suc index) ts (ps ++ of_table page_number t ∷ [])
        (add_table is_digit decimal sha256 d page_number fallback index t s)
        (add_table-Holds d page_number fallback index t ps s h))

  add_pages-Holds :
      (d : Document) (paths : List (ℕ × List String)) (pages : List Page) (ps : List Piece)
      (s : Chunking)
      → Holds d ps s
      → Holds d (ps ++ table_pieces pages) (add_pages is_digit decimal sha256 d paths pages s)
  unfolding add_pages
  add_pages-Holds d paths [] ps s h = rw append-nil h
  add_pages-Holds d paths (p ∷ pages) ps s h =
      let path = path_of is_digit decimal sha256 d.title p.page_number paths in
      rw append_assoc at (
        add_pages-Holds d paths pages (ps ++ map (of_table p.page_number) p.tables)
          (add_tables is_digit decimal sha256 d p.page_number path 1 p.tables s)
          (add_tables-Holds d p.page_number path 1 p.tables ps s h))

  chunks_of-AreChunks :
      (d : Document) (max_chars overlap_chars : ℕ) (s : Sectioning)
      → AreChunks d 0
          (section_pieces max_chars overlap_chars (kept s.sections s.current)
            ++ table_pieces d.pages)
          (chunks_of is_digit decimal sha256 d max_chars overlap_chars s).chunks
  unfolding chunks_of
  chunks_of-AreChunks d max_chars overlap_chars s =
      (add_pages-Holds d s.page_paths d.pages
        (section_pieces max_chars overlap_chars (kept s.sections s.current)) _
        (add_sections-Holds d max_chars overlap_chars (kept s.sections s.current) []
          (record { chunks = []; ordinal = 0 }) (tt, refl))).0

  -- With a limit of at least 200 characters and an overlap below it, the chunks of a document are
  -- one for each part of each section, in order, and then one for each table of each page: a chunk
  -- of a part has the path and the pages of its section and ends with the part, a chunk of a table
  -- has its page and ends with it. They are numbered from 0 without a gap, carry the identifier, the
  -- source and the title of the document, and each has the identifier of its document, number and
  -- content. With other limits it is an error.
  pub chunk_document-IsChunking :
      (d : Document) (max_chars overlap_chars : ℕ)
      → IsChunking d max_chars overlap_chars
          (chunk_document is_digit decimal sha256 d max_chars overlap_chars)
  unfolding chunk_document
  chunk_document-IsChunking d max_chars overlap_chars = elim (Bool-cases (ltb max_chars 200)) [
    | inl e ↦ rw e (inl ground arith)
    | inr e ↦ elim (Bool-cases (leb max_chars overlap_chars)) [
      | inl f ↦ rw (e, f) (inr ground arith)
      | inr f ↦
          rw (e, f)
            (
              ground arith,
              ground arith,
              chunks_of-AreChunks d max_chars overlap_chars (sectioning is_digit d),
            )
    ]
  ]
