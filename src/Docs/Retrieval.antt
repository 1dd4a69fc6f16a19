-- ===== src/Docs/Retrieval.antt =====
-- apps/web/src/lib/docs-retrieval.ts: the sections that go to the model with a question. The
-- logarithm and the arithmetic of the scores are those of `Number`; `lower` is `toLowerCase`, and
-- `locale_before` says that `localeCompare` is negative.
pub mod Budget
use Prim.Native.String.{String}
use podlog.Base.{
  ℕ, ◌+◌, ◌*◌, Bool, true, false, not, ◌&&◌, ◌||◌, Option, none, some, List, [], ◌∷◌, ◌++◌, map,
  keep, any, Text, codes, text_eq, leb, ltb, ◌==◌, if◌then◌else◌, length, includes, is_empty,
}
use podlog.Base.Assoc.{lookup, set_key}
use podlog.Base.Digits.{is_digit}
use podlog.Base.Sort.{sort}
use podlog.Number.{Number}
use podlog.Docs.{DocSection, DocSource, guide, reference, prd, locale_or}

abbrev pub max_sections_default : ℕ
max_sections_default = 8

abbrev pub max_context_tokens : ℕ
max_context_tokens = 2500

abbrev pub chars_per_token : ℕ
chars_per_token = 4

abbrev words : List String → List Text
words = map codes

unfoldable pub stopwords : List Text
stopwords =
    words
      ("a" ∷ "an" ∷ "and" ∷ "are" ∷ "as" ∷ "at" ∷ "be" ∷ "but" ∷ "by" ∷ "can" ∷ "do" ∷ "does" ∷ [])
    ++ (words (
          "for" ∷ "from" ∷ "how" ∷ "i" ∷ "if" ∷ "in" ∷ "is" ∷ "it" ∷ "its" ∷ "me" ∷ "my" ∷ "of"
          ∷ [])
        ++ (words (
              "on" ∷ "or" ∷ "should" ∷ "that" ∷ "the" ∷ "then" ∷ "there" ∷ "these" ∷ "this" ∷ "to"
              ∷ [])
            ++ words (
                "was" ∷ "what" ∷ "when" ∷ "where" ∷ "which" ∷ "why" ∷ "will" ∷ "with" ∷ "you"
                ∷ "your" ∷ [])))

-- `[a-z0-9_.-]`
abbrev is_term_char : ℕ → Bool
is_term_char c = leb b'a' c && leb c b'z' || (is_digit c || (c == b'_' || (c == b'.' || c == b'-')))

-- `.split(/[^a-z0-9_.-]+/)`, with an empty piece more where separators follow one another: no
-- piece of at most two units goes on from here. `piece` is what the piece has so far.
abbrev pieces : (piece : Text) → Text → List Text
pieces piece [] = piece ∷ []
pieces piece (c ∷ s) = if is_term_char c then pieces (piece ++ c ∷ []) s else piece ∷ pieces [] s

-- `Array.from(new Set(...))`, with the pieces that were seen.
abbrev distinct : (seen : List Text) → List Text → List Text
distinct seen [] = []
distinct seen (t ∷ ts) =
    if any (λ s. text_eq s t) seen then distinct seen ts else t ∷ distinct (t ∷ seen) ts

module _ (N : Number) (lower : Text → Text) (locale_before : Text → Text → Bool) where
  open N use {Num, nat, add, mul, div, log, lt}

  unfoldable pub terms : (question : Text) → List Text
  unfolding is_digit stopwords
  terms question = distinct [] (
      keep (λ t. ltb 2 (length t) && not (any (λ s. text_eq s t) stopwords))
        (pieces [] (lower question)))

  abbrev frequency : Text → List DocSection → ℕ
  frequency t [] = 0
  frequency t (section ∷ index) =
      let df = frequency t index in
      if includes (lower section.section_title) t || includes (lower section.content) t
      then df + 1
      else df

  unfoldable pub idf_weights : List DocSection → (q_terms : List Text) → List (Text × Num)
  idf_weights index q_terms =
      map (λ t. (t, add (log (div (nat (length index + 1)) (nat (frequency t index + 1)))) (nat 1)))
        q_terms

  abbrev weight_of : Option Num → Num
  weight_of none = nat 1
  weight_of (some w) = w

  -- The loop's two variables.
  abbrev add_term : Text → Text → Num → Text → Num × ℕ → Num × ℕ
  add_term title body w t (score, matched) =
      let titled = if includes title t then add score (mul (nat 3) w) else score in
      let scored = if includes body t then add titled (mul (nat 1) w) else titled in
      (scored, if includes title t || includes body t then matched + 1 else matched)

  abbrev score_terms : Text → Text → List (Text × Num) → List Text → Num × ℕ → Num × ℕ
  score_terms title body idf [] state = state
  score_terms title body idf (t ∷ ts) state =
      score_terms title body idf ts (add_term title body (weight_of (lookup t idf)) t state)

  abbrev covered : Num × ℕ → ℕ → Num
  covered (score, matched) n = mul score (div (nat matched) (nat n))

  unfoldable pub score_section : DocSection → (q_terms : List Text) → List (Text × Num) → Num
  score_section section q_terms idf =
      covered
        (score_terms (lower section.section_title) (lower section.content) idf q_terms (nat 0, 0))
        (length q_terms)

  abbrev ScoredSection : Type 0
  ScoredSection = DocSection × Num

  -- The comparison of two scored sections is negative. Scores are no NaN.
  abbrev pub scored_before : ScoredSection → ScoredSection → Bool
  scored_before (s, x) (t, y) =
      if lt x y || lt y x
      then lt y x
      else locale_or locale_before s.doc_slug t.doc_slug (locale_before s.section_id t.section_id)

  unfoldable pub ranked_sections : (q_terms : List Text) → List DocSection → List DocSection
  ranked_sections q_terms index =
      map (λ s. s.0)
        (sort scored_before (
          keep (λ s. lt (nat 0) s.1)
            (map (λ section. (section, score_section section q_terms (idf_weights index q_terms)))
              index)))

-- The loop that fills `out`: it holds `count` sections of `chars` units.
unfoldable pub pick : (max_sections max_chars count chars : ℕ) → List DocSection → List DocSection
pick max_sections max_chars count chars [] = []
pick max_sections max_chars count chars (section ∷ rest) =
    let skipped = pick max_sections max_chars count chars rest in
    let picked = pick max_sections max_chars (count + 1) (chars + length section.content) rest in
    if leb max_sections count
    then []
    else if ltb max_chars (chars + length section.content)
    then skipped
    else section ∷ picked

module _ (N : Number) (lower : Text → Text) (locale_before : Text → Text → Bool) where
  -- `selectSections`, with the options that the caller gives or their defaults.
  unfoldable pub select_sections :
      (question : Text) → List DocSection → (max_sections max_tokens : ℕ) → List DocSection
  select_sections question index max_sections max_tokens =
      let q_terms = terms N lower locale_before question in
      if is_empty q_terms || is_empty index
      then []
      else pick max_sections (max_tokens * chars_per_token) 0 0
          (ranked_sections N lower locale_before q_terms index)

-- `encode` is `encodeURIComponent`.
unfoldable pub citation_href :
    (encode : Text → Text)
    → DocSource
    → (slug : Text) → (anchor : Option Text) → (repo_path : Text) → Text
citation_href encode guide slug none repo_path = codes "/docs?page=" ++ encode slug
citation_href encode guide slug (some []) repo_path = codes "/docs?page=" ++ encode slug
citation_href encode guide slug (some (c ∷ anchor)) repo_path =
    codes "/docs?page=" ++ (encode slug ++ (b'#' ∷ c ∷ anchor))
citation_href encode _ slug anchor repo_path =
    codes "https://github.com/brlauuu/podlog/blob/main" ++ (b'/' ∷ repo_path)

unfoldable pub citation_source_label : DocSource → Text
citation_source_label guide = codes "guide"
citation_source_label prd = codes "design doc"
citation_source_label reference = codes "reference"
