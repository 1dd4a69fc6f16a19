-- ===== src/Export/Conversations.antt =====
-- apps/web/src/components/EpisodeChatExports.ts: a conversation as Markdown and as text.
pub mod Pairs
use podlog.Base.{
  ℕ, suc, Bool, true, false, not, Option, none, some, List, [], ◌∷◌, ◌++◌, length, map, join, Text,
  codes, present, is_empty, is_space, trim, ◌==◌, if◌then◌else◌,
}
use podlog.Ask.{Json}
use podlog.Ask.Chat.{Role, user, assistant, Message}
use podlog.Export.{decimal, format_timestamp, flat}

-- A source of an answer, as far as it is printed.
pub record PrintedSource : Type 0 where
  pub speaker_label : Option Text
  pub timestamp : Option Text
  pub start_time : ℕ
  pub text : Text

pub record ConversationMeta : Type 0 where
  pub feed_title : Option Text
  pub episode_title : Text
  pub episode_description : Option Text

-- What is behind the next `>`, if there is one.
abbrev behind_tag : Text → Option Text
behind_tag [] = none
behind_tag (c ∷ s) = if c == 62 then some s else behind_tag s

-- `html.replace(/<[^>]*>/g, "")`; `in_tag` is inside of a tag that ends.
abbrev pub strip_tags : (in_tag : Bool) → Text → Text
strip_tags in_tag [] = []
strip_tags true (c ∷ s) = if c == 62 then strip_tags false s else strip_tags true s
strip_tags false (c ∷ s) =
    if c == 60
    then elim (behind_tag s) [ none ↦ c ∷ strip_tags false s | some _ ↦ strip_tags true s ]
    else c ∷ strip_tags false s

-- `s.replace(/\s+/g, " ")`
abbrev pub one_space : (in_run : Bool) → Text → Text
one_space in_run [] = []
one_space true (c ∷ s) = if is_space c then one_space true s else c ∷ one_space false s
one_space false (c ∷ s) = if is_space c then 32 ∷ one_space true s else c ∷ one_space false s

unfoldable pub strip_html : Text → Text
strip_html html = trim (one_space false (strip_tags false html))

abbrev pub or_podcast : Option Text → Text
or_podcast none = codes "Podcast"
or_podcast (some t) = t

abbrev pub underline : ℕ → Text → Text
underline c [] = []
underline c (d ∷ s) = c ∷ underline c s

abbrev pub description_part : Option Text → List Text
description_part none = []
description_part (some d) = strip_html d ∷ [] ∷ []

abbrev pub source_time : PrintedSource → Text
source_time s = elim s.timestamp [ none ↦ format_timestamp false s.start_time | some t ↦ t ]

abbrev pub markdown_speaker : Option Text → Text
markdown_speaker none = []
markdown_speaker (some l) = codes " **" ++ (l ++ codes "**")

abbrev pub text_speaker : Option Text → Text
text_speaker none = []
text_speaker (some l) = codes " " ++ (l ++ codes ":")

abbrev pub markdown_source : PrintedSource → Text
markdown_source s =
    codes "- `"
    ++ (source_time s
        ++ (codes "`" ++ (markdown_speaker (present s.speaker_label) ++ (32 ∷ 8212 ∷ 32 ∷ s.text))))

abbrev pub text_source : PrintedSource → Text
text_source s =
    codes "  ["
    ++ (source_time s
        ++ (codes "]" ++ (text_speaker (present s.speaker_label) ++ (codes " " ++ s.text))))

abbrev pub sources_markdown : List PrintedSource → List Text
sources_markdown [] = []
sources_markdown (s ∷ ss) =
    (codes "**Sources (" ++ (decimal (length (s ∷ ss)) ++ codes "):**"))
    ∷ []
    ∷ (map markdown_source (s ∷ ss) ++ [] ∷ [])

abbrev pub sources_text : List PrintedSource → List Text
sources_text [] = []
sources_text (s ∷ ss) =
    (codes "Sources (" ++ (decimal (length (s ∷ ss)) ++ codes "):"))
    ∷ (map text_source (s ∷ ss) ++ [] ∷ [])

module _ (J : Json) (printed : Option J.Value → List PrintedSource) where
  pub record Pair : Type 0 where
    pub question : Text
    pub answer : Text
    pub sources : List PrintedSource

  abbrev pub is_user : Role → Bool
  is_user user = true
  is_user assistant = false

  abbrev pub answer_to : (question : Text) → List (Message J) → List Pair
  answer_to question [] = []
  answer_to question (next ∷ messages) =
      if is_user next.role
      then []
      else if is_empty next.content
      then []
      else record { question = question; answer = next.content; sources = printed next.sources }
        ∷ []

  unfoldable pub pair_messages : List (Message J) → List Pair
  pair_messages [] = []
  pair_messages (m ∷ messages) =
      let later = pair_messages messages in
      if is_user m.role then answer_to m.content messages ++ later else later

  -- The pairs, numbered from `n`.
  abbrev pub pairs_markdown : (n : ℕ) → List Pair → List Text
  pairs_markdown n [] = []
  pairs_markdown n (p ∷ ps) =
      (codes "### Q" ++ (decimal n ++ (codes ": " ++ p.question)))
      ∷ []
      ∷ p.answer
      ∷ []
      ∷ (sources_markdown p.sources ++ codes "---" ∷ [] ∷ pairs_markdown (suc n) ps)

  abbrev pub pairs_text : (n : ℕ) → List Pair → List Text
  pairs_text n [] = []
  pairs_text n (p ∷ ps) =
      (codes "Q" ++ (decimal n ++ (codes ": " ++ p.question)))
      ∷ []
      ∷ (codes "A" ++ (decimal n ++ (codes ": " ++ p.answer)))
      ∷ []
      ∷ (sources_text p.sources
          ++ codes "----------------------------------------" ∷ [] ∷ pairs_text (suc n) ps)

  -- `exported` is what `formatDateTime` gives for the time of the export.
  unfoldable pub generate_conversation_markdown :
      (exported : Text) → ConversationMeta → List (Message J) → Text
  generate_conversation_markdown exported meta messages = join (10 ∷ []) (
      flat (
        ((codes "# " ++ or_podcast meta.feed_title)
          ∷ []
          ∷ (codes "## " ++ meta.episode_title)
          ∷ []
          ∷ [])
        ∷ description_part (present meta.episode_description)
        ∷ ((codes "*Exported: " ++ (exported ++ codes "*")) ∷ [] ∷ codes "---" ∷ [] ∷ [])
        ∷ pairs_markdown 1 (pair_messages messages)
        ∷ (codes "*Generated by Podlog*" ∷ [])
        ∷ []))

  unfoldable pub generate_conversation_text :
      (exported : Text) → ConversationMeta → List (Message J) → Text
  generate_conversation_text exported meta messages =
      let title = or_podcast meta.feed_title in
      join (10 ∷ []) (
        flat (
          (title
            ∷ underline 61 title
            ∷ []
            ∷ meta.episode_title
            ∷ underline 45 meta.episode_title
            ∷ []
            ∷ [])
          ∷ description_part (present meta.episode_description)
          ∷ ((codes "Exported: " ++ exported)
              ∷ []
              ∷ codes "========================================"
              ∷ []
              ∷ [])
          ∷ pairs_text 1 (pair_messages messages)
          ∷ (codes "Generated by Podlog" ∷ [])
          ∷ []))
