-- ===== src/Lib.antt =====
-- Podlog's web application, apps/web/src: the search over episodes and transcripts, the
-- dashboard's view of the processing queue, the update check, the search of the documentation, the
-- speakers of an episode, the streamed answers, the audio files, the keyboard's chords, the
-- settings with their prompts, the choice of a feed's episodes, and the exports.
--
-- The parts and their files:
--   Base: texts, lists, maps, stable sorting and decimal digits, as the JavaScript run-time gives
--     them. A text is the list of its code units.
--   Number: the double precision numbers of the source, a parameter: their type and the
--     operations that the search uses.
--   Search.Query: apps/web/src/lib/search/queryParser.ts. `match_all` is the scan for
--     SCOPE_PATTERN, `parse_search_query` the parser.
--   Search.Filters: apps/web/src/lib/search/filters.ts and feedFilter.ts: fragments of statements
--     with numbered places, and the parameters that fill them (Search.Sql).
--   Search.Hybrid: apps/web/src/lib/searchHybrid.ts: `merge_fts` and `merge_vec` are the two
--     loops, `merge_hybrid_search_results` the function.
--   Search.Pool, Search.Segments: apps/web/src/lib/search/coverage.ts, filterOpts.ts and
--     segments.ts: the flat search. It parses the line (Search.Query), builds statements
--     (Search.Filters), asks the database and the embedding service, and ranks (Search.Hybrid).
--   Search.Grouping, Search.Grouped: apps/web/src/lib/search/grouping.ts and grouped.ts: results
--     by feed.
--   Search.Mentions: apps/web/src/lib/search/mentions.ts: the matching turns of an episode with
--     their context.
--   Search.Routes: apps/web/src/app/api/search: the routes of the three searches.
--   Search.Page: apps/web/src/app/search/page.tsx and components/SearchPagination.tsx: the page's
--     requests, which Search.Routes reads (Search.Page.Asked), and the totals that it keeps between
--     the pages of a search (Search.Page.Totals).
--   Queue: apps/web/src/lib/queueStatus.ts.
--   Semver: apps/web/src/lib/semver.ts.
--   Update: apps/web/src/app/api/update-check/route.ts, with its cache; it compares by Semver.
--   Embedding: apps/web/src/lib/search/embedding.ts, with its cooldown.
--   Docs: apps/web/src/lib/docs-search.ts and docs-slug.ts: the sections of the documentation,
--     the search box and the anchors.
--   Docs.Retrieval: apps/web/src/lib/docs-retrieval.ts: the sections that go to the model with a
--     question.
--   Docs.Sections: apps/web/src/lib/docs-index.ts: a document, split at its headings
--     (`splitDocIntoSections`).
--   Merge: apps/web/src/lib/validateMergeRequest.ts: the check of a request to merge speaker
--     labels.
--   Speakers: apps/web/src/app/api/episodes/[id]/speakers: the tables of segments and names.
--     Speakers.Transaction is a connection with its transaction, and code that may throw;
--     Speakers.Merging merge/route.ts; Speakers.Naming and Speakers.Dismissal route.ts, with
--     apps/web/src/lib/normalizeName.ts (Speakers.Names).
--   Speakers.View, Speakers.Info, Speakers.Panel: apps/web/src/lib/episodeData.ts, and
--     components/TranscriptSection.tsx and SpeakerPanel.tsx: what the page shows, and what it does
--     behind an answer of the routes, a request that is not sent, or a reply that is lost (`Trip`).
--     The request to merge is checked by Merge.
--   Ask: the loop that reads server-sent events, which apps/web/src/app/ask/page.tsx (Ask.Page)
--     and components/EpisodeChat.tsx and DocsAskBubble.tsx (Ask.Chat) share; Ask.Frames has the
--     frames that the server writes, and Ask.Meaning what they mean.
--   Audio: apps/web/src/app/api/audio/[episodeId]/[filename]/route.ts, over the files (`Files`).
--   Keyboard: apps/web/src/lib/useChordShortcut.ts and leaveGuard.ts, and
--     components/GlobalChordShortcuts.tsx.
--   Settings: apps/web/src/components/NotificationSettings.tsx, and the bar of
--     components/UnsavedChanges.tsx as it meets the form: the edits of two tabs, and a save with its
--     requests (Settings.Form), over the settings in effect at the server and what its route answers
--     of them (`put` and `view`). Settings.Prompts is components/PromptsSection.tsx.
--   Feeds: apps/web/src/app/feeds: the choice of episodes (_components/EpisodeSelectionStep.tsx), the
--     dialog that adds a feed (page.tsx, Feeds.Adding) and components/AddEpisodesDialog.tsx
--     (Feeds.Extending).
--   Filename: apps/web/src/lib/filename.ts: a title as the name of an exported file.
--   Export: apps/web/src/lib/timestamp.ts and transcriptExport.ts: a transcript as text and as
--     Markdown; Export.Conversations components/EpisodeChatExports.ts: the same for the messages of
--     Ask.Chat.
--
-- The database is a record of functions from statements to rows (`Pool`); `none` stands for a
-- rejected promise, and the statements of a search are answered before it goes on, as under
-- `allHandled`. Runs of white space in the text of a statement are one space. The -1 of an
-- unknown total is `none`. Pages count from 1. Clocks, the network and environment variables are
-- arguments of the operations that read them, and calls that keep state are made one after the
-- other. Lower case, the order of a locale and the reading of dates are parameters. Loops are
-- structural recursion, but for the one that walks on from a mention (`walk_on`): its fuel is the
-- number of turns, so that it ends by its own conditions, for the digits of a number (`decimal`),
-- whose fuel is the number itself, at least as many as it has digits (Search.Page.Numerals reads
-- them back), and for the runs of separators in a file name (`collapse_runs`), whose fuel is the
-- length of the text, which is enough (Filename.Fuel).
--
-- Steps that overlap are sequences of events in any order: the answers of a save in the settings
-- form, and the loads of a feed dialog. The handlers of the Search page and of the prompts are
-- called one after the other.
--
-- Which statements of a transaction fail is an argument, as are the chunks of a stream and how it
-- ends; `none` is an error that is thrown.
--
-- Not modelled: the rest of the React pages and hooks, the routes that only pass a request on, the
-- stored page states, the backups' tab, the snippets of the documentation search and the reading of
-- its files, and the Python pipeline.
pub mod Ask
pub mod Audio
pub mod Base
pub mod Docs
pub mod Embedding
pub mod Export
pub mod Feeds
pub mod Filename
pub mod Keyboard
pub mod Merge
pub mod Number
pub mod Queue
pub mod Search
pub mod Semver
pub mod Settings
pub mod Speakers
pub mod Update
