-- ===== src/Export/Tests.antt =====
-- Labels of times, and a conversation of two exchanges.
use podlog.Base.{◌≡◌, refl, true, false, Option, none, some, List, [], ◌∷◌, map, keep, Text, codes}
use podlog.Ask.{Json}
use podlog.Export.{digits_of, format_timestamp}
use podlog.Export.Conversations.{PrintedSource, pair_messages}
use podlog.Export.Conversations.Pairs.{
  Exchange, has_answer, pair_of, messages_of, pair_messages-exchanges,
}

an_hour : format_timestamp false 3725 ≡ codes "1:02:05"
unfolding format_timestamp digits_of
an_hour = refl

five_seconds : format_timestamp true 5 ≡ codes "00:05"
unfolding format_timestamp digits_of
five_seconds = refl

abbrev json : Json
json = record { Value = Text; parse = λ t. some t; content = λ v. v; message = λ v. some v }

abbrev no_sources : Option Text → List PrintedSource
no_sources v = []

abbrev exchanges : List (Exchange json no_sources)
exchanges =
    record { question = codes "who"; answer = codes "Ann"; sources = none }
    ∷ record { question = codes "why"; answer = []; sources = none }
    ∷ []

pair_messages-exchanges_example :
    pair_messages json no_sources (messages_of json no_sources exchanges)
    ≡ map (pair_of json no_sources) (keep (has_answer json no_sources) exchanges)
pair_messages-exchanges_example = pair_messages-exchanges json no_sources exchanges
