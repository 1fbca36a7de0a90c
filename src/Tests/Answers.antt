-- ===== src/Tests/Answers.antt =====
-- The properties of what the phone is asked, at a concrete history.
use kpasskey.Base.{refl, List, [], ◌∷◌, In, inl}
use kpasskey.Base.Errors.{ok}
use kpasskey.Server.Events.{Event, asked, asking_sent, step, after_events}
use kpasskey.Server.{
  lookup, remove, insert, start_question, question_sent, find_question, mark_asked,
}
use kpasskey.Server.Answers.{IsWaiting, pending_json-IsWaiting}
use kpasskey.Tests.Toys.{some_crypto, some_base64, table_json, Item, word, count, make}

abbrev answer : Item
answer = make (("id", count 1) ∷ ("sig", word "Bw==") ∷ [])

abbrev asking : List (Event Item)
asking = asking_sent 0 (ok tt) ∷ asked (make []) ∷ []

listed : In (1, 0) (after_events table_json some_crypto some_base64 "60s" asking).pending_json
unfolding step after_events lookup remove insert start_question question_sent find_question
    mark_asked
listed = inl refl

pending_json-IsWaiting_example :
    IsWaiting table_json some_crypto some_base64 1 0
      (after_events table_json some_crypto some_base64 "60s" asking)
pending_json-IsWaiting_example =
    pending_json-IsWaiting table_json some_crypto some_base64 "60s" asking 1 0 listed
