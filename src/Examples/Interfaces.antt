-- ===== src/Examples/Interfaces.antt =====
-- The HTTP interface, the LLM channel and the cancel table on concrete data.
use recording.Http.Stream.Reports.{statuses, reports, bodies}
use recording.Http.Stream.Laws.{is_terminal, Changing, stream_lem}
use recording.Prelude.{
  ℕ, zero, suc, length, ◌-◌, ◌<◌, ◌≤◌, ◌≡◌, ◌↔◌, ◌⊎◌, refl, String, true, false, List, [], ◌∷◌,
  ◌++◌, Option, none, some, All, arith, ok, err,
}
use mathlib.Core.List.{Memᴰ}
use recording.Domain.Json.{str, arr, obj, nil, cons, end, field}
use recording.ErrorCode.{recording_not_found}
use recording.FileStore.{more}
use recording.Ports.{RecordingDetail, TaskView}
use recording.Domain.Status.{summarizing}
use recording.CancelTable.{
  Call, register_call, unregister_call, cancel_task_call, perform, after_calls,
}
use recording.CancelTable.Laws.{view, apply, Asked, perform_refines}
use recording.Llm.{Client, Exchange, summarize}
use recording.Llm.Laws.{Describes, summarize_lem}
use recording.Http.BodyLimit.{Reader, read, given, remain_after, too_large, allowed}
use recording.Http.BodyLimit.Laws.{read_lem}
use recording.Http.Stream.{Event, Poll, deleted_event, stream}
use recording.Http.Router.{Server}
use recording.Examples.Data.{key_1, quiet, sound_disk, store_1}

abbrev calls_1 : List (Call ℕ)
calls_1 = register_call key_1 7 ∷ unregister_call key_1 ∷ register_call key_1 5 ∷ []

perform_refines_example :
    (view (perform (cancel_task_call "task-1") (after_calls calls_1)).0
      ≡ apply (cancel_task_call "task-1") (view (after_calls calls_1)))
    × ((g : ℕ)
        → Memᴰ g (perform (cancel_task_call "task-1") (after_calls calls_1)).1
          ↔ Asked (cancel_task_call "task-1") (view (after_calls calls_1)) g)
perform_refines_example = perform_refines calls_1 (cancel_task_call "task-1")

abbrev client_1 : Client
client_1 = record { base = "http://llm/v1"; model = "m"; api_key = "k"; max_resp = 4 }

-- An answer of four bytes whose first choice has a text that is no JSON value.
abbrev exchange_1 : Exchange
exchange_1 = record {
  bad_request = false;
  send = λ url body. ok (record { status = 200; body = 1 ∷ 2 ∷ 3 ∷ 4 ∷ []; read_fails = none });
  ctx_after_send = none;
  ctx_after_read = none;
  unmarshal = λ bytes. some (
      obj (
        field "choices"
          (arr (cons (obj (field "message" (obj (field "content" (str "no") end)) end)) nil)) end));
  parse = λ text. none;
}

summarize_lem_example :
    Describes client_1 exchange_1 "hello" (summarize client_1 exchange_1 "hello")
summarize_lem_example = summarize_lem client_1 exchange_1 "hello"

-- A reader that fills every buffer with zeros.
abbrev zeros : ℕ → List ℕ
zeros zero = []
zeros (suc n) = 0 ∷ zeros n

length-zeros_le : (n : ℕ) → length (zeros n) ≤ n
length-zeros_le zero = omega arith
length-zeros_le (suc n) = omega (arith, length-zeros_le n)

abbrev reader_1 : Reader
reader_1 n = record { bytes = zeros n; after = more }

abbrev reads_1 : List (ℕ × Reader)
reads_1 = (3, reader_1) ∷ (3, reader_1) ∷ []

read_lem_example :
    (given 5 reads_1 ≤ 5)
    × (((given 5 reads_1 < 5)
          × ((read (remain_after 5 reads_1) 3 reader_1).0
              ≡ reader_1 (allowed (5 - given 5 reads_1) 3)))
        ⊎ ((given 5 reads_1 ≡ 5) × ((read (remain_after 5 reads_1) 3 reader_1).0 ≡ too_large)))
read_lem_example = read_lem 5 3 reader_1 reads_1 (length-zeros_le, (length-zeros_le, tt))

abbrev view_1 : TaskView
view_1 = record {
  id = "task-1";
  recording_id = "rec-1";
  status = summarizing;
  attempt = 1;
  error = none;
  created_at = 10;
  started_at = some 20;
  finished_at = none;
  next_retry_at = none;
}

abbrev detail_1 : RecordingDetail
detail_1 = record {
  task = view_1;
  original_filename = "talk.mp3";
  extension = "mp3";
  size_bytes = 2048;
  created_at = 10;
  transcript = some "hello";
  result = none;
}

abbrev poll_1 : Poll
poll_1 = record { answer = ok detail_1; now = 100; ctx_done = false }

abbrev poll_2 : Poll
poll_2 = record { answer = err recording_not_found; now = 200; ctx_done = false }

abbrev show_time_1 : Option ℕ → String
show_time_1 t = "<nil>"

stream_lem_example :
    let sent = stream show_time_1 "rec-1" "" 100 ((poll_1 ∷ poll_1 ∷ []) ++ (poll_2 ∷ [])) in
    ((events : List Event) × (sent ≡ events ++ (deleted_event "rec-1" ∷ []))
      × All (λ e. is_terminal e ≡ false) events
      × Changing show_time_1 "" sent)
    × (statuses sent ≡ reports show_time_1 none (bodies ((poll_1 ∷ poll_1 ∷ []) ++ (poll_2 ∷ []))))
stream_lem_example =
    stream_lem show_time_1 "rec-1" (poll_1 ∷ poll_1 ∷ []) poll_2 [] (deleted_event "rec-1") 100
      ((refl, refl), ((refl, refl), tt)) refl

abbrev server_1 : Server
server_1 = record {
  ready = true;
  store = store_1;
  disk = sound_disk;
  envs = λ i. quiet "s" 50;
  show_time = show_time_1;
}
