-- ===== src/Http/Router.antt =====
-- `New` of internal/interfaces/http/router.go: the routes, the gate of readiness, and the chain of
-- middlewares. The match of a path with a route is gin's.
pub mod Laws
use recording.Prelude.{ℕ, String, Bool, List, Option, if◌then◌else◌}
use recording.ErrorCode.{route_not_found, method_not_allowed, service_not_ready}
use recording.Database.Tx.{Env}
use recording.FileStore.{StoreError, Store, Disk}
use recording.Service.{World}
use recording.Http.Stream.{Poll}
use recording.Http.Answer.{
  Outcome, replied, errored, panicked, state_body, Response, request_id_of, respond,
}
use recording.Http.Handlers.{
  NextPart, handle_task, handle_recording, handle_list, handle_summary_stream, handle_retry,
  handle_delete, handle_upload,
}

-- A request after the match, with what its handler reads. A handler may also panic.
pub data Route : Type 0 where
  no_route no_method healthz readyz broken : Route
  post_recordings : Option StoreError → List NextPart → Route
  get_task_route get_recording_route retry_route delete_route : String → Route
  get_recordings : String → String → Route
  get_stream : String → ℕ → List Poll → Route

-- What the service has, and the answers of the world during the request.
pub record Server : Type 0 where
  pub ready : Bool
  pub store : Store
  pub disk : Disk
  pub envs : ℕ → Env
  pub show_time : Option ℕ → String

abbrev pub gated : Bool → World → Outcome × World → Outcome × World
gated ready w answer = if ready then answer else (errored service_not_ready, w)

unfoldable pub dispatch : Server → String → Route → World → Outcome × World
dispatch s request_id no_route w = (errored route_not_found, w)
dispatch s request_id no_method w = (errored method_not_allowed, w)
dispatch s request_id healthz w = (replied 200 (state_body "ok"), w)
dispatch s request_id readyz w = (
  (if s.ready then replied 200 (state_body "ready") else replied 503 (state_body "not ready")),
  w,
)
dispatch s request_id broken w = (panicked, w)
dispatch s request_id (post_recordings not_multipart parts) w =
    gated s.ready w (handle_upload (s.envs 0) s.store s.disk request_id not_multipart parts w)
dispatch s request_id (get_task_route id) w = (handle_task (s.envs 0) id w, w)
dispatch s request_id (get_recording_route id) w = (handle_recording (s.envs 0) id w, w)
dispatch s request_id (get_recordings page page_size) w =
    (handle_list (s.envs 0) page page_size w, w)
dispatch s request_id (get_stream id now polls) w =
    (handle_summary_stream (s.envs 0) s.show_time id now polls w, w)
dispatch s request_id (retry_route id) w = handle_retry (s.envs 0) id w
dispatch s request_id (delete_route id) w = handle_delete s.envs s.disk id w

abbrev pub answered : String → Outcome × World → Response × World
answered request_id (o, w) = (respond request_id o, w)

-- One request: `header` is its X-Request-ID, `new_id` what `uuid.New` would give.
unfoldable pub serve : Server → String → String → Route → World → Response × World
unfolding dispatch respond
serve s header new_id route w =
    let request_id = request_id_of header new_id in
    answered request_id (dispatch s request_id route w)
