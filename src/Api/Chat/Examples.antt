-- ===== src/Api/Chat/Examples.antt =====
-- Runs of the chat route: a background refresh that opens a session, its first poll, and the session
-- named again.
use meridian_logistics.Prelude.{
  inl, inr, String, ◌≡◌, refl, true, false, none, some, [], ◌∷◌, arith, ◌⊎◌, ◌≢◌, eq_iff,
}
use meridian_logistics.Python.{
  Error, Result, ok, err, value_error, number, get, str, truth, Dict, and_then,
}
use meridian_logistics.Python.Json.{Json, text_leaf}
use meridian_logistics.Table.{select_one, select_all, order_by}
use meridian_logistics.Jobs.Store.{JobRow}
use meridian_logistics.Session.{
  SessionState, SessionRow, get_session, ActiveResourceBinding, session_row, read_session,
}
use meridian_logistics.Controller.Runtime.{Runtime}
use meridian_logistics.Autonomy.Service.{is_eligible_for_autonomy, is_enabled}
use meridian_logistics.Responses.{is_given}
use meridian_logistics.Reads.Repository.{ReadRepository, ShipmentRow, CarrierRow}
use meridian_logistics.Reads.Tools.{ReadTools}
use meridian_logistics.Api.Jobs.{App, Clock}
use meridian_logistics.Api.Actions.{TrustedIdentity, Caller, identity}
use meridian_logistics.Api.Requests.{
  admitted, normalize_resource, ChatRequest, Stamps, ResponseIds, trusted_chat_identity,
  session_state_for_request, is_async_refresh_request,
}
use meridian_logistics.Api.Chat.{Chat, build, post_chat}
use meridian_logistics.Api.Payloads.{build_read_result_payload, base_payload, pending_content}
use meridian_logistics.Api.Chat.Background.{IsRefresh, IsAutonomous, queued_state}
use meridian_logistics.Api.Chat.Completion.{
  IsOpened, chat_opens_run, IsEnding, chat_then_poll_completes,
}
use meridian_logistics.Api.Chat.Refresh.{is_taken}
use meridian_logistics.Api.Waits.{polled}
use meridian_logistics.Api.Chat.Keeping.{Kept}
use meridian_logistics.Api.Chat.Stale.{with_reads, stale_chat_reads_nothing}
use meridian_logistics.Api.Chat.Ownership.{IsRefusal, IsOwnSession, post_chat-IsOwnSession}

abbrev runtime : Runtime
runtime = record {
  config = record {
    controller_checkpoints_enabled = true;
    controller_precedence_enabled = true;
    running_autonomy_enabled = true;
    running_autonomy_max_steps = 4;
  };
  reader = record { shown = λ j. "[]"; int_of = λ s. err (value_error s) };
  is_valid = λ j. true;
  key_of = λ s. s;
}

abbrev shipment : ShipmentRow
shipment = record {
  shipment_id = "ship-1";
  office_id = "memphis";
  broker_id = "broker-123";
  carrier_id = "carrier-1";
  quote_id = none;
  origin_region = "Memphis";
  destination_region = "Dallas";
  shipment_mode = "FTL";
  shipment_status = "in_transit";
  exception_type = some "delay";
  transit_hours = 30;
  eta_at = "2026-03-02T00:00:00Z";
  created_at = "2026-03-01T00:00:00Z";
}

abbrev carrier : CarrierRow
carrier = record {
  carrier_id = "carrier-1";
  carrier_name = "Blues City Freight";
  shipment_mode = "FTL";
  on_time_rate = number 97;
  insurance_expiry_date = "2026-04-01";
}

abbrev repository : ReadRepository
repository = record {
  reader = runtime.reader;
  sql = record {
    lower = str;
    is_earlier = λ a b. false;
    is_since = λ a b. true;
    between = λ a b c. true;
    text_lt = λ a b. false;
    rate_lt = λ a b. false;
    replace = λ s a b. s;
  };
  calendar = record {
    now = "2026-03-01T00:00:00Z";
    from_iso_format = ok;
    minus_days = λ s n. ok s;
    date_of = λ s. s;
    date_plus_days = λ s n. ok s;
  };
  tables = record { carriers = carrier ∷ []; quotes = []; shipments = shipment ∷ []; events = [] };
}

abbrev empty_repository : ReadRepository
empty_repository = record repository {
  tables = record { carriers = []; quotes = []; shipments = []; events = [] };
}

abbrev tools : ReadTools
tools = record {
  repository = repository;
  prompts = record {
    lower = λ s. s;
    day_window = λ s. none;
    top_limit = λ s. none;
    lane = λ s. none;
  };
  average_days = λ total count. number 1;
}

abbrev chat : Chat
chat = record { runtime = runtime; tools = tools; is_valid = λ d. is_given (get d "response_id") }

abbrev broker : TrustedIdentity
broker = record { broker_id = "broker-123"; office_id = "memphis"; role = "broker" }

abbrev caller : Caller
caller = record {
  trusted = identity broker;
  header_broker_id = none;
  header_office_id = none;
  header_role = none;
  is_dev = false;
  default_office_id = "memphis";
  brokers = record { broker_id = "broker-123"; office_id = "memphis"; role = "broker" } ∷ [];
  lower = λ s. s;
}

abbrev request : ChatRequest
request = record {
  prompt = "background refresh of the analytics exceptions";
  session_id = none;
  session_access_token = none;
  current_module = "dispatch";
  current_resource = none;
}

abbrev ids : String → ResponseIds
ids response = record {
  response_id = response;
  request_id = "req-1";
  trace_id = "trace-1";
  response_generated_at = "t0";
}

abbrev stamps : Stamps
stamps = record {
  day = "20260301";
  session_access_token = "access-1";
  job_id = "job-1";
  job_poll_token = "token-1";
  prepared = ids "response-2";
  answered = ids "response-1";
  saved = "t1";
  created = "t2";
  seeded = "t3";
  annotated = "t4";
  prepared_at = "t5";
  saved_again = "t6";
  bound = "t7";
  started = "t8";
  finalized = "t9";
}

abbrev app : App
app = record {
  job_store = record { jobs = []; completion_refresh_polls = 2 };
  session_store = record { sessions = []; counters = [] };
  files = [];
}

abbrev opened_app : App
opened_app = record app {
  session_store = record { sessions = []; counters = ("20260301", 1) ∷ [] };
}

abbrev session : SessionState
session = record {
  session_id = "chat_s_20260301_0001";
  session_access_token = "access-1";
  broker_id = "broker-123";
  office_id = "memphis";
  role = "broker";
  current_module = "dispatch";
  conversation_scope = "analytics";
  context_binding_state = "missing";
  screen_sync_state = "not_applicable";
  active_resource = none;
  last_response_id = none;
  last_job_id = none;
}

abbrev payload_of : Result (Dict Json) → Dict Json
payload_of (ok d) = d
payload_of (err e) = []

abbrev result : Dict Json
result = payload_of (
    and_then
      (build_read_result_payload tools request session broker (some "job-1") (ids "response-2"))
      (build chat))

abbrev pending : Dict Json
pending = payload_of (
    build chat (
      base_payload (record session { last_job_id = some "job-1" })
        (pending_content (queued_state session stamps)) (ids "response-1")))

is_refresh : IsRefresh chat caller request stamps app broker session opened_app result pending
unfolding trusted_chat_identity session_state_for_request is_async_refresh_request
    is_eligible_for_autonomy build_read_result_payload build base_payload pending_content select_one
    select_all order_by get is_given truth str
is_refresh = record {
  trusted = refl;
  opened = refl;
  is_async = refl;
  accepted = record { free = refl; read = refl };
  built = refl;
  named = refl;
}

is_autonomous : IsAutonomous chat request
unfolding is_eligible_for_autonomy
is_autonomous = record { taken = refl; budget = omega arith }

-- The read found the shipment.
result_summary :
    get result "summary" ≡ some (text_leaf "Shipment exceptions found for 1 Memphis shipment(s).")
unfolding build_read_result_payload build base_payload select_all order_by get is_given truth str
result_summary = refl

abbrev clock : Clock
clock = record { annotated = "t10"; failed = "t11"; refreshed = "t12"; promoted = "t13" }

chat_opens_run_example :
    ((post_chat chat ok caller request stamps app).0 ≡ ok pending)
    × ((r : JobRow) × (x : SessionRow) × IsOpened chat request stamps session result opened_app
          (post_chat chat ok caller request stamps app).1
          r
          x)
chat_opens_run_example =
    chat_opens_run chat ok caller request stamps app broker session opened_app result pending
      is_refresh

-- With autonomy the first poll completes the job.
first_poll_completes :
    IsEnding {E = Dict Json} ok chat stamps session result clock
      (post_chat chat ok caller request stamps app).1
unfolding polled
first_poll_completes =
    chat_then_poll_completes chat ok ok caller request stamps [] clock app broker session opened_app
      result pending is_refresh (inl is_autonomous) (rw is_autonomous.taken refl)

-- Autonomy is off, as it is by default.
abbrev quiet : Chat
quiet = record chat {
  runtime = record runtime {
    config = record {
      controller_checkpoints_enabled = false;
      controller_precedence_enabled = false;
      running_autonomy_enabled = false;
      running_autonomy_max_steps = 3;
    };
  };
}

starts_quietly : IsRefresh quiet caller request stamps app broker session opened_app result pending
unfolding trusted_chat_identity session_state_for_request is_async_refresh_request
    is_eligible_for_autonomy build_read_result_payload build base_payload pending_content select_one
    select_all order_by get is_given truth str
starts_quietly = record {
  trusted = refl;
  opened = refl;
  is_async = refl;
  accepted = record { free = refl; read = refl };
  built = refl;
  named = refl;
}

not_taken : is_taken quiet request ≡ false
unfolding is_eligible_for_autonomy is_enabled
not_taken = refl

chat_then_poll_completes_example : IsEnding {E = Dict Json} ok quiet stamps session result clock (
    polled quiet.runtime "job-1" "token-1"
      (clock ∷ clock ∷ [])
      (post_chat quiet ok caller request stamps app).1)
chat_then_poll_completes_example =
    chat_then_poll_completes quiet ok ok caller request stamps (clock ∷ clock ∷ []) clock app broker
      session opened_app result pending starts_quietly (inr not_taken) (rw not_taken refl)

-- The session is named again, by its broker and with its token.
abbrev again : ChatRequest
again = record request {
  session_id = some "chat_s_20260301_0001";
  session_access_token = some "access-1";
}

post_chat-IsOwnSession_example :
    let a : App = (post_chat chat ok caller request stamps app).1 in
    ((e : Error) × IsRefusal caller e × (post_chat chat ok caller again stamps a ≡ (err e, a)))
    ⊎ ((i : TrustedIdentity) × (s : SessionState) × (trusted_chat_identity caller ≡ ok i)
        × (get_session "chat_s_20260301_0001" a.session_store ≡ some s)
        × IsOwnSession i (some "access-1") s
        × Kept "chat_s_20260301_0001" a.session_store s
            (post_chat chat ok caller again stamps a).1.session_store)
post_chat-IsOwnSession_example =
    post_chat-IsOwnSession chat ok caller again stamps
      (post_chat chat ok caller request stamps app).1 "chat_s_20260301_0001" refl

abbrev shipment_named : String → ActiveResourceBinding
shipment_named id = record {
  resource_type = "shipment";
  resource_id = some id;
  resource_fingerprint = some "v1";
}

abbrev bound_session : SessionState
bound_session = record session { active_resource = some (shipment_named "ship-1") }

abbrev bound_app : App
bound_app = record app {
  session_store = record { sessions = session_row bound_session "t0" "t0" ∷ []; counters = [] };
}

-- The session is named with another shipment than its own.
abbrev moved : ChatRequest
moved = record again {
  current_resource = some (record {
    resource_type = "shipment";
    resource_id = "ship-2";
    resource_fingerprint = some "v1";
  });
}

other_shipment : shipment_named "ship-1" ≢ shipment_named "ship-2"
other_shipment e = ground (arith, e, eq_iff "ship-1" "ship-2")

stale_chat_reads_nothing_example :
    ((x : SessionState) × (session_state_for_request (λ s. s) moved broker stamps bound_app
        ≡ (ok x, bound_app))
      × (x.context_binding_state ≡ "stale"))
    × (post_chat (with_reads chat empty_repository) ok caller moved stamps bound_app
        ≡ post_chat chat ok caller moved stamps bound_app)
stale_chat_reads_nothing_example =
    stale_chat_reads_nothing chat ok caller moved stamps bound_app broker "chat_s_20260301_0001"
      bound_session (shipment_named "ship-1") (shipment_named "ship-2") empty_repository
      is_refresh.trusted refl
      (unfold admitted get_session select_one read_session session_row in refl) refl
      (unfold normalize_resource in refl) other_shipment
