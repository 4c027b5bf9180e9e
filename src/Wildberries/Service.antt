-- ===== src/Wildberries/Service.antt =====
-- Requests to the service: `_do_request` of local/connector_wb/models/wb_service.py and
-- `get_event_synchro_dict` of local/connector_wb/models/connector_wb.py. What the server answers is
-- a parameter; it may answer the same request in another way each time. The URL, the token and the
-- waiting time are left out.
use projectname.Prelude.{
  ℕ, zero, suc, ◌&&◌, ◌||◌, not, Bool, true, false, Option, none, some, List, user_error,
  value_error, connection_error, http_error, ◌==◌, leb, if◌then◌else◌,
}
use projectname.Wildberries.Rows.{Item, Value}
use projectname.Wildberries.World.{
  ReportType, incomes, stocks, orders, sales, report_detail_by_period, done, M, pure, raise, stop,
  ◌>>=◌,
}

pub data Suffix : Type 0 where
  hours months : Suffix

-- The keys of the context that the methods read. `none` is a key that is not there.
pub record Context : Type 0 where
  pub date_from : Option ℕ
  pub date_to : Option ℕ
  pub db_cleanup_suffix : Option Suffix
  pub no_delet : Bool

-- The parameters of a request.
pub record Request : Type 0 where
  pub report : ReportType
  pub date_from : Option ℕ
  pub date_to : Option ℕ
  pub flag : Option ℕ
  pub limit : Option ℕ
  pub rrdid : Option Value

-- `answer` has a status code and the items of the document; `none` is a body that is no document.
pub data Response : Type 0 where
  answer : ℕ → Option (List Item) → Response
  no_answer : Response

-- What the server answers to the request that is made as the n-th.
abbrev pub Server : Type 0
Server = ℕ → Request → Response

-- A document, the text '' after a 404, and False after a 204.
pub data Content : Type 0 where
  items : List Item → Content
  empty_text no_content : Content

unfoldable pub params : Context → ReportType → ℕ → Value → Request
params ctx report flag rrd_id = elim report [
  | incomes ↦ plain
  | stocks ↦ plain
  | orders ↦ record plain { flag = some flag }
  | sales ↦ record plain { flag = some flag }
  | report_detail_by_period ↦ record plain {
    date_to = ctx.date_to;
    limit = some 100000;
    rrdid = some rrd_id;
  }
]
  where
    plain : Request
    plain = record {
      report = report;
      date_from = ctx.date_from;
      date_to = none;
      flag = none;
      limit = none;
      rrdid = none;
    }

-- `reportType in ('orders', 'sales')`
abbrev has_flag : ReportType → Bool
has_flag orders = true
has_flag sales = true
has_flag _ = false

abbrev is_one : Option ℕ → Bool
is_one none = false
is_one (some n) = n == 1

-- The answers after which the request is made again.
unfoldable pub is_retried : Request → Response → Bool
is_retried request (answer status body) =
    has_flag request.report && is_one request.flag && not (status == 200)
is_retried request no_answer = false

-- The handler of `requests.HTTPError`.
abbrev handle_http_error : ℕ → M Content
handle_http_error status =
    if status == 204 || status == 404
    then pure empty_text
    else if status == 400 || status == 401 || status == 410
    then raise (http_error status)
    else raise user_error

abbrev or_not_json : Option (List Item) → M Content
or_not_json none = raise value_error
or_not_json (some document) = pure (items document)

-- A status from 400 to 599 is what `raise_for_status` raises for.
unfoldable pub read_response : Response → M Content
read_response no_answer = raise connection_error
read_response (answer status body) =
    if leb 400 status && leb status 599
    then handle_http_error status
    else if status == 204 || status == 404
    then pure no_content
    else or_not_json body

module _ (server : Server) where
  unfoldable pub ask : Request → M Response
  ask request w = (done (server w.requests request), record w { requests = suc w.requests })

  -- `while True`, for as many rounds as there is fuel.
  unfoldable pub do_request : ℕ → Request → M Content
  unfolding ask
  do_request zero request = stop
  do_request (suc fuel) request = do
    response ← ask request
    let again = do_request fuel request
    if is_retried request response then again else read_response response

  unfoldable pub get_event_synchro_dict : ℕ → Context → ReportType → ℕ → Value → M Content
  get_event_synchro_dict fuel ctx report flag rrd_id =
      do_request fuel (params ctx report flag rrd_id)
