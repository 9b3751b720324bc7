-- ===== src/Requests.antt =====
-- frontend/lib/api.ts: the requests, and what becomes of their answers. The browser's fetch is the
-- argument of those who send; `encode` is encodeURIComponent.
pub mod Actions
pub mod Laws
pub mod Tests
use fast_share.Common.{ℕ, Bool, true, false, not, ◌&&◌, Option, none, some, List, [], ◌∷◌, ◌++◌}
use fast_share.Common.Tests.{if◌then◌else◌}
use fast_share.Common.Text.{Text, units, decimal, text_eq}
use fast_share.Common.Number.{Number}
use fast_share.Types.{Config, TestingConfig}
use fast_share.Topology.{MultipathPolicy}
use fast_share.Json.{Json, Fields, field_at}

-- The body of a request: none, a JSON value, or the form with the file of that name.
pub data Body (N : Type 0) : Type 0 where
  empty : Body N
  json_body : Json N → Body N
  file_body : Text → Body N

pub record Request (N : Type 0) : Type 0 where
  pub post : Bool
  pub path : Text
  pub body : Body N

-- An answer; its body is `none` where it is not JSON.
pub record Response (N : Type 0) : Type 0 where
  pub ok : Bool
  pub status : ℕ
  pub body : Option (Json N)

pub data Fetched (N : Type 0) : Type 0 where
  unreachable : Text → Fetched N
  answered : Response N → Fetched N

-- What a promise settles with: a value, or the message of the error that it is rejected with.
pub data Result (N : Type 0) : Type 0 where
  value : Json N → Result N
  failure : Text → Result N

-- `String(v)`, and the messages of the errors that reading a property of `null`, and reading a body
-- that is not JSON, throw.
pub record Texts (N : Type 0) : Type 0 where
  pub text_of : Json N → Text
  pub null_read : Text
  pub not_json : Text
  pub encode : Text → Text

-- Partial patch of a node; a field that is `none` is left out.
pub record NodeConfigPatch (N : Type 0) : Type 0 where
  pub id : Text
  pub reset : Option Bool
  pub latency_ms : Option ℕ
  pub loss_enabled : Option Bool
  pub loss_probability : Option N
  pub corrupt_enabled : Option Bool
  pub corrupt_probability : Option N
  pub enabled : Option Bool

abbrev pub http_status : ℕ → Text
http_status status = units "HTTP " ++ decimal status

module _ {N : Type 0} where
  -- `a ?? b`
  abbrev pub present_or : Json N → Json N → Json N
  present_or Json.undefined b = b
  present_or Json.null b = b
  present_or a b = a

  abbrev pub property : Text → Json N → Json N
  property k (Json.object fs) = field_at k fs
  property k _ = Json.undefined

  abbrev pub is_nullish : Json N → Bool
  is_nullish Json.undefined = true
  is_nullish Json.null = true
  is_nullish _ = false

  -- `body.detail ?? body.error ?? d`
  unfoldable pub detail_of : Json N → Json N → Json N
  unfolding field_at text_eq
  detail_of body d =
      present_or (property (units "detail") body) (present_or (property (units "error") body) d)

  module _ (texts : Texts N) where
    -- `json`: the message of an answer that is not ok; a body of `null` or one that is no JSON keeps the
    -- status code
    unfoldable pub failure_text : Response N → Text
    unfolding detail_of
    failure_text r = elim r.body [
      | none ↦ texts.text_of (Json.string (http_status r.status))
      | some body ↦ texts.text_of (
          if is_nullish body
          then Json.string (http_status r.status)
          else detail_of body (Json.string (http_status r.status)))
    ]

    abbrev pub parsed : Option (Json N) → Result N
    parsed none = Result.failure texts.not_json
    parsed (some v) = Result.value v

    unfoldable pub json : Fetched N → Result N
    unfolding failure_text
    json (Fetched.unreachable msg) = Result.failure msg
    json (Fetched.answered r) = if r.ok then parsed r.body else Result.failure (failure_text r)

    -- `startTransfer`: a body that is no JSON counts as `{}`, one of `null` throws
    unfoldable pub start_failure_text : Response N → Text
    unfolding detail_of
    start_failure_text r = elim r.body [
      | none ↦
          texts.text_of (detail_of (Json.object Fields.end) (Json.string (http_status r.status)))
      | some body ↦
          if is_nullish body
          then texts.null_read
          else texts.text_of (detail_of body (Json.string (http_status r.status)))
    ]

    unfoldable pub start_json : Fetched N → Result N
    unfolding start_failure_text
    start_json (Fetched.unreachable msg) = Result.failure msg
    start_json (Fetched.answered r) =
        if r.ok then parsed r.body else Result.failure (start_failure_text r)

  abbrev pub get : Text → Request N
  get path = record { post = false; path = path; body = Body.empty }

  abbrev pub post_to : Text → Body N → Request N
  post_to path body = record { post = true; path = path; body = body }

  abbrev pub status : Request N
  status = get (units "/api/status")

  abbrev pub topology : Request N
  topology = get (units "/api/topology")

  abbrev pub transfer_packets : ℕ → Text → Request N
  transfer_packets limit since =
      get (units "/api/transfer/packets?limit=" ++ (decimal limit ++ (units "&since=" ++ since)))

  abbrev pub node_logs : Texts N → Text → ℕ → Request N
  node_logs texts id limit =
      get (
        units "/api/topology/node/" ++ (texts.encode id ++ (units "/logs?limit=" ++ decimal limit)))

  abbrev pub set_preset : Text → Request N
  set_preset name =
      post_to (units "/api/topology/preset")
        (Body.json_body (Json.object (Fields.field (units "name") (Json.string name) Fields.end)))

  abbrev pub start_server : Request N
  start_server = post_to (units "/api/server/start") Body.empty

  abbrev pub stop_server : Request N
  stop_server = post_to (units "/api/server/stop") Body.empty

  abbrev pub cancel_transfer : Request N
  cancel_transfer = post_to (units "/api/transfer/cancel") Body.empty

  abbrev pub resume_check : Texts N → Text → ℕ → Request N
  resume_check texts name size =
      get
        (units "/api/resume/check?name=" ++ (texts.encode name ++ (units "&size=" ++ decimal size)))

  -- `if (source) params.set("source", source)`
  abbrev pub param_of : Texts N → Text → Option Text → Text
  param_of texts k none = []
  param_of texts k (some []) = []
  param_of texts k (some (c ∷ v)) = units "&" ++ (k ++ (units "=" ++ texts.encode (c ∷ v)))

  abbrev pub start_transfer : Texts N → Text → Bool → Option Text → Option Text → Request N
  start_transfer texts file resume source dest =
      post_to
        (units "/api/transfer/start?resume="
          ++ ((if resume then units "true" else units "false")
              ++ (param_of texts (units "source") source ++ param_of texts (units "dest") dest)))
        (Body.file_body file)

  abbrev pub present : Text → Option (Json N) → Fields N → Fields N
  present k none fs = fs
  present k (some v) fs = Fields.field k v fs

module _ {N : Type 0} ⦃num : Number N⦄ where
  abbrev pub natural : ℕ → Json N
  natural n = Json.number (num.of_nat n)

  abbrev pub save_config : Config → Request N
  save_config c = post_to (units "/api/server/config") (
      Body.json_body (
        Json.object (
          Fields.field (units "server_ip") (Json.string c.server_ip) (
            Fields.field (units "udp_port") (natural c.udp_port) (
              Fields.field (units "packet_size") (natural c.packet_size) (
                Fields.field (units "timeout_ms") (natural c.timeout_ms) (
                  Fields.field (units "window_size") (natural c.window_size) (
                    Fields.field (units "max_retries") (natural c.max_retries) (
                      Fields.field (units "topology_enabled") (Json.flag c.topology_enabled) (
                        Fields.field (units "topology_latency_ms") (natural c.topology_latency_ms)
                          Fields.end))))))))))

  abbrev pub testing_config : TestingConfig N → Request N
  testing_config c = post_to (units "/api/testing/config") (
      Body.json_body (
        Json.object (
          Fields.field (units "loss_enabled") (Json.flag c.loss_enabled) (
            Fields.field (units "loss_probability") (Json.number c.loss_probability) (
              Fields.field (units "corrupt_enabled") (Json.flag c.corrupt_enabled) (
                Fields.field (units "corrupt_probability") (Json.number c.corrupt_probability)
                  Fields.end))))))

  -- a partial policy is the fields that it has
  abbrev pub multipath_config : Fields N → Request N
  multipath_config patch =
      post_to (units "/api/topology/multipath/config") (Body.json_body (Json.object patch))

  abbrev pub flag_field : Option Bool → Option (Json N)
  flag_field none = none
  flag_field (some b) = some (Json.flag b)

  abbrev pub number_field : Option N → Option (Json N)
  number_field none = none
  number_field (some x) = some (Json.number x)

  abbrev pub natural_field : Option ℕ → Option (Json N)
  natural_field none = none
  natural_field (some n) = some (natural n)

  abbrev pub save_node_config : NodeConfigPatch N → Request N
  save_node_config p = post_to (units "/api/topology/node/config") (
      Body.json_body (
        Json.object (
          Fields.field (units "id") (Json.string p.id) (
            present (units "reset") (flag_field p.reset) (
              present (units "latency_ms") (natural_field p.latency_ms) (
                present (units "loss_enabled") (flag_field p.loss_enabled) (
                  present (units "loss_probability") (number_field p.loss_probability) (
                    present (units "corrupt_enabled") (flag_field p.corrupt_enabled) (
                      present (units "corrupt_probability") (number_field p.corrupt_probability)
                        (present (units "enabled") (flag_field p.enabled) Fields.end))))))))))
