-- ===== src/Requests/Tests.antt =====
-- Requests and their answers.
use fast_share.Common.{ℕ, ◌≡◌, refl, true, false, none, some, []}
use fast_share.Common.Text.{Text, units, decimal}
use fast_share.Common.Number.Hundredths.{hundredths}
use fast_share.Json.{Json, Fields}
use fast_share.Requests.{
  Response, Fetched, Result, Texts, is_nullish, json, transfer_packets, start_transfer, save_config,
}
use fast_share.Requests.Actions.{Hook, Ran, send, then_status}
use fast_share.Requests.Actions.{Action, perform}
use fast_share.Requests.Laws.{perform-sends, IsChain, IsPartOf, planned, reader}
use fast_share.Samples.{config}

abbrev plain_text : Json ℕ → Text
plain_text (Json.string s) = s
plain_text _ = units "?"

abbrev texts : Texts ℕ
texts = record {
  text_of = plain_text;
  null_read = units "null read";
  not_json = units "not json";
  encode = λ t. t;
}

abbrev refused : Response ℕ
refused = record {
  ok = false;
  status = 409;
  body = some (Json.object (Fields.field (units "detail") (Json.string (units "busy")) Fields.end));
}

refused_text : json texts (Fetched.answered refused) ≡ Result.failure (units "busy")
unfolding json
refused_text = refl

start_url :
    (start_transfer texts (units "a.bin") true none (some (units "dst"))).path
    ≡ units "/api/transfer/start?resume=true&dest=dst"
start_url = refl

packets_url :
    (transfer_packets {N = ℕ} 200 (units "7")).path
    ≡ units "/api/transfer/packets?limit=200&since=7"
unfolding decimal
packets_url = refl

refused_body : (v : Json ℕ) → refused.body ≡ some v → is_nullish v ≡ false
refused_body Json.undefined e = cc
refused_body Json.null e = cc
refused_body (Json.flag b) e = refl
refused_body (Json.number x) e = refl
refused_body (Json.string s) e = refl
refused_body (Json.array xs) e = refl
refused_body (Json.object fs) e = refl

abbrev idle_hook : Hook ℕ
idle_hook = record { busy = false; error = none; sent = []; refreshes = 0 }

abbrev saving : Ran ℕ
saving =
    then_status texts (λ r. Fetched.answered refused)
      (send texts (λ r. Fetched.answered refused) (save_config config))

perform-sends_example :
    IsChain texts
      (λ r. Fetched.answered refused)
      (reader texts (λ r. Fetched.answered refused) (Action.config_saved config))
      (perform texts (λ r. Fetched.answered refused) none (Action.config_saved config)).requests
      (perform texts (λ r. Fetched.answered refused) none (Action.config_saved config)).result
    × IsPartOf
        (planned texts none (Action.config_saved config))
        (perform texts (λ r. Fetched.answered refused) none (Action.config_saved config))
perform-sends_example =
    perform-sends texts (λ r. Fetched.answered refused) none (Action.config_saved config)
