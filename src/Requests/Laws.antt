-- ===== src/Requests/Laws.antt =====
-- How requests fail, and what an action sends.
use fast_share.Common.{
  ℕ, ◌≡◌, refl, ap, Bool, true, false, Option, none, some, List, ◌++◌, inl, inr, ◌⊎◌, [], ◌∷◌,
}
use fast_share.Common.Tests.{Bool-cases}
use fast_share.Common.Text.{Text}
use fast_share.Json.{Json, field_at}
use fast_share.Requests.{
  Request, Response, Fetched, Result, Texts, is_nullish, detail_of, failure_text,
  start_failure_text, json, start_json, save_config, start_server, stop_server, cancel_transfer,
  status, testing_config, save_node_config, set_preset, multipath_config, start_transfer,
}
use fast_share.Common.Number.{Number}
use fast_share.Requests.Actions.{
  Action, perform, Ran, succeeded, send, then_status, start, reset_of,
}

module _ {N : Type 0} (texts : Texts N) where
  start_failure_text-eq :
      (ok : Bool) (status : ℕ) (body : Option (Json N))
      → ((v : Json N) → body ≡ some v → is_nullish v ≡ false)
      → start_failure_text texts (record { ok = ok; status = status; body = body })
        ≡ failure_text texts (record { ok = ok; status = status; body = body })
  unfolding start_failure_text failure_text detail_of field_at
  start_failure_text-eq ok status none h = refl
  start_failure_text-eq ok status (some v) h = let present = h v refl in rw (present, failure_text)

  -- A transfer that cannot be started is reported with the same message as any other request
  -- with that answer, unless the answer's body is null: the two readers of a failed answer
  -- agree.
  start_json-json :
      (r : Response N)
      → ((v : Json N) → r.body ≡ some v → is_nullish v ≡ false)
      → start_json texts (Fetched.answered r) ≡ json texts (Fetched.answered r)
  unfolding start_json json
  start_json-json r h = elim (Bool-cases r.ok) [
    | inl e ↦ rw e
    | inr e ↦ let same = start_failure_text-eq r.ok r.status r.body h in simp (e, same)
  ]

Result-cases :
    {N : Type 0} (r : Result N)
    → ((v : Json N) × (r ≡ Result.value v)) ⊎ ((msg : Text) × (r ≡ Result.failure msg))
Result-cases (Result.value v) = inl (v, refl)
Result-cases (Result.failure msg) = inr (msg, refl)

-- The requests that an action is made of: one to change something, and after a saved configuration
-- a second one for the status. A transfer without a file has none.
abbrev pub planned :
    {N : Type 0} ⦃num : Number N⦄ → Texts N → Option Text → Action N → List (Request N)
planned texts file Action.server_started = start_server ∷ []
planned texts file Action.server_stopped = stop_server ∷ []
planned texts file Action.transfer_cancelled = cancel_transfer ∷ []
planned texts file (Action.config_saved c) = save_config c ∷ status ∷ []
planned texts file (Action.testing_applied c) = testing_config c ∷ []
planned texts file (Action.node_config_saved p) = save_node_config p ∷ []
planned texts file (Action.node_config_reset id) = save_node_config (reset_of id) ∷ []
planned texts file (Action.preset_set name) = set_preset name ∷ []
planned texts file (Action.multipath_set patch) = multipath_config patch ∷ []
planned texts none (Action.transfer_started resume source dest) = []
planned texts (some f) (Action.transfer_started resume source dest) =
    start_transfer texts f resume source dest ∷ []

-- What has been sent is the start of the plan, all of it if the action succeeds.
abbrev pub IsPartOf : {N : Type 0} → List (Request N) → Ran N → Type 0
IsPartOf {N = N} plan ran =
    (rest : List (Request N)) × (ran.requests ++ rest ≡ plan)
    × ((succeeded ran.result ≡ false) ⊎ (rest ≡ []))

module _ {N : Type 0} (texts : Texts N) (fetch : Request N → Fetched N) where
  -- The reader of an action's answers.
  abbrev pub reader : Action N → Fetched N → Result N
  reader (Action.transfer_started resume source dest) r = start_json texts r
  reader _ r = json texts r

  -- Each request but the last has succeeded, and the action settles with the last one's answer;
  -- with none it fails.
  abbrev pub IsChain : (Fetched N → Result N) → List (Request N) → Result N → Type 0
  IsChain read [] r = succeeded r ≡ false
  IsChain read (q ∷ []) r = r ≡ read (fetch q)
  IsChain read (q ∷ (q' ∷ qs)) r = (succeeded (read (fetch q)) ≡ true) × IsChain read (q' ∷ qs) r

  then_status-sends :
      (req : Request N)
      → IsChain
          (json texts)
          (then_status texts fetch (send texts fetch req)).requests
          (then_status texts fetch (send texts fetch req)).result
        × IsPartOf (req ∷ status ∷ []) (then_status texts fetch (send texts fetch req))
  unfolding then_status
  then_status-sends req = elim (Result-cases (json texts (fetch req))) [
    | inl (v, e) ↦ rw (e, then_status) ((ap succeeded e, refl), ([], refl, inr refl))
    | inr (msg, e) ↦ rw (e, then_status) (refl, (status ∷ [], refl, inl (ap succeeded e)))
  ]

  send-sends :
      (req : Request N)
      → IsChain (json texts) (send texts fetch req).requests (send texts fetch req).result
        × IsPartOf (req ∷ []) (send texts fetch req)
  send-sends req = (refl, ([], refl, inr refl))

module _ {N : Type 0} ⦃num : Number N⦄ (texts : Texts N) (fetch : Request N → Fetched N) where
  -- Whatever the backend answers, an action sends the requests of its plan in their order, each
  -- but the first only after the one before has succeeded, and settles with the answer to the
  -- last one sent; if it succeeds it has sent the whole plan. A transfer without a file has an
  -- empty plan: it sends nothing and fails.
  pub perform-sends :
      (file : Option Text) (a : Action N)
      → IsChain texts fetch
          (reader texts fetch a)
          (perform texts fetch file a).requests
          (perform texts fetch file a).result
        × IsPartOf (planned texts file a) (perform texts fetch file a)
  unfolding perform then_status start
  perform-sends file Action.server_started = send-sends texts fetch start_server
  perform-sends file Action.server_stopped = send-sends texts fetch stop_server
  perform-sends file Action.transfer_cancelled = send-sends texts fetch cancel_transfer
  perform-sends file (Action.config_saved c) = then_status-sends texts fetch (save_config c)
  perform-sends file (Action.testing_applied c) = send-sends texts fetch (testing_config c)
  perform-sends file (Action.node_config_saved p) = send-sends texts fetch (save_node_config p)
  perform-sends file (Action.node_config_reset id) =
      send-sends texts fetch (save_node_config (reset_of id))
  perform-sends file (Action.preset_set name) = send-sends texts fetch (set_preset name)
  perform-sends file (Action.multipath_set patch) = send-sends texts fetch (multipath_config patch)
  perform-sends none (Action.transfer_started resume source dest) = (refl, ([], refl, inl refl))
  perform-sends (some f) (Action.transfer_started resume source dest) = (refl, ([], refl, inr refl))
