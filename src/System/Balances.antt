-- ===== src/System/Balances.antt =====
-- A balance and the details of an account, read through the Gateway: the routes of the Account Service
-- that the Gateway's client reads, and what arrives over a network that loses requests and responses.
pub mod Requests
pub mod Arrives
pub mod Details
use mathlib.Core.Path.{subst}
use distr_sys_itrvw.Gateway.Client.Rule.{IsAccepted}
use distr_sys_itrvw.Base.{ℕ, Option, none, some, List, [], ◌∷◌, ◌≡◌}
use distr_sys_itrvw.Shared.Text.{Text, codes}
use distr_sys_itrvw.Shared.Rows.{Engine}
use distr_sys_itrvw.Shared.Contracts.{
  Platform, BalanceResponse, AccountDetailsResponse, Result, ok, err,
}
use distr_sys_itrvw.Shared.Contracts.Wire.{Encoding}
use distr_sys_itrvw.Shared.Contracts.Records.{BalanceJson, balance_dump}
use distr_sys_itrvw.Shared.Contracts.Details.{
  AccountDetailsJson, balance_validate, details_dump, details_validate,
}
use distr_sys_itrvw.Account
use distr_sys_itrvw.Account.Repository.{Row}
use distr_sys_itrvw.Gateway.Client.{
  Method, Request, Body, Outcome, response, fields, malformed, other,
}
use distr_sys_itrvw.System.{Json, string, Frame, IsFrame}

-- What is left to the frameworks: the account that the router reads from the path of a balance or of
-- details, and the JSON object of a body.
pub record Reads (p : Platform) (w : Encoding) : Type 0 where
  pub balance_route : Text → Option Text
  pub details_route : Text → Option Text
  pub render_balance : BalanceJson w.Float → List (Text × Json p.Metadata w.Float)
  pub render_details : AccountDetailsJson p.Metadata w.Float → List (Text × Json p.Metadata w.Float)
  pub read_balance : List (Text × Json p.Metadata w.Float) → Option (BalanceJson w.Float)
  pub read_details :
      List (Text × Json p.Metadata w.Float) → Option (AccountDetailsJson p.Metadata w.Float)

-- The documented behaviour: what was rendered is read back.
pub record IsReads (p : Platform) (w : Encoding) (reads : Reads p w) : Type 0 where
  pub read_balance-render :
      (j : BalanceJson w.Float) → reads.read_balance (reads.render_balance j) ≡ some j
  pub read_details-render :
      (j : AccountDetailsJson p.Metadata w.Float)
      → reads.read_details (reads.render_details j) ≡ some j

module _ (p : Platform) (w : Encoding) (reads : Reads p w) where
  open p use {Metadata}
  open w use {Float}

  -- The HTTP responses of the two handlers; FastAPI renders by the serializers of the model.
  abbrev pub respond_balance : Account.Main.Reply BalanceResponse → Outcome (Json Metadata Float)
  respond_balance (Account.Main.answered status b) =
      response status (fields (reads.render_balance (balance_dump p w b)))
  respond_balance (Account.Main.http_error status detail) =
      response status (fields ((codes "detail", string detail) ∷ []))
  respond_balance (Account.Main.failed x) = response 500 (malformed (codes "Internal Server Error"))

  abbrev pub respond_json :
      ℕ → Result (AccountDetailsJson Metadata Float) → Outcome (Json Metadata Float)
  respond_json status (ok j) = response status (fields (reads.render_details j))
  respond_json status (err x) = response 500 (malformed (codes "Internal Server Error"))

  abbrev pub respond_details :
      Account.Main.Reply (AccountDetailsResponse Metadata) → Outcome (Json Metadata Float)
  respond_details (Account.Main.answered status d) = respond_json status (details_dump p w d)
  respond_details (Account.Main.http_error status detail) =
      response status (fields ((codes "detail", string detail) ∷ []))
  respond_details (Account.Main.failed x) = response 500 (malformed (codes "Internal Server Error"))

  -- `BalanceResponse.model_validate(payload)` of `HttpAccountClient.get_balance`: `none` is its
  -- validation error.
  abbrev validated : Option (BalanceJson Float) → Option BalanceResponse
  validated none = none
  validated (some j) = some (balance_validate p w j)

  unfoldable pub balance_of_body : Body (Json Metadata Float) → Option BalanceResponse
  balance_of_body (fields m) = validated (reads.read_balance m)
  balance_of_body (malformed t) = none
  balance_of_body (other j) = none

  -- `AccountDetailsResponse.model_validate(payload)` of `HttpAccountClient.get_account`.
  abbrev valid_details :
      Result (AccountDetailsResponse Metadata) → Option (AccountDetailsResponse Metadata)
  valid_details (ok d) = some d
  valid_details (err x) = none

  abbrev validated_details :
      Option (AccountDetailsJson Metadata Float) → Option (AccountDetailsResponse Metadata)
  validated_details none = none
  validated_details (some j) = valid_details (details_validate p w j)

  unfoldable pub details_of_body :
      Body (Json Metadata Float) → Option (AccountDetailsResponse Metadata)
  details_of_body (fields m) = validated_details (reads.read_details m)
  details_of_body (malformed t) = none
  details_of_body (other j) = none

  module _ (f : Frame p w) (engine : Engine Row) where
    abbrev pub at_path :
        Option Text
        → Option Text
        → Request (Json Metadata Float)
        → Account.Main.State
        → Outcome (Json Metadata Float)
    at_path (some account) _ req s = respond_balance (Account.Main.get_balance p engine account s)
    at_path none (some account) req s =
        respond_details (Account.Main.get_account p engine account s)
    at_path none none req s = f.read req s

    abbrev pub at_method :
        Method → Request (Json Metadata Float) → Account.Main.State → Outcome (Json Metadata Float)
    at_method Method.get req s =
        at_path (reads.balance_route req.path) (reads.details_route req.path) req s
    at_method Method.post req s = f.read req s

    -- The Account Service with these two routes.
    unfoldable pub read_routes :
        Request (Json Metadata Float) → Account.Main.State → Outcome (Json Metadata Float)
    read_routes req s = at_method req.method req s

    abbrev pub with_reads : Frame p w
    with_reads = record f { read = read_routes }

    -- The other routes still accept no `POST`.
    pub with_reads-IsFrame : IsFrame p w f → IsFrame p w with_reads
    unfolding read_routes
    with_reads-IsFrame h = record {
      utc_at = h.utc_at;
      refused = λ req s post unknown accepted.
          h.refused req s post unknown (subst (λ m. IsAccepted (at_method m req s)) post accepted);
    }
