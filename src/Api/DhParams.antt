-- ===== src/Api/DhParams.antt =====
-- api/routes/dhparams.go: the handlers of /dhparams. Decoding and checking the parameters is
-- the work of a library.
use statiko.Base.{String, ◌<>◌, ◌==◌, Bool, ◌⊎◌, inl, inr, Option, none, some, if◌then◌else◌}
use statiko.Base.Exec.{Error}
use statiko.State.Types.{Time}
use statiko.State.Store.{StateStore}
use statiko.State.Manager.Status.{get_dhparams, set_dhparams}
use statiko.Api.Handler.{Node, Flow, go, abort, abort_500, continue, and_then, call, bind_flow}
use statiko.Api.Sites.{Env}

-- `dhparam.Decode`, `Check` and `ToPEM`.
pub record DhLib : Type 1 where
  pub Params : Type 0
  pub decode : String → Error ⊎ Params
  pub check : Params → Bool
  pub to_pem : Params → Error ⊎ String

-- `dhParamsResponse`; `kind` is the field `Type`.
pub record DhParamsResponse : Type 0 where
  pub kind : String
  pub date : Option Time
  pub generating : Bool

module _ (S : StateStore) (lib : DhLib) (default : String) (e : Env) where
  abbrev pub decoded_params : Error ⊎ lib.Params → Flow lib.Params
  decoded_params (inl x) = abort 400 "Invalid DH parameters"
  decoded_params (inr dh) = if lib.check dh then go dh else abort 400 "Invalid DH parameters"

  abbrev pub encoded_params : Error ⊎ String → Flow String
  encoded_params (inl x) = abort_500
  encoded_params (inr pem) = go pem

  -- The tests of `DHParamsSetHandler`: what is to be stored.
  unfoldable pub checked_params : String → Flow String
  checked_params text =
      if text == ""
      then abort 400 "'dhparams' field must not be empty"
      else bind_flow (decoded_params (lib.decode text)) (λ dh. encoded_params (lib.to_pem dh))

  -- `DHParamsSetHandler`
  unfoldable pub dhparams_set : Error ⊎ String → Node S → Flow (Unit {0}) × Node S
  dhparams_set (inl x) n = (abort 400 ("Invalid request body: " <> x), n)
  dhparams_set (inr text) n =
      continue S (checked_params text) (λ pem. call S (set_dhparams S default e.now pem)) n

  abbrev pub dhparams_response : Bool → String × Option Time → DhParamsResponse
  dhparams_response generating (pem, none) = record {
    kind = "builtin";
    date = none;
    generating = generating;
  }
  dhparams_response generating (pem, some t) = record {
    kind = "cluster";
    date = some t;
    generating = generating;
  }

  -- `DHParamsGetHandler`
  unfoldable pub dhparams_get : Node S → Flow DhParamsResponse × Node S
  dhparams_get =
      and_then S (call S (get_dhparams S default))
        (λ p n. (go (dhparams_response n.manager.dhparams_generating p), n))
