-- ===== src/Httpapi/Send/Silent.antt =====
-- The repeated steps that make no call, and so keep every predicate of histories.
use kt_cloud_operator.Common.{String, Option, none, some}
use kt_cloud_operator.Httpapi.Send.{
  return_error, exit_error, read_all, get_rest_config, get_client, client_or_fatal, client_or_panic,
  client_or_error,
}
use kt_cloud_operator.Runtime.Calls.{Error, Response, History}
use kt_cloud_operator.Runtime.Env.{Env}
use kt_cloud_operator.Runtime.Keeps.{Keeps, keeps_rules}

module _ {P : History → Type 0} where
  pub Keeps-return_error : (e : Option Error) → Keeps P (return_error e)
  Keeps-return_error none = search keeps_rules
  Keeps-return_error (some e) = search keeps_rules

  pub Keeps-exit_error : (e : Option Error) → Keeps P (exit_error e)
  Keeps-exit_error none = search keeps_rules
  Keeps-exit_error (some e) = search keeps_rules

  pub Keeps-read_all : (r : Response) → Keeps P (read_all r)
  unfolding read_all
  Keeps-read_all r = search (keeps_rules, Keeps-return_error)

  module _ (env : Env) where
    Keeps-get_rest_config : (path : String) → Keeps P (get_rest_config env path)
    unfolding get_rest_config
    Keeps-get_rest_config path = search (keeps_rules, Keeps-return_error)

    Keeps-client_or_fatal : Keeps P (client_or_fatal env)
    unfolding client_or_fatal get_client
    Keeps-client_or_fatal = search (keeps_rules, Keeps-return_error)

    pub Keeps-client_or_panic : Keeps P (client_or_panic env)
    unfolding client_or_panic
    Keeps-client_or_panic = search (keeps_rules, Keeps-get_rest_config, Keeps-client_or_fatal)

    pub Keeps-client_or_error : Keeps P (client_or_error env)
    unfolding client_or_error
    Keeps-client_or_error = search (keeps_rules, Keeps-get_rest_config, Keeps-client_or_fatal)

pub ruleset silent_rules = (
  keeps_rules, Keeps-return_error, Keeps-exit_error, Keeps-read_all, Keeps-client_or_panic,
  Keeps-client_or_error,
)
