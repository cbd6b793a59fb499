-- ===== src/Httpapi/Login.antt =====
-- cmd/httpapi/login.go: the login at KT Cloud, and the object that keeps its token.
pub mod Renewals
use kt_cloud_operator.Common.{
  String, ◌<>◌, Bool, not, List, [], ◌∷◌, Option, none, some, if◌then◌else◌, ◌==◌, is_2xx,
}
use kt_cloud_operator.Api.{NamespacedName, KtSubjectToken, KtSubjectTokenStatus}
use kt_cloud_operator.Httpapi.Types.{AuthRequest, LoginToken}
use kt_cloud_operator.Httpapi.Send.{plain_headers, api_url, exit_error, client_or_panic}
use kt_cloud_operator.Runtime.Calls.{Error, Method, Body, Request, Response, Object, Kind, Call}
use kt_cloud_operator.Runtime.Env.{Env}
use kt_cloud_operator.Runtime.Effects.{
  M, pure, panics, fatal, gets, lift, perform, perform_check, catch, ◌>>=◌, ◌>>◌,
}

-- The inner loop: the last of the header's values.
unfoldable pub last_value : String → List String → String
last_value token [] = token
last_value token (value ∷ values) = last_value value values

-- The loop over the response's headers.
unfoldable pub subject_token_of : String → List (String × List String) → String
unfolding last_value
subject_token_of token [] = token
subject_token_of token ((key, values) ∷ headers) =
    let found = subject_token_of (last_value token values) headers in
    let passed = subject_token_of token headers in
    if key == "X-Subject-Token" then found else passed

-- A type assertion without `ok`.
abbrev pub assert : {A : Type 0} → Option A → M A
assert (some a) = pure a
assert none = panics "interface conversion"

abbrev pub token_name : NamespacedName
token_name = record { name = "ktcloudtoken"; namespace = "default" }

-- `tokenObj`
unfoldable pub token_object : String → String → Bool → String → KtSubjectToken
token_object subject_token expires_at is_domain time = record {
  type_meta = record { api_version = ""; kind = "" };
  meta = record {
    name = token_name.name;
    namespace = token_name.namespace;
    uid = "";
    resource_version = "";
    labels = [];
    annotations = [];
    owner_references = [];
  };
  spec = record {
    subject_token = subject_token;
    token = record { expires_at = expires_at; is_domain = is_domain };
    cluster_ref = record { api_version = ""; kind = ""; name = "" };
  };
  status = record {
    subject_token = subject_token;
    token = record { expires_at = expires_at; is_domain = is_domain };
    created_at = time;
  };
}

module _ (env : Env) where
  -- `authRequest`
  unfoldable pub auth_request : AuthRequest
  auth_request = record {
    auth = record {
      identity = record {
        methods = env.config.identity_methods ∷ [];
        password = record {
          user = record {
            domain = record { id = env.config.identity_password_user_domain_id };
            name = env.config.identity_password_user_name;
            password = env.config.identity_password;
          };
        };
      };
      scope = record {
        project = record {
          domain = record { id = env.config.scope_project_domain_id };
          name = env.config.scope_project_name;
        };
      };
    };
  }

  -- Where the object exists, its status is replaced. Every error is only logged.
  unfoldable pub store_token : KtSubjectToken → M (Unit {0})
  store_token token =
      catch (perform (Call.get Kind.token token_name) (λ h. env.get_token h token_name))
        (λ existing.
          let renewed : KtSubjectToken = record existing { status = token.status } in
          catch
            (perform_check (Call.update_status (Object.token renewed))
              (λ h. env.update_status h (Object.token renewed)))
            (λ _. pure tt) (λ _. pure tt))
        (λ e.
          if e.not_found
          then catch
              (perform_check (Call.create (Object.token token))
                (λ h. env.create h (Object.token token)))
              (λ _. pure tt) (λ _. pure tt)
          else pure tt)

  unfoldable pub create_token_object : String → String → M (Unit {0})
  create_token_object subject_token response_body =
      catch (lift (env.unmarshal_token response_body))
        (λ parsed. do
          token ← assert parsed
          expires_at ← assert token.expires_at
          is_domain ← assert token.is_domain
          time ← gets env.now
          store_token (token_object subject_token expires_at is_domain time))
        (λ _. pure tt)

  abbrev pub login_request : Request
  login_request = record {
    method = Method.post;
    url = api_url env "/identity/auth/tokens";
    headers = plain_headers;
    body = Body.auth auth_request;
  }

  -- What follows the response. `Fatal` ends the process.
  unfoldable pub handle_login : Response → M (Unit {0})
  handle_login response = if not (is_2xx response.status_code) then fatal else do
    exit_error response.read_error
    client_or_panic env
    create_token_object (subject_token_of "" response.headers) response.body

  unfoldable pub kt_cloud_login : M (Unit {0})
  kt_cloud_login = do
    exit_error (env.new_request Method.post (login_request).url)
    catch (perform (Call.http login_request) (λ h. env.do_request h login_request)) handle_login
        (λ _. fatal)
