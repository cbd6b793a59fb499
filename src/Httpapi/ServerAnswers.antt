-- ===== src/Httpapi/ServerAnswers.antt =====
-- What the cloud answers where cmd/httpapi asks for a server to be created, or for one it has.
use kt_cloud_operator.Common.{String, ◌≡◌, refl, ◌<>◌, true, ◌∷◌, Option, none, some, is_2xx, List}
use kt_cloud_operator.Httpapi.Types.{ServerResponse}
use kt_cloud_operator.Httpapi.Send.{api_url, send, read_all, return_error}
use kt_cloud_operator.Runtime.Calls.{Error, Method, Body, Request, Response, History, http}
use kt_cloud_operator.Runtime.Env.{Env, Result, value, failure}
use kt_cloud_operator.Runtime.Effects.{lift, perform, pure, throw, ◌>>=◌}
use kt_cloud_operator.Runtime.Keeps.{Allows, Keeps-check}
use kt_cloud_operator.Runtime.Hoare.{Ends, Triple, Triple-after_Keeps}

module _ (env : Env) where
  abbrev pub Posts : Request → Type 0
  Posts q = (q.method ≡ Method.post) × (q.url ≡ api_url env "/server/servers")

  abbrev pub Gets : String → Request → Type 0
  Gets id q = (q.method ≡ Method.get) × (q.url ≡ api_url env "/server/servers/" <> id)

  -- The cloud has answered a request of this kind with success and a body that decodes to this.
  pub record Answered (Asks : Request → Type 0) (s : ServerResponse) : Type 0 where
    pub calls : History
    pub request : Request
    pub asks : Asks request
    pub response : Response
    pub answered : env.do_request calls request ≡ value response
    pub accepted : is_2xx response.status_code ≡ true
    pub parsed : env.unmarshal_server response.body ≡ value s

  abbrev pub IsAnswer : Request → Response → Type 0
  IsAnswer q r = (h : History) × (env.do_request h q ≡ value r)

  module _ (P : History → Type 0) where
    do_request_at :
        (q : Request) (h : History) (r : Result Response)
        → env.do_request h q ≡ r
        → P (http q ∷ h)
        → Ends (λ a k. P k × IsAnswer q a) P (lift r (http q ∷ h))
    unfolding lift
    do_request_at q h (value a) e p = (p, (h, e))
    do_request_at q h (failure x) e p = p

    do_request-Triple :
        (q : Request)
        → Allows P (http q)
        → Triple P (λ a k. P k × IsAnswer q a) P (perform (http q) (λ h. env.do_request h q))
    unfolding perform
    do_request-Triple q allowed = record { at = λ h p. do_request_at q h _ refl (allowed h p) }

    -- A response is an answer to the request that was sent.
    pub send-Triple :
        (method : Method) (url : String) (headers : List (String × String)) (body : Body)
        → Allows P (http (record { method = method; url = url; headers = headers; body = body }))
        → Triple P
            (λ a k.
              P k
              × IsAnswer (record { method = method; url = url; headers = headers; body = body }) a)
            P
            (send env method url headers body)
    unfolding send
    send-Triple method url headers body allowed =
        Triple-after_Keeps (Keeps-check _) (λ h p. p) (λ _. do_request-Triple _ allowed)

module _ {P : History → Type 0} where
  read_at :
      (r : Response) (e : Option Error)
      → Triple P (λ body h. P h × (body ≡ r.body)) P (return_error e >>= (λ _. pure r.body))
  unfolding ◌>>=◌ pure throw
  read_at r none = record { at = λ h p. (p, refl) }
  read_at r (some e) = record { at = λ h p. p }

  -- What is read is the response's body.
  pub read_all-Triple : (r : Response) → Triple P (λ body h. P h × (body ≡ r.body)) P (read_all r)
  unfolding read_all
  read_all-Triple r = read_at r r.read_error
