-- ===== src/Agent/LocalClient.antt =====
-- internal/agent/localclient.go: the request to the local model server, and its health.
use text.Mathlib.Text.{◌==◌ as str_eq}
use Prim.Native.String.{◌++◌ as str_append}
use modelrelay.Base.{
  ℕ, Bool, true, false, not, String, List, [], ◌∷◌, ◌++◌, map, Option, none, some, select,
  ends_with, trim_prefix, trim_suffix, if◌then◌else◌,
}

pub record LocalClient : Type 0 where
  pub base_url : String
  pub api_key : String
  pub last_ok : Bool
  pub last_err : String

unfoldable pub new_local_client : String → String → LocalClient
new_local_client base_url api_key = record {
  base_url = trim_suffix base_url "/";
  api_key = api_key;
  last_ok = false;
  last_err = "";
}

abbrev with_query : String → String → String
with_query u query = if str_eq query "" then u else str_append u (str_append "?" query)

abbrev or_root : String → String
or_root p = if str_eq p "" then "/" else p

unfoldable pub target_url : String → String → LocalClient → String
target_url path query l =
    let p = if ends_with l.base_url "/v1" then or_root (trim_prefix path "/v1") else path in
    with_query (str_append l.base_url p) query

pub record LocalRequest : Type 0 where
  pub method : String
  pub url : String
  pub headers : List (String × String)
  pub body : List ℕ

-- `header` reads the headers of the relay's message; http.NewRequestWithContext accepts the request.
unfoldable pub build_request :
    String → String → String → (String → String) → List ℕ → LocalClient → LocalRequest
unfolding target_url
build_request method path query header body l =
    let passed =
      select (λ e. not (str_eq e.1 ""))
        (map (λ k. (k, header k))
          ("Content-Type" ∷ "Accept" ∷ "OpenAI-Beta" ∷ "Idempotency-Key" ∷ "Content-Disposition"
            ∷ [])) in
    record {
      method = method;
      url = target_url path query l;
      headers =
          if str_eq l.api_key ""
          then passed
          else passed ++ (("Authorization", str_append "Bearer " l.api_key) ∷ []);
      body = body;
    }

-- `none`: no error.
unfoldable pub record_health : Option String → LocalClient → LocalClient
record_health none l = record l { last_ok = true; last_err = "" }
record_health (some e) l = record l { last_ok = false; last_err = e }
