-- ===== src/Protocol/Codes.antt =====
-- internal/protocol/errors.go: the error codes, and the HTTP status that a code is answered with.
-- A code is a text, since an agent may send any.
use text.Mathlib.Text.{◌==◌}
use modelrelay.Base.{ℕ, ◌≤◌, String, Bool, true, false, ◌||◌, arith, if◌then◌else◌}

abbrev pub unsupported_protocol : String
unsupported_protocol = "unsupported_protocol"

abbrev pub identity_mismatch : String
identity_mismatch = "identity_mismatch"

abbrev pub duplicate_node : String
duplicate_node = "duplicate_node"

abbrev pub unauthorized : String
unauthorized = "unauthorized"

abbrev pub invalid_path : String
invalid_path = "invalid_path"

abbrev pub invalid_method : String
invalid_method = "invalid_method"

abbrev pub invalid_request : String
invalid_request = "invalid_request"

abbrev pub body_too_large : String
body_too_large = "body_too_large"

abbrev pub model_not_found : String
model_not_found = "model_not_found"

abbrev pub capability_not_supported : String
capability_not_supported = "capability_not_supported"

abbrev pub no_available_node : String
no_available_node = "no_available_node"

abbrev pub queue_full : String
queue_full = "queue_full"

abbrev pub queue_timeout : String
queue_timeout = "queue_timeout"

abbrev pub local_busy : String
local_busy = "local_busy"

abbrev pub upstream_connection_failed : String
upstream_connection_failed = "upstream_connection_failed"

abbrev pub upstream_timeout : String
upstream_timeout = "upstream_timeout"

abbrev pub ttft_timeout : String
ttft_timeout = "ttft_timeout"

abbrev pub idle_timeout : String
idle_timeout = "idle_timeout"

abbrev pub canceled : String
canceled = "canceled"

abbrev pub draining : String
draining = "draining"

abbrev pub internal_error : String
internal_error = "internal_error"

unfoldable pub http_status : String → ℕ
http_status code =
    if code == unauthorized
    then 401
    else if code == invalid_path
    then 404
    else if code == invalid_method
    then 405
    else if code == invalid_request
    then 400
    else if code == body_too_large
    then 413
    else if code == model_not_found
    then 404
    else if code == capability_not_supported
    then 422
    else if code == queue_full
    then 429
    else if code == queue_timeout
        || code == no_available_node
        || code == local_busy
        || code == draining
    then 503
    else if code == upstream_connection_failed
    then 502
    else if code == upstream_timeout || code == ttft_timeout || code == idle_timeout
    then 504
    else if code == canceled
    then 499
    else 500

abbrev IsErrorStatus : ℕ → Type 0
IsErrorStatus n = (400 ≤ n) × (n ≤ 504)

either :
    (b : Bool) (x y : ℕ) → IsErrorStatus x → IsErrorStatus y → IsErrorStatus (if b then x else y)
either true x y hx hy = hx
either false x y hx hy = hy

-- Whatever code an agent sends, the status is one of a client or server error.
http_status-IsErrorStatus : (code : String) → IsErrorStatus (http_status code)
unfolding http_status
http_status-IsErrorStatus code = search (either, arith) depth 16
