-- ===== src/Host/Request.antt =====
-- The request that http-host-v2.ts looks at, its checks before any call, and the reading of its body.
use kootha.Prelude.{
  ℕ, ◌+◌, ◌*◌, ◌^◌, ◌≤◌, ◌<◌, ◌≡◌, Bool, true, false, not, ◌&&◌, Option, none, some, List, [], ◌∷◌,
  ◌++◌, String, arith, ltb, ◌==◌, if◌then◌else◌, length, length-append, every, codes, str_eq,
}
use kootha.Prelude.Number.{pos, Number, integer}
use kootha.Prelude.Json.{Text, Value, arr, obj, get_field, count_items}
use kootha.Prelude.Text.{text_eq, trim, to_lower, split}
use kootha.Host.Reply.{
  Response, error, method_not_allowed, unsupported_media_type, content_encoding_unsupported,
  request_malformed, request_too_large,
}
use kootha.Host.Calls.{Outcome, value, thrown}

abbrev pub max_http_body_bytes : ℕ
max_http_body_bytes = 256 * 1024

abbrev pub max_http_events : ℕ
max_http_events = 100

-- The headers that are read (`content_length` as `Number` converts it), and the chunks of the body.
pub record Request : Type 0 where
  pub method : String
  pub content_type : Option Text
  pub content_encoding : Option Text
  pub content_length : Option Number
  pub body : Option (List (List ℕ))

content_type_parts : List Text → Bool
content_type_parts [] = false
content_type_parts (media_type ∷ parameters) =
    text_eq (to_lower (trim media_type)) (codes "application/json")
    && every (λ parameter. text_eq (to_lower (trim parameter)) (codes "charset=utf-8")) parameters

unfoldable pub content_type_is_json : Option Text → Bool
unfolding content_type_parts
content_type_is_json none = false
content_type_is_json (some header) = content_type_parts (split b';' header)

unfoldable pub encoding_is_identity : Option Text → Bool
encoding_is_identity none = true
encoding_is_identity (some header) = text_eq (to_lower (trim header)) (codes "identity")

-- The declared length: no refusal, or the one that it meets.
unfoldable pub check_length : Option Number → Option Response
check_length none = none
check_length (some (integer (pos n))) =
    if ltb n (2 ^ 53)
    then if ltb max_http_body_bytes n then some (error 413 request_too_large false none) else none
    else some (error 400 request_malformed false none)
check_length (some _) = some (error 400 request_malformed false none)

-- The refusals that need no call.
unfoldable pub precheck : Request → Option Response
precheck request =
    if not (str_eq request.method "POST")
    then some (error 405 method_not_allowed false none)
    else if not (content_type_is_json request.content_type)
    then some (error 415 unsupported_media_type false none)
    else if not (encoding_is_identity request.content_encoding)
    then some (error 415 content_encoding_unsupported false none)
    else check_length request.content_length

pub data Body : Type 0 where
  ready : Value → ℕ → Body
  too_large malformed : Body

abbrev decoded : ℕ → Option Value → Body
decoded n none = malformed
decoded n (some v) = ready v n

-- The loop of `readJsonBody`: `aborted n` is the signal before the n-th chunk, `bytes` what was read.
unfoldable pub read_chunks :
    (List ℕ → Option Value) → (ℕ → Bool) → ℕ → List ℕ → List (List ℕ) → Outcome Body
read_chunks json aborted n bytes [] =
    if aborted n
    then thrown
    else if length bytes == 0
    then value malformed
    else value (decoded (length bytes) (json bytes))
read_chunks json aborted n bytes (chunk ∷ chunks) =
    let rest = read_chunks json aborted (n + 1) (bytes ++ chunk) chunks in
    if aborted n
    then thrown
    else if ltb max_http_body_bytes (length bytes + length chunk)
    then value too_large
    else rest

-- `readJsonBody`: `json` is `JSON.parse` after the strict UTF-8 decoder, `none` where one of them throws.
unfoldable pub read_json_body :
    (List ℕ → Option Value) → (ℕ → Bool) → Option (List (List ℕ)) → Outcome Body
read_json_body json aborted none = value malformed
read_json_body json aborted (some chunks) = read_chunks json aborted 0 [] chunks

clamp_events : ℕ → ℕ
clamp_events n = if ltb max_http_events n then max_http_events else if ltb n 1 then 1 else n

events_of : Option Value → ℕ
unfolding clamp_events
events_of (some (arr items)) = clamp_events (count_items items)
events_of _ = 1

unfoldable pub estimated_event_count : Value → ℕ
unfolding events_of
estimated_event_count (obj fields) = events_of (get_field "events" fields)
estimated_event_count _ = 1

decoded_size :
    (n : ℕ) (o : Option Value) (v : Value) (size : ℕ) → decoded n o ≡ ready v size → n ≡ size
decoded_size n none v size h = cc
decoded_size n (some w) v size h = cc

-- The body that is parsed is never longer than the limit.
read_chunks_bounds :
    (json : List ℕ → Option Value) (aborted : ℕ → Bool) (n : ℕ) (bytes : List ℕ)
    (chunks : List (List ℕ)) (v : Value) (size : ℕ)
    → read_chunks json aborted n bytes chunks ≡ value (ready v size)
    → length bytes ≤ max_http_body_bytes
    → (size ≤ max_http_body_bytes) × (0 < size)
unfolding read_chunks
read_chunks_bounds json aborted n bytes [] v size h l =
    ground (arith, decoded_size (length bytes) (json bytes) v size)
read_chunks_bounds json aborted n bytes (chunk ∷ chunks) v size h l = ground (
  arith,
  length-append bytes chunk,
  read_chunks_bounds json aborted (n + 1) (bytes ++ chunk) chunks v size,
)

-- A body that is handed on has between one byte and the limit of 256 KiB, however it is cut in chunks.
pub read_json_body_bounds :
    (json : List ℕ → Option Value) (aborted : ℕ → Bool) (body : Option (List (List ℕ))) (v : Value)
    (size : ℕ)
    → read_json_body json aborted body ≡ value (ready v size)
    → (size ≤ max_http_body_bytes) × (0 < size)
unfolding read_json_body
read_json_body_bounds json aborted none v size h = cc
read_json_body_bounds json aborted (some chunks) v size h =
    read_chunks_bounds json aborted 0 [] chunks v size h (omega arith)
