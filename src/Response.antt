-- ===== src/Response.antt =====
-- http/src/response.rs: a response that is being written. The function that writes the status, and
-- the one that writes the body, are given when the writer is made, and are parameters here.
pub mod Reason
pub mod Once
use proxy_rs.Prelude.{
  ℕ, ◌+◌, Bool, true, false, not, ◌&&◌, ◌||◌, Option, none, some, List, [], ◌∷◌, length, leb, ◌==◌,
  if◌then◌else◌,
}
use proxy_rs.Buffer.{is_sane}
use proxy_rs.Foreign.{Pointer, to, with_pointer, require, HttpResult, set_ok}
use proxy_rs.Foreign.Bytes.{ConstBuffer, const_slice, const_is_sane}
use proxy_rs.Bio.{Writer, http_destroy_writer}
use proxy_rs.Request.{HeaderMap, values_of, add_value, remove_name}

pub record ResponseWriter (R : Type 0) : Type 0 where
  pub writer : Writer R
  pub headers : HeaderMap
  pub written : Bool

-- The result and the writer after a call.
abbrev pub Answer : Type 0 → Type 0
Answer W = Option (HttpResult ℕ × W)

abbrev pub StatusFn : Type 0 → Type 0
StatusFn R = ResponseWriter R → ℕ → HttpResult ℕ → Answer (ResponseWriter R)

-- `WriteFn`, the writer behind a pointer.
abbrev pub BodyFn : Type 0 → Type 0
BodyFn R = Pointer (Writer R) → Pointer (List ℕ) → Pointer (HttpResult ℕ) → Answer (Writer R)

-- `http_custom_response_writer`; `http_new_response_writer` is the one with `http_bio_write`.
unfoldable pub http_custom_response_writer :
    {R : Type 0} → Pointer (Writer R) → Option (ResponseWriter R)
http_custom_response_writer writer =
    with_pointer writer (λ w. some (record { writer = w; headers = []; written = false }))

-- `written` is set once the status has been written.
abbrev pub marked : {R : Type 0} → Answer (ResponseWriter R) → Answer (ResponseWriter R)
marked none = none
marked (some (res, w)) = some (res, if res.is_ok then record w { written = true } else w)

abbrev pub nothing_written :
    {R : Type 0} → ResponseWriter R → Option (HttpResult ℕ) → Answer (ResponseWriter R)
nothing_written w none = none
nothing_written w (some res) = some (res, w)

unfoldable pub write_status :
    {R : Type 0} → StatusFn R → ResponseWriter R → ℕ → HttpResult ℕ → Answer (ResponseWriter R)
write_status status_fn w status res =
    require (is_sane res.err)
      (if w.written then nothing_written w (set_ok 0 res) else marked (status_fn w status res))

unfoldable pub http_write_status :
    {R : Type 0}
    → StatusFn R
    → Pointer (ResponseWriter R)
    → ℕ
    → Pointer (HttpResult ℕ)
    → Answer (ResponseWriter R)
unfolding write_status
http_write_status status_fn writer status res =
    with_pointer writer (λ w. with_pointer res (λ r. write_status status_fn w status r))

-- The body function called on the writer inside.
abbrev pub with_inner :
    {R : Type 0} → ResponseWriter R → Answer (Writer R) → Answer (ResponseWriter R)
with_inner w none = none
with_inner w (some (res, inner)) = some (res, record w { writer = inner })

abbrev pub write_body :
    {R : Type 0} → BodyFn R → List ℕ → ResponseWriter R → HttpResult ℕ → Answer (ResponseWriter R)
write_body write_fn bytes w res = with_inner w (write_fn (to w.writer) (to bytes) (to res))

-- The body behind a status, unless that failed.
abbrev pub body_behind :
    {R : Type 0} → BodyFn R → List ℕ → Answer (ResponseWriter R) → Answer (ResponseWriter R)
body_behind write_fn bytes none = none
body_behind write_fn bytes (some (res, w)) =
    if res.is_ok then write_body write_fn bytes w res else some (res, w)

unfoldable pub write_bytes :
    {R : Type 0}
    → StatusFn R
    → BodyFn R
    → ResponseWriter R
    → List ℕ
    → HttpResult ℕ
    → Answer (ResponseWriter R)
unfolding write_status
write_bytes status_fn write_fn w bytes res = require (is_sane res.err) (
    if w.written
    then write_body write_fn bytes w res
    else body_behind write_fn bytes (write_status status_fn w 200 res))

unfoldable pub http_write :
    {R : Type 0}
    → StatusFn R
    → BodyFn R
    → Pointer (ResponseWriter R)
    → Pointer (List ℕ)
    → Pointer (HttpResult ℕ)
    → Answer (ResponseWriter R)
unfolding write_bytes
http_write status_fn write_fn writer bytes res =
    with_pointer writer
      (λ w. with_pointer bytes (λ d. with_pointer res (λ r. write_bytes status_fn write_fn w d r)))

-- `make_ascii_lowercase`
abbrev pub to_lower : ℕ → ℕ
to_lower c = if leb b'A' c && leb c b'Z' then c + 32 else c

abbrev pub lower_case : List ℕ → List ℕ
lower_case [] = []
lower_case (c ∷ cs) = to_lower c ∷ lower_case cs

abbrev pub is_there : Option (List (List ℕ)) → Bool
is_there none = false
is_there (some vs) = true

-- An empty value is added only under a name that is not there yet.
unfoldable pub add_header : List ℕ → List ℕ → HeaderMap → HeaderMap
add_header name value headers =
    let lower = lower_case name in
    if length name == 0
    then headers
    else if not (is_there (values_of lower headers)) || not (length value == 0)
    then add_value lower value headers
    else headers

unfoldable pub http_add_header :
    {R : Type 0}
    → Pointer (ResponseWriter R)
    → ConstBuffer
    → ConstBuffer
    → Option (ResponseWriter R)
unfolding add_header
http_add_header writer name value = with_pointer writer (λ w.
    require (const_is_sane name && const_is_sane value)
      (some (record w { headers = add_header (const_slice name) (const_slice value) w.headers })))

unfoldable pub http_remove_header :
    {R : Type 0} → Pointer (ResponseWriter R) → ConstBuffer → Option (ResponseWriter R)
http_remove_header writer header = with_pointer writer (λ w.
    require (const_is_sane header)
      (some (record w { headers = remove_name (const_slice header) w.headers })))

-- What the clearing function of the writer inside leaves.
unfoldable pub http_destroy_response_writer : {R : Type 0} → Pointer (ResponseWriter R) → Option R
http_destroy_response_writer writer = with_pointer writer (λ w. http_destroy_writer (to w.writer))
