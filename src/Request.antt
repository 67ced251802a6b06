-- ===== src/Request.antt =====
-- http/src/request.rs: a request, and the exported functions that read it. The map of headers is a
-- list of names, each with its values in the order in which they came; the state of the body's
-- reader is a parameter.
pub mod Lookup
use proxy_rs.Prelude.{
  ℕ, ◌+◌, Bool, true, false, Option, none, some, List, [], ◌∷◌, length, get_elem?, if◌then◌else◌,
  bytes_eq, codes,
}
use proxy_rs.Buffer.{Buffer, is_sane, clear, copy_slice}
use proxy_rs.Foreign.{
  Pointer, null, misaligned, to, with_pointer, require, HttpResult, write_pieces,
}
use proxy_rs.Foreign.Bytes.{ConstBuffer, const_slice, const_is_sane}
use proxy_rs.Bio.{Reader, http_bio_read, http_destroy_reader}

-- `HeaderMap`
abbrev pub HeaderMap : Type 0
HeaderMap = List (List ℕ × List (List ℕ))

-- `headers.get(name)`
unfoldable pub values_of : List ℕ → HeaderMap → Option (List (List ℕ))
values_of name [] = none
values_of name ((n, vs) ∷ rest) = if bytes_eq n name then some vs else values_of name rest

abbrev pub snoc : {A : Type 0} → List A → A → List A
snoc [] x = x ∷ []
snoc (y ∷ ys) x = y ∷ snoc ys x

-- `headers.entry(name).or_insert(Vec::new()).push(value)`
unfoldable pub add_value : List ℕ → List ℕ → HeaderMap → HeaderMap
add_value name value [] = (name, value ∷ []) ∷ []
add_value name value ((n, vs) ∷ rest) =
    if bytes_eq n name then (n, snoc vs value) ∷ rest else (n, vs) ∷ add_value name value rest

-- `headers.remove(name)`
unfoldable pub remove_name : List ℕ → HeaderMap → HeaderMap
remove_name name [] = []
remove_name name ((n, vs) ∷ rest) =
    if bytes_eq n name then rest else (n, vs) ∷ remove_name name rest

pub record Request (R : Type 0) : Type 0 where
  pub method : List ℕ
  pub path : List ℕ
  pub host : List ℕ
  pub version : ℕ × ℕ
  pub headers : HeaderMap
  pub body : Reader R

-- The text of a field, copied to the buffer of the caller.
abbrev pub copy_to : Pointer Buffer → List ℕ → Option Buffer
copy_to string text = with_pointer string (λ b. require (is_sane b) (some (copy_slice b text)))

unfoldable pub http_get_method : {R : Type 0} → Pointer (Request R) → Pointer Buffer → Option Buffer
http_get_method request string = with_pointer request (λ r. copy_to string r.method)

unfoldable pub http_get_path : {R : Type 0} → Pointer (Request R) → Pointer Buffer → Option Buffer
http_get_path request string = with_pointer request (λ r. copy_to string r.path)

unfoldable pub http_get_uri : {R : Type 0} → Pointer (Request R) → Pointer Buffer → Option Buffer
http_get_uri request string = with_pointer request (λ r. with_pointer string (λ b.
    require (is_sane b) (some (write_pieces (clear b) (codes "https://" ∷ r.host ∷ r.path ∷ [])))))

-- A number is stored where the pointer is not null; one that is not aligned aborts.
abbrev pub store_at : Pointer ℕ → ℕ → Option (Pointer ℕ)
store_at null n = some null
store_at misaligned n = none
store_at (to old) n = some (to n)

abbrev pub both : {A B : Type 0} → Option A → Option B → Option (A × B)
both none b = none
both (some a) none = none
both (some a) (some b) = some (a, b)

unfoldable pub http_get_version :
    {R : Type 0} → Pointer (Request R) → Pointer ℕ → Pointer ℕ → Option (Pointer ℕ × Pointer ℕ)
http_get_version request major minor =
    with_pointer request (λ r. both (store_at major r.version.0) (store_at minor r.version.1))

abbrev pub count : Option (List (List ℕ)) → ℕ
count none = 0
count (some vs) = length vs

unfoldable pub http_get_header_count : {R : Type 0} → Pointer (Request R) → ConstBuffer → Option ℕ
http_get_header_count request name =
    with_pointer request
      (λ r. require (const_is_sane name) (some (count (values_of (const_slice name) r.headers))))

-- 0 with the value in the buffer, 1 for a name that is not there, 2 for a value that is not.
abbrev pub copy_value : Buffer → Option (List ℕ) → ℕ × Buffer
copy_value b none = (2, b)
copy_value b (some v) = (0, copy_slice b v)

abbrev pub copy_found : Buffer → ℕ → Option (List (List ℕ)) → ℕ × Buffer
copy_found b index none = (1, b)
copy_found b index (some vs) = copy_value b (get_elem? vs index)

unfoldable pub http_get_header :
    {R : Type 0} → Pointer (Request R) → ConstBuffer → ℕ → Pointer Buffer → Option (ℕ × Buffer)
http_get_header request name header_index value = with_pointer request (λ r.
    with_pointer value (λ b. require (const_is_sane name) (
      require (is_sane b)
        (some (copy_found b header_index (values_of (const_slice name) r.headers))))))

abbrev pub with_body :
    {R : Type 0}
    → Request R
    → Option (List ℕ × (HttpResult ℕ × Reader R))
    → Option (List ℕ × (HttpResult ℕ × Request R))
with_body r none = none
with_body r (some (bytes, (res, body))) = some (bytes, (res, record r { body = body }))

unfoldable pub http_read_body :
    {R : Type 0}
    → Pointer (Request R)
    → Pointer ℕ
    → Pointer (HttpResult ℕ)
    → Option (List ℕ × (HttpResult ℕ × Request R))
http_read_body request room res =
    with_pointer request (λ r. with_body r (http_bio_read (to r.body) room res))

-- What the body's clearing function leaves.
unfoldable pub http_destroy_request : {R : Type 0} → Pointer (Request R) → Option R
http_destroy_request request = with_pointer request (λ r. http_destroy_reader (to r.body))
