-- ===== src/Http2/Frame/RoundTrip/Sizes.antt =====
-- The lengths of the frames with a payload, and what a read leaves in a buffer.
use proxy_rs.Prelude.{
  ℕ, ◌+◌, ◌^◌, ◌≤◌, ◌<◌, ◌≡◌, ◌∙◌, refl, ap, Bool, Option, none, some, List, [], ◌∷◌, ◌++◌, length,
  replicate, arith, length-append, length-replicate, take-zero, take, sym, if◌then◌else◌,
}
use proxy_rs.Prelude.Bytes.{to_be_bytes, length-to_be_bytes}
use proxy_rs.Buffer.{Buffer, IsValid, as_slice, bytes_of, reserve_len, reserve}
use proxy_rs.Buffer.Contents.{reserve-IsReserved}
use proxy_rs.Io.{ErrorCode}
use proxy_rs.Http2.Error.{error_value}
use proxy_rs.Http2.Frame.Wire.{dep_word}
use proxy_rs.Http2.Frame.Body.{store}
use proxy_rs.Http2.Frame.Body.Laws.{store-IsValid, store-as_slice, resized-IsValid}
use proxy_rs.Http2.Frame.Data.{DataFrame}
use proxy_rs.Http2.Frame.Data.RoundTrip.{IsPadding, pad_extra}
use proxy_rs.Http2.Frame.GoAway.{GoAwayFrame}
use proxy_rs.Http2.Frame.Continuation.{ContinuationFrame}
use proxy_rs.Http2.Frame.Headers.{HeaderFrame, Priority, end_flags}
use proxy_rs.Http2.Frame.Headers.Wire.{
  priority_or_default, priority_extra, priority_prefix, pad_prefix, wire_padding, IsPriority,
}
use proxy_rs.Http2.Frame.Data
use proxy_rs.Http2.Frame.GoAway
use proxy_rs.Http2.Frame.Continuation
use proxy_rs.Http2.Frame.Headers
use proxy_rs.Http2.Frame.RoundTrip.{length-frame}

-- A valid buffer that holds exactly these bytes.
abbrev pub Holds : Buffer → List ℕ → Type 0
Holds b bytes = IsValid b × (as_slice b ≡ bytes)

pub filled :
    (b : Buffer) (payload : List ℕ)
    → IsValid b
    → length payload < 2 ^ 24
    → Holds
        (store (record (reserve_len b (length payload)) { len = length payload }) 0 payload)
        payload
filled b payload v h =
    let b' = record (reserve_len b (length payload)) { len = length payload } in
    let v' : IsValid b' = resized-IsValid b (length payload) v (omega arith) in
    (
      store-IsValid b' 0 payload v' (omega arith),
      store-as_slice b' 0 payload v' (omega arith) ∙ rw take-zero refl,
    )

pub extended :
    (b : Buffer) (payload : List ℕ)
    → IsValid b
    → b.len + length payload ≤ 2 ^ 63
    → Holds
        (store (record (reserve b (length payload)) { len = b.len + length payload }) b.len payload)
        (as_slice b ++ payload)
extended b payload v h =
    let n = length payload in
    let r = reserve-IsReserved b v n (omega arith) in
    let b' = record (reserve b n) { len = b.len + n } in
    let v' : IsValid b' = record {
      fits = r.roomy;
      sized = r.valid.sized;
      null = r.valid.null;
      bounded = r.valid.bounded;
      answers = r.valid.answers;
    } in
    (
      store-IsValid b' b.len payload v' (omega arith),
      store-as_slice b' b.len payload v' refl
          ∙ ap (λ t. t ++ payload)
              (ap (λ i. take i (bytes_of (reserve b n).memory)) (sym r.same_len) ∙ r.same_slice),
    )

pub length-data :
    (id : ℕ) (pad : Option ℕ) (payload : List ℕ) (is_end : Bool) (room : ℕ)
    → 9 + (length payload + pad_extra pad) ≤ room
    → length (Data.RoundTrip.wire_frame id pad payload is_end) ≤ room
length-data id none payload is_end room h =
    omega (arith, length-frame (length payload + 0) 0 (Data.frame_flags none is_end) id payload)
length-data id (some pad) payload is_end room h = omega (
  arith,
  length-frame (length payload + (pad + 1)) 0 (Data.frame_flags (some pad) is_end) id
      (pad ∷ (payload ++ replicate pad 0)),
  length-append payload (replicate pad 0),
  length-replicate {0} {A = ℕ} pad 0,
)

pub length-go_away :
    (id : ℕ) (code : ErrorCode) (payload : List ℕ) (room : ℕ)
    → 17 + length payload ≤ room
    → length (GoAway.RoundTrip.wire_frame id code payload) ≤ room
length-go_away id code payload room h =
    let word = to_be_bytes 4 (error_value code) in
    omega (
      arith,
      length-frame (length payload + 8) 7 0 0 (to_be_bytes 4 id ++ (word ++ payload)),
      length-append (to_be_bytes 4 id) (word ++ payload),
      length-append word payload,
      length-to_be_bytes 4 id,
      length-to_be_bytes 4 (error_value code),
    )

pub length-continuation :
    (id : ℕ) (is_end : Bool) (payload : List ℕ) (room : ℕ)
    → 9 + length payload ≤ room
    → length (Continuation.RoundTrip.wire_frame id is_end payload) ≤ room
length-continuation id is_end payload room h =
    omega (arith, length-frame (length payload) 9 (if is_end then 4 else 0) id payload)

length-prefixes :
    (pad : Option ℕ) (priority : Option Priority) (payload : List ℕ)
    → length (pad_prefix pad ++ (priority_prefix priority ++ (payload ++ wire_padding pad)))
      ≡ length payload + Headers.Wire.pad_extra pad + priority_extra priority
length-prefixes none none payload = omega (arith, length-append payload [])
length-prefixes none (some p) payload =
    let word = to_be_bytes 4 (dep_word p.exclusive p.dep) in
    omega (
      arith,
      length-append (word ++ (p.weight ∷ [])) (payload ++ []),
      length-append word (p.weight ∷ []),
      length-append payload [],
      length-to_be_bytes 4 (dep_word p.exclusive p.dep),
    )
length-prefixes (some pad) none payload =
    omega (arith, length-append payload (replicate pad 0), length-replicate {0} {A = ℕ} pad 0)
length-prefixes (some pad) (some p) payload =
    let word = to_be_bytes 4 (dep_word p.exclusive p.dep) in
    omega (
      arith,
      length-append (word ++ (p.weight ∷ [])) (payload ++ replicate pad 0),
      length-append word (p.weight ∷ []),
      length-append payload (replicate pad 0),
      length-to_be_bytes 4 (dep_word p.exclusive p.dep),
      length-replicate {0} {A = ℕ} pad 0,
    )

pub length-headers :
    (id : ℕ) (pad : Option ℕ) (priority : Option Priority) (ends : ℕ) (payload : List ℕ) (room : ℕ)
    → 9 + (length payload + Headers.Wire.pad_extra pad + priority_extra priority) ≤ room
    → length (Headers.Wire.wire_frame id pad priority ends payload) ≤ room
length-headers id pad priority ends payload room h = omega (
  arith,
  length-frame (length payload + Headers.Wire.pad_extra pad + priority_extra priority) 1
      (Headers.Wire.frame_flags pad priority ends) id
      (pad_prefix pad ++ (priority_prefix priority ++ (payload ++ wire_padding pad))),
  length-prefixes pad priority payload,
)
