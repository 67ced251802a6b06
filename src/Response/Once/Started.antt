-- ===== src/Response/Once/Started.antt =====
-- A response over any calls: its status is written once.
use proxy_rs.Prelude.{
  ℕ, ◌≡◌, refl, sym, ap, subst, Bool, true, false, none, some, List, if◌then◌else◌, Bool-cases, inl,
  inr,
}
use proxy_rs.Buffer.{is_sane}
use proxy_rs.Foreign.{to, HttpResult, set_ok, require}
use proxy_rs.Response.{
  ResponseWriter, Answer, StatusFn, BodyFn, nothing_written, marked, write_body, body_behind,
  write_status, write_bytes,
}
use proxy_rs.Response.Once.{
  Call, status, body, add, remove, call, run, Begun, Begun-with_inner, call-without, without-Begun,
  run-same,
}

-- The calls that write a status, or a body behind it.
abbrev pub writes : Call → Bool
writes (status code) = true
writes (body bytes) = true
writes (add name value) = false
writes (remove name) = false

-- What succeeded has written the status.
abbrev Started : {R : Type 0} → Answer (ResponseWriter R) → Type 0
Started none = Unit {0}
Started (some (res, w)) = res.is_ok ≡ true → w.written ≡ true

Started-at : {R : Type 0} {a a' : Answer (ResponseWriter R)} → a ≡ a' → Started a' → Started a
Started-at e h = subst (λ a. Started a) (sym e) h

Started-require :
    {R : Type 0} (test : Bool) (a : Answer (ResponseWriter R))
    → Started a
    → Started (require test a)
Started-require true a h = h
Started-require false a h = tt

Started-marked : {R : Type 0} (a : Answer (ResponseWriter R)) → Started (marked a)
Started-marked none = tt
Started-marked (some (res, w)) = λ h. rw h refl

Begun-Started : {R : Type 0} (a : Answer (ResponseWriter R)) → Begun a → Started a
Begun-Started none h = tt
Begun-Started (some (res, w)) h = λ is_ok. h

module _ {R : Type 0} (f : StatusFn R) (write_fn : BodyFn R) where
  body_behind-Started :
      (bytes : List ℕ) (a : Answer (ResponseWriter R))
      → Started a
      → Started (body_behind write_fn bytes a)
  body_behind-Started bytes none h = tt
  body_behind-Started bytes (some (res, w)) h = elim (Bool-cases res.is_ok) [
    | inl sent ↦
        Started-at (ap (λ t. if t then write_body write_fn bytes w res else some (res, w)) sent) (
          Begun-Started (write_body write_fn bytes w res)
            (Begun-with_inner w (write_fn (to w.writer) (to bytes) (to res)) (h sent)))
    | inr failed ↦
        Started-at (ap (λ t. if t then write_body write_fn bytes w res else some (res, w)) failed) h
  ]

  write_status-Started :
      (code : ℕ) (res : HttpResult ℕ) (w : ResponseWriter R)
      → w.written ≡ false
      → Started (write_status f w code res)
  unfolding write_status
  write_status-Started code res w h = Started-require (is_sane res.err) _ (
      Started-at (ap (λ t. if t then nothing_written w (set_ok 0 res) else marked (f w code res)) h)
        (Started-marked (f w code res)))

  write_bytes-Started :
      (bytes : List ℕ) (res : HttpResult ℕ) (w : ResponseWriter R)
      → w.written ≡ false
      → Started (write_bytes f write_fn w bytes res)
  unfolding write_bytes
  write_bytes-Started bytes res w h = Started-require (is_sane res.err) _ (
      Started-at
        (ap
          (λ t.
            if t
            then write_body write_fn bytes w res
            else body_behind write_fn bytes (write_status f w 200 res))
          h)
        (body_behind-Started bytes _ (write_status-Started 200 res w h)))

  call-Started :
      (c : Call) (res : HttpResult ℕ) (w : ResponseWriter R)
      → writes c ≡ true
      → Started (call f write_fn c (res, w))
  unfolding call
  call-Started (add name value) res w h = absurd cc
  call-Started (remove name) res w h = absurd cc
  call-Started (status code) res w h = elim (Bool-cases w.written) [
    | inl done ↦
        Started-at (call-without write_fn f (status code) res w done)
          (Begun-Started _ (without-Begun write_fn (status code) res w done))
    | inr not_yet ↦ write_status-Started code res w not_yet
  ]
  call-Started (body bytes) res w h = elim (Bool-cases w.written) [
    | inl done ↦
        Started-at (call-without write_fn f (body bytes) res w done)
          (Begun-Started _ (without-Begun write_fn (body bytes) res w done))
    | inr not_yet ↦ write_bytes-Started bytes res w not_yet
  ]

  -- Once a call of `http_write_status` or `http_write` has reported success, the status of the response
  -- counts as written after any further calls that do not abort, and the function that writes a status
  -- is not called again: with any other in its place, the calls do the same.
  pub run-once :
      (c : Call) (cs : List Call) (res res' : HttpResult ℕ) (w w' : ResponseWriter R)
      → writes c ≡ true
      → call f write_fn c (res, w) ≡ some (res', w')
      → res'.is_ok ≡ true
      → (g : StatusFn R)
      → (run f write_fn cs (res', w') ≡ run g write_fn cs (res', w'))
        × Begun (run f write_fn cs (res', w'))
  run-once c cs res res' w w' hc e ok g =
      run-same write_fn f g cs (some (res', w')) (Started-at (sym e) (call-Started c res w hc) ok)
