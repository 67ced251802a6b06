-- ===== src/Response/Once.antt =====
-- The calls of a program on a response, one after another, once its status is written.
pub mod Started
use proxy_rs.Prelude.{
  ℕ, ◌≡◌, ◌∙◌, refl, sym, ap, subst, Bool, true, false, Option, none, some, List, [], ◌∷◌,
  if◌then◌else◌, Bool-cases, inl, inr,
}
use proxy_rs.Buffer.{is_sane}
use proxy_rs.Foreign.{to, HttpResult, set_ok, require}
use proxy_rs.Request.{remove_name}
use proxy_rs.Response.{
  ResponseWriter, Answer, StatusFn, BodyFn, nothing_written, marked, with_inner, write_body,
  body_behind, write_status, write_bytes, add_header,
}

-- The calls of a program that has a response to write.
pub data Call : Type 0 where
  status : ℕ → Call
  body : List ℕ → Call
  add : List ℕ → List ℕ → Call
  remove : List ℕ → Call

-- What a call does; those on headers leave the result alone.
unfoldable pub call :
    {R : Type 0}
    → StatusFn R
    → BodyFn R
    → Call
    → HttpResult ℕ × ResponseWriter R
    → Answer (ResponseWriter R)
unfolding write_status write_bytes add_header
call status_fn write_fn (status code) (res, w) = write_status status_fn w code res
call status_fn write_fn (body bytes) (res, w) = write_bytes status_fn write_fn w bytes res
call status_fn write_fn (add name value) (res, w) =
    some (res, record w { headers = add_header name value w.headers })
call status_fn write_fn (remove name) (res, w) =
    some (res, record w { headers = remove_name name w.headers })

abbrev pub and_on : {A B : Type 0} → Option A → (A → Option B) → Option B
and_on none k = none
and_on (some a) k = k a

-- Calls one after another, each with the result object of the one before.
unfoldable pub run :
    {R : Type 0}
    → StatusFn R
    → BodyFn R
    → List Call
    → HttpResult ℕ × ResponseWriter R
    → Answer (ResponseWriter R)
unfolding call
run status_fn write_fn [] s = some s
run status_fn write_fn (c ∷ cs) s = and_on (call status_fn write_fn c s) (run status_fn write_fn cs)

-- The status has been written, unless the call aborted.
abbrev pub Begun : {R : Type 0} → Answer (ResponseWriter R) → Type 0
Begun none = Unit {0}
Begun (some (res, w)) = w.written ≡ true

pub Begun-with_inner :
    {R : Type 0} (w : ResponseWriter R) (a : Answer _) → w.written ≡ true → Begun (with_inner w a)
Begun-with_inner w none h = tt
Begun-with_inner w (some (res, inner)) h = h

Begun-nothing :
    {R : Type 0} (w : ResponseWriter R) (a : Option (HttpResult ℕ))
    → w.written ≡ true
    → Begun (nothing_written w a)
Begun-nothing w none h = tt
Begun-nothing w (some res) h = h

Begun-require :
    {R : Type 0} (test : Bool) (a : Answer (ResponseWriter R)) → Begun a → Begun (require test a)
Begun-require true a h = h
Begun-require false a h = tt

Begun-at : {R : Type 0} {a a' : Answer (ResponseWriter R)} → a ≡ a' → Begun a' → Begun a
Begun-at e h = subst (λ a. Begun a) (sym e) h

module _ {R : Type 0} (write_fn : BodyFn R) where
  -- A call on a writer whose status is written has no use for the function that writes it.
  abbrev pub without : Call → HttpResult ℕ × ResponseWriter R → Answer (ResponseWriter R)
  without (status code) (res, w) = require (is_sane res.err) (nothing_written w (set_ok 0 res))
  without (body bytes) (res, w) = require (is_sane res.err) (write_body write_fn bytes w res)
  without (add name value) (res, w) =
      some (res, record w { headers = add_header name value w.headers })
  without (remove name) (res, w) = some (res, record w { headers = remove_name name w.headers })

  pub call-without :
      (f : StatusFn R) (c : Call) (res : HttpResult ℕ) (w : ResponseWriter R)
      → w.written ≡ true
      → call f write_fn c (res, w) ≡ without c (res, w)
  unfolding call
  call-without f (status code) res w h =
      ap
        (λ t.
          require (is_sane res.err)
            (if t then nothing_written w (set_ok 0 res) else marked (f w code res)))
        h
  call-without f (body bytes) res w h =
      ap
        (λ t. require (is_sane res.err) (
          if t
          then write_body write_fn bytes w res
          else body_behind write_fn bytes (write_status f w 200 res)))
        h
  call-without f (add name value) res w h = refl
  call-without f (remove name) res w h = refl

  pub without-Begun :
      (c : Call) (res : HttpResult ℕ) (w : ResponseWriter R)
      → w.written ≡ true
      → Begun (without c (res, w))
  without-Begun (status code) res w h =
      Begun-require (is_sane res.err) _ (Begun-nothing w (set_ok 0 res) h)
  without-Begun (body bytes) res w h =
      Begun-require (is_sane res.err) _
        (Begun-with_inner w (write_fn (to w.writer) (to bytes) (to res)) h)
  without-Begun (add name value) res w h = h
  without-Begun (remove name) res w h = h

  pub run-same :
      (f g : StatusFn R) (cs : List Call) (a : Answer (ResponseWriter R))
      → Begun a
      → (and_on a (run f write_fn cs) ≡ and_on a (run g write_fn cs))
        × Begun (and_on a (run f write_fn cs))
  unfolding run
  run-same f g cs none h = (refl, tt)
  run-same f g [] (some (res, w)) h = (refl, h)
  run-same f g (c ∷ cs) (some (res, w)) h =
      let e = call-without f c res w h in
      let e' = call-without g c res w h in
      let (same, b) = run-same f g cs (without c (res, w)) (without-Begun c res w h) in
      (
        ap (λ a. and_on a (run f write_fn cs)) e
            ∙ same
            ∙ ap (λ a. and_on a (run g write_fn cs)) (sym e'),
        Begun-at (ap (λ a. and_on a (run f write_fn cs)) e) b,
      )
