-- ===== src/Sender/Requests/Guarded.antt =====
-- Which requests may change the table of jobs, and what they leave of it.
use clawside.Common.{
  ℕ, String, Bool, true, false, not, ◌&&◌, Option, none, some, ◌≡◌, ◌⊎◌, inl, inr, refl, arith,
  if◌then◌else◌, str_eq,
}
use clawside.Common.Int.{ℤ}
use clawside.Sender.Text.{is_blank_text}
use clawside.Sender.Store.{Store, Job}
use clawside.Sender.Worker.Budget.{IsSound}
use clawside.Sender.Submit.{SendCommand, SendService, Result, ok, err, submit}
use clawside.Sender.Submit.Accepted.{submit-IsSound}
use clawside.Sender.Requests.{
  HttpHandler, new_http_handler, Request, Surroundings, authorized, is_post, strip_prefix,
  send_answer, submit_body, handle_send, serve_rest, serve_http,
}

if-first {ℓ} :
    {A : Type ℓ} (P : Store → Type 0) (b : Bool) (p q : Store × A)
    → (b ≡ true → P p.0)
    → (b ≡ false → P q.0)
    → P (if b then p else q).0
if-first P true p q then_ else_ = then_ refl
if-first P false p q then_ else_ = else_ refl

send_answer-store : (p : Store × Result Job) → (send_answer p).0 ≡ p.0
send_answer-store (s, err e) = refl
send_answer-store (s, ok job) = refl

submit_body-IsSound :
    (to_lower : String → String) (h : HttpHandler) (s : Store) (body : Option SendCommand) (now : ℕ)
    → IsSound s
    → IsSound (submit_body to_lower h s body now).0
submit_body-IsSound to_lower h s none now v = v
submit_body-IsSound to_lower h s (some req) now v =
    rw (send_answer-store (submit to_lower h.send_service s req now))
      (submit-IsSound to_lower h.send_service s req now v)

module _ (parse_int : String → Option ℤ) (redact to_lower : String → String) (h : HttpHandler)
    (x : Surroundings) (s : Store) (r : Request) where
  -- The table stays, or the request is an authorized POST and its body is submitted.
  abbrev Writes : Store → Type 0
  Writes s' =
      (s' ≡ s)
      ⊎ ((is_post r.method ≡ true)
          × (authorized h r.authorization ≡ true)
          × (s' ≡ (submit_body to_lower h s r.body x.now).0))

  send-Writes : Writes (handle_send to_lower h x s r).0
  unfolding handle_send
  send-Writes =
      if-first Writes (not (is_post r.method)) _ _ (λ _. inl refl)
        λ p.
          if-first Writes (not (authorized h r.authorization)) _ _ (λ _. inl refl)
            λ a. inr (ground arith, ground arith, refl)

  rest-Writes :
      (rest : Option String) → Writes (serve_rest parse_int redact to_lower h x s r rest).0
  rest-Writes (some id) = inl refl
  rest-Writes none = if-first Writes (str_eq r.path "/send") _ _ (λ _. send-Writes) (λ _. inl refl)

  serve-Writes : Writes (serve_http parse_int redact to_lower h x s r).0
  unfolding serve_http
  serve-Writes =
      if-first Writes (str_eq r.path "/healthz") _ _ (λ _. inl refl)
        λ _.
          if-first Writes (str_eq r.path "/readyz") _ _ (λ _. inl refl)
            λ _.
              if-first Writes (str_eq r.path "/stats") _ _ (λ _. inl refl)
                λ _.
                  if-first Writes (str_eq r.path "/jobs") _ _ (λ _. inl refl)
                    λ _. rest-Writes (strip_prefix "/jobs/" r.path)

  -- A request changes the table only if its method is POST and it is authorized, whatever its path.
  pub serve-guarded :
      (is_post r.method && authorized h r.authorization) ≡ false
      → (serve_http parse_int redact to_lower h x s r).0 ≡ s
  serve-guarded u = elim serve-Writes [
    | inl same ↦ same
    | inr (posted, allowed, _) ↦ absurd (ground (arith, posted, allowed))
  ]

  -- Whatever the request, a sound table stays sound: ids in order, keys unique, and an attempt
  -- left for every job that is not final.
  pub serve-IsSound : IsSound s → IsSound (serve_http parse_int redact to_lower h x s r).0
  serve-IsSound v = elim serve-Writes [
    | inl same ↦ rw same v
    | inr (_, _, written) ↦ rw written (submit_body-IsSound to_lower h s r.body x.now v)
  ]

authorized-unkeyed :
    (service : SendService) (key : String) (poll timeout : ℕ) (header : String)
    → is_blank_text key ≡ true
    → authorized (new_http_handler service key poll timeout) header ≡ false
unfolding new_http_handler authorized is_blank_text
authorized-unkeyed service key poll timeout header blank = ground arith

unauthorized : (b c : Bool) → c ≡ false → (b && c) ≡ false
unauthorized b c e = ground arith

-- Where no key is configured, or only a blank one, no request changes the table.
pub serve-unkeyed :
    (parse_int : String → Option ℤ) (redact to_lower : String → String) (service : SendService)
    (key : String) (poll timeout : ℕ) (x : Surroundings) (s : Store) (r : Request)
    → is_blank_text key ≡ true
    → (serve_http parse_int redact to_lower (new_http_handler service key poll timeout) x s r).0 ≡ s
serve-unkeyed parse_int redact to_lower service key poll timeout x s r blank =
    serve-guarded parse_int redact to_lower (new_http_handler service key poll timeout) x s r (
      unauthorized (is_post r.method) _
        (authorized-unkeyed service key poll timeout r.authorization blank))
