-- ===== src/ScrapeResults/Gate.antt =====
-- What `check_upload` lets through, and how it sorts the rest.
use pc_builder.Shared.{
  ℕ, ◌≤◌, ◌<◌, ◌≡◌, refl, ◌↔◌, inl, inr, Bool, true, false, not, Option, none, some, arith, ltb,
  if◌then◌else◌, nat_eq, option_eq, Bool-cases, Option-cases, Str, str_eq, lower, has_substring,
}
use pc_builder.Db.{Store}
use pc_builder.Planner.{Expects}
use pc_builder.ScrapeResults.{
  Upload, passed, GateOutcome, check_upload, check_status, check_page, check_answer, is_given,
  byte_length, final_host, max_body_bytes, text_or_empty, on_store, is_challenge_body,
  looks_like_login, wanted, gate_of,
}

-- An upload that may be parsed.
pub record IsParsable (store : Store) (up : Upload) (expects : Expects) : Type 0 where
  pub no_error : is_given up.error ≡ false
  pub small : byte_length (text_or_empty up.body) ≤ max_body_bytes
  pub success : (status : ℕ) × (up.http_status ≡ some status) × (200 ≤ status) × (status < 300)
  pub host : (h : Str) × (final_host up ≡ some h) × (on_store store h ≡ true)
  pub no_challenge : is_challenge_body (text_or_empty up.body) ≡ false
  pub no_login : looks_like_login (text_or_empty up.final_url) ≡ false
  pub typed : has_substring (lower (text_or_empty up.content_type)) (wanted expects) ≡ true

not_taken {ℓ} :
    {A : Type ℓ} (t : Bool) (x : A) (o : Option A)
    → (if t then some x else o) ≡ none
    → (t ≡ false) × (o ≡ none)
not_taken true x o e = absurd (ground (arith, e))
not_taken false x o e = (refl, e)

module _ (store : Store) (up : Upload) (expects : Expects) where
  check_answer-none :
      (status : ℕ)
      → check_answer up expects status ≡ none
      → (200 ≤ status)
        × (status < 300)
        × (has_substring (lower (text_or_empty up.content_type)) (wanted expects) ≡ true)
  unfolding check_answer
  check_answer-none status h = ground (arith, h)

  check_page-none :
      (status : ℕ) (h : Str)
      → check_page store up expects status h ≡ none
      → (on_store store h ≡ true)
        × (is_challenge_body (text_or_empty up.body) ≡ false)
        × (looks_like_login (text_or_empty up.final_url) ≡ false)
        × (check_answer up expects status ≡ none)
  unfolding check_page
  check_page-none status h e =
      let host = not_taken (not (on_store store h)) _ _ e in
      let challenge = not_taken (is_challenge_body (text_or_empty up.body)) _ _ host.1 in
      let login = not_taken (looks_like_login (text_or_empty up.final_url)) _ _ challenge.1 in
      (ground (arith, host.0), challenge.0, login.0, login.1)

  gate_of-passed : (o : Option GateOutcome) → gate_of o ≡ passed → o ≡ none
  gate_of-passed none e = refl
  gate_of-passed (some o) e = absurd (ground (arith, e))

  check_status-IsParsable :
      (status : ℕ)
      → up.http_status ≡ some status
      → is_given up.error ≡ false
      → check_status store up expects status ≡ passed
      → IsParsable store up expects
  unfolding check_status
  check_status-IsParsable status s err e =
      elim (Bool-cases (ltb max_body_bytes (byte_length (text_or_empty up.body)))) [
        | inl t ↦ absurd (ground (arith, rw t at e))
        | inr t ↦ elim (Option-cases (final_host up)) [
          | inl n ↦ absurd (ground (arith, rw (t, n) at e))
          | inr (h, there) ↦
              let page =
                check_page-none status h
                  (gate_of-passed (check_page store up expects status h) (rw (t, there) at e)) in
              let answer = check_answer-none status page.3 in
              record {
                no_error = err;
                small = ground (arith, t);
                success = (status, s, answer.0, answer.1);
                host = (h, there, page.0);
                no_challenge = page.1;
                no_login = page.2;
                typed = answer.2;
              }
        ]
      ]

  passed-IsParsable : check_upload store up expects ≡ passed → IsParsable store up expects
  unfolding check_upload
  passed-IsParsable e = elim (Option-cases up.http_status) [
    | inl n ↦ absurd (ground (arith, rw n at e))
    | inr (status, s) ↦ elim (Bool-cases (is_given up.error)) [
      | inl g ↦ absurd (ground (arith, rw (s, g) at e))
      | inr g ↦ check_status-IsParsable status s g (rw (s, g) at e)
    ]
  ]

  answer_none :
      (status : ℕ)
      → 200 ≤ status
      → status < 300
      → has_substring (lower (text_or_empty up.content_type)) (wanted expects) ≡ true
      → check_answer up expects status ≡ none
  unfolding check_answer
  answer_none status lo hi typed = rw typed (ground arith)

  page_none :
      (status : ℕ) (h : Str)
      → on_store store h ≡ true
      → is_challenge_body (text_or_empty up.body) ≡ false
      → looks_like_login (text_or_empty up.final_url) ≡ false
      → check_answer up expects status ≡ none
      → check_page store up expects status h ≡ none
  unfolding check_page
  page_none status h on challenge login answer = rw (on, challenge, login) answer

  IsParsable-passed : IsParsable store up expects → check_upload store up expects ≡ passed
  unfolding check_upload check_status
  IsParsable-passed p =
      let (status, s, lo, hi) = p.success in
      let (h, there, on) = p.host in
      let small : ltb max_body_bytes (byte_length (text_or_empty up.body)) ≡ false =
        ground (arith, p.small) in
      let page =
        page_none status h on p.no_challenge p.no_login (answer_none status lo hi p.typed) in
      rw (s, p.no_error, small, there, page) refl

  -- An upload passes exactly when it was fetched without an error and with a status from 200 to 299,
  -- has at most 5 MB, comes from the store's domain, is neither a challenge nor a login page, and has
  -- the content type that the page should have.
  pub check_upload-IsParsable :
      (check_upload store up expects ≡ passed) ↔ IsParsable store up expects
  check_upload-IsParsable = (passed-IsParsable, IsParsable-passed)
