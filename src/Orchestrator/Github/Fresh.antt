-- ===== src/Orchestrator/Github/Fresh.antt =====
-- The renewal of the token: the requests on the repository go with a token that has time left.
use talki_llm_admission_sche.Base.{
  ℕ, ◌==◌, ◌||◌, ◌≡◌, refl, sym, ap, ◌∙◌, ◌⊎◌, inl, inr, Bool, true, false, Bool-cases, Option,
  none, some, List, [], ◌∷◌, length, if◌then◌else◌,
}
use talki_llm_admission_sche.Base.Int.{ℤ, ◌-ℤ◌, ltb_ℤ}
use talki_llm_admission_sche.Orchestrator.Text.{Text, is_empty}
use talki_llm_admission_sche.Orchestrator.Json.{Json}
use talki_llm_admission_sche.Orchestrator.Github.{
  Env, Request, Sent, access_token, with_token, HttpAnswer, KeyFile, missing, unreadable, pem,
  Client, other_error, Outcome, ok, pure, raise, or_raise, send, and_then, item, token_value,
  text_value, with_offset, renew_margin, require_app, read_pem, app_jwt, store_token, by_created,
  refresh, cached, assert_token, renewed, if_fresh, token, ask, ◌>>=◌,
}
use talki_llm_admission_sche.Orchestrator.Github.Rules.{
  Ends, Hoare, Keeps, Anything, pure-Hoare, raise-Hoare, bind-Hoare, or_raise-Keeps,
}

-- An answer with a token and the date of its expiry.
pub record Grant (env : Env) (r : HttpAnswer) (t : Text) (e : ℤ) : Type 0 where
  pub value : Json
  pub date : Text
  pub value_eq : r.value ≡ some value
  pub token_eq : and_then (item "token" value) token_value ≡ some (some t)
  pub date_eq : and_then (item "expires_at" value) text_value ≡ some date
  pub expires_eq : env.from_iso (with_offset date) ≡ some e

-- What GitHub documents of the request for a token: an answer 201 has both.
abbrev pub Documented : Env → Type 0
Documented env =
    (n : ℕ) (jwt : Text) (r : HttpAnswer)
    → env.http n (access_token jwt) ≡ some r
    → (r.status == 201) ≡ true
    → (t : Text) × (e : ℤ) × Grant env r t e

some_eq : {A : Type 0} {a b : A} → some a ≡ some b → b ≡ a
some_eq {a = a} h = sym (ap (λ o. elim o [ none ↦ a | some x ↦ x ]) h)

module _ (env : Env) where
  -- The request sent after n others was answered 201 with the token.
  abbrev pub Grants : ℕ → Text → Text → ℤ → Type 0
  Grants n jwt t e =
      (r : HttpAnswer) × (env.http n (access_token jwt) ≡ some r)
      × ((r.status == 201) ≡ true)
      × Grant env r t e

  -- One of the requests was answered with the token.
  abbrev pub Issued : List Sent → Text → ℤ → Type 0
  Issued [] t e = ⊥
  Issued (access_token jwt ∷ sent) t e = Grants (length sent) jwt t e ⊎ Issued sent t e
  Issued (with_token u q ∷ sent) t e = Issued sent t e

  -- The latest request was.
  abbrev pub JustIssued : List Sent → Text → ℤ → Type 0
  JustIssued [] t e = ⊥
  JustIssued (access_token jwt ∷ sent) t e = Grants (length sent) jwt t e
  JustIssued (with_token u q ∷ sent) t e = ⊥

  abbrev pub Usable : List Sent → Text → Type 0
  Usable sent t =
      (e : ℤ) × Issued sent t e
      × (JustIssued sent t e ⊎ (ltb_ℤ renew_margin (e -ℤ env.now (length sent)) ≡ true))

  -- Each request on the repository went with a token that GitHub had issued, either by the answer just before or
  -- with more than ten minutes left.
  abbrev pub Authorized : List Sent → Type 0
  Authorized [] = Unit
  Authorized (access_token jwt ∷ sent) = Authorized sent
  Authorized (with_token t q ∷ sent) = Usable sent t × Authorized sent

  pub record Kept (c : Client) : Type 0 where
    pub authorized : Authorized c.sent
    pub issued : (t : Text) (e : ℤ) → c.token ≡ some t → c.expires ≡ some e → Issued c.sent t e

  abbrev Answered : HttpAnswer → Client → Type 0
  Answered r c =
      (jwt : Text) × (sent : List Sent) × (c.sent ≡ access_token jwt ∷ sent)
      × (env.http (length sent) (access_token jwt) ≡ some r)

  logged-Kept :
      (jwt : Text) (c : Client) → Kept c → Kept (record c { sent = access_token jwt ∷ c.sent })
  logged-Kept jwt c k = record {
    authorized = k.authorized;
    issued = λ t e ht he. inr (k.issued t e ht he);
  }

  answered :
      (jwt : Text) (c : Client) (o : Option HttpAnswer)
      → Kept c
      → env.http (length c.sent) (access_token jwt) ≡ o
      → let rest : Outcome HttpAnswer × Client =
          or_raise o (record c { sent = access_token jwt ∷ c.sent }) in
        Kept rest.1 × Ends Answered rest.0 rest.1
  answered jwt c none k h = (logged-Kept jwt c k, tt)
  answered jwt c (some r) k h = (logged-Kept jwt c k, (jwt, c.sent, refl, h))

  send-Hoare : (jwt : Text) → Hoare Kept Anything (send env (access_token jwt)) Answered
  send-Hoare jwt = record {
    run = λ c k p. answered jwt c (env.http (length c.sent) (access_token jwt)) k refl;
  }

  stored :
      (r : HttpAnswer) (t : Text) (e : ℤ) (c : Client)
      → Grant env r t e
      → (or_raise r.value >>= store_token env) c
        ≡ (ok tt, record { token = some t; expires = some e; sent = c.sent })
  stored r t e c g = rw (g.value_eq, g.token_eq, g.date_eq, g.expires_eq) refl

  -- The token that is in use was just issued.
  abbrev Renewed : Client → Type 0
  Renewed c = (t : Text) × (e : ℤ) × (c.token ≡ some t) × JustIssued c.sent t e

  JustIssued-Issued : (sent : List Sent) (t : Text) (e : ℤ) → JustIssued sent t e → Issued sent t e
  JustIssued-Issued [] t e h = h
  JustIssued-Issued (access_token jwt ∷ sent) t e h = inl h
  JustIssued-Issued (with_token u q ∷ sent) t e h = absurd h

  module _ (documented : Documented env) where
    stored-Kept :
        (r : HttpAnswer) (c : Client)
        → Kept c
        → Answered r c
        → (r.status == 201) ≡ true
        → let rest : Outcome (Unit {0}) × Client = (or_raise r.value >>= store_token env) c in
          Kept rest.1 × Ends (λ _. Renewed) rest.0 rest.1
    stored-Kept r c k (jwt, sent, same, h) s =
        let (t, e, g) = documented (length sent) jwt r h s in
        let just : JustIssued c.sent t e = rw same (r, h, s, g) in
        rw (stored r t e c g) (
          record {
            authorized = k.authorized;
            issued = λ u f hu hf. rw (some_eq hu, some_eq hf) (JustIssued-Issued c.sent t e just);
          },
          (t, e, refl, just),
        )

    by_created-Hoare : (r : HttpAnswer) → Hoare Kept (Answered r) (by_created env r) (λ _. Renewed)
    by_created-Hoare r = elim (Bool-cases (r.status == 201)) [
      | inl h ↦ rw h (record { run = λ c k a. stored-Kept r c k a h })
      | inr h ↦ rw h (raise-Hoare _)
    ]

    read_pem-Keeps : (k : KeyFile) → Keeps Kept (read_pem k)
    read_pem-Keeps missing = raise-Hoare _
    read_pem-Keeps unreadable = raise-Hoare other_error
    read_pem-Keeps (pem t) = pure-Hoare t (λ c p. tt)

    require_app-Keeps : Keeps Kept (require_app env)
    require_app-Keeps = elim (Bool-cases (is_empty env.app_id || is_empty env.installation_id)) [
      | inl h ↦ rw h (raise-Hoare _)
      | inr h ↦ rw h (pure-Hoare tt (λ c p. tt))
    ]

    app_jwt-Keeps : (t : Text) → Keeps Kept (app_jwt env t)
    app_jwt-Keeps t = record { run = λ c k p. (or_raise-Keeps {inv = Kept} _).run c k p }

    refresh-Hoare : Hoare Kept Anything (refresh env) (λ _. Renewed)
    unfolding refresh
    refresh-Hoare = bind-Hoare require_app-Keeps λ _.
        bind-Hoare (read_pem-Keeps env.key)
          λ t. bind-Hoare (app_jwt-Keeps t) λ jwt. bind-Hoare (send-Hoare jwt) by_created-Hoare

    abbrev Ready : Text → Client → Type 0
    Ready t c = Usable c.sent t

    asserted :
        (c : Client) (t : Text) (b : Bool)
        → Kept c
        → Usable c.sent t
        → let rest : Outcome Text × Client = (if b then raise other_error else pure t) c in
          Kept rest.1 × Ends Ready rest.0 rest.1
    asserted c t true k u = (k, tt)
    asserted c t false k u = (k, u)

    asserted_option :
        (c : Client) (o : Option Text)
        → Kept c
        → ((t : Text) → o ≡ some t → Usable c.sent t)
        → let rest : Outcome Text × Client = assert_token o c in
          Kept rest.1 × Ends Ready rest.0 rest.1
    asserted_option c none k h = (k, tt)
    asserted_option c (some t) k h = asserted c t (is_empty t) k (h t refl)

    usable : (c : Client) → Renewed c → (t : Text) → c.token ≡ some t → Usable c.sent t
    usable c (u, e, h, just) t h' =
        rw (some_eq (sym h ∙ h')) (e, JustIssued-Issued c.sent u e just, inl just)

    assert-Hoare : Hoare Kept Renewed (λ c. assert_token c.token c) Ready
    assert-Hoare = record { run = λ c k p. asserted_option c c.token k (usable c p) }

    renewed-Hoare : Hoare Kept Anything (renewed env) Ready
    renewed-Hoare = bind-Hoare refresh-Hoare (λ _. assert-Hoare)

    -- A cached token with enough time left, or a renewed one.
    fresh-Ready :
        (c : Client) (t : Text) (e : ℤ)
        → Kept c
        → Issued c.sent t e
        → let rest : Outcome Text × Client = if_fresh env (some (t, e)) c in
          Kept rest.1 × Ends Ready rest.0 rest.1
    fresh-Ready c t e k i = elim (Bool-cases (ltb_ℤ renew_margin (e -ℤ env.now (length c.sent)))) [
      | inl h ↦ rw h (k, (e, i, inr h))
      | inr h ↦ rw h (renewed-Hoare.run c k tt)
    ]

    abbrev Fresh : Client → Outcome Text × Client → Type 0
    Fresh c rest = Kept rest.1 × Ends Ready rest.0 rest.1

    token_at :
        (c : Client) (o : Option Text) (x : Option ℤ)
        → Kept c
        → ((t : Text) (e : ℤ) → o ≡ some t → x ≡ some e → Issued c.sent t e)
        → Fresh c (if_fresh env (cached o x) c)
    token_at c none x k i = renewed-Hoare.run c k tt
    token_at c (some t) none k i = renewed-Hoare.run c k tt
    token_at c (some t) (some e) k i = elim (Bool-cases (is_empty t)) [
      | inl h ↦ rw h (renewed-Hoare.run c k tt)
      | inr h ↦ rw h (fresh-Ready c t e k (i t e refl refl))
    ]

    pub token-Hoare : Hoare Kept Anything (token env) Ready
    unfolding token
    token-Hoare = record { run = λ c k p. token_at c c.token c.expires k k.issued }

    sent_with :
        (t : Text) (q : Request) (c : Client) (o : Option HttpAnswer)
        → Kept c
        → Usable c.sent t
        → let rest : Outcome HttpAnswer × Client =
            or_raise o (record c { sent = with_token t q ∷ c.sent }) in
          Kept rest.1 × Ends (λ _. Anything) rest.0 rest.1
    sent_with t q c none k u = (record { authorized = (u, k.authorized); issued = k.issued }, tt)
    sent_with t q c (some r) k u =
        (record { authorized = (u, k.authorized); issued = k.issued }, tt)

    request-Hoare :
        (t : Text) (q : Request) → Hoare Kept (Ready t) (send env (with_token t q)) (λ _. Anything)
    request-Hoare t q = record {
      run = λ c k u. sent_with t q c (env.http (length c.sent) (with_token t q)) k u;
    }

    pub ask-Keeps : (q : Request) → Keeps Kept (ask env q)
    unfolding ask
    ask-Keeps q = bind-Hoare token-Hoare (λ t. request-Hoare t q)
