-- ===== src/Server/Handler/Gate.antt =====
-- What requests can do before the session has authenticated.
use rstmdb.Base.{
  ◌≡◌, refl, ◌∙◌, arith, Bool, true, false, ◌&&◌, none, some, List, [], ◌∷◌, ◌==◌, string_key, All,
}
use rstmdb.Base.Result.{Result, err}
use rstmdb.Server.Session.{Session, record_request, set_state, complete_handshake}
use rstmdb.Server.Handler.{
  Outside, CommandHandler, Operation, ServerError, unauthorized, token_accepted, handle, handle_all,
  dispatch, requires_auth, is_open, handle_hello, handle_auth, handle_bye,
}

module _ {P V B : Type 0} (outside : Outside P V B) where
  open outside use {auth_params}

  -- An AUTH request with a bearer token that is accepted.
  unfoldable pub opens : CommandHandler → Operation × P → Bool
  opens h (Operation.auth, params) = elim (auth_params params) [
    | none ↦ false
    | some p ↦ p.method == "bearer" && token_accepted outside h p.token
  ]
  opens h _ = false

  -- An operation that is not open is refused.
  abbrev pub Refused : Bool → Result ServerError V → Type 0
  Refused true r = Unit
  Refused false r = r ≡ err unauthorized

  abbrev pub Refusals : List (Operation × P) → List (Result ServerError V) → Type 0
  Refusals [] [] = Unit
  Refusals (q ∷ qs) (r ∷ rs) = Refused (is_open q.0) r × Refusals qs rs
  Refusals _ _ = ⊥

  shut_auth :
      (h : CommandHandler) (params : P) (s : Session)
      → opens h (Operation.auth, params) ≡ false
      → s.authenticated ≡ false
      → (handle_auth outside h s params).1.authenticated ≡ false
  unfolding handle_auth opens
  shut_auth h params s o n = ground (arith, o, n)

  shut_hello :
      (h : CommandHandler) (params : P) (s : Session)
      → (handle_hello outside h s params).1.authenticated ≡ s.authenticated
  unfolding handle_hello complete_handshake
  shut_hello h params s = ground arith

  -- One request: the session stays shut, and nothing else changes.
  record Shut (b : B) (op : Operation) (a : Result ServerError V × Session × B) : Type 0 where
    session : a.1.authenticated ≡ false
    rest : a.2 ≡ b
    refused : Refused (is_open op) a.0

  shut :
      (h : CommandHandler) (op : Operation) (params : P) (s : Session) (b : B)
      → h.auth_required ≡ true
      → s.authenticated ≡ false
      → opens h (op, params) ≡ false
      → Shut b op (handle outside h op params s b)
  unfolding handle dispatch requires_auth is_open record_request handle_bye set_state
  shut h Operation.hello params s b r n o =
      rw (r, handle)
        (record { session = shut_hello h params (record_request s) ∙ n; rest = refl; refused = tt })
  shut h Operation.auth params s b r n o =
      rw (r, handle)
        (record { session = shut_auth h params (record_request s) o n; rest = refl; refused = tt })
  shut h Operation.ping params s b r n o =
      rw (r, handle) (record { session = n; rest = refl; refused = tt })
  shut h Operation.bye params s b r n o =
      rw (r, handle) (record { session = n; rest = refl; refused = tt })
  shut h op params s b r n o =
      rw (r, n, handle) (record { session = refl; rest = refl; refused = refl })

  -- What requests without an accepted token leave.
  pub record Closed (requests : List (Operation × P)) (b : B)
      (a : List (Result ServerError V) × Session × B) : Type 0 where
    pub session : a.1.authenticated ≡ false
    pub rest : a.2 ≡ b
    pub answers : Refusals requests a.0

  -- Where the handler requires authentication, on a session that is not authenticated, requests
  -- among which there is no AUTH with a bearer token that is accepted leave the session
  -- unauthenticated and everything outside the session as it was, and all of them but HELLO, AUTH,
  -- PING and BYE are answered as unauthorized.
  pub handle_all-Closed :
      (h : CommandHandler) (requests : List (Operation × P)) (s : Session) (b : B)
      → h.auth_required ≡ true
      → s.authenticated ≡ false
      → All (λ q. opens h q ≡ false) requests
      → Closed requests b (handle_all outside h requests s b)
  unfolding handle_all
  handle_all-Closed h [] s b r n o = record { session = n; rest = refl; answers = tt }
  handle_all-Closed h ((op, params) ∷ requests) s b r n o =
      let first = shut h op params s b r n o.0 in
      let (answer, s', b') = handle outside h op params s b in
      let later = handle_all-Closed h requests s' b' r first.session o.1 in
      record {
        session = later.session;
        rest = later.rest ∙ first.rest;
        answers = (first.refused, later.answers);
      }
