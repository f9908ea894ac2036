-- ===== src/ClickHouse/Query/ReadOnly.antt =====
-- The requests that a read-only driver sends for queries, and the slot for the query that may be
-- cancelled.
use headless_db_mcp.ClickHouse.Query.{
  outcome_of, header_in, probe_sql, run_buffered, run_tsv, run_tsv_parameterized, run_given,
  fetch_probe_header, bind_given, bind_question_marks, execute_user_query_capped_buffered,
  execute_user_query_capped_streaming, execute_user_query_capped,
}
use headless_db_mcp.ClickHouse.Request.{
  Http, Response, Post, ConnectedClient, ClickHouseDriver, World, send, send_request, guarded,
  dropping, checked, is_active, set_active_query_id, clear_active_query_id, request_params,
  timeout_params, map_reqwest_error,
}
use headless_db_mcp.ClickHouse.Statement.{is_row_returning_statement}
use headless_db_mcp.ClickHouse.Tls.{resolve_username}
use headless_db_mcp.Core.{CellValue, DriverResult}
use headless_db_mcp.Prelude.{
  ℕ, Bool, true, false, ◌&&◌, ◌||◌, ◌==◌, nat_eq, text_eq, text_beq_iff, Option, none, some, List,
  [], ◌∷◌, ◌++◌, ◌≡◌, refl, ap, ◌⊎◌, inl, inr, All, Text, codes, ok, err, Bool-cases, chain,
  state-chain, chain-holds,
}

-- The request asks the server to refuse each write.
abbrev pub has_readonly : List (Text × Text) → Bool
has_readonly [] = false
has_readonly ((name, value) ∷ params) =
    (name == codes "readonly" && value == codes "1") || has_readonly params

abbrev pub IsReadOnly : Post → Type 0
IsReadOnly p = has_readonly p.params ≡ true

-- `posts` is a record of the requests that were sent, the newest first.
pub record IsLogging {Client S : Type 0} (http : Http Client S) (posts : S → List Post)
    : Type 0 where
  pub posted : (c : Client) (p : Post) (s : S) → posts (http.post c p s).1 ≡ p ∷ posts s
  pub unposted : (s : S) → posts (http.new_v4 s).1 ≡ posts s

has_readonly-append :
    (xs ys : List (Text × Text)) → has_readonly ys ≡ true → has_readonly (xs ++ ys) ≡ true
has_readonly-append [] ys h = h
has_readonly-append ((name, value) ∷ xs) ys h = rw (has_readonly-append xs ys h) (or-true _)
  where
    or-true : (b : Bool) → (b || true) ≡ true
    or-true true = refl
    or-true false = refl

request_params-readonly :
    {C : Type 0} (d : ClickHouseDriver C) (query_id : Text) (extra : List (Text × Text))
    → d.config.read_only ≡ true
    → has_readonly (request_params d query_id extra) ≡ true
unfolding request_params
request_params-readonly d query_id extra h = rw h (
    has_readonly-append (timeout_params d.query_timeout_seconds)
      ((codes "readonly", codes "1") ∷ extra) refl)

-- The record has become `later` by read-only requests alone.
abbrev pub HasAsked : List Post → List Post → Type 0
HasAsked before later = (new : List Post) × (later ≡ new ++ before) × All IsReadOnly new

HasAsked-cons :
    (before later : List Post) (p : Post)
    → IsReadOnly p
    → HasAsked before later
    → HasAsked before (p ∷ later)
HasAsked-cons before later p h (new, e, a) = (p ∷ new, ap (◌∷◌ p) e, (h, a))

-- `before` is the record of requests, and `slot` the query that may be cancelled, as they were.
module _ {Client S : Type 0} (http : Http Client S) (posts : S → List Post)
    (logging : IsLogging http posts) (before : List Post) (slot : Option Text) where
  -- A read-only driver that has sent read-only requests alone, and has left the slot empty or as it
  -- was.
  pub record IsTidy (w : World http) : Type 0 where
    pub read_only : w.0.config.read_only ≡ true
    pub inactive : (w.0.active_query_id ≡ none) ⊎ (w.0.active_query_id ≡ slot)
    pub sent : HasAsked before (posts w.1)

  -- The same, but with a request under way.
  record IsRequesting (query_id : Text) (w : World http) : Type 0 where
    asks : w.0.config.read_only ≡ true
    active : w.0.active_query_id ≡ some query_id
    asked : HasAsked before (posts w.1)

  clear-IsTidy :
      (query_id : Text) (d : ClickHouseDriver Client) (s : S)
      → IsRequesting query_id (d, s)
      → IsTidy (clear_active_query_id query_id d, s)
  unfolding clear_active_query_id
  clear-IsTidy query_id d s h =
      let same : is_active query_id d.active_query_id ≡ true =
        rw h.active ((text_beq_iff query_id query_id).1 refl) in
      rw same (record { read_only = h.asks; inactive = inl refl; sent = h.asked })

  dropping-IsTidy :
      {A : Type 0} (query_id : Text) (r : DriverResult A) (w : World http)
      → IsRequesting query_id w
      → IsTidy (dropping http query_id (r, w)).1
  dropping-IsTidy query_id r (d, s) h = clear-IsTidy query_id d s h

  posts-send :
      (connected : ConnectedClient Client) (username : Text) (password : Option Text) (body : Text)
      (params : List (Text × Text)) (s : S)
      → has_readonly params ≡ true
      → HasAsked before (posts s)
      → HasAsked before (posts (send http connected username password body params s).1)
  unfolding send
  posts-send connected username password body params s h a =
      let request : Post = record {
        url = connected.base_url ++ codes "/";
        username = username;
        password = password;
        params = params;
        body = body;
      } in
      rw
        (
          state-chain map_reqwest_error checked' (http.post connected.client request s),
          logging.posted connected.client request s,
        )
        (HasAsked-cons before (posts s) request h a)
    where
      checked' : Response → DriverResult Response
      checked' response = checked http response

  -- A request on a tidy driver, up to the answer.
  abbrev Sent : DriverResult (Response × Text) × World http → Type 0
  Sent (err e, w) = IsTidy w
  Sent (ok (response, query_id), w) = IsRequesting query_id w

  guarded-Sent :
      (query_id : Text) (d : ClickHouseDriver Client) (r : DriverResult Response × S)
      → d.config.read_only ≡ true
      → d.active_query_id ≡ some query_id
      → HasAsked before (posts r.1)
      → Sent (guarded http d query_id r)
  guarded-Sent query_id d (ok response, s) h b a = record { asks = h; active = b; asked = a }
  guarded-Sent query_id d (err e, s) h b a =
      clear-IsTidy query_id d s (record { asks = h; active = b; asked = a })

  send_request-Sent :
      (connected : ConnectedClient Client) (body : Text) (extra : List (Text × Text))
      (w : World http)
      → IsTidy w
      → Sent (send_request http connected body extra w)
  unfolding send_request set_active_query_id
  send_request-Sent connected body extra (d, s) h =
      let (query_id, s') = http.new_v4 s in
      let d' = set_active_query_id query_id d in
      guarded-Sent query_id d' _ h.read_only refl (
        posts-send connected (resolve_username d.config) d.config.password body
          (request_params d' query_id extra) s'
          (request_params-readonly d' query_id extra h.read_only) (rw (logging.unposted s) h.sent))

  answered-IsTidy :
      {A : Type 0} (f : Response → DriverResult A) (r : DriverResult (Response × Text) × World http)
      → Sent r
      → IsTidy (chain r λ sent w. dropping http sent.1 (f sent.0, w)).1
  answered-IsTidy f (err e, w) h = h
  answered-IsTidy f (ok (response, query_id), w) h = dropping-IsTidy query_id (f response) w h

  buffered-IsTidy :
      (connected : ConnectedClient Client) (sql : Text) (params : List (Text × Text))
      (w : World http)
      → IsTidy w
      → IsTidy (run_buffered http connected sql params w).1
  unfolding run_buffered
  buffered-IsTidy connected sql params w h =
      answered-IsTidy (outcome_of http) (send_request http connected sql params w)
        (send_request-Sent connected sql params w h)

  probe-IsTidy :
      (connected : ConnectedClient Client) (sql : Text) (extra : List (Text × Text))
      (w : World http)
      → IsTidy w
      → IsTidy (fetch_probe_header http connected sql extra w).1
  unfolding fetch_probe_header
  probe-IsTidy connected sql extra w h =
      answered-IsTidy (header_in http) (send_request http connected (probe_sql http sql) extra w)
        (send_request-Sent connected (probe_sql http sql) extra w h)

  given-IsTidy :
      (connected : ConnectedClient Client) (sql : Text) (parameters : Option (List CellValue))
      (w : World http)
      → IsTidy w
      → IsTidy (run_given http connected sql parameters w).1
  unfolding run_tsv run_tsv_parameterized
  given-IsTidy connected sql none w h = buffered-IsTidy connected sql _ w h
  given-IsTidy connected sql (some values) w h =
      chain-holds IsTidy (bind_question_marks sql values, w) _ h
        (λ bound w'. buffered-IsTidy connected bound.0 _ w')

  streaming-IsTidy :
      (elapsed : ℕ) (connected : ConnectedClient Client) (sql : Text) (row_cap : Option ℕ)
      (parameters : Option (List CellValue)) (w : World http)
      → IsTidy w
      → IsTidy
          (execute_user_query_capped_streaming http elapsed connected sql row_cap parameters w).1
  unfolding execute_user_query_capped_streaming
  streaming-IsTidy elapsed connected sql row_cap parameters w h =
      chain-holds IsTidy (bind_given sql parameters, w) _ h
        (λ bound w1 h1.
          chain-holds IsTidy (fetch_probe_header http connected bound.0 bound.1 w1) _
            (probe-IsTidy connected bound.0 bound.1 w1 h1)
            (λ header w2 h2.
              answered-IsTidy _ (send_request http connected bound.0 _ w2)
                (send_request-Sent connected bound.0 _ w2 h2)))

  execute_capped-IsTidy :
      (is_alphanumeric : ℕ → Bool) (elapsed : ℕ) (connected : ConnectedClient Client) (sql : Text)
      (row_cap : Option ℕ) (parameters : Option (List CellValue)) (w : World http)
      → IsTidy w
      → IsTidy
          (execute_user_query_capped http is_alphanumeric elapsed connected sql row_cap parameters
            w).1
  unfolding execute_user_query_capped execute_user_query_capped_buffered
  execute_capped-IsTidy is_alphanumeric elapsed connected sql row_cap parameters w h =
      elim (Bool-cases (is_row_returning_statement is_alphanumeric sql)) [
        | inl e ↦ rw e (streaming-IsTidy elapsed connected sql row_cap parameters w h)
        | inr e ↦ rw e (
            chain-holds IsTidy (run_given http connected sql parameters w) _
              (given-IsTidy connected sql parameters w h) (λ outcome w' h'. h'))
      ]

module _ {Client S : Type 0} (http : Http Client S) (posts : S → List Post)
    (logging : IsLogging http posts) where
  -- Given that `posts` is a record of the requests that are posted: a query of a user on a driver whose
  -- settings say read-only, whatever was sent before and whatever the statement, the parameters and
  -- the answers are, adds to the record only requests that carry the setting `readonly=1`. When it is
  -- over, with a result or an error, the settings still say read-only, and the slot for the query
  -- that may be cancelled is empty or holds what it held before.
  pub execute_user_query_capped-IsTidy :
      (is_alphanumeric : ℕ → Bool) (elapsed : ℕ) (connected : ConnectedClient Client) (sql : Text)
      (row_cap : Option ℕ) (parameters : Option (List CellValue)) (w : World http)
      → w.0.config.read_only ≡ true
      → IsTidy http posts logging
          (posts w.1)
          w.0.active_query_id
          (execute_user_query_capped http is_alphanumeric elapsed connected sql row_cap parameters
            w).1
  execute_user_query_capped-IsTidy is_alphanumeric elapsed connected sql row_cap parameters w h =
      execute_capped-IsTidy http posts logging (posts w.1) w.0.active_query_id is_alphanumeric
        elapsed connected sql row_cap parameters w
        (record { read_only = h; inactive = inr refl; sent = ([], refl, tt) })
