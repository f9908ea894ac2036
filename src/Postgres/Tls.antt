-- ===== src/Postgres/Tls.antt =====
-- crates/driver-postgres/src/tls.rs: what each mode checks of the server's certificate.
use headless_db_mcp.Core.{
  SslMode, disabled, preferred, required, verify_ca, verify_identity, ConnectionConfig, DriverError,
  DriverResult, driver_error, connection,
}
use headless_db_mcp.Prelude.{
  ℕ, nat_eq, text_eq, Option, none, some, List, [], ◌∷◌, ◌++◌, Text, lit, Result, ok, err, ◌>>=◌,
  ◌>>◌, ok_or, map_err,
}

-- What the code takes from the file system, `rustls`, `rustls-pemfile`, `rustls-native-certs` and
-- `rustls-webpki`. The errors are texts. `add_parsable_certificates` gives the certificates of a list
-- that a store takes as roots.
pub record TlsLibrary (Cert Anchor EndEntity : Type 0) : Type 0 where
  pub read : Text → Result (List ℕ) Text
  pub pem_certs : List ℕ → Result (List Cert) Text
  pub anchor_from_trusted_cert : Cert → Result Anchor Text
  pub add_parsable_certificates : List Cert → List Anchor
  pub native_certs : List Cert
  pub native_errors : Text
  pub safe_default_protocol_versions : Result (Unit {0}) Text
  pub end_entity : Cert → Result EndEntity Text
  pub verify_for_usage : EndEntity → List Anchor → List Cert → ℕ → Result (Unit {0}) Text
  pub web_pki : List Anchor → Cert → List Cert → Text → ℕ → Result (Unit {0}) Text
  pub verify_signature : List ℕ → Cert → List ℕ → Result (Unit {0}) Text

unfoldable pub tls_setup_error : Text → DriverError
tls_setup_error message = driver_error connection message

-- The verifier of a connector.
pub data Verifier (Anchor : Type 0) : Type 0 where
  accept_any_certificate : Verifier Anchor
  chain_only : List Anchor → Verifier Anchor
  web_pki_verifier : List Anchor → Verifier Anchor

module _ {Cert Anchor EndEntity : Type 0} (tls : TlsLibrary Cert Anchor EndEntity) where
  -- The version check of `base_builder`.
  abbrev pub base_builder : DriverResult (Unit {0})
  base_builder =
      map_err (λ e. tls_setup_error (lit "failed to select TLS protocol versions: " ++ e))
        tls.safe_default_protocol_versions

  unfoldable pub verify_server_cert :
      Verifier Anchor → Cert → List Cert → Text → ℕ → Result (Unit {0}) Text
  verify_server_cert accept_any_certificate cert intermediates server_name now = ok tt
  verify_server_cert (chain_only roots) cert intermediates server_name now = do
    entity ← map_err (λ e. lit "invalid server certificate: " ++ e) (tls.end_entity cert)
    map_err (λ e. lit "certificate chain is not trusted: " ++ e)
        (tls.verify_for_usage entity roots intermediates now)
  verify_server_cert (web_pki_verifier roots) cert intermediates server_name now =
      tls.web_pki roots cert intermediates server_name now

  -- Of TLS 1.2 and 1.3.
  unfoldable pub verify_handshake_signature :
      Verifier Anchor → List ℕ → Cert → List ℕ → Result (Unit {0}) Text
  verify_handshake_signature accept_any_certificate message cert dss =
      tls.verify_signature message cert dss
  verify_handshake_signature (chain_only roots) message cert dss =
      tls.verify_signature message cert dss
  verify_handshake_signature (web_pki_verifier roots) message cert dss =
      tls.verify_signature message cert dss

  -- The certificates in the file at `ca_path`.
  abbrev pub certs_at : Text → DriverResult (List Cert)
  certs_at ca_path = do
    pem ←
        map_err
          (λ e. tls_setup_error (lit "failed to read ssl.ca_path " ++ (ca_path ++ (lit ": " ++ e))))
          (tls.read ca_path)
    map_err
        (λ e. tls_setup_error (lit "ssl.ca_path did not contain a valid PEM certificate: " ++ e))
        (tls.pem_certs pem)

  unfoldable pub anchors_of : List Cert → DriverResult (List Anchor)
  anchors_of [] = ok []
  anchors_of (cert ∷ certs) = do
    anchor ←
        map_err (λ e. tls_setup_error (lit "ssl.ca_path is not a valid CA certificate: " ++ e))
          (tls.anchor_from_trusted_cert cert)
    anchors ← anchors_of certs
    ok (anchor ∷ anchors)

  abbrev pub nonempty : {A : Type 0} → List A → Text → DriverResult (List A)
  nonempty [] message = err (tls_setup_error message)
  nonempty (a ∷ rest) message = ok (a ∷ rest)

  unfoldable pub load_trust_anchors : Text → DriverResult (List Anchor)
  load_trust_anchors ca_path = do
    certs ← certs_at ca_path
    some_certs ←
        nonempty certs (lit "ssl.ca_path " ++ (ca_path ++ lit " contained no certificates"))
    anchors_of some_certs

  unfoldable pub load_native_root_store : DriverResult (List Anchor)
  load_native_root_store = do
    certs ← nonempty tls.native_certs (
        lit "no usable certificates found in the platform's native trust store: "
        ++ tls.native_errors)
    nonempty (tls.add_parsable_certificates certs)
        (lit "the platform's native trust store contained no parsable certificates")

  abbrev pub roots_at : Option Text → DriverResult (List Anchor)
  roots_at none = load_native_root_store
  roots_at (some ca_path) = do
    certs ← certs_at ca_path
    nonempty (tls.add_parsable_certificates certs)
        (lit "ssl.ca_path " ++ (ca_path ++ lit " contained no usable certificates"))

  unfoldable pub root_store_for_verify_identity : ConnectionConfig → DriverResult (List Anchor)
  root_store_for_verify_identity config = roots_at config.ssl.ca_path

  abbrev pub unverified : DriverResult (Verifier Anchor)
  unverified = do base_builder; ok accept_any_certificate

  abbrev pub chain_verified : Option Text → DriverResult (Verifier Anchor)
  chain_verified ca_path = do
    path ←
        ok_or ca_path (tls_setup_error (lit "ssl.mode = verify_ca requires ssl.ca_path to be set"))
    roots ← load_trust_anchors path
    base_builder
    ok (chain_only roots)

  abbrev pub identity_verified : ConnectionConfig → DriverResult (Verifier Anchor)
  identity_verified config = do
    roots ← root_store_for_verify_identity config
    base_builder
    ok (web_pki_verifier roots)

  abbrev pub connector_for : Option SslMode → ConnectionConfig → DriverResult (Verifier Anchor)
  connector_for none config = identity_verified config
  connector_for (some disabled) config =
      err (tls_setup_error (lit "build_connector must not be called for ssl.mode = disabled"))
  connector_for (some preferred) config = unverified
  connector_for (some required) config = unverified
  connector_for (some verify_ca) config = chain_verified config.ssl.ca_path
  connector_for (some verify_identity) config = identity_verified config

  unfoldable pub build_connector : ConnectionConfig → DriverResult (Verifier Anchor)
  build_connector config = connector_for config.ssl.mode config
