-- ===== src/Postgres/Config/Trusting.antt =====
-- What a server has shown when a certificate of it was accepted, mode by mode.
use headless_db_mcp.Core.{
  SslMode, disabled, preferred, required, verify_ca, verify_identity, ConnectionConfig,
}
use headless_db_mcp.Postgres.Config.{
  require, no_tls, is_disabled, connector_of, resolve_ssl_mode, build_config,
}
use headless_db_mcp.Postgres.Tls.{
  TlsLibrary, Verifier, verify_server_cert, base_builder, load_trust_anchors,
  root_store_for_verify_identity, connector_for, chain_verified, identity_verified, build_connector,
}
use headless_db_mcp.Prelude.{
  ℕ, true, nat_eq, text_eq, Option, none, some, List, ◌++◌, ◌≡◌, ◌≢◌, refl, ◌⊎◌, inl, inr, Text,
  lit, ok, map_err, Bool-cases, >>=-eq-ok, ok-injective, err-ne-ok, map_err-eq-ok,
}

module _ {Cert Anchor EndEntity : Type 0} (tls : TlsLibrary Cert Anchor EndEntity)
    (config : ConnectionConfig) where
  -- The certificate and the name are good for the roots of `verify_identity`.
  abbrev pub IsIdentified : Cert → List Cert → Text → ℕ → Type 0
  IsIdentified cert intermediates server_name now =
      (roots : List Anchor) × (root_store_for_verify_identity tls config ≡ ok roots)
      × (tls.web_pki roots cert intermediates server_name now ≡ ok tt)

  -- The certificate's chain ends at an anchor of the file at `ssl.ca_path`.
  abbrev pub IsChained : Cert → List Cert → ℕ → Type 0
  IsChained cert intermediates now =
      (path : Text) × (roots : List Anchor) × (entity : EndEntity) × (config.ssl.ca_path
        ≡ some path)
      × (load_trust_anchors tls path ≡ ok roots)
      × (tls.end_entity cert ≡ ok entity)
      × (tls.verify_for_usage entity roots intermediates now ≡ ok tt)

  -- What each mode promises of a server whose certificate was accepted.
  abbrev pub Promises : Option SslMode → Cert → List Cert → Text → ℕ → Type 0
  Promises none cert intermediates server_name now = IsIdentified cert intermediates server_name now
  Promises (some verify_identity) cert intermediates server_name now =
      IsIdentified cert intermediates server_name now
  Promises (some verify_ca) cert intermediates server_name now = IsChained cert intermediates now
  Promises (some required) cert intermediates server_name now = Unit
  Promises (some preferred) cert intermediates server_name now = Unit
  Promises (some disabled) cert intermediates server_name now = ⊥

  module _ (cert : Cert) (intermediates : List Cert) (server_name : Text) (now : ℕ)
      (v : Verifier Anchor)
      (accepted : verify_server_cert tls v cert intermediates server_name now ≡ ok tt) where
    identity-Promises :
        identity_verified tls config ≡ ok v → IsIdentified cert intermediates server_name now
    unfolding verify_server_cert
    identity-Promises h =
        let (roots, found, rest) = >>=-eq-ok (root_store_for_verify_identity tls config) _ h in
        let (u, versions, made) = >>=-eq-ok (base_builder tls) _ rest in
        (roots, found, rw (← ok-injective made) at accepted)

    chain-Promises :
        (ca_path : Option Text)
        → config.ssl.ca_path ≡ ca_path
        → chain_verified tls ca_path ≡ ok v
        → IsChained cert intermediates now
    unfolding verify_server_cert
    chain-Promises none p h = absurd (err-ne-ok h)
    chain-Promises (some path) p h =
        let (roots, found, rest) = >>=-eq-ok (load_trust_anchors tls path) _ h in
        let (u, versions, made) = >>=-eq-ok (base_builder tls) _ rest in
        let checks = rw (← ok-injective made) at accepted in
        let (entity, read, last) =
          >>=-eq-ok (map_err (λ e. lit "invalid server certificate: " ++ e) (tls.end_entity cert)) _
            checks in
        (path, roots, entity, p, found, map_err-eq-ok _ _ read, map_err-eq-ok _ _ last)

    connector_for-Promises :
        (mode : Option SslMode)
        → connector_for tls mode config ≡ ok v
        → Promises mode cert intermediates server_name now
    connector_for-Promises none h = identity-Promises h
    connector_for-Promises (some verify_identity) h = identity-Promises h
    connector_for-Promises (some verify_ca) h = chain-Promises config.ssl.ca_path refl h
    connector_for-Promises (some required) h = tt
    connector_for-Promises (some preferred) h = tt
    connector_for-Promises (some disabled) h = err-ne-ok h

    -- A server whose certificate the connector of a configuration accepts has shown what the mode
    -- promises: for `verify_identity`, and where no mode is set, a chain to the configured roots and
    -- the name; for `verify_ca` a chain to an anchor of the file at `ssl.ca_path`. For the other
    -- modes nothing is claimed, and there is no connector if TLS is disabled.
    pub build_connector-Promises :
        build_connector tls config ≡ ok v
        → Promises config.ssl.mode cert intermediates server_name now
    unfolding build_connector
    build_connector-Promises h = connector_for-Promises config.ssl.mode h

-- The modes that allow a connection without TLS.
abbrev pub AllowsPlain : Option SslMode → Type 0
AllowsPlain mode = (mode ≡ some disabled) ⊎ (mode ≡ some preferred)

resolve_ssl_mode-AllowsPlain :
    (mode : Option SslMode) → resolve_ssl_mode mode ≢ require → AllowsPlain mode
unfolding resolve_ssl_mode
resolve_ssl_mode-AllowsPlain none h = absurd (h refl)
resolve_ssl_mode-AllowsPlain (some disabled) h = inl refl
resolve_ssl_mode-AllowsPlain (some preferred) h = inr refl
resolve_ssl_mode-AllowsPlain (some required) h = absurd (h refl)
resolve_ssl_mode-AllowsPlain (some verify_ca) h = absurd (h refl)
resolve_ssl_mode-AllowsPlain (some verify_identity) h = absurd (h refl)

disabled-AllowsPlain : (mode : Option SslMode) → is_disabled mode ≡ true → AllowsPlain mode
disabled-AllowsPlain none h = absurd cc
disabled-AllowsPlain (some disabled) h = inl refl
disabled-AllowsPlain (some preferred) h = absurd cc
disabled-AllowsPlain (some required) h = absurd cc
disabled-AllowsPlain (some verify_ca) h = absurd cc
disabled-AllowsPlain (some verify_identity) h = absurd cc

-- If a connection may be made without TLS, because the driver takes no connector or because the
-- settings do not require TLS, then the mode that was set is `disabled` or `preferred`; in
-- particular a mode was set.
pub connector_of-AllowsPlain :
    {Cert Anchor EndEntity : Type 0} (tls : TlsLibrary Cert Anchor EndEntity)
    (config : ConnectionConfig)
    → (connector_of tls config ≡ ok no_tls) ⊎ ((build_config config).ssl_mode ≢ require)
    → AllowsPlain config.ssl.mode
unfolding connector_of build_config
connector_of-AllowsPlain tls config (inl h) = elim (Bool-cases (is_disabled config.ssl.mode)) [
  | inl e ↦ disabled-AllowsPlain config.ssl.mode e
  | inr e ↦ let (v, built, made) = >>=-eq-ok (build_connector tls config) _ (rw e at h) in absurd cc
]
connector_of-AllowsPlain tls config (inr h) = resolve_ssl_mode-AllowsPlain config.ssl.mode h
