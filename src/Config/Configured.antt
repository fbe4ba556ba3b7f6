-- ===== src/Config/Configured.antt =====
-- When the command line and the file give a login by OIDC, and which one.
use loku.Base.{Option, none, some, ◌≡◌, ◌↔◌, ◌⊎◌, or, arith}
use loku.Base.Text.{Text, trim}
use loku.Config.Settings.{Environment, set, OidcFields, OidcConfig, merged_fields, resolve_oidc}
use loku.Config.Login.{IsLogin, IsPlain, resolve_merged}

-- The value of the command line, or the file's where the command line has none.
abbrev pub IsGiven {ℓ} : {A : Type ℓ} → Option A → Option A → A → Type ℓ
IsGiven on_command_line in_file x =
    (on_command_line ≡ some x) ⊎ ((on_command_line ≡ none) × (in_file ≡ some x))

-- The path of the secret: the command line's, the file's, or the credential that systemd loaded.
abbrev pub IsSecretFile : Environment → OidcFields → OidcFields → Text → Type 0
IsSecretFile env cli file path =
    (cli.secret_file ≡ some path)
    ⊎ ((cli.secret_file ≡ none) × IsGiven file.secret_file env.credential_secret_path path)

-- The login that command line and file ask for, and whose secret can be read.
pub record IsConfigured (env : Environment) (cli file : OidcFields) (c : OidcConfig) : Type 0 where
  pub issuer_is : IsGiven cli.issuer file.issuer c.issuer
  pub client_is : IsGiven cli.client_id file.client_id c.client_id
  pub path : Text
  pub path_is : IsSecretFile env cli file path
  pub text : Text
  pub text_is : env.read_to_string path ≡ some text
  pub secret_is : c.client_secret ≡ trim text

-- None of the fields is given, on the command line or in the file.
abbrev pub IsWithoutLogin : OidcFields → OidcFields → Type 0
IsWithoutLogin cli file =
    (cli.issuer ≡ none)
    × (file.issuer ≡ none)
    × (cli.client_id ≡ none)
    × (file.client_id ≡ none)
    × (cli.secret_file ≡ none)
    × (file.secret_file ≡ none)

or_iff : (a b : Option Text) (x : Text) → (or a b ≡ some x) ↔ IsGiven a b x
or_iff none b x = ground arith
or_iff (some a) b x = ground arith

or_none : (a b : Option Text) → (or a b ≡ none) ↔ ((a ≡ none) × (b ≡ none))
or_none none b = ground arith
or_none (some a) b = ground arith

secret_iff :
    (env : Environment) (cli file : OidcFields) (path : Text)
    → (or (or cli.secret_file file.secret_file) env.credential_secret_path ≡ some path)
      ↔ IsSecretFile env cli file path
secret_iff env cli file path = go cli.secret_file
  where
    go :
        (o : Option Text)
        → (or (or o file.secret_file) env.credential_secret_path ≡ some path) ↔ (
            (o ≡ some path)
            ⊎ ((o ≡ none) × IsGiven file.secret_file env.credential_secret_path path))
    go none = ground (arith, or_iff file.secret_file env.credential_secret_path path)
    go (some p) = ground arith

IsLogin-IsConfigured :
    (env : Environment) (cli file : OidcFields) (c : OidcConfig)
    → IsLogin env (merged_fields cli file) c ↔ IsConfigured env cli file c
IsLogin-IsConfigured env cli file c = (
  λ (i, d, (path, at, (text, read, is_trim))). record {
    issuer_is = (or_iff cli.issuer file.issuer c.issuer).0 i;
    client_is = (or_iff cli.client_id file.client_id c.client_id).0 d;
    path = path;
    path_is = (secret_iff env cli file path).0 at;
    text = text;
    text_is = read;
    secret_is = is_trim;
  },
  λ (h : IsConfigured env cli file c). (
    (or_iff cli.issuer file.issuer c.issuer).1 h.issuer_is,
    (or_iff cli.client_id file.client_id c.client_id).1 h.client_is,
    (h.path, (secret_iff env cli file h.path).1 h.path_is, (h.text, h.text_is, h.secret_is)),
  ),
)

IsPlain-IsWithoutLogin :
    (cli file : OidcFields) → IsPlain (merged_fields cli file) ↔ IsWithoutLogin cli file
IsPlain-IsWithoutLogin cli file =
    let issuer = or_none cli.issuer file.issuer in
    let client = or_none cli.client_id file.client_id in
    let secret = or_none cli.secret_file file.secret_file in
    (
      λ (i, d, e). (
        (issuer.0 i).0,
        (issuer.0 i).1,
        (client.0 d).0,
        (client.0 d).1,
        (secret.0 e).0,
        (secret.0 e).1,
      ),
      λ (i, i', d, d', e, e'). (issuer.1 (i, i'), client.1 (d, d'), secret.1 (e, e')),
    )

-- A login is set up exactly if issuer and client are given, on the command line or else in the
-- file, and the secret is read from the file that the command line names, or else the file, or
-- else systemd, and then with these; the server runs without a login exactly if none of the three
-- is given on the command line or in the file.
pub resolve_oidc_iff :
    (env : Environment) (cli file : OidcFields) (c : OidcConfig)
    → ((resolve_oidc env cli file ≡ set (some c)) ↔ IsConfigured env cli file c)
      × ((resolve_oidc env cli file ≡ set none) ↔ IsWithoutLogin cli file)
resolve_oidc_iff env cli file c =
    let (login, plain) = resolve_merged env cli file c in
    let configured = IsLogin-IsConfigured env cli file c in
    let without = IsPlain-IsWithoutLogin cli file in
    (
      (λ h. configured.0 (login.0 h), λ h. login.1 (configured.1 h)),
      (λ h. without.0 (plain.0 h), λ h. plain.1 (without.1 h)),
    )
