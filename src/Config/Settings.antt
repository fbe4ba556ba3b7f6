-- ===== src/Config/Settings.antt =====
-- crates/server/src/config.rs: the state directory and the login by OIDC. The environment, the
-- credential of systemd and the reading of the secret are parameters. A path is its text.
use loku.Base.{
  Bool, not, ◌||◌, ◌==◌, Option, none, some, List, [], ◌∷◌, if◌then◌else◌, keep, map, and_then,
  map_option, or, is_some, is_none,
}
use loku.Base.Text.{Text, codes, is_empty, join, split, trim}

-- What of the environment is read.
pub record Environment : Type 0 where
  pub state_directory : Option Text
  pub xdg_state_home : Option Text
  pub home : Option Text
  -- The secret that systemd has loaded, if it has.
  pub credential_secret_path : Option Text
  -- The text of a file, or none where it cannot be read.
  pub read_to_string : Text → Option Text

-- The messages of `ConfigError::Validation`, by what they say, and that of a file.
pub data SettingsError : Type 0 where
  no_state_dir : SettingsError
  secret_required : SettingsError
  file_read : Text → SettingsError
  partial_oidc : Text → Text → SettingsError

pub data Setting {ℓ} (A : Type ℓ) : Type ℓ where
  set : A → Setting A
  refused : SettingsError → Setting A

-- `PathBuf::from(v).join(name)`, for a path that is not empty.
unfoldable pub path_join : Text → Text → Text
path_join [] name = name
path_join (c ∷ []) name = if c == b'/' then c ∷ name else c ∷ b'/' ∷ name
path_join (c ∷ d ∷ path) name = c ∷ path_join (d ∷ path) name

abbrev pub non_empty : Text → Option Text
non_empty v = if is_empty v then none else some v

-- `v.split(':').next()`
abbrev pub first_of : List Text → Option Text
first_of [] = none
first_of (p ∷ ps) = some p

unfoldable pub state_dir_from_env : Environment → Option Text
state_dir_from_env env =
    or (and_then (and_then env.state_directory λ v. first_of (split (λ c. c == b':') v)) non_empty)
      (or (map_option (λ v. path_join v (codes "loku")) (and_then env.xdg_state_home non_empty))
        (map_option (λ v. path_join v (codes ".local/state/loku")) (and_then env.home non_empty)))

-- The command line first, then the file, then the environment.
unfoldable pub resolve_state_dir : Environment → Option Text → Option Text → Setting Text
resolve_state_dir env cli file = elim (or cli (or file (state_dir_from_env env))) [
  | none ↦ refused no_state_dir
  | some dir ↦ set dir
]

-- The fields of the command line, or of the file.
pub record OidcFields : Type 0 where
  pub issuer : Option Text
  pub client_id : Option Text
  pub secret_file : Option Text

pub record OidcConfig : Type 0 where
  pub issuer : Text
  pub client_id : Text
  pub client_secret : Text

-- The command line's field, or else the file's.
abbrev pub merged_fields : OidcFields → OidcFields → OidcFields
merged_fields cli file = record {
  issuer = or cli.issuer file.issuer;
  client_id = or cli.client_id file.client_id;
  secret_file = or cli.secret_file file.secret_file;
}

pub record Field : Type 0 where
  pub name : Text
  pub is_set : Bool

unfoldable pub field_names : List Field → Text
field_names fields = join (codes ", ") (map (λ (f : Field). f.name) fields)

abbrev pub oidc_fields : Environment → OidcFields → List Field
oidc_fields env f =
    record { name = codes "oidc_issuer"; is_set = is_some f.issuer }
    ∷ record { name = codes "oidc_client_id"; is_set = is_some f.client_id }
    ∷ record {
      name = codes "oidc_client_secret_file";
      is_set = is_some f.secret_file || is_some env.credential_secret_path;
    }
    ∷ []

unfoldable pub partial_fields : Environment → OidcFields → SettingsError
partial_fields env f =
    partial_oidc (field_names (keep (λ (x : Field). x.is_set) (oidc_fields env f)))
      (field_names (keep (λ (x : Field). not x.is_set) (oidc_fields env f)))

-- The secret in its file, without the white space around it.
abbrev pub with_secret : Environment → Text → Text → Option Text → Setting (Option OidcConfig)
with_secret env issuer client_id none = refused secret_required
with_secret env issuer client_id (some path) = elim (env.read_to_string path) [
  | none ↦ refused (file_read path)
  | some text ↦
      set (some (record { issuer = issuer; client_id = client_id; client_secret = trim text }))
]

abbrev pub oidc_of :
    Environment → OidcFields → Option Text → Option Text → Setting (Option OidcConfig)
oidc_of env f none none = if is_none f.secret_file then set none else refused (partial_fields env f)
oidc_of env f (some issuer) (some client_id) =
    with_secret env issuer client_id (or f.secret_file env.credential_secret_path)
oidc_of env f none (some client_id) = refused (partial_fields env f)
oidc_of env f (some issuer) none = refused (partial_fields env f)

unfoldable pub resolve_oidc : Environment → OidcFields → OidcFields → Setting (Option OidcConfig)
resolve_oidc env cli file = let f = merged_fields cli file in oidc_of env f f.issuer f.client_id
